-- ===== src/Kube/Container/Life/Stop.antt =====
-- Stop of a container.
use singularity_cri.Base.{◌≡◌, ◌≢◌, ℕ, nat_eq, true, false, List, arith}
use singularity_cri.Base.Text.{Text}
use singularity_cri.Base.Result.{ok}
use singularity_cri.Runtime.Host.{Host}
use singularity_cri.Kube.Types.{Scene}
use singularity_cri.Kube.Container.Kept.{update_state-Kept, terminate-Kept}
use singularity_cri.Kube.Container.Life.{stop, stop_running}

module _ (H : Host) (base : List Text) where
  stop_running-is_stopped :
      (timeout : ℕ) (s : Scene H)
      → (stop_running H base timeout s).0 ≡ ok tt
      → (stop_running H base timeout s).1.cont.is_stopped ≡ true
  unfolding stop_running
  stop_running-is_stopped timeout s h = ground arith

  -- After a Stop that succeeds, stopping the container again with any timeout succeeds and changes
  -- nothing, not even on the host.
  pub stop-stop :
      (timeout again : ℕ) (s : Scene H)
      → (stop H base timeout s).0 ≡ ok tt
      → stop H base again (stop H base timeout s).1 ≡ (ok tt, (stop H base timeout s).1)
  unfolding stop
  stop-stop timeout again s h = ground (arith, stop_running-is_stopped timeout s)

  -- A Stop that does not succeed on a container not stopped yet does not mark it as stopped.
  pub stop-fails :
      (timeout : ℕ) (s : Scene H)
      → s.cont.is_stopped ≡ false
      → (stop H base timeout s).0 ≢ ok tt
      → (stop H base timeout s).1.cont.is_stopped ≡ false
  unfolding stop stop_running
  stop-fails timeout s off h = grind (arith, update_state-Kept, terminate-Kept)
