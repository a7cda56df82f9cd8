-- ===== src/Kube/Pod/Life/Idempotent.antt =====
-- Stop and Remove of a pod are idempotent.
use singularity_cri.Base.{◌≡◌, nat_eq, true, List, arith}
use singularity_cri.Base.Text.{Text, text_eq}
use singularity_cri.Base.Result.{ok}
use singularity_cri.Runtime.Host.{Host}
use singularity_cri.Kube.Pod.{Yard}
use singularity_cri.Kube.Pod.Life.{stop, stop_running, remove, remove_present, remove_process}

module _ (H : Host) (base : List Text) where
  stop_running-is_stopped :
      (s : Yard H)
      → (stop_running H base s).0 ≡ ok tt
      → (stop_running H base s).1.pod.is_stopped ≡ true
  unfolding stop_running
  stop_running-is_stopped s h = ground arith

  -- After a Stop of a pod that succeeds, stopping it again succeeds and changes nothing, not even
  -- on the host.
  pub stop_twice :
      (s : Yard H)
      → (stop H base s).0 ≡ ok tt
      → stop H base (stop H base s).1 ≡ (ok tt, (stop H base s).1)
  unfolding stop
  stop_twice s h = ground (arith, stop_running-is_stopped s)

  remove_process-is_removed :
      (s : Yard H)
      → (remove_process H base s).0 ≡ ok tt
      → (remove_process H base s).1.pod.is_removed ≡ true
  unfolding remove_process
  remove_process-is_removed s h = ground arith

  pub remove_present-is_removed :
      (s : Yard H)
      → (remove_present H base s).0 ≡ ok tt
      → (remove_present H base s).1.pod.is_removed ≡ true
  unfolding remove_present
  remove_present-is_removed s h = grind (arith, remove_process-is_removed)

  -- After a Remove of a pod that succeeds, removing it again succeeds and changes nothing, not
  -- even on the host.
  pub remove_twice :
      (s : Yard H)
      → (remove H base s).0 ≡ ok tt
      → remove H base (remove H base s).1 ≡ (ok tt, (remove H base s).1)
  unfolding remove
  remove_twice s h = ground (arith, remove_present-is_removed s)
