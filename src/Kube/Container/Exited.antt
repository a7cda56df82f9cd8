-- ===== src/Kube/Container/Exited.antt =====
-- What kill and terminate promise: a process that is gone.
use singularity_cri.Base.{◌≡◌, ℕ, nat_eq, Option, List, arith}
use singularity_cri.Base.Text.{Text}
use singularity_cri.Base.Result.{ok}
use singularity_cri.Runtime.State.{State}
use singularity_cri.Runtime.Host.{Host}
use singularity_cri.Kube.Types.{Scene}
use singularity_cri.Kube.Container.{expect_state, kill, terminate, terminate_gently, stop_signal}

module _ (H : Host) (base : List Text) where
  pub kill-exited :
      (s : Scene H)
      → (kill H base s).0 ≡ ok tt
      → (kill H base s).1.cont.runtime_state ≡ State.exited
  unfolding kill expect_state
  kill-exited s h = ground arith

  terminate_gently-exited :
      (sig : Option Text) (timeout : ℕ) (s : Scene H)
      → (terminate_gently H base sig timeout s).0 ≡ ok tt
      → (terminate_gently H base sig timeout s).1.cont.runtime_state ≡ State.exited
  unfolding terminate_gently
  terminate_gently-exited sig timeout s h = grind (arith, kill-exited)

  -- When terminate returns without an error, the container's state is exited: it had exited
  -- before, it exited in time, or it was killed and then exited.
  pub terminate-exited :
      (timeout : ℕ) (s : Scene H)
      → (terminate H base timeout s).0 ≡ ok tt
      → (terminate H base timeout s).1.cont.runtime_state ≡ State.exited
  unfolding terminate
  terminate-exited timeout s h =
      ground (arith, kill-exited s, terminate_gently-exited (stop_signal H s) timeout s)
