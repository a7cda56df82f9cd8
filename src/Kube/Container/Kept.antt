-- ===== src/Kube/Container/Kept.antt =====
-- What the methods that talk to the runtime leave alone.
use singularity_cri.Base.{◌≡◌, ℕ, nat_eq, Option, List, arith}
use singularity_cri.Base.Text.{Text}
use singularity_cri.Runtime.State.{State}
use singularity_cri.Runtime.Host.{Host}
use singularity_cri.Kube.Types.{Scene}
use singularity_cri.Kube.Container.{
  update_state, expect_state, kill, terminate, close_stdin, terminate_gently, stop_signal,
}

module _ {H : Host} where
  -- The container's identity and flags, its pod and its image are the same.
  pub record Kept (s t : Scene H) : Type 0 where
    pub id : t.cont.id ≡ s.cont.id
    pub is_stopped : t.cont.is_stopped ≡ s.cont.is_stopped
    pub is_removed : t.cont.is_removed ≡ s.cont.is_removed
    pub pod : t.pod ≡ s.pod
    pub info : t.info ≡ s.info

  pub Kept-refl : (s : Scene H) → Kept s s
  Kept-refl s = ground arith

  pub Kept-trans : {s t u : Scene H} → Kept s t → Kept t u → Kept s u
  Kept-trans h k = ground arith

module _ (H : Host) (base : List Text) where
  pub update_state-Kept : (s : Scene H) → Kept s (update_state H base s).1
  unfolding update_state
  update_state-Kept s = ground arith

  pub expect_state-Kept : (expect : State) (s : Scene H) → Kept s (expect_state H expect s).1
  unfolding expect_state
  expect_state-Kept expect s = ground arith

  pub kill-Kept : (s : Scene H) → Kept s (kill H base s).1
  unfolding kill expect_state
  kill-Kept s = ground arith

  terminate_gently-Kept :
      (sig : Option Text) (timeout : ℕ) (s : Scene H)
      → Kept s (terminate_gently H base sig timeout s).1
  unfolding terminate_gently
  terminate_gently-Kept sig timeout s = grind (arith, kill-Kept)

  pub terminate-Kept : (timeout : ℕ) (s : Scene H) → Kept s (terminate H base timeout s).1
  unfolding terminate
  terminate-Kept timeout s =
      ground (arith, kill-Kept s, terminate_gently-Kept (stop_signal H s) timeout s)

  pub close_stdin-Kept : (s : Scene H) → Kept s (close_stdin H s).1
  unfolding close_stdin
  close_stdin-Kept s = ground arith
