-- ===== src/Kube/Container/Status.antt =====
-- The states of a container as k8s knows them: State, StateReason and the times of container.go.
use singularity_cri.Base.{nat_eq, [], ℕ, Option, none, some, if◌then◌else◌, ◌==◌}
use Prim.Native.Nat.{◌%◌, ◌^◌}
use singularity_cri.Base.Text.{Text, codes}
use singularity_cri.Base.Result.{Result, ok, panic}
use singularity_cri.Runtime.State.{State, OciState}
use singularity_cri.Kube.Types.{Container}

-- k8s.ContainerState
pub data ContainerState : Type 0 where
  container_created container_running container_exited container_unknown : ContainerState

unfoldable pub k8s_state : State → ContainerState
k8s_state State.created = ContainerState.container_created
k8s_state State.running = ContainerState.container_running
k8s_state State.exited = ContainerState.container_exited
k8s_state _ = ContainerState.container_unknown

abbrev pub state_of : Container → ContainerState
state_of c = k8s_state c.runtime_state

-- c.ociState is nil after a failed UpdateState, and then each of these panics.
abbrev with_oci : {A : Type 0} → Container → (OciState → A) → Result A
with_oci c f = elim c.oci_state [ none ↦ panic | some o ↦ ok (f o) ]

abbrev or_zero : Option ℕ → ℕ
or_zero none = 0
or_zero (some n) = n

unfoldable pub created_at : Container → Result ℕ
created_at c = with_oci c (λ o. or_zero o.created_at)

unfoldable pub started_at : Container → Result ℕ
started_at c = with_oci c (λ o. or_zero o.started_at)

unfoldable pub finished_at : Container → Result ℕ
finished_at c = with_oci c (λ o. or_zero o.finished_at)

-- The bits of int32(code).
unfoldable pub exit_code : Container → Result ℕ
exit_code c = with_oci c (λ o. or_zero o.exit_code % 2 ^ 32)

reason_exited : Result ℕ → Result Text
reason_exited (ok code) = ok (if code == 0 then codes "Completed" else codes "Error")
reason_exited (Result.err e) = Result.err e
reason_exited panic = panic

unfoldable pub state_reason : Container → State → Result Text
unfolding reason_exited exit_code
state_reason c State.running = ok []
state_reason c State.exited = reason_exited (exit_code c)
state_reason c _ = with_oci c (λ o. o.exit_desc)
