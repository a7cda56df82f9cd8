-- ===== src/Runtime/State.antt =====
-- The states of pkg/singularity/runtime/sync.go, and what the OCI engine reports of a container.
use singularity_cri.Base.{◌≡◌, refl, ◌≢◌, Bool, true, false, Option, ℕ, ◌==◌, if◌then◌else◌, arith}
use singularity_cri.Base.Text.{Text, codes, text_eq, text_beq, text_beq_iff}

pub data State : Type 0 where
  unknown creating created running exited : State

-- State.String
unfoldable pub state_name : State → Text
state_name State.creating = codes "creating"
state_name State.created = codes "created"
state_name State.running = codes "running"
state_name State.exited = codes "exited"
state_name State.unknown = codes "unknown"

unfoldable pub status_to_state : Text → State
unfolding text_beq
status_to_state status =
    if status == codes "creating"
    then State.creating
    else if status == codes "created"
    then State.created
    else if status == codes "running"
    then State.running
    else if status == codes "stopped"
    then State.exited
    else State.unknown

abbrev pub state_beq : State → State → Bool
state_beq State.unknown State.unknown = true
state_beq State.creating State.creating = true
state_beq State.created State.created = true
state_beq State.running State.running = true
state_beq State.exited State.exited = true
state_beq _ _ = false

-- ociruntime.State, of github.com/sylabs/singularity: the fields that the program reads.
pub record OciState : Type 0 where
  pub status : Text
  pub pid : ℕ
  pub created_at : Option ℕ
  pub started_at : Option ℕ
  pub finished_at : Option ℕ
  pub exit_code : Option ℕ
  pub exit_desc : Text
  pub attach_socket : Text
  pub control_socket : Text

-- The status that the OCI engine uses for a state, which is not always the state's name.
abbrev pub status_of : State → Text
status_of State.unknown = codes ""
status_of State.creating = codes "creating"
status_of State.created = codes "created"
status_of State.running = codes "running"
status_of State.exited = codes "stopped"

pub status_to_state-status_of : (s : State) → status_to_state (status_of s) ≡ s
unfolding status_to_state
status_to_state-status_of State.unknown = refl
status_to_state-status_of State.creating = refl
status_to_state-status_of State.created = refl
status_to_state-status_of State.running = refl
status_to_state-status_of State.exited = refl

-- Only the status of a known state is read as it: every other text is "unknown".
pub status_of-status_to_state :
    (t : Text) → status_to_state t ≢ State.unknown → status_of (status_to_state t) ≡ t
unfolding status_to_state
status_of-status_to_state t h = ground (
  arith,
  text_beq_iff t (codes "creating"),
  text_beq_iff t (codes "created"),
  text_beq_iff t (codes "running"),
  text_beq_iff t (codes "stopped"),
)
