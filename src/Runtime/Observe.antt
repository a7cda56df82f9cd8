-- ===== src/Runtime/Observe.antt =====
-- ObserveState of pkg/singularity/runtime/sync.go: the goroutine that reads a sync socket, the channel
-- between it and the reader, and the reader. What comes over the socket is chosen by a step.
pub mod Order
use singularity_cri.Base.{
  ◌≡◌, ◌≢◌, ℕ, ◌<◌, Bool, true, false, not, Option, none, some, List, [], ◌∷◌, ◌++◌, if◌then◌else◌,
  length,
}
use singularity_cri.Base.Text.{Text}
use singularity_cri.Base.Result.{Result, ok, err, errorf, external}
use singularity_cri.Runtime.State.{State, state_beq, status_to_state}

-- readState on what a connection sent: a status, or nothing that could be decoded.
unfoldable pub read_state : Option Text → Result State
read_state none = err (errorf "could not read state")
read_state (some status) =
    let state = status_to_state status in
    if state_beq state State.unknown then err (errorf "received unknown status") else ok state

-- The channel with a buffer for four states, whether the goroutine still runs, and the states that the
-- reader has taken. The channel is closed as soon as the goroutine has returned.
pub record Observer : Type 0 where
  pub buffer : List State
  pub running : Bool
  pub taken : List State

abbrev pub started : Observer
started = record { buffer = []; running = true; taken = [] }

-- syncChan <- state, and the return after StateExited
unfoldable pub send : State → Observer → Observer
send state o = record o {
  buffer = o.buffer ++ (state ∷ []);
  running = not (state_beq state State.exited);
}

abbrev pub return : Observer → Observer
return o = record o { running = false }

pub data Step (o : Observer) : Observer → Type 0 where
  -- ctx.Done()
  context_done : o.running ≡ true → Step o (return o)
  -- nextConn gives nil
  accept_failed : o.running ≡ true → Step o (return o)
  -- the error of readState
  misread :
      (message : Option Text) (e : _)
      → o.running ≡ true
      → read_state message ≡ err e
      → Step o (return o)
  -- a state for which the buffer has room; the goroutine waits where it has none
  received :
      (message : Option Text) (state : State)
      → o.running ≡ true
      → read_state message ≡ ok state
      → length o.buffer < 4
      → Step o (send state o)
  -- <-syncChan
  taken_next :
      (state : State) (states : List State)
      → o.buffer ≡ state ∷ states
      → Step o (record o { buffer = states; taken = o.taken ++ (state ∷ []) })

pub data Reach : Observer → Type 0 where
  here : Reach started
  next : {o p : Observer} → Reach o → Step o p → Reach p
