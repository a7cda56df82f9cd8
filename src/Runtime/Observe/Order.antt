-- ===== src/Runtime/Observe/Order.antt =====
-- What comes over the channel of ObserveState, in whatever order the socket, the context and the reader
-- act.
use singularity_cri.Base.{
  ◌≡◌, ◌≢◌, refl, sym, ap, ◌∙◌, ◌≤◌, Bool, true, false, not, Option, none, some, List, [], ◌∷◌,
  ◌++◌, arith, if◌then◌else◌, length, length-append, append_assoc,
}
use singularity_cri.Base.Text.{Text}
use singularity_cri.Base.Result.{ok}
use singularity_cri.Runtime.State.{State, state_beq}
use singularity_cri.Runtime.Observe.{Observer, send, Step, Reach, read_state}

-- Every state that has been sent, those in the buffer included.
abbrev pub sent : Observer → List State
sent o = o.taken ++ o.buffer

-- No state is unknown, and nothing follows StateExited.
abbrev pub IsOrdered : List State → Type 0
IsOrdered [] = Unit
IsOrdered (s ∷ ss) = (s ≢ State.unknown) × (s ≡ State.exited → ss ≡ []) × IsOrdered ss

abbrev no_exit : List State → Bool
no_exit [] = true
no_exit (s ∷ ss) = if state_beq s State.exited then false else no_exit ss

pub record IsSound (o : Observer) : Type 0 where
  pub ordered : IsOrdered (sent o)
  pub room : length o.buffer ≤ 4
  pub unfinished : o.running ≡ true → no_exit (sent o) ≡ true

IsOrdered-append :
    (ss : List State) (s : State)
    → IsOrdered ss
    → no_exit ss ≡ true
    → s ≢ State.unknown
    → IsOrdered (ss ++ (s ∷ []))
IsOrdered-append [] s h e known = (known, λ x. refl, tt)
IsOrdered-append (x ∷ ss) s (kx, lx, h) e known =
    (kx, λ ex. ground arith, IsOrdered-append ss s h (ground arith) known)

no_exit-append :
    (ss : List State) (s : State)
    → no_exit ss ≡ true
    → not (state_beq s State.exited) ≡ true
    → no_exit (ss ++ (s ∷ [])) ≡ true
no_exit-append [] s h k = ground arith
no_exit-append (x ∷ ss) s h k = ground (arith, no_exit-append ss s)

read_state-known :
    (message : Option Text) (s : State) → read_state message ≡ ok s → s ≢ State.unknown
unfolding read_state
read_state-known none s h = cc
read_state-known (some status) s h = ground arith

Step-IsSound : {o p : Observer} → Step o p → IsSound o → IsSound p
unfolding send
Step-IsSound (Step.context_done r) h = record {
  ordered = h.ordered;
  room = h.room;
  unfinished = λ e. cc;
}
Step-IsSound (Step.accept_failed r) h = record {
  ordered = h.ordered;
  room = h.room;
  unfinished = λ e. cc;
}
Step-IsSound (Step.misread m e r k) h = record {
  ordered = h.ordered;
  room = h.room;
  unfinished = λ e. cc;
}
Step-IsSound {o} (Step.received m s r k room) h = record {
  ordered =
      rw (← append_assoc o.taken o.buffer (s ∷ []))
        (IsOrdered-append (sent o) s h.ordered (h.unfinished r) (read_state-known m s k));
  room = omega (arith, length-append o.buffer (s ∷ []));
  unfinished = λ e.
      rw (← append_assoc o.taken o.buffer (s ∷ [])) (no_exit-append (sent o) s (h.unfinished r) e);
}
Step-IsSound {o} (Step.taken_next s ss e) h =
    let same : (o.taken ++ (s ∷ [])) ++ ss ≡ sent o =
      append_assoc o.taken (s ∷ []) ss ∙ ap (λ l. o.taken ++ l) (sym e) in
    record {
      ordered = rw same h.ordered;
      room = omega (arith, h.room, ap length e);
      unfinished = λ r. rw same (h.unfinished r);
    }

-- In every state that ObserveState, its context, the socket and the reader of the channel can
-- reach: no state that was sent is unknown, nothing was sent after StateExited, at most four
-- states wait in the channel, and while the goroutine runs StateExited has not been sent.
pub Reach-IsSound : (o : Observer) → Reach o → IsSound o
Reach-IsSound o Reach.here = record { ordered = tt; room = omega arith; unfinished = λ e. refl }
Reach-IsSound o (Reach.next r st) = Step-IsSound st (Reach-IsSound _ r)
