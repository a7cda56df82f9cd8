-- ===== src/Server/Runtime/Streaming/Copies.antt =====
-- What Attach of pkg/server/runtime/streaming.go waits for: its two goroutines, which copy the output and
-- the input, and the channel `errors` between them and Attach. How a copy ends is chosen by a step.
use singularity_cri.Base.{
  ◌≡◌, ◌<◌, Bool, true, false, Option, none, some, List, [], ◌∷◌, ◌++◌, length,
}
use singularity_cri.Base.Result.{Error}
use singularity_cri.Server.Runtime.Streaming.{Attached}

-- How a copy ends: without an error or with io.EOF, detached by the user, or with an error.
pub data Copied : Type 0 where
  at_end : Copied
  detached : Error → Copied
  broken : Error → Copied

-- What the goroutine of the output sends then. io.Copy never detaches.
unfoldable pub output_answers : Copied → List (Option Error)
output_answers Copied.at_end = none ∷ []
output_answers (Copied.detached e) = some e ∷ none ∷ []
output_answers (Copied.broken e) = some e ∷ none ∷ []

-- And that of the input: nothing returns behind the `errors <- nil` of a detach.
unfoldable pub input_answers : Copied → List (Option Error)
input_answers Copied.at_end = none ∷ []
input_answers (Copied.detached e) = none ∷ some e ∷ []
input_answers (Copied.broken e) = some e ∷ []

-- A goroutine: not started, in its copy, or with answers that it still has to send.
pub data Copier : Type 0 where
  not_started copying : Copier
  sending : List (Option Error) → Copier

-- Attach at `err = <-errors`: the buffer of the channel, which has room for two, and the answer that it has
-- taken.
pub record Copies : Type 0 where
  pub buffer : List (Option Error)
  pub output : Copier
  pub input : Copier
  pub answer : Option (Option Error)

abbrev pub if_started : Bool → Copier
if_started true = Copier.copying
if_started false = Copier.not_started

unfoldable pub begun : Attached → Copies
begun a = record {
  buffer = [];
  output = if_started a.output;
  input = if_started a.input;
  answer = none;
}

pub data Step (d : Copies) : Copies → Type 0 where
  output_copied :
      (r : Copied)
      → d.output ≡ Copier.copying
      → Step d (record d { output = Copier.sending (output_answers r) })
  input_copied :
      (r : Copied)
      → d.input ≡ Copier.copying
      → Step d (record d { input = Copier.sending (input_answers r) })
  output_sent :
      (m : Option Error) (ms : List (Option Error))
      → d.output ≡ Copier.sending (m ∷ ms)
      → length d.buffer < 2
      → Step d (record d { output = Copier.sending ms; buffer = d.buffer ++ (m ∷ []) })
  input_sent :
      (m : Option Error) (ms : List (Option Error))
      → d.input ≡ Copier.sending (m ∷ ms)
      → length d.buffer < 2
      → Step d (record d { input = Copier.sending ms; buffer = d.buffer ++ (m ∷ []) })
  -- Attach takes one answer
  answered :
      (m : Option Error) (ms : List (Option Error))
      → d.answer ≡ none
      → d.buffer ≡ m ∷ ms
      → Step d (record d { buffer = ms; answer = some m })

pub data Reach (c : Copies) : Copies → Type 0 where
  here : Reach c c
  next : {d e : Copies} → Reach c d → Step d e → Reach c e
