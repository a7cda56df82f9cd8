-- ===== src/Server/Runtime/Streaming/Answers.antt =====
-- When Attach of pkg/server/runtime/streaming.go gets an answer from its goroutines.
use singularity_cri.Base.{
  ap, ◌≡◌, refl, arith, ℕ, Bool, true, false, Option, none, some, List, [], ◌∷◌, ◌++◌, ◌||◌, ◌&&◌,
  not, is_nil, is_some,
}
use singularity_cri.Base.Text.{Text, text_beq_iff}
use singularity_cri.Base.Result.{ok, Error}
use singularity_cri.Patricia.{Trie}
use singularity_cri.Runtime.Host.{Host}
use singularity_cri.Network.{Cni}
use singularity_cri.Server.Runtime.{Node, in_container}
use singularity_cri.Server.Runtime.Service.{Streams}
use singularity_cri.Server.Runtime.Streaming.{
  Terminal, Attached, attach_begin, connect, socket_of, attached, has_stdin,
}
use singularity_cri.Server.Runtime.Streaming.Copies.{
  Copied, Copier, Copies, begun, output_answers, input_answers, Step, Reach,
}

-- Attach without a goroutine can do nothing.
begun-waits :
    (a : Attached) → a.output ≡ false → a.input ≡ false → (e : Copies) → ¬ Step (begun a) e
unfolding begun
begun-waits a o i e (Step.output_copied r p) = ground arith
begun-waits a o i e (Step.input_copied r p) = ground arith
begun-waits a o i e (Step.output_sent m ms p q) = ground arith
begun-waits a o i e (Step.input_sent m ms p q) = ground arith
begun-waits a o i e (Step.answered m ms p q) = cc

module _ {H : Host} {N : Cni H} {TI : Trie ℕ} {TP TC : Trie Text} (T : Terminal H)
    (base : List Text) where
  -- An Attach for the standard input alone, to a container that has none or whose input is closed
  -- already, where everything up to the connection succeeds: no step is possible then, and Attach
  -- waits for ever for the answer of a goroutine that it has not started.
  pub attach_begin-waits :
      (id c : Text) (r : Streams) (a : Attached) (s t : Node N TI TP TC)
      → (r.stdout || r.stderr) ≡ false
      → attach_begin T base id r s ≡ (ok (c, a), t)
      → (((t.container_at c).config.stdin && not (t.container_at c).is_stdin_closed) ≡ false)
      → (e : Copies) → ¬ Step (begun a) e
  unfolding attach_begin connect socket_of attached has_stdin in_container
  attach_begin-waits id c r a s t o h n =
      begun-waits a (ground (arith, text_beq_iff c c)) (ground (arith, text_beq_iff c c))

-- A goroutine that is in its copy or has an answer to send.
abbrev pub busy : Copier → Bool
busy Copier.not_started = false
busy Copier.copying = true
busy (Copier.sending []) = false
busy (Copier.sending (m ∷ ms)) = true

-- An answer has been taken, waits in the channel, or is still to come.
abbrev pub has_answer : Copies → Bool
has_answer d = is_some d.answer || (not (is_nil d.buffer) || (busy d.output || busy d.input))

not_nil-append : (b : List (Option Error)) (m : Option Error) → is_nil (b ++ (m ∷ [])) ≡ false
not_nil-append [] m = refl
not_nil-append (x ∷ b) m = refl

Step-has_answer : {d e : Copies} → Step d e → has_answer d ≡ true → has_answer e ≡ true
unfolding output_answers input_answers
Step-has_answer {d} (Step.output_copied r p) h = ground arith
Step-has_answer {d} (Step.input_copied r p) h = ground arith
Step-has_answer {d} (Step.output_sent m ms p q) h = rw (not_nil-append d.buffer m) (ground arith)
Step-has_answer {d} (Step.input_sent m ms p q) h = rw (not_nil-append d.buffer m) (ground arith)
Step-has_answer {d} (Step.answered m ms p q) h = refl

-- A state behind this one in which Attach has its answer.
abbrev pub Answered : Copies → Type 0
Answered d = (e : Copies) × Reach d e × (is_some e.answer ≡ true)

Reach-has_answer :
    (a : Attached) (d : Copies)
    → (a.output || a.input) ≡ true
    → Reach (begun a) d
    → has_answer d ≡ true
unfolding begun
Reach-has_answer a d h Reach.here = ground arith
Reach-has_answer a d h (Reach.next r st) = Step-has_answer st (Reach-has_answer a _ h r)

Reach_trans : {c d e : Copies} → Reach c d → Reach d e → Reach c e
Reach_trans r Reach.here = r
Reach_trans r (Reach.next s st) = Reach.next (Reach_trans r s) st

answers_from_buffer :
    (d : Copies) (m : Option Error) (ms : List (Option Error))
    → d.answer ≡ none
    → d.buffer ≡ m ∷ ms
    → Answered d
answers_from_buffer d m ms n b = (_, Reach.next Reach.here (Step.answered m ms n b), refl)

Answered-back : {c d : Copies} → Reach c d → Answered d → Answered c
Answered-back r (e, s, p) = (e, Reach_trans r s, p)

-- A goroutine that sends, on an empty channel.
output_sends :
    (d : Copies) (m : Option Error) (ms : List (Option Error))
    → d.answer ≡ none
    → d.buffer ≡ []
    → d.output ≡ Copier.sending (m ∷ ms)
    → Answered d
output_sends d m ms n b o =
    Answered-back (Reach.next Reach.here (Step.output_sent m ms o (rw b (omega arith))))
      (answers_from_buffer _ m [] n (ap (λ l. l ++ (m ∷ [])) b))

input_sends :
    (d : Copies) (m : Option Error) (ms : List (Option Error))
    → d.answer ≡ none
    → d.buffer ≡ []
    → d.input ≡ Copier.sending (m ∷ ms)
    → Answered d
input_sends d m ms n b o =
    Answered-back (Reach.next Reach.here (Step.input_sent m ms o (rw b (omega arith))))
      (answers_from_buffer _ m [] n (ap (λ l. l ++ (m ∷ [])) b))

-- The copiers, on an empty channel.
from_copiers :
    (o i : Copier) (d : Copies)
    → d.output ≡ o
    → d.input ≡ i
    → d.answer ≡ none
    → d.buffer ≡ []
    → (busy o || busy i) ≡ true
    → Answered d
unfolding output_answers input_answers
from_copiers Copier.copying i d p q n b h =
    Answered-back (Reach.next Reach.here (Step.output_copied Copied.at_end p))
      (output_sends (record d { output = Copier.sending (none ∷ []) }) none [] n b refl)
from_copiers (Copier.sending (m ∷ ms)) i d p q n b h = output_sends d m ms n b p
from_copiers o Copier.copying d p q n b h =
    Answered-back (Reach.next Reach.here (Step.input_copied Copied.at_end q))
      (input_sends (record d { input = Copier.sending (none ∷ []) }) none [] n b refl)
from_copiers o (Copier.sending (m ∷ ms)) d p q n b h = input_sends d m ms n b q
from_copiers Copier.not_started Copier.not_started d p q n b h = cc
from_copiers Copier.not_started (Copier.sending []) d p q n b h = cc
from_copiers (Copier.sending []) Copier.not_started d p q n b h = cc
from_copiers (Copier.sending []) (Copier.sending []) d p q n b h = cc

from_answer :
    (x : Option (Option Error)) (b : List (Option Error)) (d : Copies)
    → d.answer ≡ x
    → d.buffer ≡ b
    → has_answer d ≡ true
    → Answered d
from_answer (some m) b d p q h = (d, Reach.here, ap is_some p)
from_answer none (m ∷ ms) d p q h = answers_from_buffer d m ms p q
from_answer none [] d p q h = from_copiers d.output d.input d refl refl p q (ground arith)

-- Where Attach has started a copier of the output or of the input: from every state that is
-- reached then, there are steps to one in which Attach has its answer.
pub begun-Answered :
    (a : Attached) (d : Copies) → (a.output || a.input) ≡ true → Reach (begun a) d → Answered d
begun-Answered a d h r = from_answer d.answer d.buffer d refl refl (Reach-has_answer a d h r)
