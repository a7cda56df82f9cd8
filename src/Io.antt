-- ===== src/Io.antt =====
-- ContextReader of pkg/io/reader.go: one Read, whose goroutine may or may not be done when the select
-- looks. The reader and the context are arguments.
use singularity_cri.Base.{
  ◌≡◌, ◌⊎◌, inl, inr, refl, ap, sym, ◌∙◌, arith, ℕ, zero, suc, Option, some, [], ◌∷◌, length,
}
use singularity_cri.Base.Text.{Text}
use singularity_cri.Base.Result.{Error}

-- copy(p, buf): p behind it
pub copy : Text → Text → Text
copy [] buf = []
copy (x ∷ p) [] = x ∷ p
copy (x ∷ p) (b ∷ buf) = b ∷ copy p buf

-- make([]byte, n)
pub zeros : ℕ → Text
zeros zero = []
zeros (suc n) = 0 ∷ zeros n

-- The answer of a Read: the number of bytes, the error, and what the caller's buffer holds then.
pub record Reading : Type 0 where
  pub count : ℕ
  pub error : Option Error
  pub buffer : Text

-- The underlying reader, which fills a buffer of the same length as far as it gets.
abbrev pub Reader : Type 0
Reader = Text → Reading

-- What the select takes: the answer of the goroutine, or the context, which must be done.
pub data Read (reader : Reader) (context : Option Error) (p : Text) : Reading → Type 0 where
  -- case ret := <-c
  answered : Read reader context p (record {
    count = (reader (zeros (length p))).count;
    error = (reader (zeros (length p))).error;
    buffer = copy p (reader (zeros (length p))).buffer;
  })
  -- case <-r.ctx.Done()
  cancelled :
      (e : Error)
      → context ≡ some e
      → Read reader context p (record { count = 0; error = some e; buffer = p })

length-zeros : (n : ℕ) → length (zeros n) ≡ n
unfolding zeros
length-zeros zero = refl
length-zeros (suc n) = ap suc (length-zeros n)

-- A copy of as many bytes replaces all of them.
copy-whole : (p buf : Text) → length buf ≡ length p → copy p buf ≡ buf
unfolding copy
copy-whole [] [] h = refl
copy-whole [] (b ∷ buf) h = absurd (omega arith)
copy-whole (x ∷ p) [] h = absurd (omega arith)
copy-whole (x ∷ p) (b ∷ buf) h = ap (λ l. b ∷ l) (copy-whole p buf (omega arith))

abbrev filled : Reading → Text → Reading
filled r buf = record r { buffer = buf }

-- A Read of a ContextReader, over a reader that keeps the length of its buffer, is what the reader answers
-- to an empty buffer of that length, or it leaves the caller's buffer alone and answers with the error of a
-- context that is done.
pub Read-cases :
    (reader : Reader) (context : Option Error) (p : Text) (answer : Reading)
    → ((buf : Text) → length (reader buf).buffer ≡ length buf)
    → Read reader context p answer
    → (answer ≡ reader (zeros (length p)))
      ⊎ ((answer.buffer ≡ p) × (answer.count ≡ 0) × (answer.error ≡ context))
Read-cases reader context p answer keeps Read.answered = inl (
    ap (filled (reader (zeros (length p)))) (
      copy-whole p (reader (zeros (length p))).buffer
        (keeps (zeros (length p)) ∙ length-zeros (length p))))
Read-cases reader context p answer keeps (Read.cancelled e done) = inr (refl, refl, sym done)
