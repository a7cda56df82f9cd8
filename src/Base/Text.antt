-- ===== src/Base/Text.antt =====
-- A Go string is a sequence of bytes: the functions of Go's package `strings` that the program
-- calls, written out over lists of bytes.
use Prim.Native.Char.{code}
use Prim.Native.String.{String}
use Prim.Native.Nat.{ℕ, zero, suc}
use mathlib.Core.Path.{◌≡◌, refl}
use mathlib.Core.Logic.{◌↔◌}
use mathlib.Core.Bool.{Bool, true, false, ◌&&◌, ◌||◌}
use mathlib.Core.Option.{Option, none, some}
use mathlib.Core.List.{List, [], ◌∷◌, ◌++◌}
use native.Mathlib.Omega.{arith}
use singularity_cri.Base.Tests.{nat_beq, if◌then◌else◌, Eq, length}

abbrev pub Text : Type 0
Text = List ℕ

-- The bytes of an ASCII literal.
abbrev pub codes : String → Text
codes String.[] = []
codes (String.◌∷◌ c s) = code c ∷ codes s

unfoldable pub text_beq : Text → Text → Bool
text_beq [] [] = true
text_beq (a ∷ s) (b ∷ t) = nat_beq a b && text_beq s t
text_beq _ _ = false

pub text_beq_iff : (s t : Text) → (text_beq s t ≡ true) ↔ (s ≡ t)
unfolding text_beq
text_beq_iff [] [] = ground arith
text_beq_iff [] (b ∷ t) = ground arith
text_beq_iff (a ∷ s) [] = ground arith
text_beq_iff (a ∷ s) (b ∷ t) = ground (arith, text_beq_iff s t)

instance abbrev pub text_eq : Eq Text
text_eq = record { beq = text_beq; beq_iff = text_beq_iff }

-- strings.HasPrefix(s, prefix)
unfoldable pub has_prefix : Text → Text → Bool
has_prefix s [] = true
has_prefix [] (b ∷ t) = false
has_prefix (a ∷ s) (b ∷ t) = nat_beq a b && has_prefix s t

unfoldable pub drop_text : ℕ → Text → Text
drop_text zero s = s
drop_text (suc n) [] = []
drop_text (suc n) (a ∷ s) = drop_text n s

-- strings.TrimPrefix(s, prefix)
unfoldable pub trim_prefix : Text → Text → Text
unfolding has_prefix drop_text
trim_prefix s prefix = if has_prefix s prefix then drop_text (length prefix) s else s

-- strings.IndexByte(s, c) != -1
unfoldable pub has_byte : ℕ → Text → Bool
has_byte c [] = false
has_byte c (a ∷ s) = nat_beq a c || has_byte c s

-- strings.Contains(s, sub)
unfoldable pub contains_text : Text → Text → Bool
unfolding has_prefix
contains_text [] sub = has_prefix [] sub
contains_text (a ∷ s) sub = has_prefix (a ∷ s) sub || contains_text s sub

-- s[:i] for i = strings.LastIndexByte(s, c); `none` where that index is -1.
unfoldable pub before_last : ℕ → Text → Option Text
before_last c [] = none
before_last c (a ∷ s) = elim (before_last c s) [
  | some r ↦ some (a ∷ r)
  | none ↦ if nat_beq a c then some [] else none
]

-- strings.Split(s, c) for a separator of one byte.
abbrev push_byte : ℕ → List Text → List Text
push_byte a [] = (a ∷ []) ∷ []
push_byte a (part ∷ parts) = (a ∷ part) ∷ parts

unfoldable pub split_byte : ℕ → Text → List Text
split_byte c [] = [] ∷ []
split_byte c (a ∷ s) =
    let rest = split_byte c s in if nat_beq a c then [] ∷ rest else push_byte a rest

pub has_prefix-append : (p s : Text) → has_prefix (p ++ s) p ≡ true
unfolding has_prefix
has_prefix-append [] s = refl
has_prefix-append (a ∷ p) s = ground (arith, has_prefix-append p s)

pub drop_text-append : (p s : Text) → drop_text (length p) (p ++ s) ≡ s
unfolding drop_text
drop_text-append [] s = refl
drop_text-append (a ∷ p) s = drop_text-append p s

pub trim_prefix-append : (p s : Text) → trim_prefix (p ++ s) p ≡ s
unfolding trim_prefix
trim_prefix-append p s = rw has_prefix-append (drop_text-append p s)

-- A text with a prefix is that prefix and a rest.
pub has_prefix-split : (s p : Text) → has_prefix s p ≡ true → s ≡ p ++ drop_text (length p) s
unfolding has_prefix drop_text
has_prefix-split s [] h = refl
has_prefix-split [] (b ∷ p) h = cc
has_prefix-split (a ∷ s) (b ∷ p) h = ground (arith, has_prefix-split s p)

pub has_prefix_refl : (s : Text) → has_prefix s s ≡ true
unfolding has_prefix
has_prefix_refl [] = refl
has_prefix_refl (a ∷ s) = ground (arith, has_prefix_refl s)

-- A prefix of the same length is the whole text.
pub has_prefix-eq : (s p : Text) → has_prefix s p ≡ true → length s ≡ length p → s ≡ p
unfolding has_prefix
has_prefix-eq [] [] h e = refl
has_prefix-eq (a ∷ s) [] h e = absurd (omega arith)
has_prefix-eq [] (b ∷ p) h e = cc
has_prefix-eq (a ∷ s) (b ∷ p) h e = ground (arith, has_prefix-eq s p)

pub before_last-none : (c : ℕ) (s : Text) → has_byte c s ≡ false → before_last c s ≡ none
unfolding before_last has_byte
before_last-none c [] h = refl
before_last-none c (a ∷ s) h = ground (arith, before_last-none c s)

-- The cut is in front of the last `c`: what follows has none.
pub before_last-some :
    (c : ℕ) (s r : Text) → has_byte c r ≡ false → before_last c (s ++ c ∷ r) ≡ some s
unfolding before_last
before_last-some c [] r h = rw (before_last-none c r h) (ground arith)
before_last-some c (a ∷ s) r h = rw (before_last-some c s r h)

pub has_byte-append : (c : ℕ) (s t : Text) → has_byte c (s ++ t) ≡ (has_byte c s || has_byte c t)
unfolding has_byte
has_byte-append c [] t = refl
has_byte-append c (a ∷ s) t = ground (arith, has_byte-append c s t)
