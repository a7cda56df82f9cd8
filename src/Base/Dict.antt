-- ===== src/Base/Dict.antt =====
-- Go's `map[string]V`, by the entries of an association list. Iteration order is not part of it.
use mathlib.Core.Path.{◌≡◌, refl}
use mathlib.Core.Bool.{Bool}
use mathlib.Core.Option.{Option, none, some}
use mathlib.Core.List.{List, [], ◌∷◌}
use native.Mathlib.Omega.{arith}
use singularity_cri.Base.Tests.{is_some, if◌then◌else◌, ◌==◌}
use singularity_cri.Base.Text.{Text, text_eq, text_beq_iff}

abbrev pub Dict {ℓ} : Type ℓ → Type ℓ
Dict V = List (Text × V)

module _ {ℓ} {V : Type ℓ} where
  -- v, ok := m[k]
  unfoldable pub lookup : Text → Dict V → Option V
  lookup key [] = none
  lookup key ((k, v) ∷ d) = if k == key then some v else lookup key d

  -- m[k] = v
  unfoldable pub insert : Text → V → Dict V → Dict V
  insert key v [] = (key, v) ∷ []
  insert key v ((k, old) ∷ d) = if k == key then (key, v) ∷ d else (k, old) ∷ insert key v d

  -- delete(m, k)
  unfoldable pub erase : Text → Dict V → Dict V
  erase k [] = []
  erase k ((j, v) ∷ m) = let rest = erase k m in if j == k then rest else (j, v) ∷ rest

  -- _, ok := m[k]
  abbrev pub has_key : Text → Dict V → Bool
  has_key k m = is_some (lookup k m)

  pub lookup-insert :
      (k other : Text) (v : V) (d : Dict V)
      → lookup other (insert k v d) ≡ (if k == other then some v else lookup other d)
  unfolding lookup insert
  lookup-insert k other v [] = refl
  lookup-insert k other v ((i, old) ∷ d) = ground (
    arith,
    text_beq_iff k other,
    text_beq_iff i k,
    text_beq_iff i other,
    lookup-insert k other v d,
  )

  pub lookup-erase :
      (k j : Text) (m : Dict V) → lookup j (erase k m) ≡ (if k == j then none else lookup j m)
  unfolding lookup erase
  lookup-erase k j [] = ground arith
  lookup-erase k j ((i, w) ∷ m) =
      ground (arith, text_beq_iff k j, text_beq_iff i k, text_beq_iff i j, lookup-erase k j m)

  -- Every key stands once.
  abbrev pub NodupKeys : Dict V → Type ℓ
  NodupKeys [] = Unit
  NodupKeys ((k, _) ∷ m) = (lookup k m ≡ none) × NodupKeys m

  -- The entries whose key passes a test.
  unfoldable pub restrict : (Text → Bool) → Dict V → Dict V
  restrict p [] = []
  restrict p ((k, v) ∷ m) = let rest = restrict p m in if p k then (k, v) ∷ rest else rest

  pub lookup-restrict :
      (p : Text → Bool) (j : Text) (m : Dict V)
      → lookup j (restrict p m) ≡ (if p j then lookup j m else none)
  unfolding lookup restrict
  lookup-restrict p j [] = ground arith
  lookup-restrict p j ((i, w) ∷ m) =
      ground (arith, text_beq_iff i j, lookup-restrict p j m, lookup-restrict p i m)

  pub restrict-NodupKeys : (p : Text → Bool) (m : Dict V) → NodupKeys m → NodupKeys (restrict p m)
  unfolding restrict
  restrict-NodupKeys p [] u = u
  restrict-NodupKeys p ((k, v) ∷ m) (fresh, u) =
      ground (arith, lookup-restrict p k m, restrict-NodupKeys p m u)

  pub insert-NodupKeys : (k : Text) (v : V) (m : Dict V) → NodupKeys m → NodupKeys (insert k v m)
  unfolding insert lookup
  insert-NodupKeys k v [] u = (refl, tt)
  insert-NodupKeys k v ((j, w) ∷ m) (fresh, u) =
      ground
        (arith, lookup-insert k j v m, text_beq_iff k j, text_beq_iff j k, insert-NodupKeys k v m u)

  pub erase-NodupKeys : (k : Text) (m : Dict V) → NodupKeys m → NodupKeys (erase k m)
  unfolding erase
  erase-NodupKeys k [] u = u
  erase-NodupKeys k ((j, w) ∷ m) (fresh, u) =
      ground (arith, lookup-erase k j m, erase-NodupKeys k m u)
