-- ===== src/Kube/Capabilities/Laws.antt =====
-- prepareCapabilities: the normalized capabilities that are not excluded, or a panic.
use singularity_cri.Base.{
  ◌≡◌, refl, ◌∙◌, ap, nat_eq, true, false, none, some, List, [], ◌∷◌, ◌++◌, if◌then◌else◌, arith,
  Bool-cases, inl, inr, suc, length, length-append,
}
use singularity_cri.Base.Text.{Text, text_eq, text_beq_iff}
use singularity_cri.Base.Result.{ok, panic}
use mathlib.Core.List.{reverse, reverse-cons, reverse-reverse, append_assoc, append-nil}
use mathlib.Core.Path.{subst}
use singularity_cri.Slice.{contains}
use singularity_cri.Kube.Capabilities.{
  get_elem?, remove_index, exclude_at, exclude_below, prepare_capabilities,
}

-- The capabilities that are not excluded, in order.
unfoldable pub without : List Text → List Text → List Text
without excluded [] = []
without excluded (cap ∷ caps) =
    let rest = without excluded caps in if contains excluded cap then rest else cap ∷ rest

without-append :
    (excluded xs ys : List Text)
    → without excluded (xs ++ ys) ≡ without excluded xs ++ without excluded ys
unfolding without
without-append excluded [] ys = refl
without-append excluded (x ∷ xs) ys = ground (arith, without-append excluded xs ys)

module _ (cap : Text) where
  get_elem?-middle : (xs ys : List Text) → get_elem? (xs ++ (cap ∷ ys)) (length xs) ≡ some cap
  get_elem?-middle [] ys = refl
  get_elem?-middle (x ∷ xs) ys = get_elem?-middle xs ys

  remove_index-middle : (xs ys : List Text) → remove_index (xs ++ (cap ∷ ys)) (length xs) ≡ xs ++ ys
  unfolding remove_index
  remove_index-middle [] ys = refl
  remove_index-middle (x ∷ xs) ys = ap (λ l. x ∷ l) (remove_index-middle xs ys)

  -- A capability that is not excluded stays.
  exclude_at-kept :
      (excluded xs ys : List Text)
      → contains excluded cap ≡ false
      → exclude_at excluded (xs ++ (cap ∷ ys)) (length xs) ≡ ok (xs ++ (cap ∷ ys))
  unfolding exclude_at
  exclude_at-kept [] xs ys h = refl
  exclude_at-kept (e ∷ excluded) xs ys h =
      rw (get_elem?-middle xs ys) (ground (arith, exclude_at-kept excluded xs ys))

length-reverse : (xs : List Text) → length (reverse xs) ≡ length xs
length-reverse [] = refl
length-reverse (x ∷ xs) =
    rw (reverse-cons x xs) (omega (arith, length-append (reverse xs) (x ∷ []), length-reverse xs))

get_elem?-end : (xs : List Text) → get_elem? xs (length xs) ≡ none
get_elem?-end [] = refl
get_elem?-end (x ∷ xs) = get_elem?-end xs

-- One that is excluded goes, and the next one, which is not excluded, takes its index.
exclude_at-removed :
    (cap next : Text) (excluded xs ys : List Text)
    → contains excluded cap ≡ true
    → contains excluded next ≡ false
    → exclude_at excluded (xs ++ (cap ∷ next ∷ ys)) (length xs) ≡ ok (xs ++ (next ∷ ys))
unfolding exclude_at
exclude_at-removed cap next [] xs ys h k = cc
exclude_at-removed cap next (e ∷ excluded) xs ys h k =
    rw (get_elem?-middle cap xs (next ∷ ys), remove_index-middle cap xs (next ∷ ys))
      (ground
        (arith, exclude_at-removed cap next excluded xs ys, exclude_at-kept next excluded xs ys))

-- The outer loop below an element that is not excluded, by induction on what is in front of it.
exclude_below-without :
    (excluded rs ys : List Text) (next : Text)
    → contains excluded next ≡ false
    → exclude_below excluded (length rs) (reverse rs ++ (next ∷ ys))
      ≡ ok (without excluded (reverse rs) ++ (next ∷ ys))
unfolding exclude_below without
exclude_below-without excluded [] ys next h = refl
exclude_below-without excluded (r ∷ rs) ys next h = elim (Bool-cases (contains excluded r)) [
  | inl out ↦
      rw (reverse-cons r rs, append_assoc, ← length-reverse rs)
        (rw (exclude_at-removed r next excluded (reverse rs) ys out h) (
          rw (length-reverse rs) (
            exclude_below-without excluded rs ys next h
            ∙ rw (without-append excluded (reverse rs) (r ∷ []), out, append-nil))))
  | inr in_ ↦
      rw (reverse-cons r rs, append_assoc, ← length-reverse rs)
        (rw (exclude_at-kept r excluded (reverse rs) (next ∷ ys) in_) (
          rw (length-reverse rs) (
            exclude_below-without excluded rs (next ∷ ys) r in_
            ∙ rw (without-append excluded (reverse rs) (r ∷ []), in_, append_assoc))))
]

-- Where the last of the known capabilities is not excluded, prepareCapabilities returns exactly
-- the capabilities that are not excluded, in their order, and does not panic.
pub prepare_capabilities-without :
    (excluded caps : List Text) (last : Text)
    → contains excluded last ≡ false
    → prepare_capabilities (caps ++ (last ∷ [])) excluded
      ≡ ok (without excluded (caps ++ (last ∷ [])))
unfolding prepare_capabilities without
prepare_capabilities-without excluded caps last h = rw (sized) (
    rw (exclude_at-kept last excluded caps [] h) (
      subst
        (λ l.
          exclude_below excluded (length l) (l ++ (last ∷ []))
          ≡ ok (without excluded (caps ++ (last ∷ []))))
        (reverse-reverse caps) below))
  where
    sized : length (caps ++ (last ∷ [])) ≡ suc (length caps)
    sized = omega (arith, length-append caps (last ∷ []))

    below :
        exclude_below excluded
          (length (reverse (reverse caps)))
          (reverse (reverse caps) ++ (last ∷ []))
        ≡ ok (without excluded (caps ++ (last ∷ [])))
    below = rw (length-reverse (reverse caps)) (
        exclude_below-without excluded (reverse caps) [] last h
        ∙ rw (reverse-reverse caps, without-append excluded caps (last ∷ []), h))

exclude_at-panic :
    (pre rest : List Text) (cap other : Text) (caps : List Text)
    → contains pre cap ≡ false
    → exclude_at (pre ++ (cap ∷ other ∷ rest)) (caps ++ (cap ∷ [])) (length caps) ≡ panic
unfolding exclude_at
exclude_at-panic [] rest cap other caps h =
    rw
      (
        get_elem?-middle cap caps [],
        (text_beq_iff cap cap).1 refl,
        remove_index-middle cap caps [],
        append-nil,
      )
      (rw (get_elem?-end caps))
exclude_at-panic (p ∷ pre) rest cap other caps h =
    rw (get_elem?-middle cap caps []) (ground (arith, exclude_at-panic pre rest cap other caps))

-- Where the last of the known capabilities is excluded, by an entry with others behind it,
-- prepareCapabilities panics: the inner loop reads behind the end of the slice that it has just
-- cut.
pub prepare_capabilities-panic :
    (pre rest : List Text) (cap other : Text) (caps : List Text)
    → contains pre cap ≡ false
    → prepare_capabilities (caps ++ (cap ∷ [])) (pre ++ (cap ∷ other ∷ rest)) ≡ panic
unfolding prepare_capabilities without
prepare_capabilities-panic pre rest cap other caps h =
    rw (sized) (rw (exclude_at-panic pre rest cap other caps h))
  where
    sized : length (caps ++ (cap ∷ [])) ≡ suc (length caps)
    sized = omega (arith, length-append caps (cap ∷ []))
