-- ===== src/Kube/Members/Laws.antt =====
-- addContainer and removeContainer on the elements of the slice, and on the array behind it.
use singularity_cri.Base.{
  ◌≡◌, refl, ◌∙◌, ap, sym, ℕ, nat_eq, Option, none, some, List, [], ◌∷◌, ◌++◌, ◌==◌, arith,
  Bool-cases, inl, inr, ◌||◌, ◌-◌, ◌≤◌, ◌<◌, zero, suc, length, length-append,
}
use singularity_cri.Base.Text.{Text, text_eq, text_beq_iff}
use singularity_cri.Slice.{contains, remove_from_string}
use singularity_cri.Slice.Laws.{contains-append}
use singularity_cri.Kube.Types.{Members}
use singularity_cri.Kube.Members.{
  take, drop, live, append_member, add_container, index_of, remove_at, remove_container,
}

module _ {ℓ} {A : Type ℓ} where
  take-take : (i n : ℕ) (xs : List A) → i ≤ n → take i (take n xs) ≡ take i xs
  take-take zero n xs h = refl
  take-take (suc i) zero xs h = absurd (omega arith)
  take-take (suc i) (suc n) [] h = refl
  take-take (suc i) (suc n) (x ∷ xs) h = ap (λ l. x ∷ l) (take-take i n xs (omega arith))

  take-append_length : (n : ℕ) (xs ys : List A) → n ≡ length xs → take n (xs ++ ys) ≡ xs
  take-append_length zero [] ys h = refl
  take-append_length zero (x ∷ xs) ys h = absurd (omega arith)
  take-append_length (suc n) [] ys h = absurd (omega arith)
  take-append_length (suc n) (x ∷ xs) ys h =
      ap (λ l. x ∷ l) (take-append_length n xs ys (omega arith))

  length-take_le : (n : ℕ) (xs : List A) → n ≤ length xs → length (take n xs) ≡ n
  length-take_le zero xs h = refl
  length-take_le (suc n) [] h = absurd (omega arith)
  length-take_le (suc n) (x ∷ xs) h = omega (arith, length-take_le n xs)

  length-drop : (n : ℕ) (xs : List A) → length (drop n xs) ≡ length xs - n
  length-drop zero xs = omega arith
  length-drop (suc n) [] = omega arith
  length-drop (suc n) (x ∷ xs) = omega (arith, length-drop n xs)

  append_assoc3 : (xs ys zs : List A) → xs ++ (ys ++ zs) ≡ (xs ++ ys) ++ zs
  append_assoc3 [] ys zs = refl
  append_assoc3 (x ∷ xs) ys zs = ap (λ l. x ∷ l) (append_assoc3 xs ys zs)

-- The slice lies within its array.
abbrev pub Fits : Members → Type 0
Fits m = m.len ≤ length m.cells

index_of-some :
    (xs : List Text) (c : Text) (i : ℕ)
    → index_of xs c ≡ some i
    → (take i xs ++ drop (suc i) xs ≡ remove_from_string xs c) × (i < length xs)
unfolding index_of remove_from_string
index_of-some [] c i h = cc
index_of-some (x ∷ xs) c zero h = (ground arith, omega arith)
index_of-some (x ∷ xs) c (suc i) h = ground (arith, index_of-some xs c i)

index_of-none : (xs : List Text) (c : Text) → index_of xs c ≡ none → remove_from_string xs c ≡ xs
unfolding index_of remove_from_string
index_of-none [] c h = refl
index_of-none (x ∷ xs) c h = ground (arith, index_of-none xs c)

in_reach : (m : Members) (i : ℕ) → Fits m → i < length (live m) → i ≤ m.len
in_reach m i fits h = omega (arith, length-take_le m.len m.cells fits)

shorter :
    (m : Members) (i : ℕ)
    → Fits m
    → i < length (live m)
    → m.len - 1 ≡ length (take i m.cells ++ drop (suc i) (live m))
shorter m i fits h = omega (
  arith,
  length-append (take i m.cells) (drop (suc i) (live m)),
  length-drop (suc i) (live m),
  length-take_le m.len m.cells fits,
  length-take_le i m.cells (omega (arith, length-take_le m.len m.cells fits)),
)

-- What removeContainer leaves in the slice is what removing the first occurrence leaves.
live-remove_at :
    (m : Members) (c : Text) (i : ℕ)
    → Fits m
    → index_of (live m) c ≡ some i
    → live (remove_at m (some i)) ≡ remove_from_string (live m) c
unfolding remove_at
live-remove_at m c i fits h =
    let found = index_of-some (live m) c i h in
    let front : take i m.cells ≡ take i (live m) =
      sym (take-take i m.len m.cells (in_reach m i fits found.1)) in
    rw (append_assoc3 (take i m.cells) (drop (suc i) (live m)) (drop (m.len - 1) m.cells)) (
      take-append_length (m.len - 1) (take i m.cells ++ drop (suc i) (live m)) _
        (shorter m i fits found.1)
      ∙ ap (λ (l : List Text). l ++ drop (suc i) (live m)) front
      ∙ found.0)

-- For a slice that lies within its array, after addContainer the slice holds what it held, and the
-- container.
pub live-add_container :
    (m : Members) (c x : Text)
    → Fits m
    → contains (live (add_container m c)) x ≡ (contains (live m) x || c == x)
unfolding add_container append_member
live-add_container m c x fits = elim (Bool-cases (contains (live m) c)) [
  | inl old ↦ rw old (ground (arith, text_beq_iff c x))
  | inr new ↦ rw new (rw (taken) (ground (arith, contains-append (live m) (c ∷ []) x)))
]
  where
    taken :
        take (suc m.len) (take m.len m.cells ++ (c ∷ drop (suc m.len) m.cells)) ≡ live m ++ (c ∷ [])
    taken =
        ap (take (suc m.len)) (append_assoc3 (live m) (c ∷ []) (drop (suc m.len) m.cells))
        ∙ take-append_length (suc m.len) (live m ++ (c ∷ [])) (drop (suc m.len) m.cells)
            (omega (arith, length-append (live m) (c ∷ []), length-take_le m.len m.cells fits))

-- For a slice that lies within its array, what removeContainer leaves in the slice is the slice
-- without the first occurrence of the container.
pub live-remove_container :
    (m : Members) (c : Text) → Fits m → live (remove_container m c) ≡ remove_from_string (live m) c
unfolding remove_container
live-remove_container m c fits = go (index_of (live m) c) refl
  where
    go :
        (o : Option ℕ)
        → index_of (live m) c ≡ o
        → live (remove_at m o) ≡ remove_from_string (live m) c
    go none e = sym (index_of-none (live m) c e)
    go (some i) e = live-remove_at m c i fits e

pub remove_container-Fits : (m : Members) (c : Text) → Fits m → Fits (remove_container m c)
unfolding remove_container
remove_container-Fits m c fits = go (index_of (live m) c) refl
  where
    go : (o : Option ℕ) → index_of (live m) c ≡ o → Fits (remove_at m o)
    go none e = fits
    go (some i) e = omega (
      arith,
      shorter m i fits (index_of-some (live m) c i e).1,
      length-append (take i m.cells) (drop (suc i) (live m) ++ drop (m.len - 1) m.cells),
      length-append (take i m.cells) (drop (suc i) (live m)),
      length-append (drop (suc i) (live m)) (drop (m.len - 1) m.cells),
    )

pub add_container-Fits : (m : Members) (c : Text) → Fits m → Fits (add_container m c)
unfolding add_container append_member
add_container-Fits m c fits = ground (
  arith,
  length-append (take m.len m.cells) (c ∷ drop (suc m.len) m.cells),
  length-take_le m.len m.cells fits,
)
