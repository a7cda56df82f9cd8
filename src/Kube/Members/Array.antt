-- ===== src/Kube/Members/Array.antt =====
-- What removeContainer does to the array behind the slice while a loop runs over it.
use singularity_cri.Base.{
  ◌≡◌, refl, ◌≢◌, ℕ, nat_eq, false, Option, none, some, List, [], ◌∷◌, ◌++◌, arith, ◌-◌, zero, suc,
}
use singularity_cri.Base.Text.{Text, text_eq, text_beq_iff}
use singularity_cri.Slice.{contains}
use singularity_cri.Slice.Laws.{contains-append}
use singularity_cri.Kube.Types.{Members}
use singularity_cri.Kube.Capabilities.{get_elem?}
use singularity_cri.Kube.Members.{take, drop, index_of, remove_at, remove_container}

contains-take :
    (n : ℕ) (xs : List Text) (b : Text) → contains xs b ≡ false → contains (take n xs) b ≡ false
contains-take zero xs b h = refl
contains-take (suc n) [] b h = refl
contains-take (suc n) (x ∷ xs) b h = ground (arith, contains-take n xs b)

contains-drop :
    (n : ℕ) (xs : List Text) (b : Text) → contains xs b ≡ false → contains (drop n xs) b ≡ false
contains-drop zero xs b h = h
contains-drop (suc n) [] b h = refl
contains-drop (suc n) (x ∷ xs) b h = ground (arith, contains-drop n xs b)

pub get_elem?-ne :
    (xs : List Text) (i : ℕ) (b x : Text) → contains xs b ≡ false → get_elem? xs i ≡ some x → x ≢ b
get_elem?-ne [] i b x h e = cc
get_elem?-ne (y ∷ xs) zero b x h e = ground (arith, text_beq_iff y b)
get_elem?-ne (y ∷ xs) (suc i) b x h e = get_elem?-ne xs i b x (ground arith) e

-- A container stands in the first cell of the array, and in no other.
abbrev pub FirstOnly : Text → Members → Type 0
FirstOnly b m = (ds : List Text) × (m.cells ≡ b ∷ ds) × (contains ds b ≡ false)

suc-minus : (n : ℕ) → suc n - 1 ≡ n
suc-minus n = omega arith

-- The cells behind the first after a container further on was removed.
moved :
    (b x : Text) (ds : List Text) (l j : ℕ)
    → index_of (take l ds) x ≡ some j
    → contains ds b ≡ false
    → FirstOnly b (remove_at (record { cells = b ∷ ds; len = suc l }) (some (suc j)))
unfolding remove_at index_of
moved b x ds zero j e h = cc
moved b x ds (suc k) j e h = (
  take j ds ++ (drop (suc j) (take (suc k) ds) ++ drop k ds),
  rw (suc-minus (suc k)),
  ground (
    arith,
    contains-append (take j ds) (drop (suc j) (take (suc k) ds) ++ drop k ds) b,
    contains-append (drop (suc j) (take (suc k) ds)) (drop k ds) b,
    contains-take j ds b h,
    contains-drop (suc j) (take (suc k) ds) b (contains-take (suc k) ds b h),
    contains-drop k ds b h,
  ),
)

FirstOnly-cells :
    (b x : Text) (ds : List Text) (l : ℕ)
    → x ≢ b
    → contains ds b ≡ false
    → FirstOnly b (remove_container (record { cells = b ∷ ds; len = l }) x)
unfolding remove_container
FirstOnly-cells b x ds zero ne h = (ds, refl, h)
FirstOnly-cells b x ds (suc l) ne h = go (index_of (take l ds) x) refl
  where
    go :
        (o : Option ℕ)
        → index_of (take l ds) x ≡ o
        → FirstOnly b (remove_container (record { cells = b ∷ ds; len = suc l }) x)
    go none e = rw (other) (ds, refl, h)
      where
        other :
            remove_container (record { cells = b ∷ ds; len = suc l }) x
            ≡ record { cells = b ∷ ds; len = suc l }
        other = ground (arith, text_beq_iff b x)
    go (some j) e = rw (other) (moved b x ds l j e h)
      where
        other :
            remove_container (record { cells = b ∷ ds; len = suc l }) x
            ≡ remove_at (record { cells = b ∷ ds; len = suc l }) (some (suc j))
        other = ground (arith, text_beq_iff b x)

-- Removing another container does not move it.
pub remove_container-FirstOnly :
    (m : Members) (b x : Text) → x ≢ b → FirstOnly b m → FirstOnly b (remove_container m x)
remove_container-FirstOnly m b x ne (ds, e, h) = rw (shape) (FirstOnly-cells b x ds m.len ne h)
  where
    shape : m ≡ record { cells = b ∷ ds; len = m.len }
    shape = ground arith

shifted :
    (a b : Text) (ds : List Text) (l : ℕ)
    → contains ds b ≡ false
    → FirstOnly b (remove_container (record { cells = a ∷ b ∷ ds; len = suc (suc (suc l)) }) a)
unfolding remove_container remove_at index_of
shifted a b ds l h =
    rw ((text_beq_iff a a).1 refl, remove_at)
      (
        take (suc l) ds ++ drop l ds,
        rw (suc-minus (suc (suc l))),
        ground (
          arith,
          contains-append (take (suc l) ds) (drop l ds) b,
          contains-take (suc l) ds b h,
          contains-drop l ds b h,
        ),
      )

-- Removing the first of three or more containers puts the second into the first cell.
pub remove_container-shifts :
    (m : Members) (a b : Text) (ds : List Text) (l : ℕ)
    → m.cells ≡ a ∷ b ∷ ds
    → m.len ≡ suc (suc (suc l))
    → contains ds b ≡ false
    → FirstOnly b (remove_container m a)
remove_container-shifts m a b ds l e n h = rw (shape) (shifted a b ds l h)
  where
    shape : m ≡ record { cells = a ∷ b ∷ ds; len = suc (suc (suc l)) }
    shape = ground arith
