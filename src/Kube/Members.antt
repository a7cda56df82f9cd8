-- ===== src/Kube/Members.antt =====
-- addContainer and removeContainer of pkg/kube/pod.go: a slice changed in place.
pub mod Laws
pub mod Array
use singularity_cri.Base.{
  ℕ, zero, suc, ◌+◌, ◌-◌, Bool, true, false, Option, none, some, List, [], ◌∷◌, ◌++◌, ◌==◌,
  if◌then◌else◌,
}
use singularity_cri.Base.Text.{Text, text_eq}
use singularity_cri.Slice.{contains}
use singularity_cri.Kube.Types.{Members}

abbrev pub take {ℓ} : {A : Type ℓ} → ℕ → List A → List A
take zero xs = []
take (suc n) [] = []
take (suc n) (x ∷ xs) = x ∷ take n xs

abbrev pub drop {ℓ} : {A : Type ℓ} → ℕ → List A → List A
drop zero xs = xs
drop (suc n) [] = []
drop (suc n) (x ∷ xs) = drop n xs

-- The elements of the slice.
abbrev pub live : Members → List Text
live m = take m.len m.cells

-- append(p.containers, cont): the next cell of the array, or a new array where there is none.
unfoldable pub append_member : Members → Text → Members
append_member m c = record {
  cells = take m.len m.cells ++ (c ∷ drop (suc m.len) m.cells);
  len = suc m.len;
}

unfoldable pub add_container : Members → Text → Members
unfolding append_member
add_container m c = if contains (live m) c then m else append_member m c

-- The index at which the loop over the slice finds the container.
abbrev next_index : Option ℕ → Option ℕ
next_index none = none
next_index (some i) = some (suc i)

unfoldable pub index_of : List Text → Text → Option ℕ
index_of [] c = none
index_of (x ∷ xs) c = if x == c then some 0 else next_index (index_of xs c)

-- append(p.containers[:i], p.containers[i+1:]...): the elements behind i move one cell down, in the
-- same array, whose last cell in use keeps what it held.
unfoldable pub remove_at : Members → Option ℕ → Members
remove_at m none = m
remove_at m (some i) = record {
  cells = take i m.cells ++ (drop (suc i) (take m.len m.cells) ++ drop (m.len - 1) m.cells);
  len = m.len - 1;
}

unfoldable pub remove_container : Members → Text → Members
unfolding index_of remove_at
remove_container m c = remove_at m (index_of (live m) c)
