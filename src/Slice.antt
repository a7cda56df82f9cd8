-- ===== src/Slice.antt =====
-- pkg/slice/string.go. Go leaves the order of iteration over a map open: it is the parameter `order`.
pub mod Laws
use singularity_cri.Base.{◌≡◌, ℕ, suc, List, [], ◌∷◌, ◌++◌, Bool, true, false, ◌==◌, if◌then◌else◌}
use singularity_cri.Base.Text.{Text, text_eq}

abbrev pub contains : List Text → Text → Bool
contains [] x = false
contains (y ∷ ys) x = if y == x then true else contains ys x

-- How often a text stands in a list.
unfoldable pub count : Text → List Text → ℕ
count x [] = 0
count x (y ∷ ys) = if y == x then suc (count x ys) else count x ys

-- What Go promises of a range over a map: every key comes once.
abbrev pub IsOrder : (List Text → List Text) → Type 0
IsOrder order = (keys : List Text) (x : Text) → count x (order keys) ≡ count x keys

-- The keys of the map `unique` after the loop over the strings.
unfoldable pub unique : List Text → List Text → List Text
unique seen [] = seen
unique seen (tag ∷ tags) = unique (if contains seen tag then seen else tag ∷ seen) tags

unfoldable pub merge_string : (List Text → List Text) → List Text → List Text → List Text
unfolding unique
merge_string order a v = order (unique [] (a ++ v))

unfoldable pub remove_from_string : List Text → Text → List Text
remove_from_string [] v = []
remove_from_string (str ∷ a) v = if str == v then a else str ∷ remove_from_string a v
