-- ===== src/Slice/Laws.antt =====
-- MergeString is the union of two sets, RemoveFromString takes one occurrence out.
use singularity_cri.Base.{
  ◌≡◌, refl, ℕ, zero, suc, ◌-◌, ◌≤◌, List, [], ◌∷◌, ◌++◌, Bool, true, false, ◌==◌, ◌||◌,
  if◌then◌else◌, arith, ◌∙◌,
}
use singularity_cri.Base.Text.{Text, text_eq, text_beq_iff}
use singularity_cri.Slice.{contains, count, IsOrder, unique, merge_string, remove_from_string}

pub contains-append :
    (xs ys : List Text) (x : Text) → contains (xs ++ ys) x ≡ (contains xs x || contains ys x)
contains-append [] ys x = refl
contains-append (y ∷ xs) ys x = ground (arith, contains-append xs ys x)

-- A text is contained when it is counted.
pub contains-count :
    (x : Text) (xs : List Text)
    → contains xs x ≡ (elim (count x xs) [ zero ↦ false | suc _ ↦ true ])
unfolding count
contains-count x [] = refl
contains-count x (y ∷ ys) = ground (arith, contains-count x ys)

abbrev pub one_if : Bool → ℕ
one_if true = 1
one_if false = 0

-- The map holds what it held and what is added, each once.
count-unique :
    (x : Text) (seen tags : List Text)
    → count x seen ≡ one_if (contains seen x)
    → count x (unique seen tags) ≡ one_if (contains seen x || contains tags x)
unfolding unique count
count-unique x seen [] h = ground arith
count-unique x seen (tag ∷ tags) h =
    count-unique x (if contains seen tag then seen else tag ∷ seen) tags
      (ground (arith, text_beq_iff tag x))
    ∙ ground (arith, text_beq_iff tag x)

-- Whatever the order of the map, the merge holds the strings of both slices, each exactly once.
pub count-merge_string :
    (order : List Text → List Text) (a v : List Text) (x : Text)
    → IsOrder order
    → count x (merge_string order a v) ≡ one_if (contains a x || contains v x)
unfolding merge_string
count-merge_string order a v x o =
    o (unique [] (a ++ v)) x
    ∙ ground (arith, count-unique x [] (a ++ v) (unfold count in refl), contains-append a v x)

pub contains-merge_string :
    (order : List Text → List Text) (a v : List Text) (x : Text)
    → IsOrder order
    → contains (merge_string order a v) x ≡ (contains a x || contains v x)
contains-merge_string order a v x o =
    ground (arith, contains-count x (merge_string order a v), count-merge_string order a v x o)

-- One occurrence of the string goes, and nothing else.
pub count-remove_from_string :
    (a : List Text) (v x : Text)
    → count x (remove_from_string a v) ≡ (if v == x then count x a - 1 else count x a)
unfolding count remove_from_string
count-remove_from_string [] v x = ground arith
count-remove_from_string (str ∷ a) v x = ground (
  arith,
  count-remove_from_string a v x,
  text_beq_iff str v,
  text_beq_iff v x,
  text_beq_iff str x,
)

-- A value that is listed at most once is gone, and no other is.
pub contains-remove_from_string :
    (a : List Text) (v x : Text)
    → count v a ≤ 1
    → contains (remove_from_string a v) x ≡ (if v == x then false else contains a x)
contains-remove_from_string a v x once = ground (
  arith,
  contains-count x (remove_from_string a v),
  contains-count x a,
  count-remove_from_string a v x,
  text_beq_iff v x,
  once,
)
