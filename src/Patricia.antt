-- ===== src/Patricia.antt =====
-- What the program calls of github.com/tchap/go-patricia, and what that package documents. Items
-- are never nil, so that every item stored is visited.
use mathlib.Core.Path.{◌≡◌, refl}
use singularity_cri.Base.{Bool, true, false, Option, none, some, if◌then◌else◌, ◌==◌, []}
use singularity_cri.Base.{is_some}
use singularity_cri.Base.Text.{Text, text_eq, has_prefix}
use singularity_cri.Base.Dict
use singularity_cri.Base.Dict.{Dict, lookup, NodupKeys}

pub record Trie (A : Type 0) : Type 1 where
  pub Node : Type 0
  pub empty : Node
  pub insert : Node → Text → A → Bool × Node
  pub delete : Node → Text → Bool × Node
  -- the keys and items that VisitSubtree hands to a visitor that never stops it
  pub visit_subtree : Node → Text → Dict A
  -- the item located at a key (patricia's Get)
  pub item_at : Node → Text → Option A

pub record IsLawful {A : Type 0} (T : Trie A) : Type 0 where
  pub item_at-empty : (k : Text) → T.item_at T.empty k ≡ none
  -- "Insert does not replace existing items. It returns false if an item was already in place."
  pub insert_done :
      (t : T.Node) (k : Text) (a : A)
      → (T.insert t k a).0 ≡ (if is_some (T.item_at t k) then false else true)
  pub item_at-insert :
      (t : T.Node) (k j : Text) (a : A)
      → T.item_at t k ≡ none
      → T.item_at (T.insert t k a).1 j ≡ (if k == j then some a else T.item_at t j)
  -- "True is returned if the matching node was found and deleted."
  pub delete_done : (t : T.Node) (k : Text) → (T.delete t k).0 ≡ is_some (T.item_at t k)
  pub item_at-delete :
      (t : T.Node) (k j : Text)
      → T.item_at (T.delete t k).1 j ≡ (if k == j then none else T.item_at t j)
  -- "VisitSubtree only visits nodes matching prefix", each once.
  pub visited_once : (t : T.Node) (p : Text) → NodupKeys (T.visit_subtree t p)
  pub visited :
      (t : T.Node) (p k : Text)
      → lookup k (T.visit_subtree t p) ≡ (if has_prefix k p then T.item_at t k else none)

-- Entries with one for each key, visited in the order of insertion.
abbrev Entries : Type 0 → Type 0
Entries A = (d : Dict A) × NodupKeys d

abbrev insert_new : {A : Type 0} → Entries A → Text → A → Option A → Bool × Entries A
insert_new t k a (some _) = (false, t)
insert_new t k a none = (true, (Dict.insert k a t.0, Dict.insert-NodupKeys k a t.0 t.1))

abbrev pub list_trie : (A : Type 0) → Trie A
list_trie A = record {
  Node = Entries A;
  empty = ([], tt);
  insert = λ t k a. insert_new t k a (lookup k t.0);
  delete = λ t k. (is_some (lookup k t.0), (Dict.erase k t.0, Dict.erase-NodupKeys k t.0 t.1));
  visit_subtree = λ t p. Dict.restrict (λ k. has_prefix k p) t.0;
  item_at = λ t k. lookup k t.0;
}

insert_new-done :
    {A : Type 0} (t : Entries A) (k : Text) (a : A) (o : Option A)
    → (insert_new t k a o).0 ≡ (if is_some o then false else true)
insert_new-done t k a (some _) = refl
insert_new-done t k a none = refl

lookup-insert_new :
    {A : Type 0} (t : Entries A) (k j : Text) (a : A) (o : Option A)
    → o ≡ none
    → lookup j (insert_new t k a o).1.0 ≡ (if k == j then some a else lookup j t.0)
lookup-insert_new t k j a (some _) h = cc
lookup-insert_new t k j a none h = Dict.lookup-insert k j a t.0

-- A trie that meets the assumptions.
pub list_trie-IsLawful : (A : Type 0) → IsLawful (list_trie A)
unfolding lookup
list_trie-IsLawful A = record {
  item_at-empty = λ k. refl;
  insert_done = λ t k a. insert_new-done t k a (lookup k t.0);
  item_at-insert = λ t k j a h. lookup-insert_new t k j a (lookup k t.0) h;
  delete_done = λ t k. refl;
  item_at-delete = λ t k j. Dict.lookup-erase k j t.0;
  visited_once = λ t p. Dict.restrict-NodupKeys (λ k. has_prefix k p) t.0 t.1;
  visited = λ t p k. Dict.lookup-restrict (λ j. has_prefix j p) k t.0;
}
