-- ===== src/TruncIndex/Ids.antt =====
-- Keys of one length, as the IDs of pods, containers and images are: then a whole key is never a
-- proper prefix of another, and Get by a whole ID is a lookup.
use singularity_cri.Base.{◌≡◌, refl, ◌∙◌, sym, true, Option, none, some, arith, is_some, ℕ, length}
use singularity_cri.Base.Text.{
  Text, text_eq, text_beq_iff, has_prefix, has_prefix_refl, has_prefix-eq,
}
use singularity_cri.Base.Result.{Result, ok, err, sentinel, Sentinel}
use singularity_cri.Patricia.{Trie, IsLawful}
use singularity_cri.TruncIndex.{TruncIndex, check_key, get, add, delete}
use singularity_cri.TruncIndex.Keys.{IsConsistent, item_at-add, item_at-delete}
use singularity_cri.TruncIndex.Get.{get_unique, get_absent}

module _ {A : Type 0} (T : Trie A) where
  abbrev pub HasLength : ℕ → TruncIndex T → Type 0
  HasLength n idx = (k : Text) → is_some (T.item_at idx.trie k) ≡ true → length k ≡ n

  -- What Get of a whole ID returns, over the map of items.
  abbrev pub found : Option A → Result A
  found (some a) = ok a
  found none = err (sentinel Sentinel.item_not_found)

module _ {A : Type 0} (T : Trie A) (L : IsLawful T) (n : ℕ) (idx : TruncIndex T)
    (inv : IsConsistent T idx) (sized : HasLength T n idx) (key : Text)
    (size : length key ≡ n) where
  same_key : (j : Text) → is_some (T.item_at idx.trie j) ≡ true → has_prefix j key ≡ true → j ≡ key
  same_key j h p = has_prefix-eq j key p (sized j h ∙ sym size)

  get_item :
      (o : Option A)
      → T.item_at idx.trie key ≡ o
      → check_key key ≡ ok tt
      → get T idx key ≡ found T o
  get_item (some a) e c = get_unique T L idx key c key a e (has_prefix_refl key) same_key
  get_item none e c = get_absent T L idx key c (λ j p. absent j (T.item_at idx.trie j) refl p)
    where
      absent :
          (j : Text) (o : Option A) → T.item_at idx.trie j ≡ o → has_prefix j key ≡ true → o ≡ none
      absent j none h p = refl
      absent j (some a) h p = ground (arith, same_key j)

  -- In a consistent index over a lawful trie whose keys all have one length, Get of a text of that
  -- length that passes the checks is the lookup of that very key: its item, or ErrNotFound.
  pub get-eq-found : check_key key ≡ ok tt → get T idx key ≡ found T (T.item_at idx.trie key)
  get-eq-found c = get_item (T.item_at idx.trie key) refl c

  pub add-HasLength : (item : A) → HasLength T n (add T idx key item).1
  add-HasLength item k h =
      ground (arith, item_at-add T L idx inv key item k, text_beq_iff key k, sized k)

  pub delete-HasLength : HasLength T n (delete T idx key).1
  delete-HasLength k h = ground (arith, item_at-delete T L idx inv key k, sized k)
