-- ===== src/TruncIndex/Keys.antt =====
-- Add and Delete as a partial map from keys to items.
use singularity_cri.Base.{◌≡◌, true, Option, none, some, arith, if◌then◌else◌}
use singularity_cri.Base.{◌==◌, is_some}
use singularity_cri.Base.Text.{Text, text_eq, text_beq_iff}
use singularity_cri.Base.Dict.{lookup, lookup-insert, lookup-erase}
use singularity_cri.Base.Result.{Result, ok, err, sentinel, Sentinel, ◌>>=◌}
use singularity_cri.Patricia.{Trie, IsLawful}
use singularity_cri.TruncIndex.{TruncIndex, check_key, empty, add, delete}

module _ {A : Type 0} (T : Trie A) where
  -- The key set and the trie hold the same keys, and only keys that Add lets through.
  pub record IsConsistent (idx : TruncIndex T) : Type 0 where
    pub same_keys : (k : Text) → is_some (lookup k idx.keys) ≡ is_some (T.item_at idx.trie k)
    pub checked : (k : Text) → is_some (T.item_at idx.trie k) ≡ true → check_key k ≡ ok tt

  -- What Add promises of its error, over the map of items.
  abbrev pub add_outcome : TruncIndex T → Text → Result (Unit {0})
  add_outcome idx key = check_key key >>= λ _.
      if is_some (T.item_at idx.trie key) then err (sentinel Sentinel.already_exists) else ok tt

  abbrev pub delete_outcome : TruncIndex T → Text → Result (Unit {0})
  delete_outcome idx key = check_key key >>= λ _.
      if is_some (T.item_at idx.trie key) then ok tt else err (sentinel Sentinel.item_not_found)

  abbrev pub when_ok : Result (Unit {0}) → Option A → Option A → Option A
  when_ok (ok _) new old = new
  when_ok _ new old = old

module _ {A : Type 0} (T : Trie A) (L : IsLawful T) where
  pub empty-IsConsistent : IsConsistent T (empty T)
  unfolding empty lookup
  empty-IsConsistent = record {
    same_keys = λ k. rw (L.item_at-empty k);
    checked = λ k h. cc (L.item_at-empty k);
  }

module _ {A : Type 0} (T : Trie A) (L : IsLawful T) (idx : TruncIndex T) (inv : IsConsistent T idx)
    (key : Text) where
  -- In a consistent index over a lawful trie, Add fails exactly with the error of the checks on
  -- the key, or with ErrAlreadyExists where the trie has the key; otherwise it succeeds.
  pub add-outcome : (item : A) → (add T idx key item).0 ≡ add_outcome T idx key
  unfolding add
  add-outcome item = ground (arith, inv.same_keys key, L.insert_done idx.trie key item)

  -- In a consistent index over a lawful trie, an Add that returns no error puts the item under the
  -- key and leaves every other key alone, and one that returns an error changes no item.
  pub item_at-add :
      (item : A) (j : Text)
      → T.item_at (add T idx key item).1.trie j
        ≡ when_ok T
            (add T idx key item).0
            (if key == j then some item else T.item_at idx.trie j)
            (T.item_at idx.trie j)
  unfolding add
  item_at-add item j = ground (
    arith,
    inv.same_keys key,
    L.insert_done idx.trie key item,
    L.item_at-insert idx.trie key j item,
  )

  -- Add on a consistent index over a lawful trie leaves it consistent: the key set and the trie
  -- hold the same keys, all of which pass the checks.
  pub add-IsConsistent : (item : A) → IsConsistent T (add T idx key item).1
  unfolding add
  add-IsConsistent item = record {
    same_keys = λ k. ground (
      arith,
      inv.same_keys key,
      inv.same_keys k,
      L.insert_done idx.trie key item,
      L.item_at-insert idx.trie key k item,
      lookup-insert key k tt idx.keys,
    );
    checked = λ k h. ground (
      arith,
      inv.same_keys key,
      inv.checked k,
      L.insert_done idx.trie key item,
      L.item_at-insert idx.trie key k item,
      text_beq_iff key k,
    );
  }

  -- In a consistent index over a lawful trie, Delete fails exactly with the error of the checks on
  -- the key, or with ErrNotFound where the trie does not have the key; otherwise it succeeds.
  pub delete-outcome : (delete T idx key).0 ≡ delete_outcome T idx key
  unfolding delete
  delete-outcome = ground (arith, inv.same_keys key, L.delete_done idx.trie key)

  -- In a consistent index over a lawful trie, Delete where it succeeds removes the item of the key
  -- and leaves every other key alone, and where it fails it changes no item.
  pub item_at-delete :
      (j : Text)
      → T.item_at (delete T idx key).1.trie j
        ≡ when_ok T
            (delete_outcome T idx key)
            (if key == j then none else T.item_at idx.trie j)
            (T.item_at idx.trie j)
  unfolding delete
  item_at-delete j =
      ground (arith, inv.same_keys key, L.delete_done idx.trie key, L.item_at-delete idx.trie key j)

  -- Delete on a consistent index over a lawful trie leaves it consistent.
  pub delete-IsConsistent : IsConsistent T (delete T idx key).1
  unfolding delete
  delete-IsConsistent = record {
    same_keys = λ k. ground (
      arith,
      inv.same_keys key,
      inv.same_keys k,
      L.delete_done idx.trie key,
      L.item_at-delete idx.trie key k,
      lookup-erase key k idx.keys,
    );
    checked = λ k h. ground (
      arith,
      inv.same_keys key,
      inv.checked k,
      L.delete_done idx.trie key,
      L.item_at-delete idx.trie key k,
      text_beq_iff key k,
    );
  }
