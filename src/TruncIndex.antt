-- ===== src/TruncIndex.antt =====
-- pkg/truncindex/truncindex.go: items under string keys, found by any prefix of a key that no other
-- key shares. The patricia trie of github.com/tchap/go-patricia is the parameter `T`; the mutex has
-- no counterpart, since each method holds it from its first read to its last write.

pub mod Keys
pub mod Get
pub mod Ids
use singularity_cri.Base.{ℕ, String, Bool, true, false, List, [], ◌∷◌}
use singularity_cri.Base.{if◌then◌else◌, is_nil}
use singularity_cri.Base.Text.{Text, has_byte}
use singularity_cri.Base.Dict.{Dict, insert, erase, has_key}
use singularity_cri.Base.Result.{
  Result, ok, err, Error, sentinel, Sentinel, ambiguous_prefix, errorf,
}
use singularity_cri.Patricia.{Trie}

pub record TruncIndex {A : Type 0} (T : Trie A) : Type 0 where
  pub trie : T.Node
  pub keys : Dict (Unit {0})

-- The tests at the head of Add, Delete and Get.
unfoldable pub check_key : Text → Result (Unit {0})
unfolding has_byte
check_key key =
    if is_nil key
    then err (sentinel Sentinel.empty_prefix)
    else if has_byte b' ' key
    then err (sentinel Sentinel.illegal_char)
    else ok tt

module _ {A : Type 0} (T : Trie A) where
  unfoldable pub empty : TruncIndex T
  empty = record { trie = T.empty; keys = [] }

  insert_item : TruncIndex T → Text → Bool × T.Node → Result (Unit {0}) × TruncIndex T
  insert_item idx key (true, trie) = (ok tt, record { trie = trie; keys = insert key tt idx.keys })
  insert_item idx key (false, trie) =
      (err (errorf "could not insert item for key"), record idx { trie = trie })

  add_checked : TruncIndex T → Text → A → Result (Unit {0}) → Result (Unit {0}) × TruncIndex T
  unfolding insert_item
  add_checked idx key item (ok _) =
      if has_key key idx.keys
      then (err (sentinel Sentinel.already_exists), idx)
      else insert_item idx key (T.insert idx.trie key item)
  add_checked idx key item (err e) = (err e, idx)
  add_checked idx key item Result.panic = (Result.panic, idx)

  unfoldable pub add : TruncIndex T → Text → A → Result (Unit {0}) × TruncIndex T
  unfolding add_checked
  add idx key item = add_checked idx key item (check_key key)

  delete_item : TruncIndex T → Text → Bool × T.Node → Result (Unit {0}) × TruncIndex T
  delete_item idx key (true, trie) = (ok tt, record { trie = trie; keys = erase key idx.keys })
  delete_item idx key (false, trie) =
      (err (errorf "could not remove item for key"), record idx { trie = trie })

  delete_checked : TruncIndex T → Text → Result (Unit {0}) → Result (Unit {0}) × TruncIndex T
  unfolding delete_item
  delete_checked idx key (ok _) =
      if has_key key idx.keys
      then delete_item idx key (T.delete idx.trie key)
      else (err (sentinel Sentinel.item_not_found), idx)
  delete_checked idx key (err e) = (err e, idx)
  delete_checked idx key Result.panic = (Result.panic, idx)

  unfoldable pub delete : TruncIndex T → Text → Result (Unit {0}) × TruncIndex T
  unfolding delete_checked
  delete idx key = delete_checked idx key (check_key key)

  -- The visitor `findByKey` on the visited items in turn, and the tests after the visit.
  find_by_key : Text → Dict A → Result A
  find_by_key key [] = err (sentinel Sentinel.item_not_found)
  find_by_key key ((_, item) ∷ []) = ok item
  find_by_key key ((_, item) ∷ _ ∷ _) = err (ambiguous_prefix key)

  get_checked : TruncIndex T → Text → Result (Unit {0}) → Result A
  unfolding find_by_key
  get_checked idx key (ok _) = find_by_key key (T.visit_subtree idx.trie key)
  get_checked idx key (err e) = err e
  get_checked idx key Result.panic = Result.panic

  unfoldable pub get : TruncIndex T → Text → Result A
  unfolding get_checked
  get idx key = get_checked idx key (check_key key)

  -- The calls that Iterate makes of its handler, in order.
  unfoldable pub iterate : TruncIndex T → Dict A
  iterate idx = T.visit_subtree idx.trie []
