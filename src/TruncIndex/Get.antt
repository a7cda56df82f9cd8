-- ===== src/TruncIndex/Get.antt =====
-- Get finds what exactly one key has the prefix for.
use singularity_cri.Base.{◌≡◌, refl, ◌≢◌, true, none, some, arith, [], ◌∷◌}
use singularity_cri.Base.{is_some}
use singularity_cri.Base.Text.{Text, text_eq, text_beq_iff, has_prefix}
use singularity_cri.Base.Dict.{Dict, lookup, NodupKeys}
use singularity_cri.Base.Result.{ok, err, sentinel, Sentinel, ambiguous_prefix}
use singularity_cri.Patricia.{Trie, IsLawful}
use singularity_cri.TruncIndex.{TruncIndex, check_key, get, find_by_key}

-- On entries whose keys are all different, the visitor tells "none", "one" and "several" apart.
module _ {A : Type 0} (T : Trie A) (p : Text) where
  find_by_key-none :
      (d : Dict A)
      → ((k : Text) → lookup k d ≡ none)
      → find_by_key T p d ≡ err (sentinel Sentinel.item_not_found)
  unfolding find_by_key lookup
  find_by_key-none [] h = refl
  find_by_key-none ((k, v) ∷ []) h = ground (arith, h k, text_beq_iff k k)
  find_by_key-none ((k, v) ∷ _ ∷ _) h = ground (arith, h k, text_beq_iff k k)

  find_by_key-one :
      (d : Dict A) (k : Text) (a : A)
      → NodupKeys d
      → lookup k d ≡ some a
      → ((j : Text) → is_some (lookup j d) ≡ true → j ≡ k)
      → find_by_key T p d ≡ ok a
  unfolding find_by_key lookup
  find_by_key-one [] k a u h only = cc
  find_by_key-one ((i, v) ∷ []) k a u h only = ground (arith, text_beq_iff i k)
  find_by_key-one ((i, v) ∷ (j, w) ∷ d) k a (fresh, _) h only = ground (
    arith,
    text_beq_iff i i,
    text_beq_iff i j,
    text_beq_iff j j,
    text_beq_iff j i,
    only i,
    only j,
  )

  find_by_key-several :
      (d : Dict A) (j k : Text)
      → is_some (lookup j d) ≡ true
      → is_some (lookup k d) ≡ true
      → j ≢ k
      → find_by_key T p d ≡ err (ambiguous_prefix p)
  unfolding find_by_key lookup
  find_by_key-several [] j k hj hk ne = cc
  find_by_key-several ((i, v) ∷ []) j k hj hk ne =
      ground (arith, text_beq_iff i j, text_beq_iff i k)
  find_by_key-several ((i, v) ∷ _ ∷ d) j k hj hk ne = refl

module _ {A : Type 0} (T : Trie A) (L : IsLawful T) (idx : TruncIndex T) (p : Text)
    (checks : check_key p ≡ ok tt) where
  -- For a lawful trie and a text that passes the checks of Get: where one key alone has the text
  -- as a prefix, Get returns the item of that key.
  pub get_unique :
      (k : Text) (a : A)
      → T.item_at idx.trie k ≡ some a
      → has_prefix k p ≡ true
      → ((j : Text) → is_some (T.item_at idx.trie j) ≡ true → has_prefix j p ≡ true → j ≡ k)
      → get T idx p ≡ ok a
  unfolding get
  get_unique k a h hp only = rw checks (
      find_by_key-one T p (T.visit_subtree idx.trie p) k a (L.visited_once idx.trie p)
        (ground (arith, L.visited idx.trie p k))
        (λ j hj. ground (arith, L.visited idx.trie p j, only j)))

  -- For a lawful trie and a text that passes the checks of Get: where two different keys have the
  -- text as a prefix, Get returns ErrAmbiguousPrefix with that text.
  pub get_ambiguous :
      (j k : Text)
      → is_some (T.item_at idx.trie j) ≡ true
      → has_prefix j p ≡ true
      → is_some (T.item_at idx.trie k) ≡ true
      → has_prefix k p ≡ true
      → j ≢ k
      → get T idx p ≡ err (ambiguous_prefix p)
  unfolding get
  get_ambiguous j k hj pj hk pk ne = rw checks (
      find_by_key-several T p (T.visit_subtree idx.trie p) j k
        (ground (arith, L.visited idx.trie p j)) (ground (arith, L.visited idx.trie p k)) ne)

  -- For a lawful trie and a text that passes the checks of Get: where no key has the text as a
  -- prefix, Get returns ErrNotFound.
  pub get_absent :
      ((k : Text) → has_prefix k p ≡ true → T.item_at idx.trie k ≡ none)
      → get T idx p ≡ err (sentinel Sentinel.item_not_found)
  unfolding get
  get_absent h = rw checks (
      find_by_key-none T p (T.visit_subtree idx.trie p)
        (λ k. ground (arith, L.visited idx.trie p k, h k)))
