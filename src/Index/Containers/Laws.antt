-- ===== src/Index/Containers/Laws.antt =====
-- Add, Find and Remove of the index of containers together.
use singularity_cri.Base.{◌≡◌, ◌≢◌, ℕ, nat_eq, arith, length}
use singularity_cri.Base.Text.{Text, text_eq, text_beq_iff}
use singularity_cri.Base.Result.{ok, err, sentinel, Sentinel}
use singularity_cri.Patricia.{Trie, IsLawful}
use singularity_cri.TruncIndex
use singularity_cri.TruncIndex.{TruncIndex, check_key}
use singularity_cri.TruncIndex.Keys.{
  IsConsistent, add-outcome, item_at-add, add-IsConsistent, delete-outcome, item_at-delete,
  delete-IsConsistent,
}
use singularity_cri.TruncIndex.Ids.{HasLength, get-eq-found, add-HasLength, delete-HasLength}
use singularity_cri.Index.Containers.{find, remove, add}

module _ (T : Trie Text) (L : IsLawful T) (n : ℕ) (i : TruncIndex T) (inv : IsConsistent T i)
    (sized : HasLength T n i) (id : Text) (size : length id ≡ n)
    (legal : check_key id ≡ ok tt) where
  -- A container whose Add succeeds is found under its whole ID. The index is consistent, over a
  -- lawful trie, and its IDs and this one have one length; this one passes the checks.
  pub find-add : (add T id i).0 ≡ ok tt → find T (add T id i).1 id ≡ ok id
  unfolding add find
  find-add h = ground (
    arith,
    get-eq-found T L n (TruncIndex.add T i id id).1 (add-IsConsistent T L i inv id id)
        (add-HasLength T L n i inv sized id size id) id size legal,
    item_at-add T L i inv id id id,
    add-outcome T L i inv id id,
    text_beq_iff id id,
  )

  -- Remove succeeds on a whole ID, whether the container is there or not, and Find of that ID
  -- returns ErrNotFound after it. The index is consistent, over a lawful trie, and its IDs and
  -- this one have one length; this one passes the checks.
  pub find-remove :
      ((remove T id i).0 ≡ ok tt)
      × (find T (remove T id i).1 id ≡ err (sentinel Sentinel.index_not_found))
  unfolding remove find
  find-remove = ground (
    arith,
    get-eq-found T L n (TruncIndex.delete T i id).1 (delete-IsConsistent T L i inv id)
        (delete-HasLength T L n i inv sized id size) id size legal,
    item_at-delete T L i inv id id,
    delete-outcome T L i inv id,
    text_beq_iff id id,
  )

  -- Adding a container, with success or not, does not change what is found under another whole ID
  -- of that length that passes the checks. The index is consistent, over a lawful trie, and its
  -- IDs and this one have one length; this one passes the checks.
  pub find-add_ne :
      (other : Text)
      → length other ≡ n
      → check_key other ≡ ok tt
      → id ≢ other
      → find T (add T id i).1 other ≡ find T i other
  unfolding add find
  find-add_ne other same c ne = ground (
    arith,
    get-eq-found T L n (TruncIndex.add T i id id).1 (add-IsConsistent T L i inv id id)
        (add-HasLength T L n i inv sized id size id) other same c,
    get-eq-found T L n i inv sized other same c,
    item_at-add T L i inv id id other,
    text_beq_iff id other,
  )

  -- Removing a container does not change what is found under another whole ID of that length that
  -- passes the checks. The index is consistent, over a lawful trie, and its IDs and this one have
  -- one length; this one passes the checks.
  pub find-remove_ne :
      (other : Text)
      → length other ≡ n
      → check_key other ≡ ok tt
      → id ≢ other
      → find T (remove T id i).1 other ≡ find T i other
  unfolding remove find
  find-remove_ne other same c ne = ground (
    arith,
    get-eq-found T L n (TruncIndex.delete T i id).1 (delete-IsConsistent T L i inv id)
        (delete-HasLength T L n i inv sized id size) other same c,
    get-eq-found T L n i inv sized other same c,
    item_at-delete T L i inv id other,
    text_beq_iff id other,
  )
