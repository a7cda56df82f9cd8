-- ===== src/Index/Images.antt =====
-- pkg/index/image.go: images by ID and by reference. An image is pointed to by a number; what Pull makes
-- and what is indexed may be two images with one ID. The mutex is held by each access to the map.
pub mod Refs
pub mod Add
use singularity_cri.Base.{
  map, ◌≡◌, refl, ◌∙◌, ap, sym, ◌≢◌, ℕ, nat_eq, Bool, true, false, Option, none, some, List, [],
  ◌∷◌, ◌++◌, ◌==◌, if◌then◌else◌, arith, Bool-cases, inl, inr, is_some, ◌↔◌, ◌||◌, ◌&&◌, not, ◌+◌,
  ◌-◌, ◌≤◌, ◌<◌, zero, suc, ◌⊎◌, length, is_nil, length-append, map,
}
use singularity_cri.Base.Text.{Text, text_eq, text_beq_iff, codes}
use singularity_cri.Base.Result.{
  Result, ok, err, panic, Error, sentinel, Sentinel, wrapf, errorf, is_runtime_not_found,
}
use singularity_cri.Base.Exec.{
  Exec, ◌>>=◌, ◌>>◌, pure, modify, wrapping, attempt, logged, raise, crash, gets,
}
use singularity_cri.Patricia.{Trie, IsLawful}
use singularity_cri.TruncIndex
use singularity_cri.TruncIndex.{TruncIndex, check_key}
use singularity_cri.Base.Result.{is_item_not_found, is_index_not_found}
use singularity_cri.Base.Dict
use singularity_cri.Base.Dict.{Dict}
use singularity_cri.Image.Reference.{
  Reference, normalized_image_ref, add_tags, add_digests, remove_tag, remove_digest,
}
use singularity_cri.Image.Info.{Info}

pub record Images (T : Trie ℕ) : Type 0 where
  pub indx : TruncIndex T
  pub ref_to_id : Dict Text
  pub infos : ℕ → Info

abbrev or_empty : Option Text → Text
or_empty none = []
or_empty (some id) = id

module _ (T : Trie ℕ) where
  -- readRef: a missing key reads as the empty string.
  abbrev pub read_ref : Images T → Text → Text
  read_ref s ref = or_empty (Dict.lookup ref s.ref_to_id)

  unfoldable pub set_ref : Text → Text → Images T → Images T
  set_ref ref id s = record s { ref_to_id = Dict.insert ref id s.ref_to_id }

  unfoldable pub remove_refs : List Text → Images T → Images T
  remove_refs [] s = s
  remove_refs (ref ∷ refs) s =
      remove_refs refs (record s { ref_to_id = Dict.erase ref s.ref_to_id })

  -- A change of the reference of the image at a pointer.
  unfoldable pub change_ref : (Reference → Reference) → ℕ → Images T → Images T
  change_ref f p s = record s {
    infos = λ q. if q == p then record (s.infos q) { ref = f (s.infos q).ref } else s.infos q;
  }

  found : Result ℕ → Result ℕ
  found (ok p) = ok p
  found (err e) =
      if is_item_not_found e
      then err (sentinel Sentinel.index_not_found)
      else err (wrapf "could not search index" e)
  found panic = panic

  -- find, by ID alone
  unfoldable pub find_id : Images T → Text → Result ℕ
  unfolding found
  find_id s id = found (TruncIndex.get T s.indx id)

  by_ref : Images T → Text → Result ℕ
  by_ref s id = if is_nil id then err (sentinel Sentinel.index_not_found) else find_id s id

  or_by_ref : Images T → Text → Result ℕ → Result ℕ
  unfolding by_ref
  or_by_ref s id (ok p) = ok p
  or_by_ref s id (err e) =
      if is_index_not_found e then by_ref s (read_ref s (normalized_image_ref id)) else err e
  or_by_ref s id panic = panic

  -- Find
  unfoldable pub find : Images T → Text → Result ℕ
  unfolding or_by_ref
  find s id = or_by_ref s id (find_id s id)

  -- One round of the loops of removeOverlapRefs.
  overlap_one : (Reference → Reference) → Text → Exec (Images T) (Unit {0})
  overlap_one f old_id s =
      if is_nil old_id
      then (ok tt, s)
      else (do p ← λ s. (find_id s old_id, s); modify (change_ref f p)) s

  overlap_tags : List Text → Exec (Images T) (Unit {0})
  unfolding overlap_one
  overlap_tags [] = pure tt
  overlap_tags (tag ∷ tags) = do
    λ s. overlap_one (λ r. remove_tag r tag) (read_ref s tag) s
    overlap_tags tags

  overlap_digests : List Text → Exec (Images T) (Unit {0})
  unfolding overlap_one
  overlap_digests [] = pure tt
  overlap_digests (digest ∷ digests) = do
    λ s. overlap_one (λ r. remove_digest r digest) (read_ref s digest) s
    overlap_digests digests

  unfoldable pub remove_overlap_refs : Reference → Exec (Images T) (Unit {0})
  unfolding overlap_tags overlap_digests
  remove_overlap_refs ref = do overlap_tags ref.tags; overlap_digests ref.digests

  unfoldable pub set_refs : List Text → Text → Images T → Images T
  unfolding set_ref
  set_refs [] id s = s
  set_refs (ref ∷ refs) id s = set_refs refs id (set_ref ref id s)

  insert_image : ℕ → Exec (Images T) (Unit {0})
  insert_image p s =
      let (r, indx) = TruncIndex.add T s.indx (s.infos p).id p in
      wrapping "could not add image" (λ s. (r, record s { indx = indx })) s

  -- add: an error of removeOverlapRefs ends it with no error.
  after_overlap : ℕ → Result (Unit {0}) → Exec (Images T) (Unit {0})
  unfolding insert_image set_refs
  after_overlap p (err e) = pure tt
  after_overlap p panic = crash
  after_overlap p (ok _) = do
    insert_image p
    modify (λ s. set_refs (s.infos p).ref.tags (s.infos p).id s)
    modify (λ s. set_refs (s.infos p).ref.digests (s.infos p).id s)

  unfoldable pub add_new : ℕ → Exec (Images T) (Unit {0})
  unfolding after_overlap
  add_new p = do r ← attempt (λ s. remove_overlap_refs (s.infos p).ref s); after_overlap p r

  -- oldInfo, _ := i.Find(image.ID), and a change of its reference: a nil pointer panics.
  change_found : (Reference → Reference) → Result ℕ → Exec (Images T) (Unit {0})
  change_found f (ok p) = modify (change_ref f p)
  change_found f (err e) = crash
  change_found f panic = crash

  merge_tags : Text → List Text → Exec (Images T) (Unit {0})
  unfolding set_ref change_found
  merge_tags id [] = pure tt
  merge_tags id (tag ∷ tags) = do
    old_id ← gets (λ s. read_ref s tag)
    modify (set_ref tag id)
    (λ s.
        if not (is_nil old_id) && not (old_id == id)
        then change_found (λ r. remove_tag r tag) (find s id) s
        else (ok tt, s))
    merge_tags id tags

  merge_digests : Text → List Text → Exec (Images T) (Unit {0})
  unfolding set_ref change_found
  merge_digests id [] = pure tt
  merge_digests id (digest ∷ digests) = do
    old_id ← gets (λ s. read_ref s digest)
    modify (set_ref digest id)
    (λ s.
        if not (is_nil old_id) && old_id == id
        then change_found (λ r. remove_digest r digest) (find s id) s
        else (ok tt, s))
    merge_digests id digests

  module _ (order : List Text → List Text) where
    unfoldable pub merge : ℕ → ℕ → Exec (Images T) (Unit {0})
    unfolding merge_tags merge_digests
    merge old p = do
      modify (λ s. change_ref (λ r. add_tags order r (s.infos p).ref.tags) old s)
      modify (λ s. change_ref (λ r. add_digests order r (s.infos p).ref.digests) old s)
      λ s. merge_tags (s.infos p).id (s.infos p).ref.tags s
      λ s. merge_digests (s.infos p).id (s.infos p).ref.digests s

    add_to : ℕ → Result ℕ → Exec (Images T) (Unit {0})
    add_to p (ok old) = merge old p
    add_to p (err e) =
        if is_index_not_found e then add_new p else raise (wrapf "could not find old image" e)
    add_to p panic = crash

    -- Add
    unfoldable pub add : ℕ → Exec (Images T) (Unit {0})
    unfolding add_to
    add p s = add_to p (find s (s.infos p).id) s

  delete_image : ℕ → Exec (Images T) (Unit {0})
  delete_image p s =
      let (r, indx) = TruncIndex.delete T s.indx (s.infos p).id in
      wrapping "could not remove image" (λ s. (r, record s { indx = indx })) s

  -- Remove
  unfoldable pub remove : Text → Exec (Images T) (Unit {0})
  unfolding delete_image
  remove id = do
    p ← λ s. (find s id, s)
    delete_image p
    modify (λ s. remove_refs (s.infos p).ref.tags s)
    modify (λ s. remove_refs (s.infos p).ref.digests s)

  -- The images that Iterate hands to its handler.
  unfoldable pub iterate : Images T → List ℕ
  iterate s = map (λ (entry : Text × ℕ). entry.1) (TruncIndex.iterate T s.indx)
