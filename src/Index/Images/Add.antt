-- ===== src/Index/Images/Add.antt =====
-- Add of an image that the index does not hold.
use singularity_cri.Base.{◌≡◌, refl, ◌∙◌, ℕ, nat_eq, List, [], ◌∷◌, if◌then◌else◌, arith, ◌||◌}
use singularity_cri.Base.Text.{Text, text_eq}
use singularity_cri.Base.Result.{ok, err, Error, sentinel, Sentinel}
use singularity_cri.Patricia.{Trie}
use singularity_cri.TruncIndex
use singularity_cri.TruncIndex.{TruncIndex, check_key}
use singularity_cri.Image.Reference.{Reference, remove_tag, remove_digest}
use singularity_cri.Slice.{contains}
use singularity_cri.Index.Images.{
  Images, read_ref, set_refs, change_ref, find, add_new, after_overlap, insert_image,
}
use singularity_cri.Index.Images.Refs.{read_ref-set_refs, infos-set_refs}
use singularity_cri.Index.Images.{
  overlap_one, overlap_tags, overlap_digests, remove_overlap_refs, add, add_to,
}

module _ (T : Trie ℕ) where
  -- removeOverlapRefs changes neither the index of IDs nor where references lead.
  record SameIndex (s t : Images T) : Type 0 where
    indx : t.indx ≡ s.indx
    ref_to_id : t.ref_to_id ≡ s.ref_to_id

  SameIndex-trans : (s t u : Images T) → SameIndex s t → SameIndex t u → SameIndex s u
  SameIndex-trans s t u h k = record {
    indx = k.indx ∙ h.indx;
    ref_to_id = k.ref_to_id ∙ h.ref_to_id;
  }

  overlap_one-SameIndex :
      (f : Reference → Reference) (id : Text) (s : Images T) → SameIndex s (overlap_one T f id s).1
  unfolding overlap_one change_ref
  overlap_one-SameIndex f id s = ground arith

  overlap_tags-SameIndex : (tags : List Text) (s : Images T) → SameIndex s (overlap_tags T tags s).1
  unfolding overlap_tags
  overlap_tags-SameIndex [] s = record { indx = refl; ref_to_id = refl }
  overlap_tags-SameIndex (tag ∷ tags) s =
      let one = overlap_one T (λ r. remove_tag r tag) (read_ref T s tag) s in
      ground (
        arith,
        overlap_one-SameIndex (λ r. remove_tag r tag) (read_ref T s tag) s,
        overlap_tags-SameIndex tags one.1,
      )

  overlap_digests-SameIndex :
      (digests : List Text) (s : Images T) → SameIndex s (overlap_digests T digests s).1
  unfolding overlap_digests
  overlap_digests-SameIndex [] s = record { indx = refl; ref_to_id = refl }
  overlap_digests-SameIndex (digest ∷ digests) s =
      let one = overlap_one T (λ r. remove_digest r digest) (read_ref T s digest) s in
      ground (
        arith,
        overlap_one-SameIndex (λ r. remove_digest r digest) (read_ref T s digest) s,
        overlap_digests-SameIndex digests one.1,
      )

  remove_overlap_refs-SameIndex :
      (ref : Reference) (s : Images T) → SameIndex s (remove_overlap_refs T ref s).1
  unfolding remove_overlap_refs
  remove_overlap_refs-SameIndex ref s =
      let tags = overlap_tags T ref.tags s in
      ground
        (arith, overlap_tags-SameIndex ref.tags s, overlap_digests-SameIndex ref.digests tags.1)

  module _ (order : List Text → List Text) where
    -- An Add of an image that Find does not find by its ID, where removeOverlapRefs returns an
    -- error, reports no error and leaves the index of IDs and the references as they were: the
    -- image is not indexed.
    pub add-swallows :
        (s : Images T) (p : ℕ) (e : Error)
        → find T s (s.infos p).id ≡ err (sentinel Sentinel.index_not_found)
        → (remove_overlap_refs T (s.infos p).ref s).0 ≡ err e
        → ((add T order p s).0 ≡ ok tt)
          × (((add T order p s).1.indx ≡ s.indx) × ((add T order p s).1.ref_to_id ≡ s.ref_to_id))
    unfolding add add_to add_new after_overlap
    add-swallows s p e h k = ground (arith, remove_overlap_refs-SameIndex (s.infos p).ref s)

    -- An Add that succeeds of an image that Find does not find by its ID, where removeOverlapRefs
    -- meets no error: the tags and the digests that the image has then lead to its ID, and every
    -- other reference leads where it led.
    pub read_ref-add :
        (s t : Images T) (p : ℕ) (x : Text)
        → find T s (s.infos p).id ≡ err (sentinel Sentinel.index_not_found)
        → remove_overlap_refs T (s.infos p).ref s ≡ (ok tt, t)
        → (add T order p s).0 ≡ ok tt
        → read_ref T (add T order p s).1 x ≡ (
            if contains (t.infos p).ref.tags x || contains (t.infos p).ref.digests x
            then (t.infos p).id
            else read_ref T s x)
    unfolding add add_to add_new after_overlap insert_image
    read_ref-add s t p x h k done =
        let put = record t { indx = (TruncIndex.add T t.indx (t.infos p).id p).1 } in
        let tags = set_refs T (t.infos p).ref.tags (t.infos p).id put in
        ground (
          arith,
          remove_overlap_refs-SameIndex (s.infos p).ref s,
          read_ref-set_refs T (t.infos p).ref.tags (t.infos p).id put x,
          read_ref-set_refs T (t.infos p).ref.digests (t.infos p).id tags x,
          infos-set_refs T (t.infos p).ref.tags (t.infos p).id put,
        )
