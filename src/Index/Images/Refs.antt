-- ===== src/Index/Images/Refs.antt =====
-- The references that Find follows, and what Remove and Add do to them.
use singularity_cri.Base.{◌≡◌, refl, ℕ, nat_eq, List, [], ◌∷◌, if◌then◌else◌, arith, ◌||◌}
use singularity_cri.Base.Text.{Text, text_eq}
use singularity_cri.Base.Result.{ok}
use singularity_cri.Patricia.{Trie}
use singularity_cri.TruncIndex
use singularity_cri.TruncIndex.{TruncIndex, check_key}
use singularity_cri.Base.Dict
use singularity_cri.Base.Dict.{Dict}
use singularity_cri.Base.Dict.{lookup-insert, lookup-erase}
use singularity_cri.Slice.{contains}
use singularity_cri.Index.Images.{
  Images, read_ref, set_ref, set_refs, remove_refs, find, remove, delete_image,
}

module _ (T : Trie ℕ) where
  -- After removeRefs the references given lead nowhere, and the others as before.
  read_ref-remove_refs :
      (refs : List Text) (s : Images T) (x : Text)
      → read_ref T (remove_refs T refs s) x ≡ (if contains refs x then [] else read_ref T s x)
  unfolding remove_refs
  read_ref-remove_refs [] s x = refl
  read_ref-remove_refs (r ∷ refs) s x = ground (
    arith,
    read_ref-remove_refs refs (record s { ref_to_id = Dict.erase r s.ref_to_id }) x,
    lookup-erase r x s.ref_to_id,
  )

  infos-remove_refs : (refs : List Text) (s : Images T) → (remove_refs T refs s).infos ≡ s.infos
  unfolding remove_refs
  infos-remove_refs [] s = refl
  infos-remove_refs (r ∷ refs) s = infos-remove_refs refs _

  indx-remove_refs : (refs : List Text) (s : Images T) → (remove_refs T refs s).indx ≡ s.indx
  unfolding remove_refs
  indx-remove_refs [] s = refl
  indx-remove_refs (r ∷ refs) s = indx-remove_refs refs _

  pub read_ref-set_refs :
      (refs : List Text) (id : Text) (s : Images T) (x : Text)
      → read_ref T (set_refs T refs id s) x ≡ (if contains refs x then id else read_ref T s x)
  unfolding set_refs
  read_ref-set_refs [] id s x = refl
  read_ref-set_refs (r ∷ refs) id s x =
      ground
        (arith, read_ref-set_refs refs id (set_ref T r id s) x, lookup-insert r x id s.ref_to_id)

  pub infos-set_refs :
      (refs : List Text) (id : Text) (s : Images T) → (set_refs T refs id s).infos ≡ s.infos
  unfolding set_refs
  infos-set_refs [] id s = refl
  infos-set_refs (r ∷ refs) id s = infos-set_refs refs id (set_ref T r id s)

  -- After a Remove that succeeds on the image that Find returns, no tag and no digest of that
  -- image leads to an ID, and every other reference leads where it led.
  pub read_ref-remove :
      (s : Images T) (id : Text) (p : ℕ) (x : Text)
      → find T s id ≡ ok p
      → (remove T id s).0 ≡ ok tt
      → read_ref T (remove T id s).1 x ≡ (
          if contains (s.infos p).ref.tags x || contains (s.infos p).ref.digests x
          then []
          else read_ref T s x)
  unfolding remove delete_image
  read_ref-remove s id p x e h =
      let left = record s { indx = (TruncIndex.delete T s.indx (s.infos p).id).1 } in
      let tags = remove_refs T (s.infos p).ref.tags left in
      ground (
        arith,
        read_ref-remove_refs (s.infos p).ref.tags left x,
        read_ref-remove_refs (s.infos p).ref.digests tags x,
        infos-remove_refs (s.infos p).ref.tags left,
      )
