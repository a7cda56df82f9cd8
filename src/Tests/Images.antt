-- ===== src/Tests/Images.antt =====
-- The index of images at concrete inputs.
use singularity_cri.Base.{◌≡◌, refl, ℕ, [], ◌∷◌, List}
use singularity_cri.Base.Text.{Text, text_eq, text_beq, codes}
use singularity_cri.Base.Dict.{lookup}
use singularity_cri.Patricia.{Trie, list_trie}
use singularity_cri.Index.Images.{Images, add, remove, read_ref}
use singularity_cri.Index.Images.Refs.{read_ref-remove}
use singularity_cri.Index.Images.Add.{read_ref-add}
use singularity_cri.Tests.World.{busybox, as_listed}

abbrev pub trie : Trie ℕ
trie = list_trie ℕ

abbrev pub no_images : Images trie
no_images = record {
  indx = record { trie = ([], tt); keys = [] };
  ref_to_id = [];
  infos = λ q. busybox;
}

abbrev pub with_busybox : Images trie
with_busybox = (add trie as_listed 0 no_images).1

read_ref-add_example :
    read_ref trie (add trie as_listed 0 no_images).1 (codes "busybox:latest") ≡ codes "f00d"
unfolding add singularity_cri.Index.Images.find singularity_cri.Index.Images.find_id
    singularity_cri.TruncIndex.get singularity_cri.TruncIndex.check_key
    singularity_cri.Base.Dict.restrict lookup singularity_cri.Index.Images.remove_overlap_refs
    singularity_cri.Index.Images.add_new singularity_cri.TruncIndex.add text_beq
read_ref-add_example =
    read_ref-add trie as_listed no_images no_images 0 (codes "busybox:latest") refl refl refl

read_ref-remove_example :
    read_ref trie (remove trie (codes "f00d") with_busybox).1 (codes "busybox:latest") ≡ []
unfolding add remove singularity_cri.Index.Images.find singularity_cri.Index.Images.find_id
    singularity_cri.TruncIndex.get singularity_cri.TruncIndex.check_key
    singularity_cri.Base.Dict.restrict lookup singularity_cri.Index.Images.add_new
    singularity_cri.Index.Images.remove_overlap_refs singularity_cri.TruncIndex.add
    singularity_cri.Base.Dict.insert singularity_cri.Base.Text.has_prefix
    singularity_cri.TruncIndex.delete text_beq
read_ref-remove_example =
    read_ref-remove trie with_busybox (codes "f00d") 0 (codes "busybox:latest") refl refl

-- A reference leads to an image that is not in the index.
abbrev dangling : Images trie
dangling = record no_images { ref_to_id = (codes "busybox:latest", codes "dead") ∷ [] }
