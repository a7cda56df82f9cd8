-- ===== src/Tests/Server.antt =====
-- The image service at concrete inputs.
use singularity_cri.Base.{◌≡◌, refl, some, none, [], ◌∷◌, if◌then◌else◌}
use singularity_cri.Base.Text.{codes}
use singularity_cri.Base.Result.{ok, err, Code, status}
use singularity_cri.Runtime.State.{State}
use singularity_cri.Image.Info.{Info}
use singularity_cri.Kube.Types.{Scene}
use singularity_cri.Kube.Container.Life.{create}
use singularity_cri.Index.Images
use singularity_cri.Runtime.Host.{Host}
use singularity_cri.Server.Registry.{Backup, Registry, remove_image, pull_image}
use singularity_cri.Server.Registry.Guards.{remove_image-created, IsKept, pull_image-refuses}
use singularity_cri.Tests.World.{host, base, busybox, as_listed, scene, reports, translate}
use singularity_cri.Tests.Images.{trie, with_busybox}

abbrev pub backup : Backup host
backup = record {
  write = λ info w. (info.id ∷ [], w);
  decode = λ text. ok busybox;
  seek_start = λ w. (ok tt, w);
  truncate = λ w. (ok tt, w);
  close = λ w. (ok tt, w);
  look_path = λ w. (ok tt, w);
  abs = λ path w. (ok path, w);
  open_file = λ path w. (ok tt, w);
}

-- A registry with one image, which has the users given.
abbrev pub registry : Info → Registry host trie
registry info = record {
  storage = codes "/images";
  images = record with_busybox { infos = λ q. info };
  next = 1;
  file = [];
  world = reports [] [];
}

abbrev used : Registry host trie
used = registry (record busybox { used_by = codes "a" ∷ [] })

abbrev created : Scene host
created = scene (reports (codes "created") (State.creating ∷ State.created ∷ []))

remove_image-created_example :
    remove_image host trie as_listed backup (codes "f00d") used
    ≡ (err (status Code.failed_precondition), used)
unfolding create singularity_cri.Kube.Validate.validate_container
    singularity_cri.Kube.Files.full_log_path singularity_cri.Kube.Files.add_oci_bundle
    singularity_cri.Runtime.Client.create singularity_cri.Kube.Container.expect_state
    singularity_cri.Kube.Container.update_state singularity_cri.Runtime.Client.state
    singularity_cri.Image.Info.borrow singularity_cri.Slice.merge_string
    singularity_cri.Index.Images.find singularity_cri.Index.Images.find_id
    singularity_cri.TruncIndex.get singularity_cri.TruncIndex.check_key
    singularity_cri.Base.Dict.restrict singularity_cri.Index.Images.add
    singularity_cri.Base.Dict.lookup singularity_cri.Index.Images.add_new
    singularity_cri.Index.Images.remove_overlap_refs singularity_cri.TruncIndex.add
    singularity_cri.Base.Dict.insert singularity_cri.Base.Text.has_prefix
    singularity_cri.Base.Text.text_beq
remove_image-created_example =
    remove_image-created host trie as_listed backup base translate [] (codes "f00d") 0 created used
      (λ keys x. refl) refl refl refl refl

-- A host on which an image has a signature that is not valid, and its backup file.
abbrev doubtful : Host
doubtful = record host { verify = λ path w. (some (codes "no valid signature"), w) }

abbrev doubtful_backup : Backup doubtful
doubtful_backup = record {
  write = λ info w. (info.id ∷ [], w);
  decode = λ text. ok busybox;
  seek_start = λ w. (ok tt, w);
  truncate = λ w. (ok tt, w);
  close = λ w. (ok tt, w);
  look_path = λ w. (ok tt, w);
  abs = λ path w. (ok path, w);
  open_file = λ path w. (ok tt, w);
}

abbrev full : Registry doubtful trie
full = record {
  storage = codes "/images";
  images = with_busybox;
  next = 1;
  file = codes "f00d" ∷ [];
  world = reports [] [];
}

pull_image-refuses_example :
    IsKept doubtful trie as_listed doubtful_backup full
      (pull_image doubtful trie as_listed doubtful_backup [] (codes "local.file/a.sif") full).1
unfolding pull_image singularity_cri.Image.Pull.library_info singularity_cri.Base.Text.text_beq
    singularity_cri.Image.Reference.parse_ref singularity_cri.Base.Text.has_prefix
    singularity_cri.Image.Reference.normalized_image_ref singularity_cri.Base.Text.trim_prefix
    singularity_cri.Base.Text.before_last singularity_cri.Image.Pull.pull
    singularity_cri.Image.Info.verify singularity_cri.Base.Text.contains_text
    singularity_cri.Image.Info.remove
pull_image-refuses_example =
    pull_image-refuses doubtful trie as_listed doubtful_backup [] (codes "local.file/a.sif") full
      (λ path w. (codes "no valid signature", refl, refl)) refl
