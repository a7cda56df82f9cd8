-- ===== src/Tests/Settings.antt =====
-- Names of images, lists of texts, and settings of pods and containers at concrete inputs.
use singularity_cri.Base.{
  arith, ◌≡◌, ◌≢◌, ◌≤◌, ◌||◌, ◌++◌, ◌↔◌, ◌==◌, refl, true, false, some, none, [], ◌∷◌,
}
use singularity_cri.Base.Text.{Text, text_eq, text_beq, text_beq_iff, codes, has_byte, has_prefix}
use singularity_cri.Base.Result.{ok}
use singularity_cri.Slice.{count}
use singularity_cri.Image.Reference.{parse_ref, to_string, normalized_image_ref}
use singularity_cri.Image.Reference.Names.{parse_ref-to_string}
use singularity_cri.Image.Info.{Info}
use singularity_cri.Image.Info.Use.{IsSetOfUsers}
use singularity_cri.Kube.Capabilities.{prepare_capabilities}
use singularity_cri.Kube.Capabilities.Laws.{without, prepare_capabilities-without}
use singularity_cri.Kube.Filter.{ContainerFilter, PodFilter, PodState}
use singularity_cri.Tests.World.{apart, busybox}

parse_ref-to_string_example :
    parse_ref (codes "docker.io/busybox:latest") ≡ parse_ref (codes "busybox")
unfolding to_string has_prefix text_beq singularity_cri.Base.Text.trim_prefix parse_ref
    normalized_image_ref singularity_cri.Base.Text.before_last has_byte
parse_ref-to_string_example =
    parse_ref-to_string (codes "busybox") (codes "docker.io/busybox:latest") refl refl

abbrev borrowed : Info
borrowed = record busybox { used_by = codes "a" ∷ codes "b" ∷ [] }

borrowed-IsSetOfUsers : IsSetOfUsers borrowed
unfolding count
borrowed-IsSetOfUsers who = ground (
  arith,
  text_beq_iff (codes "a") who,
  text_beq_iff (codes "b") who,
  apart (codes "a") (codes "b"),
)

prepare_capabilities-without_example :
    prepare_capabilities (codes "A" ∷ codes "B" ∷ []) (codes "A" ∷ [])
    ≡ ok (without (codes "A" ∷ []) (codes "A" ∷ codes "B" ∷ []))
unfolding text_beq
prepare_capabilities-without_example =
    prepare_capabilities-without (codes "A" ∷ []) (codes "A" ∷ []) (codes "B") refl

abbrev front : ContainerFilter
front = record {
  id = [];
  pod_sandbox_id = codes "pod";
  state = none;
  label_selector = (codes "tier", codes "front") ∷ [];
}

abbrev web : PodFilter
web = record {
  id = [];
  state = some PodState.ready;
  label_selector = (codes "app", codes "web") ∷ [];
}
