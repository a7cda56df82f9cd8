-- ===== src/Image/Reference.antt =====
-- pkg/image/reference.go with the domains of pkg/singularity/singularity.go. ParseRef never fails, so
-- that its error is left out; the mutex is held by each method from its first read to its last write.
pub mod Normal
pub mod Names
pub mod Json
use singularity_cri.Base.{
  Bool, true, false, Option, none, some, List, [], ◌∷◌, ◌++◌, ◌==◌, if◌then◌else◌,
}
use singularity_cri.Base.Text.{
  Text, codes, text_eq, has_prefix, trim_prefix, before_last, contains_text, has_byte,
}
use singularity_cri.Base.Result.{Result, ok, panic}
use singularity_cri.Slice.{merge_string, remove_from_string}

abbrev pub library_domain : Text
library_domain = codes "cloud.sylabs.io"

abbrev pub local_file_domain : Text
local_file_domain = codes "local.file"

abbrev pub docker_domain : Text
docker_domain = codes "docker.io"

pub record Reference : Type 0 where
  pub uri : Text
  pub tags : List Text
  pub digests : List Text

-- imgRef[:i] for the last ':' of a local file, which stays as it is where it has none.
pub local_path : Option Text → Text → Text
local_path none img_ref = img_ref
local_path (some cut) img_ref = cut

pub tagged : Option Text → Text → Text
tagged none img_ref = img_ref ++ codes ":latest"
tagged (some _) img_ref = img_ref

-- The part behind the TrimPrefix.
pub normalized_trimmed : Text → Text
unfolding local_path tagged
normalized_trimmed img_ref =
    if has_prefix img_ref local_file_domain
    then local_path (before_last b':' img_ref) img_ref
    else tagged (before_last b':' img_ref) img_ref

unfoldable pub normalized_image_ref : Text → Text
unfolding normalized_trimmed
normalized_image_ref img_ref = normalized_trimmed (trim_prefix img_ref (docker_domain ++ codes "/"))

-- ParseRef on a normalized reference.
pub parse_normalized : Text → Reference
parse_normalized img_ref =
    if has_prefix img_ref local_file_domain
    then record { uri = local_file_domain; tags = img_ref ∷ []; digests = [] }
    else if has_prefix img_ref library_domain
    then if contains_text img_ref (codes "sha256.")
      then record { uri = library_domain; tags = []; digests = img_ref ∷ [] }
      else record { uri = library_domain; tags = img_ref ∷ []; digests = [] }
    else if has_byte b'@' img_ref
    then record { uri = docker_domain; tags = []; digests = img_ref ∷ [] }
    else record { uri = docker_domain; tags = img_ref ∷ []; digests = [] }

unfoldable pub parse_ref : Text → Reference
unfolding parse_normalized
parse_ref img_ref = parse_normalized (normalized_image_ref img_ref)

-- The first tag, or the first digest; r.digests[0] panics on a reference that has neither.
pub first_name : List Text → List Text → Result Text
first_name (tag ∷ _) digests = ok tag
first_name [] (digest ∷ _) = ok digest
first_name [] [] = panic

pub with_domain : Text → Result Text → Result Text
with_domain uri (ok ref) =
    ok (if uri == docker_domain then docker_domain ++ (codes "/" ++ ref) else ref)
with_domain uri (Result.err e) = Result.err e
with_domain uri panic = panic

unfoldable pub to_string : Reference → Result Text
unfolding first_name with_domain
to_string r = with_domain r.uri (first_name r.tags r.digests)

module _ (order : List Text → List Text) where
  unfoldable pub add_digests : Reference → List Text → Reference
  add_digests r digests = record r { digests = merge_string order r.digests digests }

  unfoldable pub add_tags : Reference → List Text → Reference
  add_tags r tags = record r { tags = merge_string order r.tags tags }

unfoldable pub remove_digest : Reference → Text → Reference
remove_digest r digest = record r { digests = remove_from_string r.digests digest }

unfoldable pub remove_tag : Reference → Text → Reference
remove_tag r tag = record r { tags = remove_from_string r.tags tag }
