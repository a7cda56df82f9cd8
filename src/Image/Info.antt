-- ===== src/Image/Info.antt =====
-- pkg/image/image.go: an image on the host, and who uses it.
pub mod Use
pub mod Verify
use singularity_cri.Base.{
  String, ℕ, Bool, true, false, Option, none, some, List, [], ◌∷◌, ◌++◌, ◌==◌, if◌then◌else◌,
  is_nil, ◌||◌,
}
use singularity_cri.Base.Text.{
  Text, codes, text_eq, has_prefix, trim_prefix, contains_text, split_byte,
}
use singularity_cri.Base.Result.{
  Result, ok, err, Error, sentinel, Sentinel, errorf, wrapf, external,
}
use singularity_cri.Base.Exec.{Exec, pure, raise, crash, wrapping, logged, attempt, ◌>>=◌, ◌>>◌}
use singularity_cri.Slice.{merge_string, remove_from_string}
use singularity_cri.Image.Reference.{
  Reference, local_file_domain, library_domain, docker_domain, to_string,
}
use singularity_cri.Runtime.Host.{Host, ImageConfig, Ran}

pub record Info : Type 0 where
  pub id : Text
  pub sha256 : Text
  pub size : ℕ
  pub path : Text
  pub ref : Reference
  pub oci_config : Option ImageConfig
  pub used_by : List Text

unfoldable pub borrow : (List Text → List Text) → Text → Info → Info
borrow order who i = record i { used_by = merge_string order i.used_by (who ∷ []) }

unfoldable pub give_back : Text → Info → Info
give_back who i = record i { used_by = remove_from_string i.used_by who }

-- The loops over tags and digests of Matches.
unfoldable pub any_has_prefix : List Text → Text → Bool
any_has_prefix [] ref = false
any_has_prefix (name ∷ names) ref = has_prefix name ref || any_has_prefix names ref

-- `none` is a nil filter, or a filter with no image.
unfoldable pub matches : Option Text → Info → Bool
unfolding any_has_prefix
matches none i = true
matches (some ref) i =
    has_prefix i.id ref || any_has_prefix i.ref.tags ref || any_has_prefix i.ref.digests ref

module _ (H : Host) where
  unfoldable pub remove : Info → Exec H.World (Unit {0})
  remove i =
      if i.ref.uri == local_file_domain
      then pure tt
      else if is_nil i.used_by
      then wrapping "could not remove image" (H.remove i.path)
      else raise (sentinel Sentinel.image_is_used)

  -- The error of signing.Verify: an image that is not signed is let through.
  verified : Option Text → Result (Unit {0})
  verified none = ok tt
  verified (some text) =
      if contains_text text (codes "no signatures found")
      then ok tt
      else err (errorf "SIF verification failed")

  unfoldable pub verify : Info → Exec H.World (Unit {0})
  unfolding verified
  verify i w =
      let (found, w') = H.verify i.path w in
      if i.ref.uri == docker_domain then (ok tt, w) else (verified found, w')
