-- ===== src/Image/Info/Verify.antt =====
-- Verify of an image of pkg/image/image.go, on a host that finds no valid signature.
use singularity_cri.Base.{◌≡◌, false, some, ◌==◌}
use singularity_cri.Base.Text.{Text, codes, contains_text, text_eq}
use singularity_cri.Base.Result.{err, errorf}
use singularity_cri.Runtime.Host.{Host}
use singularity_cri.Image.Reference.{docker_domain}
use singularity_cri.Image.Info.{Info, verify, verified}

module _ (H : Host) where
  -- Every image has a signature, and none of them is valid.
  abbrev pub IsDoubtful : Type 0
  IsDoubtful =
      (path : Text) (w : H.World)
      → (text : Text) × ((H.verify path w).0 ≡ some text)
        × (contains_text text (codes "no signatures found") ≡ false)

  -- Verify of an image that is not one of docker.io fails then.
  pub verify-doubtful :
      (i : Info) (w : H.World)
      → IsDoubtful
      → (i.ref.uri == docker_domain) ≡ false
      → (verify H i w).0 ≡ err (errorf "SIF verification failed")
  unfolding verify verified
  verify-doubtful i w bad other = let (text, e, n) = bad i.path w in rw (other, e, n)
