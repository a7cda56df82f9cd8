-- ===== src/Image/Pull/Kept.antt =====
-- What Pull of pkg/image/image.go keeps of the reference that it is asked for.
use singularity_cri.Base.{◌≡◌, arith, nat_eq, List}
use singularity_cri.Base.Text.{Text, text_eq}
use singularity_cri.Base.Result.{ok}
use singularity_cri.Runtime.Host.{Host}
use singularity_cri.Image.Reference.{Reference}
use singularity_cri.Image.Info.{Info}
use singularity_cri.Image.Pull.{pull, pull_local, pull_remote, saved, failed, or_cleanup, sif_info}

module _ (H : Host) where
  sif_info-ref :
      (ref : Reference) (path : Text) (w : H.World) {info : Info}
      → (sif_info H ref path w).0 ≡ ok info
      → info.ref ≡ ref
  unfolding sif_info
  sif_info-ref ref path w h = ground arith

  pull_local-ref :
      (ref : Reference) (tags : List Text) (w : H.World) {info : Info}
      → (pull_local H ref tags w).0 ≡ ok info
      → info.ref ≡ ref
  unfolding pull_local
  pull_local-ref ref tags w h = grind (arith, sif_info-ref)

  pull_remote-ref :
      (location server : Text) (ref : Reference) (w : H.World) {info : Info}
      → (pull_remote H location server ref w).0 ≡ ok info
      → info.ref ≡ ref
  unfolding pull_remote saved failed or_cleanup
  pull_remote-ref location server ref w h = grind (arith, sif_info-ref)

  pub pull-ref :
      (location server : Text) (ref : Reference) (w : H.World) {info : Info}
      → (pull H location server ref w).0 ≡ ok info
      → info.ref ≡ ref
  unfolding pull
  pull-ref location server ref w h = grind (arith, pull_local-ref, pull_remote-ref)
