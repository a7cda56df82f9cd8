-- ===== src/Kube/Oci/Devices/Paths.antt =====
-- Where the devices of a container appear in it.
use singularity_cri.Base.{◌≡◌, false, some, List, ◌∷◌, ◌++◌}
use singularity_cri.Base.Text.{Text, has_prefix-append, drop_text-append}
use singularity_cri.Base.Result.{ok}
use singularity_cri.Runtime.Host.{Host}
use singularity_cri.Kube.Types.{Security, Device}
use singularity_cri.Kube.Oci.{Translator, Draft, HostDevice}
use singularity_cri.Kube.Oci.Devices.{replace_first, configure_devices, add_devices, grant_found}

-- The path of a device in a directory, moved to the container's directory.
pub replace_first-prefix :
    (c : _) (old s new : Text) → replace_first ((c ∷ old) ++ s) (c ∷ old) new ≡ new ++ s
unfolding replace_first
replace_first-prefix c old s new = rw (has_prefix-append (c ∷ old) s, drop_text-append (c ∷ old) s)

module _ {H : Host} (T : Translator H) where
  -- For a container that is not privileged, the path in the container that is asked for a single
  -- device on the host makes no difference, when the device comes first: it appears under its path
  -- on the host.
  pub configure_devices-ignores :
      (security : Security) (dev : Device) (devs : List Device) (d : HostDevice) (path : Text)
      (s : Draft T)
      → security.privileged ≡ false
      → (T.device_from_path dev.host_path dev.permissions s.world).0 ≡ ok (some d)
      → configure_devices T security (record dev { container_path = path } ∷ devs) s
        ≡ configure_devices T security (dev ∷ devs) s
  unfolding configure_devices add_devices grant_found
  configure_devices-ignores security dev devs d path s off h = rw off (rw h)
