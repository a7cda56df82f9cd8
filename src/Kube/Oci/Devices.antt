-- ===== src/Kube/Oci/Devices.antt =====
-- configureDevices of container_oci.go.
pub mod Paths
use singularity_cri.Base.{Bool, Option, none, some, List, [], ◌∷◌, ◌++◌, if◌then◌else◌, length}
use singularity_cri.Base.Text.{Text, has_prefix, drop_text}
use singularity_cri.Base.Exec.{Exec, ◌>>=◌, ◌>>◌, pure, modify, wrapping}
use singularity_cri.Runtime.Host.{Host}
use singularity_cri.Kube.Types.{Security, Device}
use singularity_cri.Kube.Oci.{Translator, Draft, HostDevice, Call, on_host, does}

-- strings.Replace(s, old, new, 1)
unfoldable pub replace_first : Text → Text → Text → Text
replace_first [] old new = if has_prefix [] old then new else []
replace_first (c ∷ s) old new =
    let rest = c ∷ replace_first s old new in
    if has_prefix (c ∷ s) old then new ++ drop_text (length old) (c ∷ s) else rest

module _ {H : Host} (T : Translator H) where
  -- Every device of the host, for a privileged container.
  add_all : List HostDevice → Draft T → Draft T
  add_all [] s = s
  add_all (d ∷ ds) s = add_all ds (does T (Call.add_device d.path d) s)

  -- A device that is added at a path and allowed.
  grant : Text → HostDevice → Draft T → Draft T
  grant path d s = does T (Call.allow_device d) (does T (Call.add_device path d) s)

  -- The devices of a directory, at the same places below the path in the container.
  grant_below : Device → List HostDevice → Draft T → Draft T
  unfolding grant replace_first
  grant_below dev [] s = s
  grant_below dev (d ∷ ds) s =
      grant_below dev ds (grant (replace_first d.path dev.host_path dev.container_path) d s)

  -- A device, or a directory with devices.
  grant_found : Device → Option HostDevice → Exec (Draft T) (Unit {0})
  unfolding grant_below
  grant_found dev (some d) = modify (grant d.path d)
  grant_found dev none = do
    devices ← wrapping "could not read devices" (on_host T (T.get_devices dev.host_path))
    modify (grant_below dev devices)

  add_devices : List Device → Exec (Draft T) (Unit {0})
  unfolding grant_found
  add_devices [] = pure tt
  add_devices (dev ∷ devs) = do
    found ←
        wrapping "could not get device"
          (on_host T (T.device_from_path dev.host_path dev.permissions))
    grant_found dev found
    add_devices devs

  privileged_devices : Exec (Draft T) (Unit {0})
  unfolding add_all
  privileged_devices = do
    devices ← on_host T T.host_devices
    modify (add_all devices)
    modify (does T Call.allow_all_devices)

  unfoldable pub configure_devices : Security → List Device → Exec (Draft T) (Unit {0})
  unfolding privileged_devices add_devices
  configure_devices security devices =
      if security.privileged then privileged_devices else add_devices devices
