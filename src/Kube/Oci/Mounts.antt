-- ===== src/Kube/Oci/Mounts.antt =====
-- configureMounts of container_oci.go.
pub mod Propagation
use singularity_cri.Base.{
  Bool, true, false, Option, none, some, List, [], ◌∷◌, ◌++◌, ◌==◌, ◌||◌, if◌then◌else◌, is_some,
  map,
}
use singularity_cri.Base.Text.{Text, codes, text_eq}
use singularity_cri.Base.Result.{Result, ok, err, panic}
use singularity_cri.Base.Exec.{Exec, ◌>>=◌, ◌>>◌, pure, modify, wrapping}
use singularity_cri.Runtime.Host.{Host}
use singularity_cri.Kube.Types.{Container, Pod, Security, Mount, Propagation as MountPropagation}
use singularity_cri.Kube.Oci.{Translator, Draft, SpecMount, Call, on_host, does}

abbrev pub rprivate : Text
rprivate = codes "rprivate"

abbrev pub rslave : Text
rslave = codes "rslave"

abbrev pub rshared : Text
rshared = codes "rshared"

-- The options that every proc and sysfs mount of a privileged container has.
abbrev rw_options : List Text
rw_options = codes "nosuid" ∷ codes "noexec" ∷ codes "nodev" ∷ codes "rw" ∷ []

unfoldable pub writable : SpecMount → SpecMount
writable m =
    if m.kind == codes "sysfs" || (m.kind == codes "procfs" || m.kind == codes "proc")
    then record m { options = rw_options }
    else m

abbrev pub option_of : MountPropagation → Text
option_of MountPropagation.propagation_private = rprivate
option_of MountPropagation.host_to_container = rslave
option_of MountPropagation.bidirectional = rshared

-- The volume of a mount, whose source has been resolved.
unfoldable pub volume : Mount → Text → SpecMount
volume m source = record {
  destination = m.container_path;
  source = source;
  kind = [];
  options =
      codes "rbind"
      ∷ ((if m.readonly then codes "ro" ∷ [] else []) ++ (option_of m.propagation ∷ []));
}

module _ {H : Host} (T : Translator H) where
  all_of : (Text → Call) → List Text → Draft T → Draft T
  all_of f [] s = s
  all_of f (path ∷ paths) s = all_of f paths (does T (f path) s)

  -- The source of a mount: a directory is made where there is nothing.
  source_found : Text → Option Text → Exec (Draft T) Text
  source_found path (some source) = pure source
  source_found path none = do
    wrapping "could not create directory" (on_host T (H.mkdir_all path))
    pure path

  unfoldable pub mount_source : Text → Exec (Draft T) Text
  unfolding source_found
  mount_source path = do
    found ← wrapping "invalid bind mount source" (on_host T (T.eval_symlinks path))
    source_found path found

  -- The switch on the propagation of a mount, on that of the root: it is only escalated.
  unfoldable pub escalate : MountPropagation → Draft T → Draft T
  escalate MountPropagation.propagation_private s = s
  escalate MountPropagation.host_to_container s =
      if T.root_propagation s.gen == rprivate
      then does T (Call.set_root_propagation rslave) s
      else s
  escalate MountPropagation.bidirectional s = does T (Call.set_root_propagation rshared) s

  add_volume : Mount → Exec (Draft T) (Unit {0})
  unfolding mount_source escalate volume
  add_volume m = do
    source ← mount_source m.host_path
    modify (escalate m.propagation)
    modify (does T (Call.add_mount (volume m source)))

  unfoldable pub add_volumes : List Mount → Exec (Draft T) (Unit {0})
  unfolding add_volume
  add_volumes [] = pure tt
  add_volumes (m ∷ ms) = add_volume m >> add_volumes ms

  bind_file : Text → Text → Call
  bind_file destination source = Call.add_mount (record {
    destination = destination;
    source = source;
    kind = [];
    options = codes "bind" ∷ codes "ro" ∷ [];
  })

  dns_mount : Pod → Draft T → Draft T
  unfolding bind_file
  dns_mount p s =
      if is_some p.config.dns
      then does T
          (bind_file (codes "/etc/resolv.conf") (H.join (p.base_dir ∷ codes "resolv.conf" ∷ []))) s
      else s

  -- The masked and read-only paths, or the mounts that a privileged container may write to.
  shielded : Security → Draft T → Draft T
  unfolding all_of writable
  shielded security s =
      if security.privileged
      then record s { gen = T.change_mounts (map writable (T.mounts s.gen)) s.gen }
      else all_of Call.add_readonly_path security.readonly_paths
          (all_of Call.add_masked_path security.masked_paths s)

  unfoldable pub configure_mounts : Pod → Security → List Mount → Exec (Draft T) (Unit {0})
  unfolding dns_mount bind_file shielded add_volumes
  configure_mounts p security mounts = do
    modify (does T (Call.set_root_propagation rprivate))
    modify (dns_mount p)
    modify (does T (Call.set_hostname p.config.hostname))
    modify
        (does T (bind_file (codes "/etc/hostname") (H.join (p.base_dir ∷ codes "hostname" ∷ []))))
    modify (shielded security)
    add_volumes mounts
