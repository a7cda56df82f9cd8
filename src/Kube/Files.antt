-- ===== src/Kube/Files.antt =====
-- The paths and files of containers: pkg/kube/container_files.go and copyFile of pkg/kube/helper.go.
use singularity_cri.Base.{
  Bool, true, false, Option, none, some, List, [], ◌∷◌, ◌==◌, if◌then◌else◌, is_nil, ◌||◌,
}
use singularity_cri.Base.Text.{Text, codes, text_eq}
use singularity_cri.Base.Exec.{Exec, pure, wrapping, logged, ◌>>=◌, ◌>>◌}
use singularity_cri.Runtime.Host.{Host}
use singularity_cri.Kube.Types.{Container, Pod}

module _ (H : Host) where
  unfoldable pub copy_file : Text → Text → Exec H.World (Unit {0})
  copy_file from to = do
    wrapping "could not create copy destination" (H.create_file to)
    wrapping "could not open copy source" (H.open_file from)
    wrapping "could not copy files" (H.copy_contents from to)

  unfoldable pub oci_config_path : Container → Text
  oci_config_path c = H.join (c.base_dir ∷ codes "bundle/" ∷ codes "config.json" ∷ [])

  unfoldable pub socket_path : Container → Text
  socket_path c = H.join (c.base_dir ∷ codes "sync.sock" ∷ [])

  unfoldable pub bundle_path : Container → Text
  bundle_path c = H.join (c.base_dir ∷ codes "bundle/" ∷ [])

  -- The path that addLogDirectory gives the container's log, none where no log is collected.
  unfoldable pub full_log_path : Container → Pod → Option Text
  full_log_path c p =
      if is_nil p.config.log_directory || is_nil c.config.log_path
      then none
      else some (H.join (p.config.log_directory ∷ c.config.log_path ∷ []))

  -- The bundle and the OCI configuration; translateContainer is an argument.
  unfoldable pub add_oci_bundle :
      Container → Text → Exec H.World (Unit {0}) → Exec H.World (Unit {0})
  add_oci_bundle c image_path translate = do
    wrapping "could not create SIF bundle" (H.create_bundle image_path (bundle_path c))
    wrapping "could not generate oci spec for container" translate
    wrapping "could not create OCI config file" (H.create_file (oci_config_path c))
    wrapping "could not encode OCI config into json" (H.write_spec (oci_config_path c))

  -- An error is logged where `silent`, and returned otherwise.
  abbrev report : Bool → Exec H.World (Unit {0}) → Exec H.World (Unit {0})
  report true step = logged step
  report false step = step

  unfoldable pub cleanup_files : Container → Bool → Exec H.World (Unit {0})
  cleanup_files c silent = do
    report silent (wrapping "could not delete SIF bundle" (H.delete_bundle (bundle_path c)))
    report silent (wrapping "could not cleanup container" (H.remove_all c.base_dir))

  copy_logs : Text → Text → List Text → Exec H.World (Unit {0})
  copy_logs dir trash_logs [] = pure tt
  copy_logs dir trash_logs (name ∷ names) = do
    wrapping "could not copy trash log"
        (copy_file (H.join (dir ∷ name ∷ [])) (H.join (trash_logs ∷ name ∷ [])))
    copy_logs dir trash_logs names

  collect_logs : Container → Pod → Text → Exec H.World (Unit {0})
  unfolding copy_logs
  collect_logs c p trash_logs = do
    wrapping "could not create trash logs directory" (H.mkdir trash_logs)
    (if H.dir c.log_path == p.config.log_directory
        then wrapping "could not copy trash log"
            (copy_file c.log_path (H.join (trash_logs ∷ codes "1.log" ∷ [])))
        else (do
          names ← wrapping "could not read log directory" (H.read_dir (H.dir c.log_path))
          copy_logs (H.dir c.log_path) trash_logs names))

  collect_into : Container → Pod → Text → Exec H.World (Unit {0})
  unfolding collect_logs
  collect_into c p trash = do
    wrapping "could not create trash directory" (H.mkdir_all trash)
    wrapping "could not save OCI config to trash directory"
        (copy_file (oci_config_path c) (H.join (trash ∷ codes "config.json" ∷ [])))
    (if is_nil c.log_path then pure tt else collect_logs c p (H.join (trash ∷ codes "logs" ∷ [])))

  unfoldable pub collect_trash : Container → Pod → Exec H.World (Unit {0})
  unfolding collect_into
  collect_trash c p =
      if is_nil c.trash_dir
      then pure tt
      else collect_into c p (H.join (c.trash_dir ∷ p.id ∷ c.id ∷ []))
