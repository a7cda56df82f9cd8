-- ===== src/Image/Pull.antt =====
-- Pull and LibraryInfo of pkg/image/image.go: an image comes to the host's store under its checksum.
pub mod Kept
use singularity_cri.Base.{
  String, ℕ, Option, none, some, List, [], ◌∷◌, ◌++◌, ◌==◌, if◌then◌else◌, is_nil,
}
use singularity_cri.Base.Text.{Text, codes, text_eq, trim_prefix, split_byte}
use singularity_cri.Base.Result.{Result, ok, err, Error, sentinel, Sentinel, errorf, wrapf}
use singularity_cri.Base.Exec.{Exec, pure, raise, crash, wrapping, logged, attempt, ◌>>=◌, ◌>>◌}
use singularity_cri.Image.Reference.{
  Reference, local_file_domain, library_domain, docker_domain, to_string,
}
use singularity_cri.Image.Info.{Info}
use singularity_cri.Runtime.Host.{Host, ImageConfig, Ran}

module _ (H : Host) where
  section_config : Option Text → Exec H.World (Option ImageConfig)
  section_config none w = (ok none, w)
  section_config (some text) w =
      wrapping "failed to decode section"
        (do config ← λ w. (H.decode_config text, w); pure (some config)) w

  fetch_oci_config : Text → Exec H.World (Option ImageConfig)
  unfolding section_config
  fetch_oci_config path = do
    wrapping "failed to load SIF image" (H.load_image path)
    section ← wrapping "failed to read section" (H.read_section path (codes "oci-config.json"))
    section_config section

  -- An error of fetchOCIConfig is logged, and its nil result kept.
  config_or_none : Result (Option ImageConfig) → Option ImageConfig
  config_or_none (ok config) = config
  config_or_none _ = none

  sif_info : Reference → Text → Exec H.World Info
  unfolding fetch_oci_config config_or_none
  sif_info ref path = do
    wrapping "could not open sif image" (H.open_file path)
    size ← wrapping "could not fetch file info" (H.file_size path)
    checksum ← wrapping "could not get sif image digest" (H.file_hash path)
    wrapping "could not close pulled image" (H.close_file path)
    config ← attempt (fetch_oci_config path)
    pure (record {
      id = checksum;
      sha256 = checksum;
      size = size;
      path = path;
      ref = ref;
      oci_config = config_or_none config;
      used_by = [];
    })

  -- client.DownloadImage(…, parts[0], parts[1], nil): an index out of range panics.
  download : Text → Text → List Text → Exec H.World (Unit {0})
  download server pull_path (name ∷ tag ∷ _) = H.library_download server name tag pull_path
  download server pull_path _ = crash

  pull_library : Text → Text → Text → Exec H.World (Unit {0})
  unfolding download
  pull_library server url pull_path = do
    wrapping "could not create library client" (H.library_client server)
    wrapping "could not create file to pull image" (H.create_file pull_path)
    downloaded ← attempt (download server pull_path (split_byte b':' url))
    logged (H.close_file pull_path)
    wrapping "could not pull library image" (λ w. (downloaded, w))

  -- buildCmd.Run(); the environment of the command, with the credentials, is not modelled.
  built : Ran × H.World → Result (Unit {0}) × H.World
  built (Ran.succeeded _, w) = (ok tt, w)
  built (_, w) = (err (errorf "could not build image"), w)

  pull_docker : Text → Text → Text → Exec H.World (Unit {0})
  unfolding built
  pull_docker server url pull_path w = built (
      H.command
        (codes "singularity"
          ∷ codes "build"
          ∷ codes "-F"
          ∷ pull_path
          ∷ (codes "docker://" ++ (if is_nil server then url else server ++ (codes "/" ++ url)))
          ∷ [])
        w)

  pull_image : Text → Reference → Text → Exec H.World (Unit {0})
  unfolding pull_library pull_docker
  pull_image server ref pull_path = do
    name ← λ w. (to_string ref, w)
    let url = trim_prefix name (ref.uri ++ codes "/")
    (if ref.uri == library_domain
        then pull_library server url pull_path
        else if ref.uri == docker_domain
        then pull_docker server url pull_path
        else raise (errorf "unknown image registry"))

  -- The answer of GetImage: library.ErrNotFound becomes ErrNotFound.
  library_found : Reference → Result (Text × ℕ) → Exec H.World Info
  library_found ref (ok (hash, size)) = pure (record {
    id = trim_prefix hash (codes "sha256.");
    sha256 = trim_prefix hash (codes "sha256.");
    size = size;
    path = [];
    ref = ref;
    oci_config = none;
    used_by = [];
  })
  library_found ref (err (sentinel Sentinel.image_not_found)) =
      raise (sentinel Sentinel.image_not_found)
  library_found ref (err e) = raise (wrapf "could not get library image info" e)
  library_found ref Result.panic = crash

  -- LibraryInfo
  unfoldable pub library_info : Text → Reference → Exec H.World Info
  unfolding library_found
  library_info server ref =
      if ref.uri == library_domain
      then (do
        name ← λ w. (to_string ref, w)
        wrapping "could not create library client" (H.library_client server)
        found ← attempt (H.library_image server (trim_prefix name (ref.uri ++ codes "/")))
        library_found ref found)
      else raise (sentinel Sentinel.not_library)

  -- cleanup() and the error after it
  failed : Text → String → Error → Exec H.World Info
  failed pull_path message e = do logged (H.remove pull_path); raise (wrapf message e)

  or_cleanup : Text → String → Result (Unit {0}) → Exec H.World Info → Exec H.World Info
  unfolding failed
  or_cleanup pull_path message (ok _) rest = rest
  or_cleanup pull_path message (err e) rest = failed pull_path message e
  or_cleanup pull_path message Result.panic rest = crash

  -- The end of Pull: the file moves to the name of its checksum.
  saved : Text → Text → Result Info → Exec H.World Info
  unfolding or_cleanup
  saved location pull_path (err e) = failed pull_path "could not fetch SIF info" e
  saved location pull_path Result.panic = crash
  saved location pull_path (ok info) = do
    renamed ← attempt (H.rename pull_path (H.join (location ∷ info.sha256 ∷ [])))
    or_cleanup pull_path "could not save pulled image" renamed
        (pure (record info { path = H.join (location ∷ info.sha256 ∷ []) }))

  -- Pull of a local file. A local reference has a tag; r.tags[0] panics where there is none.
  pull_local : Reference → List Text → Exec H.World Info
  unfolding sif_info
  pull_local ref [] = crash
  pull_local ref (tag ∷ _) =
      wrapping "could not fetch local SIF info" (sif_info ref (trim_prefix tag local_file_domain))

  pull_remote : Text → Text → Reference → Exec H.World Info
  unfolding saved pull_image sif_info
  pull_remote location server ref w =
      let (random, w') = H.random_id w in
      let pull_path = H.join (location ∷ (codes "." ++ random) ∷ []) in
      (do
        pulled ← attempt (pull_image server ref pull_path)
        or_cleanup pull_path "could not pull image" pulled
            (do info ← attempt (sif_info ref pull_path); saved location pull_path info))
        w'

  unfoldable pub pull : Text → Text → Reference → Exec H.World Info
  unfolding pull_local pull_remote
  pull location server ref =
      if ref.uri == local_file_domain
      then pull_local ref ref.tags
      else pull_remote location server ref
