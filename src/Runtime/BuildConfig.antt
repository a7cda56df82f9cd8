-- ===== src/Runtime/BuildConfig.antt =====
-- pkg/singularity/runtime/client.go: NewCLIClient, and the build configuration of Singularity.
use singularity_cri.Base.{List, [], ◌∷◌, ◌==◌, if◌then◌else◌, is_nil}
use singularity_cri.Base.Text.{Text, codes, text_eq, split_byte}
use singularity_cri.Base.Result.{Result, ok, err, errorf}
use singularity_cri.Base.Exec.{Exec}
use singularity_cri.Runtime.Host.{Host, Ran}

-- NewCLIClient: the base command, by the value of SINGULARITY_LOG_LEVEL
abbrev pub oci_base_cmd : Text → List Text
oci_base_cmd level =
    codes "singularity"
    ∷ (if level == codes "debug" then codes "-d" else codes "-q")
    ∷ codes "oci"
    ∷ []

abbrev pub confdir_name : Text
confdir_name = codes "SINGULARITY_CONFDIR"

-- Whether a line sets the directory, and to what: it has two parts.
abbrev dir_of : List Text → Text → Text
dir_of (name ∷ value ∷ []) rest = if name == confdir_name then value else rest
dir_of _ rest = rest

-- parseBuildConfig on the lines, each as strings.TrimSpace leaves it
unfoldable pub parse_build_config : List Text → Text
parse_build_config [] = []
parse_build_config (line ∷ lines) =
    let rest = parse_build_config lines in
    if is_nil line then rest else dir_of (split_byte b'=' line) rest

module _ (H : Host) (lines_of : Text → List Text) where
  configured : Ran × H.World → Result Text × H.World
  configured (Ran.succeeded output, w) = (
    (if is_nil (parse_build_config (lines_of output))
        then err (errorf "invalid build configuration")
        else ok (parse_build_config (lines_of output))),
    w,
  )
  configured (_, w) = (err (errorf "could not run buildcfg command"), w)

  -- BuildConfig
  unfoldable pub build_config : Exec H.World Text
  unfolding configured parse_build_config
  build_config w = configured (H.command (codes "singularity" ∷ codes "buildcfg" ∷ []) w)
