-- ===== src/Config.antt =====
-- cmd/server/config.go: the configuration of the server. The reading and the decoding of the file are
-- arguments.
use singularity_cri.Base.{◌≡◌, arith, Bool, false, Option, none, some, [], if◌then◌else◌, is_nil}
use singularity_cri.Base.Text.{Text, codes}
use singularity_cri.Base.Result.{Result, ok, err, panic, errorf, wrapf, wrap, ◌>>=◌}

pub record Config : Type 0 where
  pub listen_socket : Text
  pub storage_dir : Text
  pub streaming_url : Text
  pub cni_bin_dir : Text
  pub cni_conf_dir : Text
  pub base_run_dir : Text
  pub trash_dir : Text
  pub debug : Bool

abbrev pub default_config : Config
default_config = record {
  listen_socket = codes "/var/run/singularity.sock";
  storage_dir = codes "/var/lib/singularity";
  streaming_url = [];
  cni_bin_dir = [];
  cni_conf_dir = [];
  base_run_dir = codes "/var/run/singularity";
  trash_dir = [];
  debug = false;
}

valid_config : Config → Result Config
valid_config config =
    if is_nil config.listen_socket
    then err (errorf "socket to serve cannot be empty")
    else if is_nil config.storage_dir
    then err (errorf "directory to pull images cannot be empty")
    else if is_nil config.base_run_dir
    then err (errorf "directory to run containers cannot be empty")
    else ok config

-- parseConfig, on what os.Open and the decoder answer: `none` is a file that does not exist.
unfoldable pub parse_config : Result (Option (Result Config)) → Result Config
unfolding valid_config
parse_config (ok none) = ok default_config
parse_config (ok (some decoded)) =
    wrap "could not decode config" decoded >>= λ config. valid_config config
parse_config (err e) = err (wrapf "could not open config file" e)
parse_config panic = panic

-- A configuration that is returned names a socket, a directory for images and one for containers, whether it
-- was decoded or is the default one.
pub parse_config-usable :
    (file : Result (Option (Result Config))) (config : Config)
    → parse_config file ≡ ok config
    → (is_nil config.listen_socket ≡ false)
      × ((is_nil config.storage_dir ≡ false) × (is_nil config.base_run_dir ≡ false))
unfolding parse_config valid_config
parse_config-usable file config h = ground arith
