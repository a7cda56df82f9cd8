-- ===== src/Runtime/Host.antt =====
-- What the program calls outside the repository: the host's processes, files and sockets, the OCI
-- engine behind the `singularity` command, and the libraries that read images. No law is assumed of
-- them: whatever they answer, and whatever they change, the theorems hold.
use singularity_cri.Base.{ℕ, Option, List}
use singularity_cri.Base.Text.{Text}
use singularity_cri.Base.Result.{Result}
use singularity_cri.Base.Exec.{Exec}
use singularity_cri.Runtime.State.{State, OciState}

-- exec.Cmd: the output of a command that succeeded, the standard error of one that exited with a
-- status that is not 0, or the failure to run it.
pub data Ran : Type 0 where
  succeeded : Text → Ran
  exited : Text → Ran
  failed : ℕ → Ran

-- specs.ImageConfig of an OCI image: the fields that the program reads.
pub record ImageConfig : Type 0 where
  pub env : List Text
  pub entrypoint : List Text
  pub cmd : List Text
  pub working_dir : Text
  pub user : Text
  pub stop_signal : Text

pub record Host : Type 1 where
  pub World : Type 0
  -- cmd.Run(), cmd.Output()
  pub command : List Text → World → Ran × World
  -- json.Unmarshal into *ociruntime.State; the JSON text null leaves the pointer nil
  pub decode_state : Text → Result (Option OciState)
  -- pty.Open of github.com/kr/pty
  pub open_pty : Exec World (Unit {0})
  -- unix.Listen on the sync socket
  pub listen : Text → Exec World (Unit {0})
  -- the state that comes next over the channel of a sync socket; the zero state when it is closed
  pub receive : Text → World → State × World
  -- the same, or nothing within the given seconds
  pub receive_within : ℕ → Text → World → Option State × World
  -- the cancel function of the context of a sync socket
  pub cancel : Text → World → World
  -- os.MkdirAll, os.RemoveAll, os.Remove, os.Rename, and a file written whole
  pub mkdir_all : Text → Exec World (Unit {0})
  pub mkdir : Text → Exec World (Unit {0})
  pub remove_all : Text → Exec World (Unit {0})
  pub remove : Text → Exec World (Unit {0})
  pub rename : Text → Text → Exec World (Unit {0})
  pub read_dir : Text → Exec World (List Text)
  -- filepath.Join and filepath.Dir
  pub join : List Text → Text
  pub dir : Text → Text
  -- ocibundle.FromSif(image, bundle).Create and .Delete
  pub create_bundle : Text → Text → Exec World (Unit {0})
  pub delete_bundle : Text → Exec World (Unit {0})
  -- the OCI spec of a pod or a container, written to a file
  pub write_spec : Text → Exec World (Unit {0})
  -- the write end of a container's stdin
  pub close_stdin : Text → Exec World (Unit {0})
  -- signing.Verify: the text of its error
  pub verify : Text → World → Option Text × World
  -- os.Open, File.Stat, the SHA-256 of a file in hexadecimal, File.Close
  pub open_file : Text → Exec World (Unit {0})
  pub file_size : Text → Exec World ℕ
  pub file_hash : Text → Exec World Text
  pub close_file : Text → Exec World (Unit {0})
  -- image.Init, and image.NewSectionReader with its text; `none` is ErrNoSection
  pub load_image : Text → Exec World (Unit {0})
  pub read_section : Text → Text → Exec World (Option Text)
  pub decode_config : Text → Result ImageConfig
  -- library.NewClient for a server, and its GetImage (hash and size) and DownloadImage
  pub library_client : Text → Exec World (Unit {0})
  pub library_image : Text → Text → Exec World (Text × ℕ)
  pub library_download : Text → Text → Text → Text → Exec World (Unit {0})
  -- os.Create and os.OpenFile for writing, io.Copy from one open file to another
  pub create_file : Text → Exec World (Unit {0})
  pub copy_contents : Text → Text → Exec World (Unit {0})
  -- capabilities.Normalize: the known capabilities among those given
  pub normalize_capabilities : List Text → List Text
  -- a shell in new namespaces of the given kinds, by its process ID
  pub start_shell : List Text → Exec World ℕ
  -- mount("/proc/<pid>/ns/<file>", path, MS_BIND)
  pub mount_namespace : ℕ → Text → Text → Exec World (Unit {0})
  -- unmount(path, MNT_DETACH), with no error for ENOENT and EINVAL; os.Remove, with none for a missing file
  pub unmount : Text → Exec World (Unit {0})
  pub remove_if_there : Text → Exec World (Unit {0})
  -- os.Hostname()
  pub hostname : World → Result Text
  -- a file written whole: os.OpenFile, the writes, and Close
  pub write_file : Text → Text → Exec World (Unit {0})
  pub random_id : World → Text × World
