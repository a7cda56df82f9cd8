-- ===== src/Tests/Oci.antt =====
-- The translation to an OCI specification, a sync channel, a disk and the image service at concrete
-- inputs.
use singularity_cri.Base.{
  ◌≡◌, ◌≢◌, refl, ◌<◌, arith, Bool, true, false, none, some, List, [], ◌∷◌, ◌++◌, if◌then◌else◌,
}
use singularity_cri.Base.Text.{Text, codes}
use singularity_cri.Base.Result.{ok}
use singularity_cri.Base.Exec.{Exec}
use singularity_cri.Runtime.State.{State}
use singularity_cri.Runtime.Host.{ImageConfig}
use singularity_cri.Runtime.Observe.{Observer, Reach, Step, started, send}
use singularity_cri.Runtime.Observe.Order.{IsSound, Reach-IsSound}
use singularity_cri.Kube.Types.{ContainerConfig, Mount, Propagation, Device}
use singularity_cri.Kube.Oci.{Translator, Draft, Call, HostDevice}
use singularity_cri.Kube.Oci.Command.{Command, command_of}
use singularity_cri.Kube.Oci.Command.Laws.{runs, documented, command_of-documented}
use singularity_cri.Kube.Oci.Mounts.{configure_mounts, option_of}
use singularity_cri.Kube.Oci.Mounts.Propagation.{
  strongest, sets_no_propagation, KeepsPropagation, root_propagation-configure_mounts,
}
use singularity_cri.Kube.Oci.Translate.{no_security}
use singularity_cri.Fs.{Entry, Entries, fetch_stat}
use singularity_cri.Fs.Total.{fetch_stat-total, m64, total_bytes, total_inodes}
use singularity_cri.Tests.World.{host, busybox, container_config, pod, three, reports}

-- A generator that keeps the propagation of the root, and nothing else.
abbrev told : Call → Text → Text
told (Call.set_root_propagation p) g = p
told _ g = g

abbrev succeeds : {A S : Type 0} → A → Exec S A
succeeds a s = (ok a, s)

abbrev null_device : HostDevice
null_device = record {
  path = codes "/dev/null";
  kind = codes "c";
  major = 1;
  minor = 3;
  permissions = codes "rwm";
  file_mode = 438;
  uid = 0;
  gid = 0;
}

abbrev translator : Translator host
translator = record {
  Gen = Text;
  new = succeeds [];
  blank = [];
  call = λ c g. if sets_no_propagation c then g else told c g;
  add_capability = λ set cap. succeeds tt;
  drop_capability = λ set cap. succeeds tt;
  root_propagation = λ g. g;
  mounts = λ g. [];
  change_mounts = λ ms g. g;
  load_seccomp = λ text. succeeds tt;
  eval_symlinks = λ path. succeeds (some path);
  host_devices = succeeds [];
  device_from_path = λ path permissions. succeeds (some null_device);
  get_devices = λ path. succeeds [];
  get_exec_user = λ spec passwd group. succeeds (record { uid = 0; gid = 0; sgids = [] });
  init_labels = λ labels. succeeds ([], []);
  read_file = λ path. succeeds [];
}

translator-KeepsPropagation : KeepsPropagation translator
translator-KeepsPropagation = record {
  set = λ p g h. refl;
  others = λ c g h. rw h;
  mounts = λ ms g. refl;
}

abbrev draft : Draft translator
draft = record { gen = []; world = reports [] [] }

abbrev data_mount : Propagation → Mount
data_mount propagation = record {
  container_path = codes "/data";
  host_path = codes "/srv";
  readonly = true;
  propagation = propagation;
}

abbrev two_mounts : List Mount
two_mounts =
    data_mount Propagation.host_to_container ∷ data_mount Propagation.propagation_private ∷ []

root_propagation-configure_mounts_example :
    (configure_mounts translator (pod three) no_security two_mounts draft).1.gen
    ≡ option_of (strongest Propagation.propagation_private two_mounts)
unfolding configure_mounts
root_propagation-configure_mounts_example =
    root_propagation-configure_mounts translator translator-KeepsPropagation (pod three) no_security
      two_mounts draft refl

abbrev single : Device
single = record {
  container_path = codes "/dev/zero";
  host_path = codes "/dev/null";
  permissions = codes "rwm";
}

abbrev image_config : ImageConfig
image_config = record {
  env = [];
  entrypoint = codes "/entry" ∷ [];
  cmd = codes "serve" ∷ [];
  working_dir = [];
  user = [];
  stop_signal = [];
}

abbrev with_args : ContainerConfig
with_args = record container_config { args = codes "check" ∷ [] }

abbrev entry_check : Command
entry_check = record { cmd = codes "/entry" ∷ []; args = codes "check" ∷ []; cwd = []; envs = [] }

command_of-documented_example :
    (runs entry_check ≡ documented with_args image_config) × (runs entry_check ≢ [])
unfolding command_of singularity_cri.Base.Text.text_beq
command_of-documented_example =
    command_of-documented with_args busybox image_config entry_check refl refl

abbrev one_sent : Observer
one_sent = send State.creating started

creating_sent : Reach one_sent
unfolding singularity_cri.Runtime.Observe.read_state singularity_cri.Runtime.State.status_to_state
creating_sent =
    Reach.next Reach.here
      (Step.received (some (codes "creating")) State.creating refl refl (omega arith))

Reach-IsSound_example : IsSound one_sent
Reach-IsSound_example = Reach-IsSound one_sent creating_sent

-- A directory with a file and a directory in it.
abbrev disk : Entries
disk = Entries.then_entry (Entry.file 10) (
    Entries.then_entry (Entry.directory 4096 (Entries.then_entry (Entry.file 5) Entries.none_left))
      Entries.none_left)

fetch_stat-total_example :
    fetch_stat (Entry.directory 4096 disk)
    ≡ ok (
      m64 (total_bytes (Entry.directory 4096 disk)),
      m64 (total_inodes (Entry.directory 4096 disk)),
    )
fetch_stat-total_example = fetch_stat-total 4096 disk (tt, ((tt, tt), tt))
