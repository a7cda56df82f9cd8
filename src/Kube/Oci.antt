-- ===== src/Kube/Oci.antt =====
-- The translation of containers and pods to OCI specifications: container_oci.go and pod_oci.go of
-- pkg/kube. The generator of github.com/opencontainers/runtime-tools and the libraries that look up
-- devices, users, SELinux labels and seccomp profiles are the parameter `Translator`.
pub mod Numbers
pub mod Mounts
pub mod Devices
pub mod Command
pub mod Process
pub mod Security
pub mod User
pub mod Translate
use singularity_cri.Base.{ℕ, Bool, List, Option}
use singularity_cri.Base.Text.{Text}
use singularity_cri.Base.Result.{Result}
use singularity_cri.Base.Exec.{Exec}
use singularity_cri.Runtime.Host.{Host}
use singularity_cri.Kube.Types.{NamespaceType, SelinuxOptions}

-- specs.Mount
pub record SpecMount : Type 0 where
  pub destination : Text
  pub source : Text
  pub kind : Text
  pub options : List Text

-- configs.Device of github.com/opencontainers/runc
pub record HostDevice : Type 0 where
  pub path : Text
  pub kind : Text
  pub major : ℕ
  pub minor : ℕ
  pub permissions : Text
  pub file_mode : ℕ
  pub uid : ℕ
  pub gid : ℕ

-- user.ExecUser: each number is the bits of an int.
pub record ExecUser : Type 0 where
  pub uid : ℕ
  pub gid : ℕ
  pub sgids : List ℕ

-- The sets of capabilities of a process.
pub data CapabilitySet : Type 0 where
  effective ambient bounding inheritable permitted : CapabilitySet

-- The methods of generate.Generator that change the specification and cannot fail, and what the
-- translators write into the specification themselves.
pub data Call : Type 0 where
  set_root_path : Text → Call
  set_root_readonly : Bool → Call
  set_root_propagation : Text → Call
  set_hostname : Text → Call
  add_mount : SpecMount → Call
  add_masked_path : Text → Call
  add_readonly_path : Text → Call
  -- AddDevice, of the device at a path
  add_device : Text → HostDevice → Call
  -- AddLinuxResourcesDevice(true, …)
  allow_device : HostDevice → Call
  -- Linux.Resources.Devices = …, the one entry that allows every device
  allow_all_devices : Call
  clear_namespaces : Call
  add_or_replace_namespace : NamespaceType → Text → Call
  set_cpu_mems : Text → Call
  set_cpu_cpus : Text → Call
  set_cgroups_path : Text → Call
  set_cpu_period : ℕ → Call
  set_cpu_quota : ℕ → Call
  set_cpu_shares : ℕ → Call
  set_oom_score_adj : ℕ → Call
  set_memory_limit : ℕ → Call
  add_annotation : Text → Text → Call
  add_sysctl : Text → Text → Call
  add_process_env : Text → Text → Call
  set_process_cwd : Text → Call
  set_process_terminal : Bool → Call
  set_process_args : List Text → Call
  set_no_new_privileges : Bool → Call
  -- Linux.Seccomp = seccomp.DefaultProfile(…), and = nil
  set_default_seccomp : Call
  clear_seccomp : Call
  set_apparmor_profile : Text → Call
  set_mount_label : Text → Call
  set_selinux_label : Text → Call
  set_uid : ℕ → Call
  set_gid : ℕ → Call
  add_additional_gid : ℕ → Call
  setup_privileged : Bool → Call

pub record Translator (H : Host) : Type 1 where
  pub Gen : Type 0
  -- generate.New("linux"), and a Generator on an empty specification
  pub new : Exec H.World Gen
  pub blank : Gen
  pub call : Call → Gen → Gen
  -- AddProcessCapability… and DropProcessCapability…
  pub add_capability : CapabilitySet → Text → Exec Gen (Unit {0})
  pub drop_capability : CapabilitySet → Text → Exec Gen (Unit {0})
  -- Config.Linux.RootfsPropagation
  pub root_propagation : Gen → Text
  -- Mounts(), whose elements the caller may change in place
  pub mounts : Gen → List SpecMount
  pub change_mounts : List SpecMount → Gen → Gen
  -- seccomp.LoadProfileFromBytes
  pub load_seccomp : Text → Exec Gen (Unit {0})
  -- filepath.EvalSymlinks: nothing where the error is that the file does not exist
  pub eval_symlinks : Text → Exec H.World (Option Text)
  -- devices.HostDevices, devices.DeviceFromPath (nothing for ErrNotADevice), devices.GetDevices
  pub host_devices : Exec H.World (List HostDevice)
  pub device_from_path : Text → Text → Exec H.World (Option HostDevice)
  pub get_devices : Text → Exec H.World (List HostDevice)
  -- user.GetExecUser for a user, by the files at two paths, which it is given if they can be opened
  pub get_exec_user : Text → Text → Text → Exec H.World ExecUser
  -- label.InitLabels: the labels of the process and of its mounts
  pub init_labels : List Text → Exec H.World (Text × Text)
  -- ioutil.ReadFile
  pub read_file : Text → Exec H.World Text

-- What a translator reads and writes: the generator and the host.
pub record Draft {H : Host} (T : Translator H) : Type 0 where
  pub gen : T.Gen
  pub world : H.World

module _ {H : Host} (T : Translator H) where
  abbrev pub on_host : {A : Type 0} → Exec H.World A → Exec (Draft T) A
  on_host m s = let (r, w) = m s.world in (r, record s { world = w })

  abbrev pub on_gen : {A : Type 0} → Exec T.Gen A → Exec (Draft T) A
  on_gen m s = let (r, g) = m s.gen in (r, record s { gen = g })

  abbrev pub does : Call → Draft T → Draft T
  does c s = record s { gen = T.call c s.gen }
