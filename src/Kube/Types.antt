-- ===== src/Kube/Types.antt =====
-- The data of pkg/kube: Container of container.go, Pod of pod.go, and what they keep of the k8s
-- configurations (k8s.io/kubernetes/pkg/kubelet/apis/cri/runtime/v1alpha2).
use singularity_cri.Base.{ℕ, Bool, Option, List}
use singularity_cri.Base.Text.{Text}
use singularity_cri.Base.Dict.{Dict}
use singularity_cri.Runtime.State.{State, OciState}
use singularity_cri.Runtime.Host.{Host}
use singularity_cri.Image.Info.{Info}

pub record Capabilities : Type 0 where
  pub add_capabilities : List Text
  pub drop_capabilities : List Text

-- k8s.SELinuxOption; `kind` is its Type.
pub record SelinuxOptions : Type 0 where
  pub user : Text
  pub role : Text
  pub kind : Text
  pub level : Text

pub data NamespaceMode : Type 0 where
  pod_mode container_mode node_mode : NamespaceMode

-- The getters of a nil configuration answer POD, the zero value.
pub record NamespaceOptions : Type 0 where
  pub network : NamespaceMode
  pub pid : NamespaceMode
  pub ipc : NamespaceMode

-- k8s.LinuxContainerSecurityContext. A user or a group is the bits of an int64.
pub record Security : Type 0 where
  pub privileged : Bool
  pub apparmor_profile : Text
  pub seccomp_profile_path : Text
  pub selinux_options : Option SelinuxOptions
  pub capabilities : Option Capabilities
  pub namespace_options : NamespaceOptions
  pub run_as_user : Option ℕ
  pub run_as_group : Option ℕ
  pub run_as_username : Text
  pub supplemental_groups : List ℕ
  pub readonly_rootfs : Bool
  pub no_new_privs : Bool
  pub masked_paths : List Text
  pub readonly_paths : List Text

-- k8s.MountPropagation and k8s.Mount
pub data Propagation : Type 0 where
  propagation_private host_to_container bidirectional : Propagation

pub record Mount : Type 0 where
  pub container_path : Text
  pub host_path : Text
  pub readonly : Bool
  pub propagation : Propagation

-- k8s.Device
pub record Device : Type 0 where
  pub container_path : Text
  pub host_path : Text
  pub permissions : Text

-- k8s.LinuxContainerResources: each number is the bits of an int64.
pub record Resources : Type 0 where
  pub cpu_period : ℕ
  pub cpu_quota : ℕ
  pub cpu_shares : ℕ
  pub memory_limit : ℕ
  pub oom_score_adj : ℕ
  pub cpuset_cpus : Text
  pub cpuset_mems : Text

-- k8s.ContainerConfig; `security` is none also where Linux is nil.
pub record ContainerConfig : Type 0 where
  pub image : Text
  pub command : List Text
  pub args : List Text
  pub working_dir : Text
  pub labels : Dict Text
  pub annotations : Dict Text
  pub mounts : List Mount
  pub devices : List Device
  pub resources : Resources
  pub envs : List (Text × Text)
  pub stdin : Bool
  pub stdin_once : Bool
  pub tty : Bool
  pub log_path : Text
  pub security : Option Security

-- k8s.DNSConfig
pub record DnsConfig : Type 0 where
  pub servers : List Text
  pub searches : List Text
  pub options : List Text

-- k8s.PortMapping: the ports are the bits of an int32, the protocol is its name.
pub record PortMapping : Type 0 where
  pub container_port : ℕ
  pub host_port : ℕ
  pub protocol : Text

-- k8s.LinuxSandboxSecurityContext, but its namespace options and its seccomp profile.
pub record PodSecurity : Type 0 where
  pub privileged : Bool
  pub readonly_rootfs : Bool
  pub selinux_options : Option SelinuxOptions
  pub run_as_user : Option ℕ
  pub run_as_group : Option ℕ
  pub supplemental_groups : List ℕ

-- k8s.PodSandboxConfig; `seccomp` is none where there is no security context, and `security` has
-- the zero values there.
pub record PodConfig : Type 0 where
  pub name : Text
  pub namespace : Text
  pub hostname : Text
  pub log_directory : Text
  pub labels : Dict Text
  pub annotations : Dict Text
  pub port_mappings : List PortMapping
  pub sysctls : Dict Text
  pub cgroup_parent : Text
  pub dns : Option DnsConfig
  pub options : NamespaceOptions
  pub security : PodSecurity
  pub seccomp : Option Text

-- specs.LinuxNamespaceType
pub data NamespaceType : Type 0 where
  pid_namespace network_namespace mount_namespace ipc_namespace uts_namespace user_namespace :
      NamespaceType

-- specs.LinuxNamespace
pub record Namespace : Type 0 where
  pub kind : NamespaceType
  pub path : Text

-- A Go slice of pointers to containers: the cells of its array, and how many of them are its own. A
-- container is pointed to by its ID, which never changes and is never given twice.
pub record Members : Type 0 where
  pub cells : List Text
  pub len : ℕ

pub record Pod : Type 0 where
  pub id : Text
  pub config : PodConfig
  pub base_dir : Text
  pub is_stopped : Bool
  pub is_removed : Bool
  pub runtime_state : State
  pub oci_state : Option OciState
  pub namespaces : List Namespace
  pub containers : Members
  pub has_cancel : Bool

pub record Container : Type 0 where
  pub id : Text
  pub config : ContainerConfig
  pub base_dir : Text
  pub trash_dir : Text
  pub runtime_state : State
  pub oci_state : Option OciState
  pub log_path : Text
  pub exec_envs : List Text
  pub is_stopped : Bool
  pub is_removed : Bool
  pub is_stdin_closed : Bool
  pub stdin : Bool
  pub has_cancel : Bool

-- What a method of Container reads and writes: the container, its pod, its image and the host.
pub record Scene (H : Host) : Type 0 where
  pub cont : Container
  pub pod : Pod
  pub info : Info
  pub world : H.World
