-- ===== src/Kube/Pod/Namespaces.antt =====
-- The namespaces of a pod: unshareNamespaces of pkg/kube/pod.go, and pkg/namespace/namespace.go.
use singularity_cri.Base.{ℕ, nat_eq, Bool, true, false, List, [], ◌∷◌, ◌++◌, if◌then◌else◌, map}
use singularity_cri.Base.Text.{Text, text_eq, codes}
use singularity_cri.Base.Exec.{Exec, ◌>>=◌, ◌>>◌, pure, modify, wrapping}
use singularity_cri.Runtime.Host.{Host}
use singularity_cri.Kube.Types.{Pod}
use singularity_cri.Kube.Types.{NamespaceType, NamespaceMode, Namespace}
use singularity_cri.Kube.Validate.{is_pod_mode}
use singularity_cri.Kube.Pod.{Yard, on_host}

abbrev pub kind_beq : NamespaceType → NamespaceType → Bool
kind_beq NamespaceType.pid_namespace NamespaceType.pid_namespace = true
kind_beq NamespaceType.network_namespace NamespaceType.network_namespace = true
kind_beq NamespaceType.mount_namespace NamespaceType.mount_namespace = true
kind_beq NamespaceType.ipc_namespace NamespaceType.ipc_namespace = true
kind_beq NamespaceType.uts_namespace NamespaceType.uts_namespace = true
kind_beq NamespaceType.user_namespace NamespaceType.user_namespace = true
kind_beq _ _ = false

-- specs.LinuxNamespaceType as a string
abbrev pub kind_name : NamespaceType → Text
kind_name NamespaceType.pid_namespace = codes "pid"
kind_name NamespaceType.network_namespace = codes "network"
kind_name NamespaceType.mount_namespace = codes "mount"
kind_name NamespaceType.ipc_namespace = codes "ipc"
kind_name NamespaceType.uts_namespace = codes "uts"
kind_name NamespaceType.user_namespace = codes "user"

-- nsToInfo: the name under /proc/<pid>/ns
unfoldable pub proc_file : NamespaceType → Text
proc_file NamespaceType.pid_namespace = codes "pid"
proc_file NamespaceType.network_namespace = codes "net"
proc_file NamespaceType.mount_namespace = codes "mnt"
proc_file NamespaceType.ipc_namespace = codes "ipc"
proc_file NamespaceType.uts_namespace = codes "uts"
proc_file NamespaceType.user_namespace = codes "user"

module _ (H : Host) where
  unfoldable pub bind_namespace_path : Pod → NamespaceType → Text
  bind_namespace_path p kind = H.join (p.base_dir ∷ codes "namespaces/" ∷ kind_name kind ∷ [])

  abbrev own : Pod → NamespaceType → Namespace
  own p kind = record { kind = kind; path = bind_namespace_path p kind }

  abbrev when_pod : NamespaceMode → Namespace → List Namespace
  when_pod mode ns = if is_pod_mode mode then ns ∷ [] else []

  -- The namespaces that unshareNamespaces adds: UTS always, network and IPC where the pod has its own.
  unfoldable pub own_namespaces : Pod → List Namespace
  own_namespaces p =
      own p NamespaceType.uts_namespace
      ∷ (when_pod p.config.options.network (own p NamespaceType.network_namespace)
          ++ when_pod p.config.options.ipc (own p NamespaceType.ipc_namespace))

  has_kind : List Namespace → NamespaceType → Bool
  has_kind [] kind = false
  has_kind (ns ∷ rest) kind = if kind_beq ns.kind kind then true else has_kind rest kind

  -- namespacePath
  unfoldable pub namespace_path : Pod → NamespaceType → Text
  unfolding has_kind
  namespace_path p kind = if has_kind p.namespaces kind then bind_namespace_path p kind else []

  -- Bind: an empty file at the path, and the namespace of the process mounted on it.
  unfoldable pub bind : ℕ → Namespace → Exec H.World (Unit {0})
  bind pid ns = do
    wrapping "could not create namespace file" (H.create_file ns.path)
    wrapping "could not close namespace file" (H.close_file ns.path)
    wrapping "could not mount namespace" (H.mount_namespace pid (proc_file ns.kind) ns.path)

  bind_all : ℕ → List Namespace → Exec H.World (Unit {0})
  bind_all pid [] = pure tt
  bind_all pid (ns ∷ rest) = do wrapping "could not bind namespace" (bind pid ns); bind_all pid rest

  -- UnshareAll: a shell in new namespaces of all the kinds, each bound to its file.
  unfoldable pub unshare_all : List Namespace → Exec H.World (Unit {0})
  unfolding bind_all
  unshare_all [] = pure tt
  unshare_all (ns ∷ rest) = do
    pid ←
        wrapping "could not start process"
          (H.start_shell (map (λ (n : Namespace). kind_name n.kind) (ns ∷ rest)))
    bind_all pid (ns ∷ rest)

  -- Remove; ENOENT and EINVAL of the unmount, and a file that is not there, are not errors.
  unfoldable pub remove_namespace : Namespace → Exec H.World (Unit {0})
  remove_namespace ns = do
    wrapping "could not umount" (H.unmount ns.path)
    wrapping "could not remove namespace" (H.remove_if_there ns.path)

  unfoldable pub unshare_namespaces : Exec (Yard H) (Unit {0})
  unfolding unshare_all own_namespaces
  unshare_namespaces = do
    modify (λ s. record s {
      pod = record s.pod { namespaces = s.pod.namespaces ++ own_namespaces s.pod };
    })
    wrapping "unsahre all failed" (λ s. on_host H (unshare_all s.pod.namespaces) s)
