-- ===== src/Network.antt =====
-- pkg/network/network.go, and pkg/kube/pod_network.go, which calls it. The CNI libraries
-- (github.com/containernetworking/cni and the network package of Singularity) are the parameter `Cni`.
-- The lock is held from the first read to the last write of each method.
pub mod Stable
use singularity_cri.Base.{
  ℕ, nat_eq, Bool, true, false, Option, none, some, List, [], ◌∷◌, ◌++◌, ◌==◌, if◌then◌else◌,
  is_nil, ◌&&◌, not,
}
use singularity_cri.Base.Text.{Text, codes, text_eq}
use singularity_cri.Base.Result.{Result, ok, err, panic, errorf}
use singularity_cri.Base.Exec.{
  Exec, ◌>>=◌, ◌>>◌, pure, raise, crash, modify, gets, wrapping, logged, attempt,
}
use singularity_cri.Runtime.Host.{Host}
use singularity_cri.Kube.Types.{Pod, PortMapping, NamespaceType}
use singularity_cri.Kube.Pod.Namespaces.{namespace_path}

-- libcni.NetworkConfig: its type, and whether it has the capability ipRanges.
pub record Plugin : Type 0 where
  pub kind : Text
  pub ip_ranges : Bool

-- libcni.NetworkConfigList
pub record NetworkConfig : Type 0 where
  pub name : Text
  pub plugins : List Plugin

-- snetwork.CNIPath
pub record CniPath : Type 0 where
  pub conf : Text
  pub plugin : Text

-- snetwork.PortMapEntry: the ports are the bits of an int.
pub record PortMapEntry : Type 0 where
  pub host_port : ℕ
  pub container_port : ℕ
  pub protocol : Text

-- A Setup is a handle; what it refers to is a part of the host.
pub record Cni (H : Host) : Type 1 where
  pub Setup : Type 0
  pub all_configs : Option CniPath → Exec H.World (List NetworkConfig)
  -- libcni.ConfListFromBytes of the text in setDefaultNetwork; nil after an error
  pub loopback : Option NetworkConfig
  pub new_setup : List NetworkConfig → Text → Text → Option CniPath → Exec H.World Setup
  pub set_capability : Setup → Text → PortMapEntry → Exec H.World (Unit {0})
  pub set_args : Setup → List Text → Exec H.World (Unit {0})
  pub add_networks : Setup → Exec H.World (Unit {0})
  pub del_networks : Setup → Exec H.World (Unit {0})
  pub network_ip : Setup → Text → Text → Exec H.World Text
  pub to_lower : Text → Text

pub record Manager : Type 0 where
  pub lo_network : Option NetworkConfig
  pub default_network : Option NetworkConfig
  pub cni_path : Option CniPath
  pub pod_cidr : Text

-- network.PodConfig
pub record PodConfig : Type 0 where
  pub id : Text
  pub namespace : Text
  pub name : Text
  pub ns_path : Text
  pub port_mappings : List PortMapping

pub record PodNetwork {H : Host} (N : Cni H) : Type 0 where
  pub setup : N.Setup
  pub default_network : Text

-- What a method of the manager reads and writes.
pub record Wire (H : Host) : Type 0 where
  pub manager : Manager
  pub world : H.World

unfoldable pub has_loopback : List Plugin → Bool
has_loopback [] = false
has_loopback (p ∷ ps) = if p.kind == codes "loopback" then true else has_loopback ps

unfoldable pub has_ip_ranges : List Plugin → Bool
has_ip_ranges [] = false
has_ip_ranges (p ∷ ps) = if p.ip_ranges then true else has_ip_ranges ps

-- The text that SetUpPod passes to the plugins.
unfoldable pub network_args : Text → PodConfig → Text → Text
network_args network p cidr =
    network
    ++ (codes ":IgnoreUnknown=1;K8S_POD_NAMESPACE="
        ++ (p.namespace
            ++ (codes ";K8S_POD_NAME="
                ++ (p.name
                    ++ (codes ";K8S_POD_INFRA_CONTAINER_ID="
                        ++ (p.id ++ (if is_nil cidr then [] else codes ";ipRange=" ++ cidr)))))))

module _ {H : Host} (N : Cni H) where
  abbrev pub on_host : {A : Type 0} → Exec H.World A → Exec (Wire H) A
  on_host m s = let (r, w) = m s.world in (r, record s { world = w })

  -- The first configuration becomes the default; an error message about none reads the path, which may
  -- be nil.
  choose : List NetworkConfig → Exec (Wire H) (Unit {0})
  choose [] s = elim s.manager.cni_path [
    | none ↦ (panic, s)
    | some path ↦ (err (errorf "no CNI network configuration found"), s)
  ]
  choose (config ∷ _) s = (
    ok tt,
    record s {
      manager = record s.manager {
        default_network = some config;
        lo_network = if has_loopback config.plugins then s.manager.lo_network else N.loopback;
      };
    },
  )

  unset : Exec (Wire H) (Unit {0})
  unfolding choose has_loopback
  unset = do
    configs ← wrapping "could not get networks" (λ s. on_host (N.all_configs s.manager.cni_path) s)
    choose configs

  unless_set : Option NetworkConfig → Exec (Wire H) (Unit {0})
  unfolding unset
  unless_set none = unset
  unless_set (some _) = pure tt

  unfoldable pub set_default_network : Exec (Wire H) (Unit {0})
  unfolding unless_set
  set_default_network s = unless_set s.manager.default_network s

  -- The second part of checkInit.
  check_ranges : Option NetworkConfig → Exec (Wire H) (Unit {0})
  unfolding has_ip_ranges
  check_ranges none s = (panic, s)
  check_ranges (some config) s =
      if has_ip_ranges config.plugins
      then ((if is_nil s.manager.pod_cidr then err (errorf "no PodCIDR set") else ok tt), s)
      else (ok tt, record s { manager = record s.manager { pod_cidr = [] } })

  unfoldable pub check_init : Exec (Wire H) (Unit {0})
  unfolding set_default_network check_ranges
  check_init = do set_default_network; λ s. check_ranges s.manager.default_network s

  -- Init
  init_path : CniPath → Option CniPath → CniPath
  init_path default none = default
  init_path default (some path) = path

  unless_initialized : CniPath → Option CniPath → Option CniPath → Exec (Wire H) (Unit {0})
  unfolding init_path set_default_network
  unless_initialized default path (some _) = pure tt
  unless_initialized default path none = do
    modify
        (λ s. record s { manager = record s.manager { cni_path = some (init_path default path) } })
    set_default_network

  unfoldable pub init : CniPath → Option CniPath → Exec (Wire H) (Unit {0})
  unfolding unless_initialized
  init default path s = unless_initialized default path s.manager.cni_path s

  port_entry : PortMapping → PortMapEntry
  port_entry m = record {
    host_port = if m.host_port == 0 then m.container_port else m.host_port;
    container_port = m.container_port;
    protocol = N.to_lower m.protocol;
  }

  -- The loop over the port mappings: an error is logged.
  map_ports : N.Setup → Text → List PortMapping → Exec (Wire H) (Unit {0})
  unfolding port_entry
  map_ports setup network [] = pure tt
  map_ports setup network (m ∷ ms) = do
    logged (on_host (N.set_capability setup network (port_entry m)))
    map_ports setup network ms

  with_loopback : Option NetworkConfig → NetworkConfig → List NetworkConfig
  with_loopback none config = config ∷ []
  with_loopback (some lo) config = lo ∷ config ∷ []

  -- The checks of SetUpPod.
  complete : PodConfig → Exec (Wire H) (Unit {0})
  complete p =
      if is_nil p.id
      then raise (errorf "empty ID")
      else if is_nil p.ns_path
      then raise (errorf "empty network namespace path")
      else if is_nil p.name
      then raise (errorf "empty POD name")
      else if is_nil p.namespace
      then raise (errorf "empty POD namespace name")
      else pure tt

  set_up : PodConfig → Option NetworkConfig → Exec (Wire H) (PodNetwork N)
  unfolding map_ports network_args with_loopback
  set_up p none = crash
  set_up p (some config) = do
    setup ← λ s.
        on_host
          (N.new_setup (with_loopback s.manager.lo_network config) p.id p.ns_path
            s.manager.cni_path)
          s
    map_ports setup config.name p.port_mappings
    λ s. on_host (N.set_args setup (network_args config.name p s.manager.pod_cidr ∷ [])) s
    on_host (N.add_networks setup)
    pure (record { setup = setup; default_network = config.name })

  unfoldable pub set_up_pod : PodConfig → Exec (Wire H) (PodNetwork N)
  unfolding check_init complete set_up
  set_up_pod p = do check_init; complete p; λ s. set_up p s.manager.default_network s

  unfoldable pub tear_down_pod : PodNetwork N → Exec (Wire H) (Unit {0})
  unfolding check_init
  tear_down_pod n = do check_init; on_host (N.del_networks n.setup)

  -- SetPodCIDR, which ignores the error of checkInit
  unfoldable pub set_pod_cidr : Text → Exec (Wire H) (Unit {0})
  unfolding check_init
  set_pod_cidr cidr = do
    modify (λ s. record s {
      manager = record s.manager {
        pod_cidr = if is_nil s.manager.pod_cidr then cidr else s.manager.pod_cidr;
      };
    })
    logged check_init

  or_ipv6 : PodNetwork N → Result Text → Exec (Wire H) Text
  or_ipv6 n (ok ip) = pure ip
  or_ipv6 n (err e) =
      wrapping "could not get pod's IP"
        (on_host (N.network_ip n.setup n.default_network (codes "6")))
  or_ipv6 n panic = crash

  unfoldable pub get_ip : PodNetwork N → Exec (Wire H) Text
  unfolding or_ipv6
  get_ip n = do
    ip ← attempt (on_host (N.network_ip n.setup n.default_network (codes "4")))
    or_ipv6 n ip

  -- SetUpNetwork of a pod: the network that the pod has after it
  unfoldable pub set_up_network :
      Pod → Option (PodNetwork N) → Exec (Wire H) (Option (PodNetwork N))
  unfolding set_up_pod
  set_up_network p network =
      let path = namespace_path H p NamespaceType.network_namespace in
      if is_nil path then pure network else (do
        n ← wrapping "could not set up pod's network" (
            set_up_pod (record {
              id = p.id;
              namespace = p.config.namespace;
              name = p.config.name;
              ns_path = path;
              port_mappings = p.config.port_mappings;
            }))
        pure (some n))

  -- TearDownNetwork of a pod: the network that the pod has after it
  unfoldable pub tear_down_network : Option (PodNetwork N) → Exec (Wire H) (Option (PodNetwork N))
  unfolding tear_down_pod
  tear_down_network none = pure none
  tear_down_network (some n) = do
    wrapping "could not tear down network" (tear_down_pod n)
    pure none
