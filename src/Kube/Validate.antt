-- ===== src/Kube/Validate.antt =====
-- validateConfig of containers (pkg/kube/container_validate.go) and of pods (pkg/kube/pod_validate.go).
pub mod Laws
use singularity_cri.Base.{
  is_some, map, Bool, true, false, Option, none, some, List, [], ◌∷◌, ◌++◌, ◌==◌, if◌then◌else◌,
  not, ◌&&◌, ◌||◌, is_nil,
}
use singularity_cri.Base.Text.{Text, codes, text_eq, has_prefix, trim_prefix}
use singularity_cri.Base.Result.{Result, ok, err, panic, errorf, wrapf, wrap}
use singularity_cri.Base.Exec.{Exec, pure, raise, modify, wrapping, ◌>>=◌, ◌>>◌}
use singularity_cri.Runtime.Host.{Host}
use singularity_cri.Kube.Types.{
  Security, Capabilities, ContainerConfig, NamespaceMode, NamespaceOptions, NamespaceType,
  PodConfig,
}
use singularity_cri.Kube.Capabilities.{prepare_capabilities}

abbrev pub localhost_prefix : Text
localhost_prefix = codes "localhost/"

abbrev pub runtime_default : Text
runtime_default = codes "runtime/default"

abbrev pub docker_default : Text
docker_default = codes "docker/default"

abbrev pub unconfined : Text
unconfined = codes "unconfined"

unfoldable pub prepare_seccomp_path : Text → Result Text
prepare_seccomp_path profile =
    if is_nil profile || profile == unconfined
    then ok unconfined
    else if profile == runtime_default || profile == docker_default
    then ok []
    else if has_prefix profile localhost_prefix
    then ok (trim_prefix profile localhost_prefix)
    else err (errorf "custom profiles without the localhost prefix are not allowed")

-- The AppArmor profile as the OCI spec has it.
unfoldable pub apparmor_path : Text → Text
apparmor_path profile =
    trim_prefix (if profile == runtime_default then [] else profile) localhost_prefix

-- Each step returns the security context as far as it was changed.
set_apparmor : Security → Security
unfolding apparmor_path
set_apparmor s =
    if is_nil s.apparmor_profile
    then s
    else record s { apparmor_profile = apparmor_path s.apparmor_profile }

set_seccomp : Security → Result Text → Result (Unit {0}) × Security
set_seccomp s (ok profile) = (ok tt, record s { seccomp_profile_path = profile })
set_seccomp s (err e) = (err (wrapf "invalid seccomp profile path" e), s)
set_seccomp s panic = (panic, s)

store_drop : Security → List Text → Capabilities → Result (List Text) → Result (Unit {0}) × Security
store_drop s added caps (ok dropped) = (
  ok tt,
  record s {
    capabilities = some (record { add_capabilities = added; drop_capabilities = dropped });
  },
)
store_drop s added caps (err e) = (err e, s)
store_drop s added caps panic =
    (panic, record s { capabilities = some (record caps { add_capabilities = added }) })

module _ (normalize : List Text → List Text) where
  -- AddCapabilities are prepared with nothing excluded, which changes nothing but by Normalize.
  store_add : Security → Capabilities → Result (List Text) → Result (Unit {0}) × Security
  unfolding store_drop
  store_add s caps (ok added) =
      store_drop s added caps (prepare_capabilities (normalize caps.drop_capabilities) added)
  store_add s caps (err e) = (err e, s)
  store_add s caps panic = (panic, s)

  set_capabilities : Option Capabilities → Security → Result (Unit {0}) × Security
  unfolding store_add
  set_capabilities none s = (ok tt, s)
  set_capabilities (some caps) s =
      store_add s caps (prepare_capabilities (normalize caps.add_capabilities) [])

  -- validateConfig on a security context.
  unfoldable pub validate_security : Exec Security (Unit {0})
  unfolding set_apparmor set_seccomp set_capabilities
  validate_security s =
      if not (is_nil s.apparmor_profile) && is_some s.selinux_options
      then (err (errorf "cannot use both AppArmour profile and SELinux options"), s)
      else (do
        modify set_apparmor
        λ s. set_seccomp s (prepare_seccomp_path s.seccomp_profile_path)
        λ s. set_capabilities s.capabilities s)
          s

  with_security :
      ContainerConfig → Result (Unit {0}) × Security → Result (Unit {0}) × ContainerConfig
  with_security c (r, s) = (r, record c { security = some s })

  validate_optional : ContainerConfig → Option Security → Result (Unit {0}) × ContainerConfig
  unfolding with_security validate_security
  validate_optional c none = (ok tt, c)
  validate_optional c (some s) = with_security c (validate_security s)

  unfoldable pub validate_container : Exec ContainerConfig (Unit {0})
  unfolding validate_optional
  validate_container c = validate_optional c c.security

-- sysctlToNs. The order in which Go ranges over the map decides only which message is returned.
abbrev pub ipc_prefixes : List Text
ipc_prefixes =
    codes "kernel.shm" ∷ codes "kernel.msg" ∷ codes "kernel.sem" ∷ codes "fs.mqueue." ∷ []

abbrev pub net_prefix : Text
net_prefix = codes "net."

abbrev pub has_any_prefix : Text → List Text → Bool
has_any_prefix s [] = false
has_any_prefix s (p ∷ ps) = has_prefix s p || has_any_prefix s ps

abbrev pub is_pod_mode : NamespaceMode → Bool
is_pod_mode NamespaceMode.pod_mode = true
is_pod_mode _ = false

unfoldable pub sysctl_allowed : NamespaceOptions → Text → Bool
sysctl_allowed o sysctl =
    (is_pod_mode o.ipc || not (has_any_prefix sysctl ipc_prefixes))
    && (is_pod_mode o.network || not (has_prefix sysctl net_prefix))

unfoldable pub check_sysctls : NamespaceOptions → List Text → Result (Unit {0})
unfolding sysctl_allowed
check_sysctls o [] = ok tt
check_sysctls o (sysctl ∷ sysctls) =
    if sysctl_allowed o sysctl
    then check_sysctls o sysctls
    else err (errorf "sysctl requires a separate namespace")

pod_seccomp : PodConfig → Option Text → Result (Unit {0}) × PodConfig
pod_seccomp c none = (ok tt, c)
pod_seccomp c (some profile) = finish (prepare_seccomp_path profile)
  where
    finish : Result Text → Result (Unit {0}) × PodConfig
    finish (ok path) = (ok tt, record c { seccomp = some path })
    finish (err e) = (err (wrapf "invalid Seccomp profile path" e), c)
    finish panic = (panic, c)

-- os.Hostname() and filepath.Join("singularity-cri", p.id) are arguments.
set_hostname : Result Text → PodConfig → Result (Unit {0}) × PodConfig
set_hostname (ok host) c = (ok tt, if is_nil c.hostname then record c { hostname = host } else c)
set_hostname (err e) c =
    if is_nil c.hostname then (err (wrapf "could not get default hostname" e), c) else (ok tt, c)
set_hostname panic c = if is_nil c.hostname then (panic, c) else (ok tt, c)

set_cgroup : Text → PodConfig → PodConfig
set_cgroup path c = if is_nil c.cgroup_parent then record c { cgroup_parent = path } else c

unfoldable pub validate_pod : Result Text → Text → Exec PodConfig (Unit {0})
unfolding set_hostname set_cgroup pod_seccomp check_sysctls
validate_pod hostname cgroup_path = do
  λ c. (check_sysctls c.options (map (λ (e : Text × Text). e.0) c.sysctls), c)
  set_hostname hostname
  modify (set_cgroup cgroup_path)
  λ c. pod_seccomp c c.seccomp
