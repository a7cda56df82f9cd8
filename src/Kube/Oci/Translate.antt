-- ===== src/Kube/Oci/Translate.antt =====
-- translateContainer of container_oci.go and translatePod of pod_oci.go. Annotations and sysctls are
-- set in the order of their lists, where Go ranges over a map.
use singularity_cri.Base.{
  ℕ, nat_eq, false, Option, none, some, List, [], ◌∷◌, ◌==◌, if◌then◌else◌, is_nil,
}
use singularity_cri.Base.Text.{Text, codes}
use singularity_cri.Base.Dict.{Dict}
use singularity_cri.Base.Exec.{Exec, ◌>>=◌, ◌>>◌, pure, modify, wrapping}
use singularity_cri.Runtime.Host.{Host}
use singularity_cri.Image.Info.{Info}
use singularity_cri.Kube.Types.{
  Container, Pod, Security, NamespaceMode, NamespaceOptions, NamespaceType, Namespace, Resources,
}
use singularity_cri.Kube.Pod.Namespaces.{namespace_path}
use singularity_cri.Kube.Oci.{Translator, Draft, SpecMount, Call, does}
use singularity_cri.Kube.Oci.User.{configure_user, add_gids, u32}
use singularity_cri.Kube.Oci.Devices.{configure_devices}
use singularity_cri.Kube.Oci.Mounts.{configure_mounts}
use singularity_cri.Kube.Oci.Process.{configure_process}
use singularity_cri.Kube.Oci.Security.{setup_selinux, setup_seccomp}

-- What the getters of a nil security context answer.
abbrev pub no_security : Security
no_security = record {
  privileged = false;
  apparmor_profile = [];
  seccomp_profile_path = [];
  selinux_options = none;
  capabilities = none;
  namespace_options = record {
    network = NamespaceMode.pod_mode;
    pid = NamespaceMode.pod_mode;
    ipc = NamespaceMode.pod_mode;
  };
  run_as_user = none;
  run_as_group = none;
  run_as_username = [];
  supplemental_groups = [];
  readonly_rootfs = false;
  no_new_privs = false;
  masked_paths = [];
  readonly_paths = [];
}

abbrev pub security_of : Option Security → Security
security_of none = no_security
security_of (some s) = s

abbrev or_zero : Option ℕ → ℕ
or_zero none = 0
or_zero (some n) = n

module _ {H : Host} (T : Translator H) where
  rootfs_path : Container → Text
  rootfs_path c = H.join (c.base_dir ∷ codes "bundle/" ∷ codes "rootfs/" ∷ [])

  configure_image : Container → Security → Draft T → Draft T
  unfolding rootfs_path
  configure_image c security s =
      does T (Call.set_root_readonly security.readonly_rootfs)
        (does T (Call.set_root_path (rootfs_path c)) s)

  -- One switch of configureNamespaces: a namespace of the container's own, the pod's, or none.
  unfoldable pub join_namespace : Pod → NamespaceType → NamespaceMode → Draft T → Draft T
  join_namespace p kind NamespaceMode.container_mode s =
      does T (Call.add_or_replace_namespace kind []) s
  join_namespace p kind NamespaceMode.pod_mode s =
      let path = namespace_path H p kind in
      if is_nil path then s else does T (Call.add_or_replace_namespace kind path) s
  join_namespace p kind NamespaceMode.node_mode s = s

  unfoldable pub configure_namespaces : Pod → NamespaceOptions → Draft T → Draft T
  unfolding join_namespace
  configure_namespaces p o s = join_namespace p NamespaceType.pid_namespace o.pid (
      join_namespace p NamespaceType.network_namespace o.network (
        join_namespace p NamespaceType.ipc_namespace o.ipc (
          does T (Call.add_or_replace_namespace NamespaceType.mount_namespace []) (
            does T
              (Call.add_or_replace_namespace NamespaceType.uts_namespace
                (namespace_path H p NamespaceType.uts_namespace))
              (does T Call.clear_namespaces s)))))

  unless_zero : (ℕ → Call) → ℕ → Draft T → Draft T
  unless_zero f n s = if n == 0 then s else does T (f n) s

  unfoldable pub configure_resources : Text → Resources → Draft T → Draft T
  unfolding unless_zero
  configure_resources cgroups_path r s = unless_zero Call.set_memory_limit r.memory_limit (
      unless_zero Call.set_oom_score_adj r.oom_score_adj (
        unless_zero Call.set_cpu_shares r.cpu_shares (
          unless_zero Call.set_cpu_quota r.cpu_quota (
            unless_zero Call.set_cpu_period r.cpu_period (
              does T (Call.set_cgroups_path cgroups_path) (
                does T (Call.set_cpu_cpus r.cpuset_cpus)
                  (does T (Call.set_cpu_mems r.cpuset_mems) s)))))))

  pairs_of : (Text → Text → Call) → Dict Text → Draft T → Draft T
  pairs_of f [] s = s
  pairs_of f ((k, v) ∷ d) s = pairs_of f d (does T (f k v) s)

  -- translate of a container, by the container, its pod and its image
  unfoldable pub translate_steps : Container → Pod → Info → Exec (Draft T) (Unit {0})
  unfolding configure_image configure_namespaces configure_resources pairs_of
  translate_steps c p info =
      let security = security_of c.config.security in
      (do
        modify (configure_image c security)
        wrapping "could not configure user"
            (configure_user T (rootfs_path c) security info.oci_config)
        wrapping "could not configure devices" (configure_devices T security c.config.devices)
        wrapping "could not configure mounts" (configure_mounts T p security c.config.mounts)
        wrapping "could not configure container process"
            (configure_process T c.config security info)
        modify (configure_namespaces p security.namespace_options)
        modify
            (configure_resources (H.join (p.config.cgroup_parent ∷ c.id ∷ [])) c.config.resources)
        modify (pairs_of Call.add_annotation c.config.annotations))

  unfoldable pub translate_container : Container → Pod → Info → Exec H.World T.Gen
  unfolding translate_steps
  translate_container c p info = do
    gen ← wrapping "could not initialize generator" T.new
    λ w.
        let (r, s) = translate_steps c p info (record { gen = gen; world = w }) in
        ((λ w. (r, w)) >> pure s.gen) s.world

  proc_mount : SpecMount
  proc_mount = record {
    destination = codes "/proc";
    source = codes "proc";
    kind = codes "proc";
    options = [];
  }

  dev_mount : SpecMount
  dev_mount = record {
    destination = codes "/dev";
    source = codes "tmpfs";
    kind = codes "tmpfs";
    options = codes "nosuid" ∷ codes "strictatime" ∷ codes "mode=755" ∷ codes "size=65536k" ∷ [];
  }

  add_namespaces : List Namespace → Draft T → Draft T
  add_namespaces [] s = s
  add_namespaces (ns ∷ rest) s =
      add_namespaces rest (does T (Call.add_or_replace_namespace ns.kind ns.path) s)

  all_calls : List Call → Draft T → Draft T
  all_calls [] s = s
  all_calls (c ∷ cs) s = all_calls cs (does T c s)

  unfoldable pub translate_pod_steps : Pod → Exec (Draft T) (Unit {0})
  unfolding proc_mount dev_mount add_namespaces all_calls pairs_of
  translate_pod_steps p = do
    modify (
        all_calls (
          Call.set_root_path (H.join (p.base_dir ∷ codes "bundle/" ∷ codes "rootfs/" ∷ []))
          ∷ Call.set_root_readonly false
          ∷ Call.set_hostname p.config.hostname
          ∷ Call.add_mount proc_mount
          ∷ Call.add_mount dev_mount
          ∷ Call.set_process_cwd (codes "/")
          ∷ Call.set_process_args (codes "true" ∷ [])
          ∷ []))
    modify (add_namespaces p.namespaces)
    modify (does T (Call.add_or_replace_namespace NamespaceType.mount_namespace []))
    modify (pairs_of Call.add_annotation p.config.annotations)
    modify (pairs_of Call.add_sysctl p.config.sysctls)
    setup_selinux T p.config.security.selinux_options
    setup_seccomp T (seccomp_path p.config.seccomp)
    modify (
        all_calls (
          Call.set_cgroups_path p.config.cgroup_parent
          ∷ Call.set_root_readonly p.config.security.readonly_rootfs
          ∷ Call.set_uid (u32 (or_zero p.config.security.run_as_user))
          ∷ Call.set_gid (u32 (or_zero p.config.security.run_as_group))
          ∷ []))
    modify (add_gids T p.config.security.supplemental_groups)
    modify (does T (Call.setup_privileged p.config.security.privileged))
    where
      seccomp_path : Option Text → Text
      seccomp_path none = []
      seccomp_path (some path) = path

  unfoldable pub translate_pod : Pod → Exec H.World T.Gen
  unfolding translate_pod_steps
  translate_pod p w =
      let (r, s) = translate_pod_steps p (record { gen = T.blank; world = w }) in
      ((λ w. (r, w)) >> pure s.gen) s.world

  -- The translations as the steps of Create of a container and of Run of a pod: the specification that
  -- they write is not looked at any more.
  unfoldable pub specify_container : Container → Pod → Info → Exec H.World (Unit {0})
  unfolding translate_container
  specify_container c p info = do _ ← translate_container c p info; pure tt

  unfoldable pub specify_pod : Pod → Exec H.World (Unit {0})
  unfolding translate_pod
  specify_pod p = do _ ← translate_pod p; pure tt
