-- ===== src/Kube/Pod/Stages.antt =====
-- The stages of a pod's run: the files of pkg/kube/pod_files.go and of writeResolvConf in
-- pkg/kube/helper.go, and spawnOCIPod of pkg/kube/pod_runtime.go.
use singularity_cri.Base.{
  ℕ, nat_eq, Bool, true, false, Option, none, some, List, [], ◌∷◌, ◌++◌, if◌then◌else◌, is_nil,
}
use singularity_cri.Base.Text.{Text, text_eq, codes}
use singularity_cri.Base.Exec.{Exec, ◌>>=◌, ◌>>◌, pure, modify, wrapping, logged, crash}
use singularity_cri.Runtime.State.{State, OciState}
use singularity_cri.Runtime.Host.{Host}
use singularity_cri.Runtime.Client
use singularity_cri.Kube.Types.{Pod}
use singularity_cri.Kube.Types.{NamespaceType, Namespace, DnsConfig}
use singularity_cri.Kube.Validate.{is_pod_mode, validate_pod}
use singularity_cri.Kube.Pod.{Yard, on_host, update_state, expect_state, socket_path}
use singularity_cri.Kube.Pod.Namespaces.{
  bind_namespace_path, bind, remove_namespace, unshare_namespaces, kind_beq,
}

-- fmt.Fprintf of one line for each text.
lines : Text → List Text → Text
lines word [] = []
lines word (t ∷ ts) = word ++ (codes " " ++ (t ++ (10 ∷ lines word ts)))

-- strings.Join(texts, " ")
joined : List Text → Text
joined [] = []
joined (t ∷ []) = t
joined (t ∷ u ∷ ts) = t ++ (codes " " ++ joined (u ∷ ts))

-- The text that writeResolvConf writes.
unfoldable pub resolv_conf : DnsConfig → Text
unfolding lines joined
resolv_conf c =
    lines (codes "nameserver") c.servers
    ++ ((if is_nil c.searches then [] else codes "search " ++ (joined c.searches ++ (10 ∷ [])))
        ++ lines (codes "options") c.options)

module _ (H : Host) where
  abbrev file_path : Pod → Text → Text
  file_path p name = H.join (p.base_dir ∷ name ∷ [])

  write_resolv_conf : Text → Option DnsConfig → Exec H.World (Unit {0})
  write_resolv_conf path none = pure tt
  write_resolv_conf path (some c) =
      wrapping "could not write resolv.conf" (H.write_file path (resolv_conf c))

  add_log_directory : Text → Exec H.World (Unit {0})
  add_log_directory [] = pure tt
  add_log_directory (c ∷ path) = wrapping "could not create directory" (H.mkdir_all (c ∷ path))

  unfoldable pub prepare_files : Pod → Exec H.World (Unit {0})
  unfolding write_resolv_conf add_log_directory
  prepare_files p = do
    wrapping "could not create directory for pod" (H.mkdir_all (file_path p (codes "namespaces/")))
    wrapping "could not create log directory" (add_log_directory p.config.log_directory)
    wrapping "could not create resolv.conf"
        (write_resolv_conf (file_path p (codes "resolv.conf")) p.config.dns)
    wrapping "could not create hostname file"
        (H.write_file (file_path p (codes "hostname")) (p.config.hostname ++ (10 ∷ [])))

  -- translatePod is an argument.
  unfoldable pub add_oci_bundle : Pod → Exec H.World (Unit {0}) → Exec H.World (Unit {0})
  add_oci_bundle p translate = do
    wrapping "could not create rootfs directory for pod"
        (H.mkdir_all (H.join (p.base_dir ∷ codes "bundle/" ∷ codes "rootfs/" ∷ [])))
    wrapping "could not generate OCI spec for pod" translate
    wrapping "could not create OCI config file"
        (H.create_file (H.join (p.base_dir ∷ codes "bundle/" ∷ codes "config.json" ∷ [])))
    wrapping "could not encode OCI config into json"
        (H.write_spec (H.join (p.base_dir ∷ codes "bundle/" ∷ codes "config.json" ∷ [])))

  abbrev report : Bool → Exec H.World (Unit {0}) → Exec H.World (Unit {0})
  report true step = logged step
  report false step = step

  remove_namespaces : Bool → List Namespace → Exec H.World (Unit {0})
  remove_namespaces silent [] = pure tt
  remove_namespaces silent (ns ∷ rest) = do
    report silent (wrapping "could not remove namespace" (remove_namespace H ns))
    remove_namespaces silent rest

  unfoldable pub cleanup_files : Pod → Bool → Exec H.World (Unit {0})
  unfolding remove_namespaces
  cleanup_files p silent = do
    remove_namespaces silent p.namespaces
    report silent (wrapping "could not cleanup pod" (H.remove_all p.base_dir))
    report silent (wrapping "could not remove log directory" (H.remove_all p.config.log_directory))

  abbrev with_path : Pod → Namespace → Namespace
  with_path p ns = record ns { path = bind_namespace_path H p ns.kind }

  -- The last loop of spawnOCIPod, over the namespaces seen and those to come: a PID namespace gets its
  -- path, and is bound to the pod's process.
  bind_pid : ℕ → List Namespace → List Namespace → Exec (Yard H) (Unit {0})
  bind_pid pid done [] = pure tt
  bind_pid pid done (ns ∷ rest) =
      let skip = bind_pid pid (done ++ (ns ∷ [])) rest in
      let bound : Exec (Yard H) (Unit {0}) = (λ s.
        (do
          modify (λ s. record s {
            pod = record s.pod { namespaces = done ++ (with_path s.pod ns ∷ rest) };
          })
          wrapping "could not bind PID namespace"
              (λ s. on_host H (bind H pid (with_path s.pod ns)) s)
          bind_pid pid (done ++ (with_path s.pod ns ∷ [])) rest)
          s) in
      if kind_beq ns.kind NamespaceType.pid_namespace then bound else skip

  -- podState.Pid of a nil state panics.
  pid_of : Option OciState → Exec (Yard H) ℕ
  pid_of none = crash
  pid_of (some o) = pure o.pid

  with_pid : Bool → Option OciState → Exec (Yard H) (Unit {0})
  unfolding bind_pid pid_of
  with_pid false o = pure tt
  with_pid true o = do pid ← pid_of o; λ s. bind_pid pid [] s.pod.namespaces s

  module _ (base : List Text) (translate : Pod → Exec H.World (Unit {0})) where
    add_pid_namespace : Yard H → Yard H
    add_pid_namespace s =
        if is_pod_mode s.pod.config.options.pid
        then record s {
          pod = record s.pod {
            namespaces =
                s.pod.namespaces ++ (record { kind = NamespaceType.pid_namespace; path = [] } ∷ []);
          };
        }
        else s

    unfoldable pub spawn : Exec (Yard H) (Unit {0})
    unfolding add_pid_namespace with_pid
    spawn = do
      modify add_pid_namespace
      wrapping "could not create oci bundle"
          (λ s. on_host H (add_oci_bundle s.pod (translate s.pod)) s)
      modify (λ s. record s { pod = record s.pod { has_cancel = true } })
      wrapping "could not listen for state changes"
          (λ s. on_host H (H.listen (socket_path H s.pod)) s)
      wrapping "could not create pod" (λ s.
          on_host H
            (Client.create H base s.pod.id (H.join (s.pod.base_dir ∷ codes "bundle/" ∷ [])) false
              (codes "--empty-process" ∷ codes "--sync-socket" ∷ socket_path H s.pod ∷ []))
            s)
      expect_state H State.creating
      expect_state H State.created
      wrapping "could not start pod" (λ s. on_host H (Client.start H base s.pod.id) s)
      expect_state H State.running
      state ← wrapping "could not get pod pid" (λ s. on_host H (Client.state H base s.pod.id) s)
      λ s. with_pid (is_pod_mode s.pod.config.options.pid) state s

    validated : Exec (Yard H) (Unit {0})
    validated s =
        let (r, config) =
          validate_pod (H.hostname s.world) (H.join (codes "singularity-cri" ∷ s.pod.id ∷ []))
            s.pod.config in
        (r, record s { pod = record s.pod { config = config } })

    unfoldable pub run_steps : Text → Exec (Yard H) (Unit {0})
    unfolding validated spawn
    run_steps base_dir = do
      modify (λ s. record s { pod = record s.pod { base_dir = base_dir } })
      wrapping "invalid pod config" validated
      wrapping "could not create pod directories" (λ s. on_host H (prepare_files s.pod) s)
      wrapping "could not unshare namespaces" (unshare_namespaces H)
      wrapping "could not spawn pod" spawn
      wrapping "could not update pod state" (update_state H base)
