-- ===== src/Kube/Oci/Process.antt =====
-- configureProcess of container_oci.go.
use singularity_cri.Base.{List, [], ◌∷◌, ◌++◌}
use singularity_cri.Base.Text.{Text}
use singularity_cri.Base.Exec.{Exec, modify, ◌>>=◌, ◌>>◌}
use singularity_cri.Runtime.Host.{Host}
use singularity_cri.Image.Info.{Info}
use singularity_cri.Kube.Types.{ContainerConfig, Security}
use singularity_cri.Kube.Oci.{Translator, Draft, Call, does}
use singularity_cri.Kube.Oci.Command.{command_of}
use singularity_cri.Kube.Oci.Security.{configure_capabilities, setup_selinux, setup_seccomp}

module _ {H : Host} (T : Translator H) where
  add_envs : List (Text × Text) → Draft T → Draft T
  add_envs [] s = s
  add_envs ((k, v) ∷ envs) s = add_envs envs (does T (Call.add_process_env k v) s)

  unfoldable pub configure_process : ContainerConfig → Security → Info → Exec (Draft T) (Unit {0})
  unfolding command_of add_envs
  configure_process c security info = do
    command ← λ s. (command_of c info info.oci_config, s)
    modify (add_envs command.envs)
    modify (add_envs c.envs)
    modify (does T (Call.set_process_cwd command.cwd))
    modify (does T (Call.set_process_terminal c.tty))
    modify (does T (Call.set_process_args (command.cmd ++ command.args)))
    modify (does T (Call.set_no_new_privileges security.no_new_privs))
    configure_capabilities T security.capabilities
    modify (does T Call.set_default_seccomp)
    modify (does T (Call.set_apparmor_profile security.apparmor_profile))
    setup_selinux T security.selinux_options
    setup_seccomp T security.seccomp_profile_path
    modify (does T (Call.setup_privileged security.privileged))
