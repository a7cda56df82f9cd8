-- ===== src/Kube/Oci/Security.antt =====
-- configureCapabilities of container_oci.go, and setupSELinux and setupSeccomp of pod_oci.go.
use singularity_cri.Base.{Option, none, some, List, [], ◌∷◌, ◌++◌, ◌==◌, if◌then◌else◌, is_nil}
use singularity_cri.Base.Text.{Text, codes, text_eq}
use singularity_cri.Base.Exec.{Exec, ◌>>=◌, ◌>>◌, pure, modify, wrapping}
use singularity_cri.Runtime.Host.{Host}
use singularity_cri.Kube.Types.{SelinuxOptions, Capabilities}
use singularity_cri.Kube.Validate.{unconfined}
use singularity_cri.Kube.Oci.{Translator, Draft, CapabilitySet, Call, on_host, on_gen, does}

-- What setupSELinux asks for: each option that is given, with its name.
abbrev labelled : Text → Text → List Text
labelled name value = if is_nil value then [] else (name ++ value) ∷ []

unfoldable pub selinux_labels : SelinuxOptions → List Text
selinux_labels o =
    labelled (codes "user:") o.user
    ++ (labelled (codes "role:") o.role
        ++ (labelled (codes "type:") o.kind ++ labelled (codes "level:") o.level))

module _ {H : Host} (T : Translator H) where
  -- One method of the generator for each of the five sets.
  each_set : (CapabilitySet → Text → Exec T.Gen (Unit {0})) → Text → Exec (Draft T) (Unit {0})
  each_set f capability = do
    wrapping "effective capability" (on_gen T (f CapabilitySet.effective capability))
    wrapping "ambient capability" (on_gen T (f CapabilitySet.ambient capability))
    wrapping "bounding capability" (on_gen T (f CapabilitySet.bounding capability))
    wrapping "inheritable capability" (on_gen T (f CapabilitySet.inheritable capability))
    wrapping "permitted capability" (on_gen T (f CapabilitySet.permitted capability))

  each_capability :
      (CapabilitySet → Text → Exec T.Gen (Unit {0})) → List Text → Exec (Draft T) (Unit {0})
  unfolding each_set
  each_capability f [] = pure tt
  each_capability f (c ∷ cs) = each_set f c >> each_capability f cs

  unfoldable pub configure_capabilities : Option Capabilities → Exec (Draft T) (Unit {0})
  unfolding each_capability
  configure_capabilities none = pure tt
  configure_capabilities (some caps) = do
    each_capability T.add_capability caps.add_capabilities
    each_capability T.drop_capability caps.drop_capabilities

  set_labels : Text × Text → Draft T → Draft T
  set_labels (process, mount) s =
      does T (Call.set_selinux_label process) (does T (Call.set_mount_label mount) s)

  unfoldable pub setup_selinux : Option SelinuxOptions → Exec (Draft T) (Unit {0})
  unfolding set_labels selinux_labels
  setup_selinux none = pure tt
  setup_selinux (some o) = do
    labels ← wrapping "could not init selinux labels" (on_host T (T.init_labels (selinux_labels o)))
    modify (set_labels labels)

  load_profile : Text → Exec (Draft T) (Unit {0})
  load_profile profile = do
    text ← wrapping "could not read seccomp profile" (on_host T (T.read_file profile))
    wrapping "could not setup seccomp" (on_gen T (T.load_seccomp text))

  unfoldable pub setup_seccomp : Text → Exec (Draft T) (Unit {0})
  unfolding load_profile
  setup_seccomp profile =
      if is_nil profile
      then pure tt
      else if profile == unconfined
      then modify (does T Call.clear_seccomp)
      else load_profile profile
