-- ===== src/Kube/Container/Life.antt =====
-- Create, Start, Stop and Remove of pkg/kube/container.go.
pub mod Stop
pub mod Start
pub mod Remove
pub mod Create
use singularity_cri.Base.{ℕ, true, false, Option, none, some, List, [], ◌∷◌, if◌then◌else◌}
use singularity_cri.Base.Text.{Text, codes}
use singularity_cri.Base.Result.{
  Result, ok, err, panic, sentinel, Sentinel, is_runtime_not_found, wrapf,
}
use singularity_cri.Base.Exec.{
  Exec, pure, raise, crash, modify, wrapping, logged, attempt, ◌>>=◌, ◌>>◌,
}
use singularity_cri.Runtime.State.{State}
use singularity_cri.Runtime.Host.{Host}
use singularity_cri.Runtime.Client
use singularity_cri.Image.Info
use singularity_cri.Image.Info.{Info}
use singularity_cri.Kube.Types.{Scene, Container, Pod}
use singularity_cri.Kube.Members
use singularity_cri.Kube.Files
use singularity_cri.Kube.Validate.{validate_container}
use singularity_cri.Kube.Container.{
  on_host, update_state, expect_state, kill, terminate, close_stdin,
}
use singularity_cri.Kube.Container.Status.{ContainerState, state_of}

module _ (H : Host) (base : List Text) where
  -- Stop
  stop_running : ℕ → Exec (Scene H) (Unit {0})
  stop_running timeout = do
    wrapping "could not update container state" (update_state H base)
    wrapping "could not terminate container process" (terminate H base timeout)
    wrapping "could not update container state" (update_state H base)
    modify (λ s. record s { cont = record s.cont { is_stopped = true } })

  unfoldable pub stop : ℕ → Exec (Scene H) (Unit {0})
  unfolding stop_running
  stop timeout s = if s.cont.is_stopped then (ok tt, s) else stop_running timeout s

  -- Start, behind its test of the state
  start_created : ContainerState → Exec (Scene H) (Unit {0})
  start_created ContainerState.container_created = do
    wrapping "could not start container" (λ s. on_host H (Client.start H base s.cont.id) s)
    expect_state H State.running
    wrapping "could not update container state" (update_state H base)
  start_created _ = raise (sentinel Sentinel.container_not_created)

  unfoldable pub start : Exec (Scene H) (Unit {0})
  unfolding start_created
  start = do
    wrapping "could not update container state" (update_state H base)
    λ s. start_created (state_of s.cont) s

  -- Delete, which may find nothing.
  unless_missing : Result (Unit {0}) → Exec (Scene H) (Unit {0})
  unless_missing (ok _) = pure tt
  unless_missing (err e) =
      if is_runtime_not_found e then pure tt else raise (wrapf "could not delete container" e)
  unless_missing panic = crash

  -- The part of Remove that runs while the runtime knows the container.
  remove_instance : Result (Unit {0}) → Exec (Scene H) (Unit {0})
  unfolding unless_missing
  remove_instance (ok _) = do
    wrapping "could not kill container" (kill H base)
    deleted ← attempt (λ s. on_host H (Client.delete H base s.cont.id) s)
    unless_missing deleted
  remove_instance (err e) =
      if is_runtime_not_found e then pure tt else raise (wrapf "could not update container state" e)
  remove_instance panic = crash

  -- imgInfo.Return, pod.removeContainer and the flag
  leave : Scene H → Scene H
  leave s = record s {
    info = Info.give_back s.cont.id s.info;
    pod = record s.pod { containers = Members.remove_container s.pod.containers s.cont.id };
    cont = record s.cont { is_removed = true };
  }

  -- The end of Remove: what fails here is logged.
  forget : Exec (Scene H) (Unit {0})
  unfolding leave
  forget = do
    logged (close_stdin H)
    logged (λ s. on_host H (Files.collect_trash H s.cont s.pod) s)
    logged (λ s. on_host H (Files.cleanup_files H s.cont false) s)
    modify leave

  remove_known : Result (Unit {0}) → Exec (Scene H) (Unit {0})
  unfolding remove_instance forget
  remove_known state = do remove_instance state; forget

  remove_present : Exec (Scene H) (Unit {0})
  unfolding remove_known
  remove_present = do state ← attempt (update_state H base); remove_known state

  unfoldable pub remove : Exec (Scene H) (Unit {0})
  unfolding remove_present
  remove s = if s.cont.is_removed then (ok tt, s) else remove_present s

  module _ (order : List Text → List Text)
      (translate : Container → Pod → Info → Exec H.World (Unit {0})) where
    create_flags : Scene H → List Text
    create_flags s =
        codes "--sync-socket"
        ∷ Files.socket_path H s.cont
        ∷ codes "--log-path"
        ∷ s.cont.log_path
        ∷ []

    -- spawnOCIContainer; c.stdin is nil where Create fails.
    unfoldable pub spawn : Exec (Scene H) (Unit {0})
    unfolding create_flags
    spawn = do
      wrapping "could not create oci bundle" (λ s.
          on_host H (Files.add_oci_bundle H s.cont s.info.path (translate s.cont s.pod s.info)) s)
      modify (λ s. record s { cont = record s.cont { has_cancel = true } })
      wrapping "could not listen for state changes"
          (λ s. on_host H (H.listen (Files.socket_path H s.cont)) s)
      modify (λ s. record s { cont = record s.cont { stdin = false } })
      has_stdin ← wrapping "could not create container" (λ s.
          on_host H
            (Client.create H base s.cont.id (Files.bundle_path H s.cont) s.cont.config.tty
              (create_flags s))
            s)
      modify (λ s. record s { cont = record s.cont { stdin = has_stdin } })
      expect_state H State.creating
      expect_state H State.created

    validated : Exec (Scene H) (Unit {0})
    validated s =
        let (r, config) = validate_container H.normalize_capabilities s.cont.config in
        (r, record s { cont = record s.cont { config = config } })

    -- addLogDirectory
    log_directory : Option Text → Exec (Scene H) (Unit {0})
    log_directory none = pure tt
    log_directory (some path) = do
      wrapping "could not create log directory" (on_host H (H.mkdir_all (H.dir path)))
      modify (λ s. record s { cont = record s.cont { log_path = path } })

    -- The deferred function of Create, after an error.
    undo_create : Exec (Scene H) (Unit {0})
    undo_create = do
      modify (λ s. record s { info = Info.give_back s.cont.id s.info })
      logged (kill H base)
      logged (λ s. on_host H (Client.delete H base s.cont.id) s)
      logged (λ s. on_host H (Files.collect_trash H s.cont s.pod) s)
      logged (λ s. on_host H (Files.cleanup_files H s.cont true) s)

    -- The steps of Create before the image is borrowed, and those after.
    prepare_create : Text → Exec (Scene H) (Unit {0})
    unfolding validated log_directory
    prepare_create base_dir = do
      modify (λ s. record s { cont = record s.cont { base_dir = base_dir } })
      wrapping "invalid container config" validated
      wrapping "could not create log directory"
          (λ s. log_directory (Files.full_log_path H s.cont s.pod) s)

    finish_create : Exec (Scene H) (Unit {0})
    unfolding spawn
    finish_create = do
      modify (λ s. record s { info = Info.borrow order s.cont.id s.info })
      wrapping "could not spawn container" spawn
      wrapping "could not update container state" (update_state H base)
      modify (λ s. record s {
        pod = record s.pod { containers = Members.add_container s.pod.containers s.cont.id };
      })

    create_steps : Text → Exec (Scene H) (Unit {0})
    unfolding prepare_create finish_create
    create_steps base_dir = prepare_create base_dir >> finish_create

    or_undo : Result (Unit {0}) → Exec (Scene H) (Unit {0})
    unfolding undo_create
    or_undo (ok _) = pure tt
    or_undo (err e) = do undo_create; raise e
    or_undo panic = crash

    unfoldable pub create : Text → Exec (Scene H) (Unit {0})
    unfolding create_steps or_undo
    create base_dir = do created ← attempt (create_steps base_dir); or_undo created
