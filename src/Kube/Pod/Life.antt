-- ===== src/Kube/Pod/Life.antt =====
-- Run, Stop and Remove of pkg/kube/pod.go.
pub mod Idempotent
pub mod Skipped
use singularity_cri.Base.{
  ◌≡◌, refl, ◌∙◌, ap, sym, ◌≢◌, ℕ, nat_eq, Bool, true, false, Option, none, some, List, [], ◌∷◌,
  ◌++◌, ◌==◌, if◌then◌else◌, arith, Bool-cases, inl, inr, is_some, ◌↔◌, ◌||◌, ◌&&◌, not, ◌+◌, ◌-◌,
  ◌≤◌, ◌<◌, zero, suc, ◌⊎◌, length, is_nil, length-append, map,
}
use singularity_cri.Base.Text.{Text, text_eq, text_beq_iff, codes}
use singularity_cri.Base.Result.{
  Result, ok, err, panic, Error, sentinel, Sentinel, wrapf, errorf, is_runtime_not_found,
}
use singularity_cri.Base.Exec.{
  Exec, ◌>>=◌, ◌>>◌, pure, modify, wrapping, attempt, logged, raise, crash,
}
use singularity_cri.Runtime.State.{State, state_beq, OciState}
use singularity_cri.Runtime.Host.{Host}
use singularity_cri.Runtime.Client
use singularity_cri.Image.Info
use singularity_cri.Image.Info.{Info}
use singularity_cri.Kube.Types.{Container, Pod, Scene, Members as Slice}
use singularity_cri.Kube.Members
use singularity_cri.Kube.Files
use singularity_cri.Slice.{contains}
use singularity_cri.Kube.Pod.{
  Yard, on_host, in_container, range_containers, update_state, terminate,
}
use singularity_cri.Kube.Pod.Stages.{run_steps, cleanup_files}
use singularity_cri.Kube.Container.Life

module _ (H : Host) (base : List Text) where
  -- The deferred function of Run, after an error.
  undo_run : Exec (Yard H) (Unit {0})
  undo_run = do
    logged (terminate H base true)
    logged (λ s. on_host H (Client.delete H base s.pod.id) s)
    logged (λ s. on_host H (cleanup_files H s.pod true) s)

  or_undo : Result (Unit {0}) → Exec (Yard H) (Unit {0})
  unfolding undo_run
  or_undo (ok _) = pure tt
  or_undo (err e) = do undo_run; raise e
  or_undo panic = crash

  unfoldable pub run : (Pod → Exec H.World (Unit {0})) → Text → Exec (Yard H) (Unit {0})
  unfolding or_undo
  run translate base_dir = do ran ← attempt (run_steps H base translate base_dir); or_undo ran

  stop_container : Text → Exec (Yard H) (Unit {0})
  stop_container c = wrapping "could not stop container" (in_container H (Life.stop H base 0) c)

  stop_running : Exec (Yard H) (Unit {0})
  unfolding stop_container
  stop_running = do
    λ s. range_containers H stop_container s.pod.containers.len 0 s
    wrapping "could not stop pod process" (terminate H base false)
    wrapping "could not update container state" (update_state H base)
    modify (λ s. record s { pod = record s.pod { is_stopped = true } })

  unfoldable pub stop : Exec (Yard H) (Unit {0})
  unfolding stop_running
  stop s = if s.pod.is_stopped then (ok tt, s) else stop_running s

  remove_container : Text → Exec (Yard H) (Unit {0})
  remove_container c = wrapping "could not remove container" (in_container H (Life.remove H base) c)

  unless_missing : Result (Unit {0}) → Exec (Yard H) (Unit {0})
  unless_missing (ok _) = pure tt
  unless_missing (err e) =
      if is_runtime_not_found e then pure tt else raise (wrapf "could not remove pod" e)
  unless_missing panic = crash

  -- Remove, behind the loop over the containers.
  remove_process : Exec (Yard H) (Unit {0})
  unfolding unless_missing
  remove_process = do
    wrapping "could not kill pod process" (terminate H base true)
    deleted ← attempt (λ s. on_host H (Client.delete H base s.pod.id) s)
    unless_missing deleted
    logged (λ s. on_host H (cleanup_files H s.pod false) s)
    modify (λ s. record s { pod = record s.pod { is_removed = true } })

  pub remove_present : Exec (Yard H) (Unit {0})
  unfolding remove_container remove_process
  remove_present = do
    λ s. range_containers H remove_container s.pod.containers.len 0 s
    remove_process

  unfoldable pub remove : Exec (Yard H) (Unit {0})
  unfolding remove_present
  remove s = if s.pod.is_removed then (ok tt, s) else remove_present s
