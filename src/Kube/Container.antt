-- ===== src/Kube/Container.antt =====
-- Container of pkg/kube: container.go and container_runtime.go. A method reads and writes a `Scene`:
-- the container, its pod, its image and the host. `base` is the base command of the CLI client.
pub mod Status
pub mod Life
pub mod Exited
pub mod Kept
pub mod Use
pub mod Envs
use singularity_cri.Base.{
  nat_eq, ℕ, zero, suc, Bool, true, false, Option, none, some, List, [], ◌∷◌, ◌++◌, ◌==◌,
  if◌then◌else◌, is_nil, ◌&&◌, not,
}
use singularity_cri.Base.Text.{Text, codes, text_eq}
use singularity_cri.Base.Result.{Result, ok, err, panic, Error, sentinel, Sentinel, errorf, wrapf}
use singularity_cri.Base.Exec.{
  Exec, pure, raise, crash, gets, modify, wrapping, logged, attempt, ◌>>=◌, ◌>>◌,
}
use singularity_cri.Runtime.State.{State, OciState, status_to_state, state_beq}
use singularity_cri.Runtime.Host.{Host}
use singularity_cri.Runtime.Client
use singularity_cri.Kube.Types.{Container, Scene}
use singularity_cri.Kube.Files.{socket_path}

module _ (H : Host) where
  -- A call that only touches the host.
  abbrev pub on_host : {A : Type 0} → Exec H.World A → Exec (Scene H) A
  on_host m s = let (r, w) = m s.world in (r, record s { world = w })

  -- syncCancel()
  abbrev pub cancelled : Scene H → Scene H
  cancelled s = record s { world = H.cancel (socket_path H s.cont) s.world }

  -- if c.syncCancel != nil { defer c.syncCancel() }
  unfoldable pub deferring_cancel : Exec (Scene H) (Unit {0}) → Exec (Scene H) (Unit {0})
  deferring_cancel m s = let (r, s') = m s in (r, if s.cont.has_cancel then cancelled s' else s')

  -- defer c.syncCancel(): a nil function panics when the deferred call is made.
  unfoldable pub always_cancel : Exec (Scene H) (Unit {0}) → Exec (Scene H) (Unit {0})
  always_cancel m s =
      let (r, s') = m s in if s.cont.has_cancel then (r, cancelled s') else (panic, s')

  -- What UpdateState keeps of the client's answer.
  updated : Scene H → Result (Option OciState) → Result (Unit {0}) × Scene H
  updated s (ok (some o)) = (
    ok tt,
    record s {
      cont = record s.cont { oci_state = some o; runtime_state = status_to_state o.status };
    },
  )
  updated s (ok none) = (panic, record s { cont = record s.cont { oci_state = none } })
  updated s (err e) = (
    err (wrapf "could not get container state" e),
    record s { cont = record s.cont { oci_state = none } },
  )
  updated s panic = (panic, s)

  unfoldable pub update_state : List Text → Exec (Scene H) (Unit {0})
  unfolding updated
  update_state base s =
      let (r, w) = Client.state H base s.cont.id s.world in updated (record s { world = w }) r

  -- The state that the sync channel gives, compared to the one expected.
  expected : State → State → Scene H → Result (Unit {0}) × Scene H
  expected expect got s = (
    if state_beq got expect then ok tt else err (errorf "unexpected container state"),
    record s { cont = record s.cont { runtime_state = got } },
  )

  unfoldable pub expect_state : State → Exec (Scene H) (Unit {0})
  unfolding expected
  expect_state expect s =
      let (got, w) = H.receive (socket_path H s.cont) s.world in
      expected expect got (record s { world = w })

  kill_running : List Text → Exec (Scene H) (Unit {0})
  kill_running base = do
    wrapping "could not kill container" (λ s. on_host (Client.kill H base s.cont.id true) s)
    expect_state State.exited

  unfoldable pub kill : List Text → Exec (Scene H) (Unit {0})
  unfolding kill_running deferring_cancel
  kill base =
      deferring_cancel
        λ s. if state_beq s.cont.runtime_state State.exited then (ok tt, s) else kill_running base s

  -- The image's stop signal, or SIGINT.
  ask_to_stop : List Text → Option Text → Exec (Scene H) (Unit {0})
  ask_to_stop base none s = on_host (Client.kill H base s.cont.id false) s
  ask_to_stop base (some sig) s = on_host (Client.signal H base s.cont.id sig) s

  -- The select on the sync channel and the timer.
  await_exit : List Text → Option State × H.World → Scene H → Result (Unit {0}) × Scene H
  unfolding expected
  await_exit base (some got, w) s = expected State.exited got (record s { world = w })
  await_exit base (none, w) s = kill base (record s { world = w })

  terminate_gently : List Text → Option Text → ℕ → Exec (Scene H) (Unit {0})
  unfolding ask_to_stop await_exit
  terminate_gently base sig timeout = do
    wrapping "could not treminate container" (ask_to_stop base sig)
    λ s. await_exit base (H.receive_within timeout (socket_path H s.cont) s.world) s

  -- The stop signal of the image's OCI configuration, if it names one.
  abbrev stop_signal : Scene H → Option Text
  stop_signal s = elim s.info.oci_config [
    | none ↦ none
    | some config ↦ if is_nil config.stop_signal then none else some config.stop_signal
  ]

  unfoldable pub terminate : List Text → ℕ → Exec (Scene H) (Unit {0})
  unfolding terminate_gently always_cancel
  terminate base timeout = always_cancel λ s.
      if state_beq s.cont.runtime_state State.exited
      then (ok tt, s)
      else if timeout == 0
      then kill base s
      else terminate_gently base (stop_signal s) timeout s

  -- CloseStdin
  unfoldable pub close_stdin : Exec (Scene H) (Unit {0})
  close_stdin = do
    (λ s.
        if s.cont.stdin && not s.cont.is_stdin_closed
        then wrapping "could not close stdin" (on_host (H.close_stdin s.cont.id)) s
        else (ok tt, s))
    modify (λ s. record s { cont = record s.cont { is_stdin_closed = true } })
