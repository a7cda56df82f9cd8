-- ===== src/Runtime/Client.antt =====
-- CLIClient of pkg/singularity/runtime/client_oci.go: the commands to the OCI engine. A command's
-- words behind the base command are what the client builds; the base command is `base`.
use singularity_cri.Base.{true, false, String, Bool, Option, List, [], ◌∷◌, ◌++◌, if◌then◌else◌}
use singularity_cri.Base.Text.{Text, codes, contains_text}
use singularity_cri.Base.Result.{
  Result, ok, err, Error, sentinel, Sentinel, errorf, wrapf, wrap, external,
}
use singularity_cri.Base.Exec.{Exec, pure, wrapping, ◌>>◌}
use singularity_cri.Runtime.State.{OciState}
use singularity_cri.Runtime.Host.{Host, Ran}

module _ (H : Host) (base : List Text) where
  -- The error of a command that reports through an exit status: "no instance found" is ErrNotFound.
  pub exit_error : String → Text → Error
  exit_error message stderr =
      if contains_text stderr (codes "no instance found")
      then sentinel Sentinel.runtime_not_found
      else errorf message

  state_of : Ran → Result (Option OciState)
  unfolding exit_error
  state_of (Ran.succeeded output) = wrap "could not decode state" (H.decode_state output)
  state_of (Ran.exited stderr) = err (exit_error "could not query state" stderr)
  state_of (Ran.failed e) = err (wrapf "could not query state" (external e))

  unfoldable pub state : Text → Exec H.World (Option OciState)
  unfolding state_of
  state id w = let (ran, w') = H.command (base ++ (codes "state" ∷ id ∷ [])) w in (state_of ran, w')

  deleted : Ran → Result (Unit {0})
  unfolding exit_error
  deleted (Ran.succeeded output) = ok tt
  deleted (Ran.exited stderr) = err (exit_error "could not delete instance" stderr)
  deleted (Ran.failed e) = err (errorf "could not delete instance")

  unfoldable pub delete : Text → Exec H.World (Unit {0})
  unfolding deleted
  delete id w =
      let (ran, w') = H.command (base ++ (codes "delete" ∷ id ∷ [])) w in (deleted ran, w')

  -- The helper `run` of client.go.
  done : Ran → Result (Unit {0})
  done (Ran.succeeded output) = ok tt
  done (Ran.exited stderr) = err (wrapf "could not execute" (errorf "exit status"))
  done (Ran.failed e) = err (wrapf "could not execute" (external e))

  unfoldable pub run : List Text → Exec H.World (Unit {0})
  unfolding done
  run cmd w = let (ran, w') = H.command cmd w in (done ran, w')

  unfoldable pub start : Text → Exec H.World (Unit {0})
  unfolding run
  start id = run (base ++ (codes "start" ∷ id ∷ []))

  unfoldable pub signal : Text → Text → Exec H.World (Unit {0})
  unfolding run
  signal id sig = run (base ++ (codes "kill" ∷ codes "-s" ∷ sig ∷ id ∷ []))

  unfoldable pub kill : Text → Bool → Exec H.World (Unit {0})
  unfolding signal
  kill id force = signal id (if force then codes "SIGKILL" else codes "SIGINT")

  created : Ran × H.World → Result (Unit {0}) × H.World
  created (Ran.succeeded output, w) = (ok tt, w)
  created (_, w) = (err (errorf "could not execute create container command"), w)

  -- Create; which of the command's streams are the pseudo terminal, and what is copied from it, is not
  -- modelled. The answer says whether there is a write end of stdin, which is the terminal's master.
  unfoldable pub create : Text → Text → Bool → List Text → Exec H.World Bool
  unfolding created
  create id bundle tty flags = do
    (if tty then pure tt else wrapping "could not allcate pty" H.open_pty)
    λ w. created (H.command (base ++ (codes "create" ∷ flags ++ (codes "-b" ∷ bundle ∷ id ∷ []))) w)
    pure (if tty then false else true)
