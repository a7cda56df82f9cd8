-- ===== src/Server/Runtime/Streaming.antt =====
-- pkg/server/runtime/streaming.go: Exec, the two ends of Attach, and PortForward. Terminals, sockets and
-- the commands with streams are the parameter `Terminal`; the goroutines that copy a stream are started by
-- it. What Attach waits for in between is in the child modules.

pub mod Copies
pub mod Answers
use Prim.Native.Nat.{◌^◌}
use singularity_cri.Base.{
  ℕ, zero, ◌-◌, ltb, nat_eq, Bool, true, false, Option, none, some, List, [], ◌∷◌, ◌++◌, ◌==◌, ◌&&◌,
  ◌||◌, not, if◌then◌else◌, is_nil,
}
use singularity_cri.Base.Text.{Text, codes, text_eq}
use singularity_cri.Base.Result.{Result, ok, err, panic, Error, errorf, wrapf}
use singularity_cri.Base.Exec.{
  Exec, ◌>>=◌, ◌>>◌, pure, raise, crash, modify, gets, wrapping, logged, attempt,
}
use singularity_cri.Patricia.{Trie}
use singularity_cri.Runtime.State.{OciState}
use singularity_cri.Runtime.Host.{Host}
use singularity_cri.Kube.Types.{Scene, Pod}
use singularity_cri.Kube.Container.{on_host as on_container_host, close_stdin}
use singularity_cri.Kube.Container.Use.{Shell, exec as run_exec, exec_command}
use singularity_cri.Kube.Oci.Numbers.{digits, decimal}
use singularity_cri.Network.{Cni}
use singularity_cri.Server.Runtime.{Node, on_host, in_container}
use singularity_cri.Server.Runtime.Service.{Streams, stream_to_container, stream_to_pod}

pub record Terminal (H : Host) : Type 0 where
  -- pty.Start of a command with an environment, its Wait, and Close of the master
  pub start_pty : List Text → List Text → Exec H.World (Unit {0})
  pub wait_pty : Exec H.World (Unit {0})
  pub close_pty : H.World → H.World
  -- the goroutines that copy to the master and from it
  pub copy_in : H.World → H.World
  pub copy_out : H.World → H.World
  -- unix.Dial, Close, and the size of a terminal sent over a control socket
  pub dial : Text → Exec H.World (Unit {0})
  pub hang_up : Text → H.World → H.World
  pub send_size : Text → ℕ → ℕ → Exec H.World (Unit {0})
  -- exec.LookPath, StdinPipe, and Run of a command on a stream
  pub look_path : Text → Exec H.World Text
  pub stdin_pipe : Exec H.World (Unit {0})
  pub run_on_stream : List Text → Exec H.World (Unit {0})

-- The command and the environment of PrepareExec.
unfoldable pub prepare_exec : {H : Host} → List Text → List Text → Scene H → List Text × List Text
unfolding exec_command
prepare_exec base cmd s =
    (base ++ (codes "exec" ∷ s.cont.id ∷ exec_command s.info cmd), s.cont.exec_envs)

-- What Attach starts: a copier of the output, and one of the input.
pub record Attached : Type 0 where
  pub output : Bool
  pub input : Bool

-- c.Stdin() != nil
unfoldable pub has_stdin : {H : Host} → Scene H → Bool
has_stdin s = not s.cont.is_stdin_closed && s.cont.stdin

unfoldable pub attached : {H : Host} → Streams → Scene H → Attached
unfolding has_stdin
attached r s = record {
  output = r.stdout || r.stderr;
  input =
      r.stdin
      && (s.cont.config.stdin
          && (not s.cont.is_stdin_closed && (if r.tty then true else has_stdin s)));
}

-- fmt's %d on the bits of an int32
unfoldable pub decimal_int32 : ℕ → Text
decimal_int32 bits =
    if ltb bits (2 ^ 31) then digits 10 64 bits [] else b'-' ∷ digits 10 64 (2 ^ 32 - bits) []

unfoldable pub forward_command : Text → Text → ℕ → ℕ → List Text
unfolding decimal_int32
forward_command nsenter socat pid port =
    nsenter
    ∷ codes "-t"
    ∷ decimal pid
    ∷ codes "-n"
    ∷ socat
    ∷ codes "-"
    ∷ (codes "TCP4:localhost:" ++ decimal_int32 port)
    ∷ []

module _ {H : Host} (T : Terminal H) where
  -- The part of Exec behind pty.Start; the master is closed at its end.
  in_pty : Streams → Exec (Scene H) (Unit {0})
  in_pty r = do
    modify (λ s. record s { world = if r.stdin then T.copy_in s.world else s.world })
    modify (λ s. record s { world = if r.stdout then T.copy_out s.world else s.world })
    (λ s. let (answer, w) = T.wait_pty s.world in (answer, record s { world = T.close_pty w }))

  exec_in : List Text → Shell H → List Text → Streams → Exec (Scene H) (Unit {0})
  unfolding in_pty
  exec_in base S cmd r =
      if r.tty
      then (do
        wrapping "could not start exec in pty" (λ s.
            let (command, envs) = prepare_exec base cmd s in
            on_container_host H (T.start_pty envs command) s)
        in_pty r)
      else run_exec S base cmd

  socket_of : Option OciState → Exec (Scene H) Text
  socket_of none = crash
  socket_of (some o) =
      if is_nil o.attach_socket
      then raise (errorf "container didn't provide attach socket")
      else pure o.attach_socket

  connect : Streams → Exec (Scene H) Attached
  unfolding socket_of
  connect r = do
    socket ← λ s. socket_of s.cont.oci_state s
    wrapping "could not conntect to attach socket" (on_container_host H (T.dial socket))
    gets (attached r)

  size_sent : Text → Result (Unit {0}) × H.World → Result (Unit {0}) × H.World
  size_sent socket (panic, w) = (panic, w)
  size_sent socket (_, w) = (ok tt, T.hang_up socket w)

  dialled : Text → ℕ → ℕ → Result (Unit {0}) × H.World → Result (Unit {0}) × H.World
  unfolding size_sent
  dialled socket height width (ok _, w) = size_sent socket (T.send_size socket height width w)
  dialled socket height width (err e, w) = (ok tt, w)
  dialled socket height width (panic, w) = (panic, w)

  -- A size that comes while Attach waits, on a terminal.
  unfoldable pub resized : Text → ℕ → ℕ → Exec H.World (Unit {0})
  unfolding dialled
  resized socket height width w = dialled socket height width (T.dial socket w)

  answer_of : Option Error → Exec (Scene H) (Unit {0})
  answer_of none = pure tt
  answer_of (some e) = raise e

  end_in : Option Error → Exec (Scene H) (Unit {0})
  unfolding answer_of
  end_in answer = do
    (λ s.
        if s.cont.config.stdin_once && not s.cont.is_stdin_closed
        then logged (close_stdin H) s
        else (ok tt, s))
    answer_of answer

module _ {H : Host} {N : Cni H} {TI : Trie ℕ} {TP TC : Trie Text} (T : Terminal H)
    (base : List Text) where
  -- Exec of the streaming runtime
  unfoldable pub stream_exec :
      Shell H → Text → List Text → Streams → Exec (Node N TI TP TC) (Unit {0})
  unfolding exec_in
  stream_exec S id cmd r = do
    c ← stream_to_container base id
    in_container c (exec_in T base S cmd r)

  -- Attach up to `err = <-errors`, with the container
  unfoldable pub attach_begin : Text → Streams → Exec (Node N TI TP TC) (Text × Attached)
  unfolding connect
  attach_begin id r = do
    c ← stream_to_container base id
    a ← in_container c (connect T r)
    pure (c, a)

  -- Attach from the answer on; its socket is closed in the end.
  unfoldable pub attach_end : Text → Text → Option Error → Exec (Node N TI TP TC) (Unit {0})
  unfolding end_in
  attach_end c socket answer s =
      let (r, t) = in_container c (end_in T answer) s in
      (r, record t { world = T.hang_up socket t.world })

  pid_in : Option OciState → Exec (Node N TI TP TC) ℕ
  pid_in none = crash
  pid_in (some o) = pure o.pid

  not_found : {A : Type 0} → Result A → Exec (Node N TI TP TC) A
  not_found (ok a) = pure a
  not_found (err e) = raise (errorf "unable to do port forwarding: not found")
  not_found panic = crash

  unfoldable pub port_forward : Text → ℕ → Exec (Node N TI TP TC) (Unit {0})
  unfolding pid_in not_found forward_command
  port_forward id port = do
    p ← stream_to_pod base id
    found ← attempt (on_host (T.look_path (codes "socat")))
    socat ← not_found found
    found ← attempt (on_host (T.look_path (codes "nsenter")))
    nsenter ← not_found found
    pid ← λ s. pid_in (s.pod_at p).oci_state s
    wrapping "unable to do port forwarding: error creating stdin pipe" (on_host T.stdin_pipe)
    wrapping "stderr" (on_host (T.run_on_stream (forward_command nsenter socat pid port)))
