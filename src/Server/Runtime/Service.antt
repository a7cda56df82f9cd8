-- ===== src/Server/Runtime/Service.antt =====
-- The rest of the runtime service: pkg/server/runtime/runtime.go, and the checks of the streaming requests
-- in streaming.go.
use singularity_cri.Base.{
  String, ℕ, nat_eq, Bool, true, false, Option, none, some, List, [], ◌∷◌, ◌&&◌, ◌||◌, not,
  if◌then◌else◌, is_nil,
}
use singularity_cri.Base.Text.{Text, codes, text_eq}
use singularity_cri.Base.Result.{Result, ok, err, panic, Error, errorf, wrapf, Code, status}
use singularity_cri.Base.Exec.{Exec, ◌>>=◌, ◌>>◌, pure, crash, modify, wrapping, logged, attempt}
use singularity_cri.Patricia.{Trie}
use singularity_cri.Runtime.Host.{Host, Ran}
use singularity_cri.Index.Pods as PodIndex
use singularity_cri.Index.Containers as ContainerIndex
use singularity_cri.Kube.Container.{update_state}
use singularity_cri.Kube.Container.Status.{ContainerState, state_of}
use singularity_cri.Kube.Pod.{update_state as update_pod_state}
use singularity_cri.Kube.Pod.Life
use singularity_cri.Kube.Filter.{PodState, pod_state}
use singularity_cri.Network.{Cni, init, check_init, set_pod_cidr}
use singularity_cri.Server.Runtime.{Node, on_host, on_network, in_pod, in_container, find_container}

-- What a request to Exec or Attach asks for.
pub record Streams : Type 0 where
  pub stdin : Bool
  pub stdout : Bool
  pub stderr : Bool
  pub tty : Bool

-- The checks of Exec and Attach on the streams.
unfoldable pub check_streams : Streams → Result (Unit {0})
check_streams r =
    if not (r.stdout || (r.stderr || r.stdin))
    then err (status Code.invalid_argument)
    else if r.tty && r.stderr
    then err (status Code.invalid_argument)
    else ok tt

unfoldable pub is_running : ContainerState → Bool
is_running ContainerState.container_running = true
is_running _ = false

is_ready : PodState → Bool
is_ready PodState.ready = true
is_ready PodState.not_ready = false

-- An error of the clean-up that is kept: the last one.
abbrev kept : Option Error → Option Error → Option Error
kept none last = last
kept (some e) last = some e

abbrev finished : Option Error → Result (Unit {0})
finished none = ok tt
finished (some e) = err e

abbrev pub or_default : Text → Text → Text
or_default default path = if is_nil path then default else path

module _ {H : Host} {N : Cni H} {TI : Trie ℕ} {TP TC : Trie Text} (base : List Text) where
  -- The error of one pod of Shutdown.
  failure : String → Result (Unit {0}) → Exec (Node N TI TP TC) (Option Error)
  failure message (ok _) = pure none
  failure message (err e) = pure (some (wrapf message e))
  failure message panic = crash

  -- One pass over the pods: the last error.
  each_pod :
      String
      → (Text → Exec (Node N TI TP TC) (Unit {0}))
      → List Text
      → Option Error
      → Exec (Node N TI TP TC) (Option Error)
  unfolding failure
  each_pod message m [] last = pure last
  each_pod message m (p ∷ ps) last = do
    done ← attempt (m p)
    failed ← failure message done
    each_pod message m ps (kept failed last)

  -- Stop of the streaming server: a nil server panics.
  stop_streaming : Exec H.World (Unit {0}) → Bool → Exec (Node N TI TP TC) (Unit {0})
  stop_streaming stop true = wrapping "could not stop streaming server" (on_host stop)
  stop_streaming stop false = crash

  -- Shutdown, with the streaming server's Stop
  unfoldable pub shutdown : Exec H.World (Unit {0}) → Exec (Node N TI TP TC) (Unit {0})
  unfolding each_pod stop_streaming
  shutdown stop = do
    λ s. stop_streaming stop s.streaming s
    failed ← λ s.
        each_pod "could not stop pod" (λ p. in_pod p (Life.stop H base))
          (PodIndex.iterate TP s.pods) none s
    last ← λ s.
        each_pod "could not remove pod" (λ p. in_pod p (Life.remove H base))
          (PodIndex.iterate TP s.pods) failed s
    λ s. (finished last, s)

  -- WithNetwork on a manager of its own: an empty path is the default one, an error is logged.
  unfoldable pub with_network : Text → Text → Exec (Node N TI TP TC) (Unit {0})
  with_network bin conf = do
    modify (λ s. record s {
      manager = record {
        lo_network = none;
        default_network = none;
        cni_path = none;
        pod_cidr = [];
      };
    })
    logged (
        on_network (
          init N (record { conf = codes "/etc/cni/net.d"; plugin = codes "/opt/cni/bin" })
            (some record {
              conf = or_default (codes "/etc/cni/net.d") conf;
              plugin = or_default (codes "/opt/cni/bin") bin;
            })))

  version_of : (Text → Text) → Ran × Node N TI TP TC → Result Text × Node N TI TP TC
  version_of trim (Ran.succeeded output, s) = (ok (trim output), s)
  version_of trim (_, s) = (err (status Code.internal), s)

  -- Version: that of Singularity, by strings.TrimSpace
  unfoldable pub version : Text → (Text → Text) → Exec (Node N TI TP TC) Text
  unfolding version_of
  version singularity trim s =
      let (ran, w) = H.command (singularity ∷ codes "version" ∷ []) s.world in
      version_of trim (ran, record s { world = w })

  -- UpdateRuntimeConfig: no configuration, no network configuration in it, or its PodCidr
  unfoldable pub update_runtime_config : Option (Option Text) → Exec (Node N TI TP TC) (Unit {0})
  update_runtime_config none = pure tt
  update_runtime_config (some none) = crash
  update_runtime_config (some (some cidr)) =
      if is_nil cidr then pure tt else on_network (set_pod_cidr N cidr)

  -- Status: whether the network is ready; the runtime always is.
  is_network_ready : Result (Unit {0}) → Exec (Node N TI TP TC) Bool
  is_network_ready (ok _) = pure true
  is_network_ready (err e) = pure false
  is_network_ready panic = crash

  unfoldable pub network_ready : Exec (Node N TI TP TC) Bool
  unfolding is_network_ready
  network_ready = do checked ← attempt (on_network (check_init N)); is_network_ready checked

  -- Exec and Attach up to the streaming server, and the check of the terminal in Attach.
  unfoldable pub exec : Text → Streams → Exec (Node N TI TP TC) Text
  unfolding check_streams
  exec id r = do c ← find_container id; λ s. (check_streams r, s); pure c

  unfoldable pub attach : Text → Streams → Exec (Node N TI TP TC) Text
  unfolding check_streams
  attach id r = do
    c ← find_container id
    λ s.
        if (if (s.container_at c).config.tty then r.tty else not r.tty)
        then (check_streams r, s)
        else (err (status Code.invalid_argument), s)
    pure c

  -- The checks of the streaming server's Exec and Attach, and of its PortForward.
  unfoldable pub stream_to_container : Text → Exec (Node N TI TP TC) Text
  unfolding is_running
  stream_to_container id = do
    c ← wrapping "could not fetch container" (λ s. (ContainerIndex.find TC s.containers id, s))
    wrapping "could not update container state" (in_container c (update_state H base))
    λ s.
        if is_running (state_of (s.container_at c))
        then (ok tt, s)
        else (err (errorf "container is not running"), s)
    pure c

  unfoldable pub stream_to_pod : Text → Exec (Node N TI TP TC) Text
  unfolding is_ready
  stream_to_pod id = do
    p ← wrapping "could not fetch container" (λ s. (PodIndex.find TP s.pods id, s))
    wrapping "could not update pod state" (in_pod p (update_pod_state H base))
    λ s.
        if is_ready (pod_state (s.pod_at p))
        then (ok tt, s)
        else (err (errorf "pod is not ready"), s)
    pure p
