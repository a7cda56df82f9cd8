-- ===== src/Command/Daemon.antt =====
-- main of cmd/server/main.go: the start of the service and of the device plugin, the loop over the
-- events of the watcher and the signals, and the deferred calls. The two goroutines, of startCRI and of
-- startDevicePlugin, act in steps of their own; the kubelet, the signals and what the host answers to a
-- start are chosen by a step.

pub mod Exits
pub mod Ends
use singularity_cri.Base.{
  ◌≡◌, ◌≢◌, Bool, true, false, List, [], ◌∷◌, ◌++◌, ◌&&◌, ◌||◌, ◌==◌, if◌then◌else◌, Option, some,
  none, not, is_nil,
}
use singularity_cri.Base.Text.{Text, codes, text_eq}
use singularity_cri.Base.Result.{Result, ok, err, panic, Error, sentinel, Sentinel}
use singularity_cri.Fs.Watcher.{WatchEvent, Op}

-- The goroutine that a WaitGroup counts: none, one that serves, or one that has called Done.
pub data Worker : Type 0 where
  absent serving finished : Worker

-- How startDevicePlugin ended.
pub data Started : Type 0 where
  started unsupported not_started : Started

-- err == nil, err == errGPUNotSupported, and any other error; a panic is that of the process.
unfoldable pub started_of : {A : Type 0} → Result A → Option Started
started_of (ok _) = some Started.started
started_of (err (sentinel Sentinel.gpu_not_supported)) = some Started.unsupported
started_of (err _) = some Started.not_started
started_of panic = none

-- Where main stands: in the loop, at dpWG.Wait() of a restart or behind it, and in the deferred calls, at
-- dpWG.Wait(), at criWG.Wait() or behind it.
pub data Place : Type 0 where
  in_loop at_restart restarting at_plugin_wait at_service_wait exited : Place

-- ctx and the last dpCtx are cancelled or not; the earlier ones are. There is a worker for each WaitGroup
-- that main has assigned to dpWG: the first one, whose Wait is deferred, and the later ones, the last of
-- them in front.
pub record Daemon : Type 0 where
  pub place : Place
  pub watching : Bool
  pub cancelled : Bool
  pub plugin_cancelled : Bool
  pub service : Worker
  pub first : Worker
  pub later : List Worker

-- The deferred calls of watcher.Close and cancel.
unfoldable pub leave : Daemon → Daemon
leave d = record d { place = Place.at_plugin_wait; watching = false; cancelled = true }

worker_of : Started → Worker
worker_of Started.started = Worker.serving
worker_of _ = Worker.absent

-- main up to the loop: the configuration, startCRI, startDevicePlugin and the watcher.
unfoldable pub launch : Bool → Bool → Started → Bool → Daemon
unfolding worker_of leave
launch configured served plugin watched =
    let idle : Daemon = record {
      place = Place.exited;
      watching = false;
      cancelled = false;
      plugin_cancelled = false;
      service = Worker.absent;
      first = Worker.absent;
      later = [];
    } in
    let running : Daemon = record idle {
      place = Place.in_loop;
      service = Worker.serving;
      first = worker_of plugin;
    } in
    if configured
    then if served
      then elim plugin [
        | Started.started ↦ if watched then record running { watching = true } else leave running
        | Started.unsupported ↦ running
        | Started.not_started ↦ leave running
      ]
      else leave idle
    else idle

-- event.Path == k8sDP.KubeletSocket && event.Op == fs.OpCreate
is_create : Op → Bool
is_create Op.op_create = true
is_create _ = false

unfoldable pub is_recreated : WatchEvent → Bool
unfolding is_create
is_recreated e = (e.path == codes "/var/lib/kubelet/device-plugins/kubelet.sock") && is_create e.op

-- An event of the watcher in the loop: dpCancel() where the socket of the kubelet was made again.
unfoldable pub on_event : WatchEvent → Daemon → Daemon
unfolding is_recreated
on_event e d =
    if is_recreated e then record d { place = Place.at_restart; plugin_cancelled = true } else d

-- The restart, with a context and a WaitGroup of its own: any error leaves main.
unfoldable pub restart : Started → Daemon → Daemon
unfolding worker_of leave
restart plugin d =
    let again : Daemon = record d {
      place = Place.in_loop;
      plugin_cancelled = false;
      later = worker_of plugin ∷ d.later;
    } in
    elim plugin [ Started.started ↦ again | _ ↦ leave again ]

-- The WaitGroup that dpWG points to.
abbrev pub current : Daemon → Worker
current d = elim d.later [ [] ↦ d.first | w ∷ ws ↦ w ]

pub data Step (d : Daemon) : Daemon → Type 0 where
  -- <-fsEvents, which is nil where there is no watcher
  event : (e : WatchEvent) → d.place ≡ Place.in_loop → d.watching ≡ true → Step d (on_event e d)
  -- <-exitCh
  signal : d.place ≡ Place.in_loop → Step d (leave d)
  -- dpWG.Wait() of the restart
  waited :
      d.place ≡ Place.at_restart
      → current d ≢ Worker.serving
      → Step d (record d { place = Place.restarting })
  restarted : (plugin : Started) → d.place ≡ Place.restarting → Step d (restart plugin d)
  -- the deferred dpWG.Wait(), of the WaitGroup that dpWG pointed to at the defer
  plugin_waited :
      d.place ≡ Place.at_plugin_wait
      → d.first ≢ Worker.serving
      → Step d (record d { place = Place.at_service_wait })
  service_waited :
      d.place ≡ Place.at_service_wait
      → d.service ≢ Worker.serving
      → Step d (record d { place = Place.exited })
  -- the goroutines, behind <-ctx.Done(), as long as the process lives
  service_finished :
      d.place ≢ Place.exited
      → d.cancelled ≡ true
      → d.service ≡ Worker.serving
      → Step d (record d { service = Worker.finished })
  first_finished :
      d.place ≢ Place.exited
      → (d.cancelled || (d.plugin_cancelled || not (is_nil d.later))) ≡ true
      → d.first ≡ Worker.serving
      → Step d (record d { first = Worker.finished })
  later_finished :
      (ws : List Worker)
      → d.place ≢ Place.exited
      → (d.cancelled || d.plugin_cancelled) ≡ true
      → d.later ≡ Worker.serving ∷ ws
      → Step d (record d { later = Worker.finished ∷ ws })

pub data Reach (c : Daemon) : Daemon → Type 0 where
  here : Reach c c
  next : {d e : Daemon} → Reach c d → Step d e → Reach c e
