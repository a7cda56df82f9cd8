-- ===== src/Tests/Daemon.antt =====
-- The command, the watcher and the device plugin's start at concrete inputs.
use singularity_cri.Base.{
  ◌≡◌, ◌≢◌, ◌⊎◌, refl, ℕ, suc, ◌-◌, true, false, some, [], ◌∷◌, ◌++◌, length,
}
use singularity_cri.Base.Text.{codes}
use singularity_cri.Base.Result.{ok, err, panic, is_ok, errorf}
use singularity_cri.Base.Exec.{Exec}
use singularity_cri.Fs.Watcher.{Event, Watch, started, Step, Reach, handle, op_of}
use singularity_cri.Fs.Watcher.Forwarded.{supported, held, Reach-IsForwarded, forwards_all}
use singularity_cri.Server.Device.{Gpus, Watched}
use singularity_cri.Server.Device.Balanced.{Counts}
use singularity_cri.Command.Plugin.{Sockets, start_device_plugin}
use singularity_cri.Command.Plugin.Balanced.{Left, start_device_plugin-Left}
use singularity_cri.Command.Daemon as Main
use singularity_cri.Command.Daemon.{Daemon, Started, Worker, launch, leave}
use singularity_cri.Command.Daemon.Exits.{IsSound, Reach-launch-IsSound}
use singularity_cri.Command.Daemon.Ends.{Ends, Reach-Ends, restarted-serving}
use singularity_cri.Command.Log.{
  Request, Ending, no_auth, log_and_recover, AllMasked, log_and_recover-AllMasked,
}

-- A socket that is made and removed.
abbrev made : Event
made = record { name = codes "kubelet.sock"; create = true; remove = false }

abbrev removed : Event
removed = record { name = codes "kubelet.sock"; create = false; remove = true }

abbrev noticed : Watch
noticed = handle made started

abbrev to_noticed : Reach started noticed
to_noticed = Reach.next Reach.here (Step.event made refl)

Reach-IsForwarded_example : noticed.received ++ held noticed.place ≡ supported (made ∷ [])
unfolding singularity_cri.Fs.Watcher.op_of handle
Reach-IsForwarded_example = Reach-IsForwarded noticed to_noticed

forwards_all_example :
    (v : Watch) × Reach noticed v
    × (v.arrived ≡ made ∷ removed ∷ [])
    × (v.received ≡ supported (made ∷ removed ∷ []))
unfolding op_of handle
forwards_all_example = forwards_all noticed (removed ∷ []) to_noticed (λ q. cc)

-- The number counts how often NVML is initialized; there is one GPU, and no kubelet.
abbrev succeeds : {A : Type 0} → A → Exec ℕ A
succeeds a w = (ok a, w)

abbrev one_gpu : Gpus
one_gpu = record {
  World = ℕ;
  look_path = succeeds tt;
  build_config = succeeds (codes "/etc");
  init = λ w. (ok tt, suc w);
  shutdown = λ w. (ok tt, w - 1);
  driver_version = succeeds (codes "418");
  device_count = succeeds 1;
  device = λ i. succeeds (record { uuid = codes "GPU-0"; path = codes "/dev/nvidia0" });
  new_events = λ w. w;
  delete_events = λ w. w;
  watch = λ id w. (Watched.watched, w);
  paths = λ dir. succeeds ([], []);
  devices = succeeds [];
  dial = λ w. (err (errorf "no kubelet"), w);
  request = λ resource socket w. (ok tt, w);
  hang_up = λ w. w;
  sleep = λ seconds w. w;
}

abbrev sockets : Sockets ℕ
sockets = record { create = λ path. succeeds tt; close = λ w. w; stop_server = λ w. w }

counts : Counts one_gpu (λ w. w)
counts = record {
  init = λ w. refl;
  shutdown = λ w. refl;
  look_path = λ w. refl;
  build_config = λ w. refl;
  driver_version = λ w. refl;
  device_count = λ w. refl;
  device = λ i w. refl;
  new_events = λ w. refl;
  delete_events = λ w. refl;
  watch = λ id w. refl;
  dial = λ w. refl;
  request = λ r s w. refl;
  hang_up = λ w. refl;
  sleep = λ n w. refl;
}

start_device_plugin-Left_example :
    Left (start_device_plugin one_gpu sockets 0).0 0 (start_device_plugin one_gpu sockets 0).1
start_device_plugin-Left_example =
    start_device_plugin-Left one_gpu sockets (λ w. w) counts (λ path w. refl) (λ w. refl) 0

-- A daemon with a device plugin, in its loop and behind a signal.
abbrev launched : Daemon
launched = launch true true Started.started true

abbrev to_left : Main.Reach launched (leave launched)
unfolding launch
to_left = Main.Reach.next Main.Reach.here (Main.Step.signal refl)

Reach-launch-IsSound_example : IsSound (leave launched)
Reach-launch-IsSound_example =
    Reach-launch-IsSound true true true Started.started (leave launched) to_left

Reach-Ends_example : Ends (leave launched)
Reach-Ends_example = Reach-Ends true true true Started.started (leave launched) to_left

restarted-serving_example :
    (e : Daemon) × Main.Reach launched e
    × (e.place ≡ Main.Place.exited)
    × (e.later ≡ Worker.serving ∷ [])
unfolding launch
restarted-serving_example = restarted-serving launched refl refl refl refl refl

-- A request with a password, whose handler panics or fails.
abbrev request : Request
request = Request.pull_image (codes "busybox") (
    some record {
      username = codes "user";
      password = codes "secret";
      auth = [];
      server_address = [];
      identity_token = [];
      registry_token = [];
    })

abbrev anonymous : Request
anonymous = Request.pull_image (codes "busybox") (some no_auth)

abbrev fails : Request → ℕ → Ending ℕ × ℕ
fails r w = (Ending.failed (errorf "no image"), w)

log_and_recover-AllMasked_example :
    ((log_and_recover false fails request 0).0.0 ≢ panic)
    × AllMasked (log_and_recover false fails request 0).1
    × ((is_ok (log_and_recover false fails request 0).0.0 ≡ true)
        ⊎ (length (log_and_recover false fails request 0).1 ≡ 1))
    × ((log_and_recover false fails request 0).1 ≡ (log_and_recover false fails anonymous 0).1)
log_and_recover-AllMasked_example =
    log_and_recover-AllMasked false fails request anonymous 0 refl refl
