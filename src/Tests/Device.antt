-- ===== src/Tests/Device.antt =====
-- The device plugin at concrete inputs.
use singularity_cri.Base.{◌≡◌, refl, arith, ◌≤◌, ◌⊎◌, suc, true, ℕ, some, List, [], ◌∷◌}
use singularity_cri.Base.Text.{Text, codes}
use singularity_cri.Base.Result.{ok, err, errorf, is_ok}
use singularity_cri.Base.Exec.{Exec}
use singularity_cri.Server.Device.{Gpus, Plugin, Health, Watched}
use singularity_cri.Server.Device.Monitor.{Event, Monitor, Place, started, hear}
use singularity_cri.Server.Device.Monitor as Monitored
use singularity_cri.Server.Device.Listed.{IsListed, Reach-IsListed}
use singularity_cri.Server.Device.Stuck.{IsStuck, started-IsStuck}
use singularity_cri.Server.Device.Register.{register_in_kubelet}
use singularity_cri.Server.Device.Retries.{register_in_kubelet-bounded}

abbrev succeeds : {A : Type 0} → A → Exec ℕ A
succeeds a w = (ok a, w)

-- A kubelet that answers each request with an error; the world counts the dials.
abbrev refusing : Gpus
refusing = record {
  World = ℕ;
  look_path = succeeds tt;
  build_config = succeeds (codes "/etc");
  init = succeeds tt;
  shutdown = succeeds tt;
  driver_version = succeeds (codes "418");
  device_count = succeeds 0;
  device = λ i. succeeds (record { uuid = codes "GPU-0"; path = codes "/dev/nvidia0" });
  new_events = λ w. w;
  delete_events = λ w. w;
  watch = λ id w. (Watched.watched, w);
  paths = λ dir. succeeds ([], []);
  devices = succeeds (codes "/dev/nvidiactl" ∷ []);
  dial = λ w. (ok tt, suc w);
  request = λ resource socket w. (err (errorf "not registered"), w);
  hang_up = λ w. w;
  sleep = λ seconds w. w;
}

register_in_kubelet-bounded_example :
    ((register_in_kubelet refusing (codes "singularity.sock") 0).1 ≤ 4)
    × ((is_ok (register_in_kubelet refusing (codes "singularity.sock") 0).0 ≡ true)
        ⊎ ((register_in_kubelet refusing (codes "singularity.sock") 0).1 ≡ 4))
register_in_kubelet-bounded_example =
    register_in_kubelet-bounded refusing (codes "singularity.sock") (λ w. w) (λ w. refl)
      (λ resource w. refl) (λ w. refl) (λ seconds w. refl) (λ w. refl) (λ resource w. refl) 0

-- A plugin with two devices, the second of which does not support events.
abbrev plugin : Plugin
plugin = record {
  devices = [];
  hospital = (codes "GPU-0", Health.healthy) ∷ (codes "GPU-1", Health.healthy) ∷ [];
  conf_dir = codes "/etc";
  ill = codes "GPU-1" ∷ [];
}

abbrev gpus : List Text
gpus = codes "GPU-0" ∷ codes "GPU-1" ∷ []

-- The first device has a critical error, and is about to be sent.
abbrev critical : Event
critical = record { code = 79; uuid = some (codes "GPU-0") }

abbrev hearing : Monitor
hearing = hear gpus critical (record (started plugin) { place = Place.at_wait })

abbrev to_hearing : Monitored.Reach gpus (started plugin) hearing
to_hearing =
    Monitored.Reach.next
      (Monitored.Reach.next Monitored.Reach.here (Monitored.Step.waits refl refl))
      (Monitored.Step.event critical refl)

Reach-IsListed_example : IsListed gpus plugin hearing
Reach-IsListed_example = Reach-IsListed gpus plugin hearing (omega arith) to_hearing

started-IsStuck_example :
    (m : Monitor) × Monitored.Reach gpus (started (record plugin { ill = [] })) m × IsStuck gpus m
started-IsStuck_example =
    started-IsStuck (codes "GPU-0") (codes "GPU-1" ∷ []) (record plugin { ill = [] }) refl
