-- ===== src/Server/Device/Kept.antt =====
-- What the device plugin of pkg/server/device keeps, allocates and leaves behind.
use singularity_cri.Base.{◌≡◌, arith, nat_eq, true, none, some, List, [], ◌∷◌, ◌++◌}
use singularity_cri.Base.Text.{Text, text_eq, text_beq_iff}
use singularity_cri.Base.Dict.{Dict, lookup, lookup-insert}
use singularity_cri.Base.Result.{ok, err, panic}
use singularity_cri.Slice.{contains}
use singularity_cri.Server.Device.Monitor.{Monitor, Step, Reach, fall_ill, list, hear, push}
use singularity_cri.Server.Device.{
  Gpu, Gpus, Plugin, Health, paths_of, allocations, allocate, new_plugin, get_devices, with_devices,
  or_unable, shutting_down, no_gpus, answering_internal, as_internal,
}

-- One step keeps an unhealthy device unhealthy.
step_keeps :
    {ids : List Text} {m n : Monitor} (id : Text)
    → Step ids m n
    → lookup id m.plugin.hospital ≡ some Health.unhealthy
    → lookup id n.plugin.hospital ≡ some Health.unhealthy
unfolding fall_ill list hear push
step_keeps {ids} {m} id (Step.lists other rest others sent n e) h =
    ground (arith, lookup-insert other id Health.unhealthy m.plugin.hospital, text_beq_iff other id)
step_keeps id (Step.quits p d) h = h
step_keeps id (Step.waits p d) h = h
step_keeps id (Step.failed p) h = h
step_keeps id (Step.event e p) h = h
step_keeps id (Step.sends other rest p r) h = h
step_keeps id (Step.called sent s) h = h
step_keeps id (Step.ended others n d) h = h
step_keeps id (Step.stopped s) h = h
step_keeps id (Step.shut_down d) h = h

-- A device that is unhealthy stays unhealthy, whatever events the monitor sees and whichever
-- devices ListAndWatch takes out of the channel: none ever becomes healthy again.
pub Reach-unhealthy :
    {ids : List Text} (m n : Monitor) (id : Text)
    → Reach ids m n
    → lookup id m.plugin.hospital ≡ some Health.unhealthy
    → lookup id n.plugin.hospital ≡ some Health.unhealthy
Reach-unhealthy m n id Reach.here h = h
Reach-unhealthy m n id (Reach.next r st) h = step_keeps id st (Reach-unhealthy m _ id r h)

module _ (G : Gpus) where
  -- NewSingularityDevicePlugin on a host without GPUs, where every call before the list of devices
  -- succeeds, answers ErrNoGPUs and calls nothing after it: NVML, which was initialized, is not
  -- shut down.
  pub new_plugin-leaks :
      (conf_dir version : Text) (w1 w2 w3 w4 w5 w : G.World)
      → G.look_path w ≡ (ok tt, w1)
      → G.build_config w1 ≡ (ok conf_dir, w2)
      → G.init w2 ≡ (ok tt, w3)
      → G.driver_version w3 ≡ (ok version, w4)
      → G.device_count w4 ≡ (ok 0, w5)
      → new_plugin G w ≡ (err no_gpus, w5)
  unfolding new_plugin or_unable shutting_down get_devices with_devices
  new_plugin-leaks conf_dir version w1 w2 w3 w4 w5 w a b c d e = rw (a, b, c, d, e)

paths_of-unknown :
    (devices : Dict Gpu) (id : Text) (ids : List Text)
    → contains ids id ≡ true
    → lookup id devices ≡ none
    → paths_of devices ids ≡ panic
unfolding paths_of
paths_of-unknown devices id [] m h = ground arith
paths_of-unknown devices id (other ∷ ids) m h =
    ground (arith, paths_of-unknown devices id ids, text_beq_iff other id)

allocations-unknown :
    (devices : Dict Gpu) (mounts common : List Text) (id : Text) (ids : List Text)
    (requests : List (List Text))
    → contains ids id ≡ true
    → lookup id devices ≡ none
    → allocations devices mounts common (ids ∷ requests) ≡ panic
unfolding allocations
allocations-unknown devices mounts common id ids requests m h =
    ground (arith, paths_of-unknown devices id ids m h)

-- Allocate panics where the first container asks for a device that the plugin does not know, and
-- the files and the common devices were found.
pub allocate-panics :
    (G : Gpus) (p : Plugin) (id : Text) (ids common : List Text) (requests : List (List Text))
    (files : List Text × List Text) (w1 w2 w : G.World)
    → G.paths p.conf_dir w ≡ (ok files, w1)
    → G.devices w1 ≡ (ok common, w2)
    → contains ids id ≡ true
    → lookup id p.devices ≡ none
    → allocate G p (ids ∷ requests) w ≡ (panic, w2)
unfolding allocate answering_internal as_internal
allocate-panics G p id ids common requests files w1 w2 w a b m h =
    rw (a, b, allocations-unknown p.devices (files.0 ++ files.1) common id ids requests m h)
