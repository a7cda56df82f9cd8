-- ===== src/Server/Device.antt =====
-- The device plugin of pkg/server/device: device.go and nvml.go, up to the goroutine that
-- monitors the devices. NVML, the search for its files, the kubelet and time are the parameter `Gpus`.
pub mod Kept
pub mod Listed
pub mod Stuck
pub mod Monitor
pub mod Register
pub mod Balanced
pub mod Retries
use singularity_cri.Base.{
  ◌≡◌, ℕ, nat_eq, zero, suc, ◌+◌, Bool, true, false, Option, none, some, List, [], ◌∷◌, ◌++◌, ◌==◌,
  ◌||◌, if◌then◌else◌, is_nil, map,
}
use singularity_cri.Base.Text.{Text, codes, text_eq}
use singularity_cri.Base.Dict.{Dict, lookup, insert}
use singularity_cri.Base.Result.{
  Result, ok, err, panic, Error, errorf, wrapf, sentinel, Sentinel, status, Code,
}
use singularity_cri.Base.Exec.{
  Exec, ◌>>=◌, ◌>>◌, pure, raise, crash, modify, wrapping, logged, attempt,
}

-- nvml.Device
pub record Gpu : Type 0 where
  pub uuid : Text
  pub path : Text

-- What RegisterEventForDevice answers: an error may say that the device does not support events.
pub data Watched : Type 0 where
  watched not_supported : Watched
  not_watched : Error → Watched

pub record Gpus : Type 1 where
  pub World : Type 0
  -- exec.LookPath of the runtime, and BuildConfig of the CLI client
  pub look_path : Exec World (Unit {0})
  pub build_config : Exec World Text
  pub init : Exec World (Unit {0})
  pub shutdown : Exec World (Unit {0})
  pub driver_version : Exec World Text
  pub device_count : Exec World ℕ
  pub device : ℕ → Exec World Gpu
  -- an event set
  pub new_events : World → World
  pub delete_events : World → World
  pub watch : Text → World → Watched × World
  -- nvidia.Paths (libraries and binaries) and nvidia.Devices
  pub paths : Text → Exec World (List Text × List Text)
  pub devices : Exec World (List Text)
  -- grpc.Dial of the kubelet's socket, client.Register with a resource and an endpoint, conn.Close, and
  -- time.Sleep in seconds
  pub dial : Exec World (Unit {0})
  pub request : Text → Text → Exec World (Unit {0})
  pub hang_up : World → World
  pub sleep : ℕ → World → World

pub data Health : Type 0 where
  healthy unhealthy : Health

-- SingularityDevicePlugin: the channel of unhealthy devices is what waits in it.
pub record Plugin : Type 0 where
  pub devices : Dict Gpu
  pub hospital : Dict Health
  pub conf_dir : Text
  pub ill : List Text

-- ErrUnableToLoad and ErrNoGPUs
abbrev pub unable_to_load : Error
unable_to_load = sentinel Sentinel.unable_to_load

abbrev pub no_gpus : Error
no_gpus = sentinel Sentinel.no_gpus

-- The devices by their UUID, and their health.
unfoldable pub by_uuid : List Gpu → Dict Gpu → Dict Gpu
by_uuid [] d = d
by_uuid (g ∷ gs) d = by_uuid gs (insert g.uuid g d)

unfoldable pub all_healthy : List Gpu → Dict Health → Dict Health
all_healthy [] d = d
all_healthy (g ∷ gs) d = all_healthy gs (insert g.uuid Health.healthy d)

-- k8sDP.ContainerAllocateResponse: the files that are mounted, and the devices, each under its own path.
pub record Allocation : Type 0 where
  pub mounts : List Text
  pub devices : List Text

-- The devices of one request: an unknown ID reads as nil, whose path panics.
unfoldable pub paths_of : Dict Gpu → List Text → Result (List Text)
paths_of devices [] = ok []
paths_of devices (id ∷ ids) =
    let rest = paths_of devices ids in
    elim (lookup id devices) [
      | none ↦ panic
      | some g ↦ elim rest [ ok paths ↦ ok (g.path ∷ paths) | err e ↦ err e | panic ↦ panic ]
    ]

unfoldable pub allocations :
    Dict Gpu → List Text → List Text → List (List Text) → Result (List Allocation)
unfolding paths_of
allocations devices mounts common [] = ok []
allocations devices mounts common (ids ∷ requests) =
    let rest = allocations devices mounts common requests in
    elim (paths_of devices ids) [
      | ok paths ↦ elim rest [
        | ok responses ↦ ok (record { mounts = mounts; devices = common ++ paths } ∷ responses)
        | err e ↦ err e
        | panic ↦ panic
      ]
      | err e ↦ err e
      | panic ↦ panic
    ]

module _ (G : Gpus) where
  -- getDevices, from an index on
  devices_from : ℕ → ℕ → Exec G.World (List Gpu)
  devices_from zero i = pure []
  devices_from (suc rounds) i = do
    g ← wrapping "could not get device" (G.device i)
    rest ← devices_from rounds (suc i)
    pure (g ∷ rest)

  unfoldable pub get_devices : Exec G.World (List Gpu)
  unfolding devices_from
  get_devices = do n ← wrapping "could not get GPU count" G.device_count; devices_from n 0

  -- The loop of monitorGPUs: the devices that do not support events are ill.
  watched_with : Text → List Text → Watched → Exec G.World (List Text)
  watched_with id ill Watched.watched w = (ok ill, w)
  watched_with id ill Watched.not_supported w = (ok (ill ++ (id ∷ [])), w)
  watched_with id ill (Watched.not_watched e) w =
      (err (wrapf "could not subscribe for events" e), G.delete_events w)

  watch_all : List Text → List Text → Exec G.World (List Text)
  unfolding watched_with
  watch_all [] ill = pure ill
  watch_all (id ∷ ids) ill = do
    more ← λ w. let (answer, w') = G.watch id w in watched_with id ill answer w'
    watch_all ids more

  -- monitorGPUs, up to its goroutine
  unfoldable pub monitor_gpus : List Text → Exec G.World (List Text)
  unfolding watch_all
  monitor_gpus ids w = watch_all ids [] (G.new_events w)

  -- An error in `err`: the deferred function shuts NVML down.
  shutting_down : {A : Type 0} → Error → Result A → Exec G.World A
  shutting_down e (ok a) = pure a
  shutting_down e (err _) = do logged G.shutdown; raise e
  shutting_down e panic = crash

  with_devices : Text → List Gpu → Exec G.World Plugin
  unfolding monitor_gpus by_uuid all_healthy shutting_down
  with_devices conf_dir [] = raise no_gpus
  with_devices conf_dir (g ∷ gs) = do
    ill ← attempt (monitor_gpus (map (λ (d : Gpu). d.uuid) (g ∷ gs)))
    waiting ← shutting_down (errorf "could not start GPU monitoring") ill
    pure (record {
      devices = by_uuid (g ∷ gs) [];
      hospital = all_healthy (g ∷ gs) [];
      conf_dir = conf_dir;
      ill = waiting;
    })

  or_unable : Result (Unit {0}) → Exec G.World (Unit {0})
  or_unable (ok _) = pure tt
  or_unable (err _) = raise unable_to_load
  or_unable panic = crash

  -- NewSingularityDevicePlugin
  unfoldable pub new_plugin : Exec G.World Plugin
  unfolding get_devices with_devices shutting_down or_unable
  new_plugin = do
    wrapping "could not find singularity on this machine" G.look_path
    conf_dir ← wrapping "could not get build config" G.build_config
    loaded ← attempt G.init
    or_unable loaded
    version ← attempt G.driver_version
    _ ← shutting_down unable_to_load version
    found ← attempt get_devices
    devices ← shutting_down (errorf "could not get available devices") found
    with_devices conf_dir devices

  as_internal : {A : Type 0} → Result A × G.World → Result A × G.World
  as_internal (ok a, w) = (ok a, w)
  as_internal (err e, w) = (err (status Code.internal), w)
  as_internal (panic, w) = (panic, w)

  answering_internal : {A : Type 0} → Exec G.World A → Exec G.World A
  unfolding as_internal
  answering_internal m w = as_internal (m w)

  unfoldable pub allocate : Plugin → List (List Text) → Exec G.World (List Allocation)
  unfolding allocations answering_internal
  allocate p requests = do
    files ← answering_internal (G.paths p.conf_dir)
    devices ← answering_internal G.devices
    λ w. (allocations p.devices (files.0 ++ files.1) devices requests, w)
