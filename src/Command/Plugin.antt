-- ===== src/Command/Plugin.antt =====
-- startDevicePlugin of cmd/server/main.go: the plugin, its socket, the registration, and what is undone
-- where one of them fails. Sockets and the gRPC server are the parameter `Sockets`.
pub mod Balanced
use singularity_cri.Base.{◌≡◌, ℕ, Bool, true, false, List, if◌then◌else◌}
use singularity_cri.Base.Text.{Text, codes}
use singularity_cri.Base.Result.{Result, ok, err, panic, Error, sentinel, Sentinel, wrapf}
use singularity_cri.Base.Exec.{Exec, ◌>>=◌, ◌>>◌, pure, raise, crash, modify, logged, attempt}
use singularity_cri.Server.Device.{Gpus, Plugin, new_plugin}
use singularity_cri.Server.Device.Register.{register_in_kubelet}

-- What startDevicePlugin calls of the host: CreateSocket, lis.Close and grpcServer.Stop.
pub record Sockets (W : Type 0) : Type 0 where
  pub create : Text → Exec W (Unit {0})
  pub close : W → W
  pub stop_server : W → W

-- err == device.ErrUnableToLoad || err == device.ErrNoGPUs
unfoldable pub is_unsupported : Error → Bool
is_unsupported (sentinel Sentinel.unable_to_load) = true
is_unsupported (sentinel Sentinel.no_gpus) = true
is_unsupported _ = false

-- errGPUNotSupported
abbrev pub gpu_not_supported : Error
gpu_not_supported = sentinel Sentinel.gpu_not_supported

module _ (G : Gpus) (K : Sockets G.World) where
  -- cleanup: Shutdown of the device plugin, whose error is logged
  unfoldable pub cleanup : Exec G.World (Unit {0})
  cleanup = logged G.shutdown

  made : Result Plugin → Exec G.World Plugin
  made (ok p) = pure p
  made (err e) = raise (
      if is_unsupported e
      then gpu_not_supported
      else wrapf "could not create Singularity device plugin" e)
  made panic = crash

  listening : Result (Unit {0}) → Exec G.World (Unit {0})
  unfolding cleanup
  listening (ok _) = pure tt
  listening (err e) = do cleanup; raise (wrapf "could not start device plugin listener" e)
  listening panic = crash

  -- The goroutine up to the answer over `register`; where it fails, it closes the listener behind that.
  registered : Result (Unit {0}) → Exec G.World (Unit {0})
  unfolding cleanup
  registered (ok _) = pure tt
  registered (err e) = do
    cleanup
    modify K.close
    raise (wrapf "could not register Singularity device plugin" e)
  registered panic = crash

  -- startDevicePlugin
  unfoldable pub start_device_plugin : Exec G.World Plugin
  unfolding made listening registered
  start_device_plugin = do
    created ← attempt (new_plugin G)
    p ← made created
    bound ← attempt (K.create (codes "/var/lib/kubelet/device-plugins/singularity.sock"))
    listening bound
    answer ← attempt (register_in_kubelet G (codes "singularity.sock"))
    registered answer
    pure p

  -- The rest of the goroutine, once the context is done.
  unfoldable pub stop_device_plugin : Exec G.World (Unit {0})
  unfolding cleanup
  stop_device_plugin = do modify K.stop_server; cleanup; modify K.close
