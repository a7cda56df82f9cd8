-- ===== src/Command/Service.antt =====
-- startCRI of cmd/server/main.go: the image service, the runtime service on the same index of images, and
-- the socket; and the end of its goroutine. The gRPC server is in two arguments, what it serves is not.
use singularity_cri.Base.{◌≡◌, ◌∙◌, sym, ap, ℕ, Bool, false, List, []}
use singularity_cri.Base.Text.{Text}
use singularity_cri.Base.Result.{Result, ok, err, panic, is_ok}
use singularity_cri.Base.Exec.{Exec, ◌>>=◌, ◌>>◌, pure, wrapping, >>=-eq-ok, wrapping-eq-ok}
use singularity_cri.Patricia.{Trie}
use singularity_cri.Runtime.Host.{Host}
use singularity_cri.Index.Images.{Images}
use singularity_cri.Kube.Types.{Pod, Container}
use singularity_cri.Network.{Cni, Manager}
use singularity_cri.Config.{Config}
use singularity_cri.Server.Registry
use singularity_cri.Server.Registry.{Backup, Registry, new_registry}
use singularity_cri.Server.Runtime.{Node}
use singularity_cri.Server.Runtime.Service.{shutdown}
use singularity_cri.Server.Runtime.Start.{new_runtime, bare, options_of}
use singularity_cri.Server.Runtime.Start.Unstreamed.{new_runtime-unstreamed, shutdown-off}

-- What startCRI starts.
pub record Service {H : Host} (N : Cni H) (TI : Trie ℕ) (TP TC : Trie Text) : Type 0 where
  pub registry : Registry H TI
  pub runtime : Node N TI TP TC

module _ {H : Host} (N : Cni H) (TI : Trie ℕ) (TP TC : Trie Text) (order : List Text → List Text)
    (B : Backup H) (base : List Text) (look_path : Exec H.World Text)
    (new_server : Text → Exec H.World (Unit {0})) (create_socket : Text → Exec H.World (Unit {0}))
    (pods : Text → Pod) (containers : Text → Container) (manager : Manager) where
  loaded : Result (Unit {0}) × Registry H TI → Result (Registry H TI) × H.World
  loaded (ok _, s) = (ok s, s.world)
  loaded (err e, s) = (err e, s.world)
  loaded (panic, s) = (panic, s.world)

  -- NewSingularityRegistry on a new index, with an empty index and what the backup file holds
  image_service : Images TI → List Text → Text → Exec H.World (Registry H TI)
  unfolding loaded
  image_service index file storage_dir w = loaded (
      new_registry H TI order B storage_dir
        (record { storage = []; images = index; next = 0; file = file; world = w }))

  with_runtime : Config → Registry H TI → Node N TI TP TC → Exec H.World (Service N TI TP TC)
  with_runtime config registry runtime = do
    wrapping "could not start CRI listener" (create_socket config.listen_socket)
    pure (record { registry = registry; runtime = runtime })

  runtime_service : Config → Registry H TI → Exec H.World (Node N TI TP TC)
  runtime_service config registry =
      new_runtime N TI TP TC look_path (bare N TI TP TC registry.images pods containers manager)
        (options_of N TI TP TC base new_server config)

  with_registry : Config → Registry H TI → Exec H.World (Service N TI TP TC)
  unfolding with_runtime runtime_service
  with_registry config registry =
      wrapping "could not create Singularity runtime service" (runtime_service config registry)
      >>= with_runtime config registry

  unfoldable pub start_cri : Images TI → List Text → Config → Exec H.World (Service N TI TP TC)
  unfolding image_service with_registry
  start_cri index file config =
      wrapping "could not create Singularity image service"
        (image_service index file config.storage_dir)
      >>= with_registry config

  -- Shutdown of the image service, whose error is logged, behind that of the runtime.
  shut : Registry H TI → Result (Unit {0}) × Node N TI TP TC → Result (Unit {0}) × H.World
  shut registry (panic, s) = (panic, s.world)
  shut registry (_, s) =
      let (r, t) = Registry.shutdown H TI order B (record registry { world = s.world }) in
      (elim r [ panic ↦ panic | _ ↦ ok tt ], t.world)

  -- The goroutine behind <-ctx.Done(): grpcServer.Stop(), and both Shutdown.
  unfoldable pub stop_cri :
      (H.World → H.World) → Exec H.World (Unit {0}) → Service N TI TP TC → Exec H.World (Unit {0})
  unfolding shut
  stop_cri stop_server stop v w =
      shut v.registry (shutdown base stop (record v.runtime { world = stop_server w }))

  streaming_of : Result (Service N TI TP TC) → Bool
  streaming_of (ok v) = v.runtime.streaming
  streaming_of _ = false

  -- Where the streaming server cannot be made, whatever its address, startCRI may succeed all the
  -- same: then the end of its goroutine panics, since Shutdown calls Stop of a nil server.
  pub start_cri-stop_cri :
      (index : Images TI) (file : List Text) (config : Config) (v : Service N TI TP TC)
      (stop_server : H.World → H.World) (stop : Exec H.World (Unit {0})) (w u : H.World)
      → ((url : Text) (x : H.World) → is_ok (new_server url x).0 ≡ false)
      → (start_cri index file config w).0 ≡ ok v
      → (stop_cri stop_server stop v u).0 ≡ panic
  unfolding start_cri with_registry with_runtime runtime_service stop_cri shut streaming_of
  start_cri-stop_cri index file config v stop_server stop w u f h =
      let (registry, a, k) =
        >>=-eq-ok
          (wrapping "could not create Singularity image service"
            (image_service index file config.storage_dir))
          (with_registry config) w h in
      let (runtime, b, l) =
        >>=-eq-ok
          (wrapping "could not create Singularity runtime service"
            (runtime_service config registry))
          (with_runtime config registry) _ k in
      let (_, c, m) =
        >>=-eq-ok (wrapping "could not start CRI listener" (create_socket config.listen_socket))
          (λ _. pure (record { registry = registry; runtime = runtime })) _ l in
      let off : runtime.streaming ≡ false =
        new_runtime-unstreamed N TI TP TC base look_path new_server config registry.images pods
          containers manager _ runtime f
          (wrapping-eq-ok "could not create Singularity runtime service"
            (runtime_service config registry) _ b) in
      let panics : shutdown base stop (record v.runtime { world = stop_server u })
          ≡ (panic, record v.runtime { world = stop_server u }) =
        shutdown-off N TI TP TC base stop (record v.runtime { world = stop_server u })
          (sym (ap streaming_of m) ∙ off) in
      ap (λ p. (shut v.registry p).0) panics
