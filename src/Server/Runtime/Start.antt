-- ===== src/Server/Runtime/Start.antt =====
-- NewSingularityRuntime of pkg/server/runtime/runtime.go with its options, and the runtime that they give.
pub mod Unstreamed
use singularity_cri.Base.{
  ◌≡◌, refl, arith, ℕ, Bool, true, false, Option, none, some, List, [], ◌∷◌, is_nil, if◌then◌else◌,
}
use singularity_cri.Base.Text.{Text, codes}
use singularity_cri.Base.Result.{Result, ok, err, panic, Error, wrapf, is_ok}
use singularity_cri.Base.Exec.{
  Exec, ◌>>=◌, ◌>>◌, pure, crash, modify, logged, attempt, continue, caught, Keeps, Keeps->>=,
  Keeps-logged,
}
use singularity_cri.Patricia.{Trie}
use singularity_cri.Runtime.Host.{Host}
use singularity_cri.TruncIndex
use singularity_cri.TruncIndex.{TruncIndex}
use singularity_cri.Index.Images.{Images}
use singularity_cri.Index.Pods as PodIndex
use singularity_cri.Index.Containers as ContainerIndex
use singularity_cri.Kube.Types.{Pod, Container}
use singularity_cri.Config.{Config}
use singularity_cri.Network.{Cni, Manager}
use singularity_cri.Server.Runtime.{Node, on_host}
use singularity_cri.Server.Runtime.Service.{with_network, or_default, shutdown}

module _ {H : Host} (N : Cni H) (TI : Trie ℕ) (TP TC : Trie Text) where
  started : Result (Unit {0}) → Exec (Node N TI TP TC) (Unit {0})
  started (ok _) = modify (λ s. record s { streaming = true })
  started (err e) = pure tt
  started panic = crash

  -- WithStreaming, with NewServer of the library: an error is logged, and there is no server.
  unfoldable pub with_streaming :
      (Text → Exec H.World (Unit {0})) → Text → Exec (Node N TI TP TC) (Unit {0})
  unfolding started
  with_streaming new_server url = do
    made ← attempt (on_host (new_server (or_default (codes "127.0.0.1:12345") url)))
    started made

  -- WithBaseRunDir and WithTrashDir
  unfoldable pub with_base_run_dir : Text → Exec (Node N TI TP TC) (Unit {0})
  with_base_run_dir dir = modify (λ s. record s { base_run_dir = dir })

  unfoldable pub with_trash_dir : Text → Exec (Node N TI TP TC) (Unit {0})
  with_trash_dir dir = modify (λ s. record s { trash_dir = dir })

  unfoldable pub run_options :
      List (Exec (Node N TI TP TC) (Unit {0})) → Exec (Node N TI TP TC) (Unit {0})
  run_options [] = pure tt
  run_options (option ∷ options) = option >> run_options options

  -- The runtime before its options: empty indexes. What is at an address that was never given is `pods` and
  -- `containers`; the network manager is that of WithNetwork, which startCRI always passes.
  unfoldable pub bare :
      Images TI → (Text → Pod) → (Text → Container) → Manager → H.World → Node N TI TP TC
  bare images pods containers manager w = record {
    images = images;
    pods = TruncIndex.empty TP;
    containers = TruncIndex.empty TC;
    pod_at = pods;
    container_at = containers;
    image_of = λ c. 0;
    pod_of = λ c. [];
    network_of = λ p. none;
    manager = manager;
    streaming = false;
    base_run_dir = codes "/var/run/singularity";
    trash_dir = [];
    world = w;
  }

  opted : Result (Unit {0}) × Node N TI TP TC → Result (Node N TI TP TC) × H.World
  opted (ok _, s) = (ok s, s.world)
  opted (err e, s) = (err e, s.world)
  opted (panic, s) = (panic, s.world)

  -- NewSingularityRuntime, with exec.LookPath of the runtime: the options run on the runtime that is bare.
  new_after :
      List (Exec (Node N TI TP TC) (Unit {0}))
      → (H.World → Node N TI TP TC)
      → Result Text × H.World
      → Result (Node N TI TP TC) × H.World
  unfolding run_options opted
  new_after options made (ok path, w) = opted (run_options options (made w))
  new_after options made (err e, w) =
      (err (wrapf "could not find singularity on this machine" e), w)
  new_after options made (panic, w) = (panic, w)

  unfoldable pub new_runtime :
      Exec H.World Text
      → (H.World → Node N TI TP TC)
      → List (Exec (Node N TI TP TC) (Unit {0}))
      → Exec H.World (Node N TI TP TC)
  unfolding new_after
  new_runtime look_path made options w = new_after options made (look_path w)

  -- The options that startCRI passes.
  abbrev pub options_of :
      List Text
      → (Text → Exec H.World (Unit {0}))
      → Config
      → List (Exec (Node N TI TP TC) (Unit {0}))
  options_of base new_server config =
      with_streaming new_server config.streaming_url
      ∷ with_network base config.cni_bin_dir config.cni_conf_dir
      ∷ with_base_run_dir config.base_run_dir
      ∷ with_trash_dir config.trash_dir
      ∷ []
