-- ===== src/Server/Runtime/Start/Unstreamed.antt =====
-- A runtime of pkg/server/runtime/runtime.go whose streaming server could not be made.
use singularity_cri.Base.{
  ◌≡◌, ◌∙◌, sym, ap, refl, arith, ℕ, Bool, true, false, none, some, List, [],
}
use singularity_cri.Base.Text.{Text, codes}
use singularity_cri.Base.Result.{Result, ok, err, panic, is_ok}
use singularity_cri.Base.Exec.{Exec, ◌>>◌, pure, continue, caught, Keeps, Keeps->>=, Keeps-logged}
use singularity_cri.Patricia.{Trie}
use singularity_cri.Runtime.Host.{Host}
use singularity_cri.Index.Images.{Images}
use singularity_cri.Kube.Types.{Pod, Container}
use singularity_cri.Config.{Config}
use singularity_cri.Network.{Cni, Manager}
use singularity_cri.Server.Runtime.{Node}
use singularity_cri.Server.Runtime.Service.{with_network, or_default, shutdown}
use singularity_cri.Server.Runtime.{on_network}
use singularity_cri.Network.{init}
use singularity_cri.Server.Runtime.Start.{
  started, with_streaming, with_base_run_dir, with_trash_dir, run_options, bare, new_runtime,
  new_after, opted, options_of,
}

module _ {H : Host} (N : Cni H) (TI : Trie ℕ) (TP TC : Trie Text) where
  -- Whether there is a streaming server.
  abbrev one_if : Bool → ℕ
  one_if true = 1
  one_if false = 0

  abbrev servers : Node N TI TP TC → ℕ
  servers s = one_if s.streaming

  servers-with_network :
      (base : List Text) (bin conf : Text) → Keeps servers (with_network base bin conf)
  unfolding with_network
  servers-with_network base bin conf s =
      let init_manager : Exec (Node N TI TP TC) (Unit {0}) = on_network (
        init N (record { conf = codes "/etc/cni/net.d"; plugin = codes "/opt/cni/bin" })
          (some record {
            conf = or_default (codes "/etc/cni/net.d") conf;
            plugin = or_default (codes "/opt/cni/bin") bin;
          })) in
      Keeps-logged servers init_manager (λ u. refl)
        (record s {
          manager = record {
            lo_network = none;
            default_network = none;
            cni_path = none;
            pod_cidr = [];
          };
        })

  servers-with_streaming :
      (new_server : Text → Exec H.World (Unit {0})) (url : Text)
      → ((text : Text) (w : H.World) → is_ok (new_server text w).0 ≡ false)
      → Keeps servers (with_streaming N TI TP TC new_server url)
  unfolding with_streaming started
  servers-with_streaming new_server url f s =
      from (new_server _ s.world).0 (new_server _ s.world).1 (f _ s.world)
    where
      from :
          (r : Result (Unit {0})) (w : H.World)
          → is_ok r ≡ false
          → servers (continue (caught (r, record s { world = w })) (started N TI TP TC)).1
            ≡ servers s
      from (ok _) w h = cc
      from (err e) w h = refl
      from panic w h = refl

  servers-run_options :
      (base : List Text) (new_server : Text → Exec H.World (Unit {0})) (config : Config)
      → ((text : Text) (w : H.World) → is_ok (new_server text w).0 ≡ false)
      → Keeps servers (run_options N TI TP TC (options_of N TI TP TC base new_server config))
  unfolding run_options with_base_run_dir with_trash_dir
  servers-run_options base new_server config f =
      let last : Exec (Node N TI TP TC) (Unit {0}) =
        with_base_run_dir N TI TP TC config.base_run_dir
        >> (with_trash_dir N TI TP TC config.trash_dir >> pure tt) in
      let network : Exec (Node N TI TP TC) (Unit {0}) =
        with_network base config.cni_bin_dir config.cni_conf_dir in
      Keeps->>= servers (with_streaming N TI TP TC new_server config.streaming_url)
        (λ _. network >> last) (servers-with_streaming new_server config.streaming_url f)
        λ _.
          Keeps->>= servers network (λ _. last)
            (servers-with_network base config.cni_bin_dir config.cni_conf_dir) λ _ s. refl

  streaming_of : Result (Node N TI TP TC) → Bool
  streaming_of (ok s) = s.streaming
  streaming_of _ = false

  off : (b : Bool) → one_if b ≡ 0 → b ≡ false
  off true k = absurd (omega arith)
  off false k = refl

  off-ok :
      (s node : Node N TI TP TC)
      → servers s ≡ 0
      → ◌≡◌ {A = Result (Node N TI TP TC)} (ok s) (ok node)
      → node.streaming ≡ false
  unfolding streaming_of
  off-ok s node k h = sym (ap streaming_of h) ∙ off s.streaming k

  opted-off :
      (r : Result (Unit {0})) (s node : Node N TI TP TC)
      → servers s ≡ 0
      → (opted N TI TP TC (r, s)).0 ≡ ok node
      → node.streaming ≡ false
  unfolding opted
  opted-off (ok _) s node k h = off-ok s node k h
  opted-off (err e) s node k h = cc
  opted-off panic s node k h = cc

  new_after-off :
      (options : List (Exec (Node N TI TP TC) (Unit {0}))) (made : H.World → Node N TI TP TC)
      → Keeps servers (run_options N TI TP TC options)
      → ((w : H.World) → servers (made w) ≡ 0)
      → (r : Result Text) (w : H.World) (node : Node N TI TP TC)
      → (new_after N TI TP TC options made (r, w)).0 ≡ ok node
      → node.streaming ≡ false
  unfolding new_after
  new_after-off options made k z (ok path) w node h =
      opted-off (run_options N TI TP TC options (made w)).0
        (run_options N TI TP TC options (made w)).1 node (k (made w) ∙ z w) h
  new_after-off options made k z (err e) w node h = cc
  new_after-off options made k z panic w node h = cc

  -- Without a streaming server, Shutdown panics before it does anything.
  pub shutdown-off :
      (base : List Text) (stop : Exec H.World (Unit {0})) (node : Node N TI TP TC)
      → node.streaming ≡ false
      → shutdown base stop node ≡ (panic, node)
  unfolding shutdown
  shutdown-off base stop node h = rw h

  -- A runtime that NewSingularityRuntime returns has no streaming server, where NewServer fails.
  pub new_runtime-unstreamed :
      (base : List Text) (look_path : Exec H.World Text)
      (new_server : Text → Exec H.World (Unit {0})) (config : Config) (images : Images TI)
      (pods : Text → Pod) (containers : Text → Container) (manager : Manager) (w : H.World)
      (node : Node N TI TP TC)
      → ((text : Text) (v : H.World) → is_ok (new_server text v).0 ≡ false)
      → (new_runtime N TI TP TC look_path
          (bare N TI TP TC images pods containers manager)
          (options_of N TI TP TC base new_server config)
          w).0
        ≡ ok node
      → node.streaming ≡ false
  unfolding new_runtime bare
  new_runtime-unstreamed base look_path new_server config images pods containers manager w node f
        h =
      new_after-off (options_of N TI TP TC base new_server config)
        (bare N TI TP TC images pods containers manager)
        (servers-run_options base new_server config f) (λ v. refl) (look_path w).0 (look_path w).1
        node h
