-- ===== src/Tests/Runtime.antt =====
-- The runtime service and the network manager at concrete inputs.
use singularity_cri.Base.{
  ◌≡◌, ◌↔◌, refl, arith, ◌&&◌, ◌||◌, Bool, true, false, none, some, List, [], ◌∷◌, is_nil,
  if◌then◌else◌, length,
}
use singularity_cri.Base.Text.{Text, codes, text_eq}
use singularity_cri.Base.Result.{ok, err, Code, status, sentinel, Sentinel, wrapf, errorf}
use singularity_cri.Base.Exec.{Exec}
use singularity_cri.TruncIndex
use singularity_cri.TruncIndex.{TruncIndex, check_key}
use singularity_cri.TruncIndex.Keys.{add-IsConsistent}
use singularity_cri.TruncIndex.Ids.{HasLength, add-HasLength}
use singularity_cri.Runtime.State.{State}
use singularity_cri.Index.Containers as ContainerIndex
use singularity_cri.Kube.Members.{live, take}
use singularity_cri.Network.{
  Cni, Manager, NetworkConfig, Plugin, Wire, check_init, set_pod_cidr, has_ip_ranges,
}
use singularity_cri.Rand.{generate_id, hex}
use singularity_cri.Rand.Whole.{generate_id-whole}
use singularity_cri.Server.Runtime.{Node, find_container}
use singularity_cri.Server.Runtime.Pods.{run_pod_sandbox, remove_pod_sandbox, connect}
use singularity_cri.Server.Runtime.Containers.{remove_container}
use singularity_cri.Server.Runtime.Create.{create_container}
use singularity_cri.Server.Runtime.Handlers.{remove_container-remove_container}
use singularity_cri.Server.Runtime.Made.{IsMade, create_container-created}
use singularity_cri.Server.Runtime.Unconnected.{after_run, run_pod_sandbox-leaves}
use singularity_cri.Server.Runtime.Forgotten.{IsSound, remove_pod_sandbox-forgets}
use singularity_cri.Tests.World.{
  Engine, host, base, busybox, as_listed, container_config, container, pod_config, pod, three,
  reports, translate, translate_pod,
}
use singularity_cri.Tests.Images as ImageTests
use singularity_cri.Tests.Index.{trie, lawful, nothing, nothing-IsConsistent}
use singularity_cri.Tests.Pods.{crowded}

generate_id-whole_example :
    (generate_id 3 (1 ∷ 255 ∷ []) ≡ ok (take 3 (hex (1 ∷ 255 ∷ []))))
    × ((length (take 3 (hex (1 ∷ 255 ∷ []))) ≡ 3)
        × (check_key (take 3 (hex (1 ∷ 255 ∷ []))) ≡ ok tt))
generate_id-whole_example = generate_id-whole 2 (1 ∷ 255 ∷ []) refl

abbrev pub succeeds : {A : Type 0} → A → Exec Engine A
succeeds a w = (ok a, w)

-- CNI plugins that all succeed, on the configurations given.
abbrev pub cni : List NetworkConfig → Cni host
cni configs = record {
  Setup = Unit;
  all_configs = λ path. succeeds configs;
  loopback = none;
  new_setup = λ configs id path cni_path. succeeds tt;
  set_capability = λ setup network entry. succeeds tt;
  set_args = λ setup args. succeeds tt;
  add_networks = λ setup. succeeds tt;
  del_networks = λ setup. succeeds tt;
  network_ip = λ setup network version. succeeds (codes "10.0.0.2");
  to_lower = λ text. text;
}

abbrev pub bridge : NetworkConfig
bridge = record {
  name = codes "bridge";
  plugins = record { kind = codes "loopback"; ip_ranges = true } ∷ [];
}

abbrev pub manager : Manager
manager = record {
  lo_network = none;
  default_network = none;
  cni_path = some (record { conf = codes "conf"; plugin = codes "bin" });
  pod_cidr = codes "10.0.0.0/24";
}

abbrev wire : Wire host
wire = record { manager = manager; world = reports [] [] }

-- A node with one image, and the pods and containers that the indexes have.
abbrev pub node :
    (configs : List NetworkConfig)
    → TruncIndex trie
    → TruncIndex trie
    → Engine
    → Node (cni configs) ImageTests.trie trie trie
node configs pods containers engine = record {
  images = record ImageTests.with_busybox { infos = λ q. busybox };
  pods = pods;
  containers = containers;
  pod_at = λ p. pod three;
  container_at = container;
  image_of = λ c. 0;
  pod_of = λ c. codes "pod";
  network_of = λ p. none;
  manager = manager;
  streaming = true;
  base_run_dir = codes "/run";
  trash_dir = [];
  world = engine;
}

abbrev pub with_item : Text → TruncIndex trie → TruncIndex trie
with_item id i = (TruncIndex.add trie i id id).1

abbrev pub one_pod : TruncIndex trie
one_pod = with_item (codes "pod") nothing

abbrev pub idle : Node (cni (bridge ∷ [])) ImageTests.trie trie trie
idle = node (bridge ∷ []) one_pod nothing (reports (codes "running") [])

-- An index with the container "a".
abbrev pub one_container : TruncIndex trie
one_container = with_item (codes "a") nothing

abbrev stopping : Node (cni (bridge ∷ [])) ImageTests.trie trie trie
stopping = node (bridge ∷ []) one_pod one_container (reports (codes "stopped") [])

nothing-HasLength1 : HasLength trie 1 nothing
unfolding singularity_cri.Base.Dict.lookup
nothing-HasLength1 k h = cc

remove_container-remove_container_example :
    remove_container base (codes "a") (remove_container base (codes "a") stopping).1
    ≡ (ok tt, (remove_container base (codes "a") stopping).1)
unfolding check_key ContainerIndex.find TruncIndex.get singularity_cri.Base.Dict.restrict
    singularity_cri.Base.Dict.lookup singularity_cri.Base.Dict.insert
    singularity_cri.Base.Dict.erase singularity_cri.Base.Text.has_prefix
    singularity_cri.Base.Text.has_byte singularity_cri.Base.Text.text_beq TruncIndex.add
    TruncIndex.delete ContainerIndex.remove remove_container
    singularity_cri.Server.Runtime.Containers.remove_found
    singularity_cri.Server.Runtime.in_container singularity_cri.Kube.Container.Life.remove
    singularity_cri.Kube.Container.update_state singularity_cri.Runtime.Client.state
    singularity_cri.Kube.Container.kill singularity_cri.Runtime.State.status_to_state
    singularity_cri.Runtime.Client.delete singularity_cri.Kube.Container.close_stdin
    singularity_cri.Kube.Files.collect_trash singularity_cri.Kube.Files.cleanup_files
remove_container-remove_container_example =
    remove_container-remove_container base lawful 1 (codes "a") stopping
      (add-IsConsistent trie lawful nothing nothing-IsConsistent (codes "a") (codes "a"))
      (add-HasLength trie lawful 1 nothing nothing-IsConsistent nothing-HasLength1 (codes "a") refl
        (codes "a"))
      refl refl refl refl

-- A node whose only pod has the containers "a", "b" and "c".
abbrev crowd : TruncIndex trie
crowd = with_item (codes "c") (with_item (codes "b") one_container)

crowd-IsSound : IsSound lawful 1 crowd
crowd-IsSound =
    let a = add-IsConsistent trie lawful nothing nothing-IsConsistent (codes "a") (codes "a") in
    let b = add-IsConsistent trie lawful one_container a (codes "b") (codes "b") in
    let a1 =
      add-HasLength trie lawful 1 nothing nothing-IsConsistent nothing-HasLength1 (codes "a") refl
        (codes "a") in
    let b1 = add-HasLength trie lawful 1 one_container a a1 (codes "b") refl (codes "b") in
    record {
      consistent =
          add-IsConsistent trie lawful (with_item (codes "b") one_container) b (codes "c")
            (codes "c");
      sized =
          add-HasLength trie lawful 1 (with_item (codes "b") one_container) b b1 (codes "c") refl
            (codes "c");
    }

abbrev crowded_node : Node (cni (bridge ∷ [])) ImageTests.trie trie trie
crowded_node = node (bridge ∷ []) one_pod crowd (reports (codes "stopped") (State.exited ∷ []))

remove_pod_sandbox-forgets_example :
    (((remove_pod_sandbox base (codes "pod") crowded_node).1.container_at (codes "b")).is_removed
      ≡ false)
    × (ContainerIndex.find trie
          (remove_pod_sandbox base (codes "pod") crowded_node).1.containers
          (codes "b")
        ≡ err (sentinel Sentinel.index_not_found))
unfolding check_key ContainerIndex.find TruncIndex.get singularity_cri.Base.Dict.restrict
    singularity_cri.Base.Dict.lookup singularity_cri.Base.Dict.insert
    singularity_cri.Base.Dict.erase singularity_cri.Base.Text.has_prefix
    singularity_cri.Base.Text.has_byte singularity_cri.Base.Text.text_beq TruncIndex.add
    TruncIndex.delete singularity_cri.Index.Containers.remove singularity_cri.Index.Pods.remove
    singularity_cri.Index.Pods.find singularity_cri.Index.Pods.add
    singularity_cri.Index.Containers.add remove_pod_sandbox
    singularity_cri.Kube.Pod.range_containers singularity_cri.Kube.Pod.in_container
    singularity_cri.Kube.Pod.Life.remove singularity_cri.Kube.Members.remove_container
    singularity_cri.Kube.Pod.terminate singularity_cri.Runtime.Client.kill
    singularity_cri.Kube.Pod.expect_state singularity_cri.Kube.Pod.Stages.cleanup_files
    singularity_cri.Server.Runtime.in_pod singularity_cri.Server.Runtime.Pods.remove_found
    singularity_cri.Server.Runtime.Pods.remove_listed singularity_cri.Server.Runtime.Pods.unlist
    singularity_cri.Server.Runtime.in_container singularity_cri.Kube.Container.Life.remove
    singularity_cri.Kube.Container.update_state singularity_cri.Runtime.Client.state
    singularity_cri.Kube.Container.kill singularity_cri.Runtime.State.status_to_state
    singularity_cri.Runtime.Client.delete singularity_cri.Kube.Container.close_stdin
    singularity_cri.Kube.Files.collect_trash singularity_cri.Kube.Files.cleanup_files
remove_pod_sandbox-forgets_example =
    remove_pod_sandbox-forgets base lawful 1 (codes "pod") (codes "pod") (codes "a") (codes "b")
      crowded_node refl crowded refl ((refl, refl), ((refl, refl), ((refl, refl), tt)))
      crowd-IsSound refl

abbrev creating : Node (cni (bridge ∷ [])) ImageTests.trie trie trie
creating =
    node (bridge ∷ []) one_pod nothing
      (reports (codes "created") (State.creating ∷ State.created ∷ []))

nothing-HasLength2 : HasLength trie 2 nothing
unfolding singularity_cri.Base.Dict.lookup
nothing-HasLength2 k h = cc

create_container-created_example :
    IsMade base as_listed translate
      (codes "id")
      (codes "pod")
      0
      (create_container base as_listed translate
        (codes "pod")
        (record container_config { image = codes "f00d" })
        creating).1
    × (ContainerIndex.find trie
          (create_container base as_listed translate
            (codes "pod")
            (record container_config { image = codes "f00d" })
            creating).1.containers
          (codes "id")
        ≡ ok (codes "id"))
unfolding check_key ContainerIndex.find TruncIndex.get singularity_cri.Base.Dict.restrict
    singularity_cri.Base.Dict.lookup singularity_cri.Base.Dict.insert
    singularity_cri.Base.Dict.erase singularity_cri.Base.Text.has_prefix
    singularity_cri.Base.Text.has_byte singularity_cri.Base.Text.text_beq TruncIndex.add
    TruncIndex.delete singularity_cri.Index.Containers.remove singularity_cri.Index.Pods.remove
    singularity_cri.Index.Pods.find singularity_cri.Index.Pods.add
    singularity_cri.Index.Containers.add singularity_cri.Index.Images.find
    singularity_cri.Index.Images.find_id singularity_cri.Index.Images.add
    singularity_cri.Index.Images.add_new singularity_cri.Index.Images.remove_overlap_refs
    create_container singularity_cri.Kube.Container.Life.create
    singularity_cri.Kube.Validate.validate_container singularity_cri.Kube.Files.full_log_path
    singularity_cri.Kube.Files.add_oci_bundle singularity_cri.Runtime.Client.create
    singularity_cri.Kube.Container.expect_state singularity_cri.Kube.Container.update_state
    singularity_cri.Runtime.Client.state singularity_cri.Image.Info.borrow
    singularity_cri.Slice.merge_string singularity_cri.Server.Runtime.in_container
    singularity_cri.Server.Runtime.find_pod singularity_cri.Server.Runtime.Create.is_refused
    singularity_cri.Server.Runtime.Create.new_container
    singularity_cri.Server.Runtime.Create.with_image singularity_cri.Server.Runtime.Create.create_in
    singularity_cri.Server.Runtime.Create.create_from
    singularity_cri.Server.Runtime.Create.create_placed
    singularity_cri.Server.Runtime.Create.created singularity_cri.Server.Runtime.Create.added
create_container-created_example =
    create_container-created base as_listed translate lawful 2 (codes "pod") (codes "pod")
      (codes "id") 0 (record container_config { image = codes "f00d" }) creating (λ keys x. refl)
      (omega arith) nothing-IsConsistent nothing-HasLength2 refl refl refl refl refl

abbrev bare : Node (cni []) ImageTests.trie trie trie
bare =
    node [] nothing nothing
      (reports (codes "running") (State.creating ∷ State.created ∷ State.running ∷ []))

run_pod_sandbox-leaves_example :
    ((run_pod_sandbox base translate_pod [] pod_config bare).0 ≡ err (status Code.internal))
    × (((run_pod_sandbox base translate_pod [] pod_config bare).1.pod_at
          ≡ (after_run base translate_pod pod_config bare).1.pod_at)
        × ((run_pod_sandbox base translate_pod [] pod_config bare).1.world
            ≡ (connect base (codes "id") (after_run base translate_pod pod_config bare).1).1.world))
unfolding singularity_cri.Server.Runtime.in_pod singularity_cri.Kube.Pod.Life.run
    singularity_cri.Kube.Pod.Stages.run_steps singularity_cri.Kube.Validate.validate_pod
    singularity_cri.Server.Runtime.Pods.place singularity_cri.Base.Text.text_beq
    singularity_cri.Server.Runtime.Pods.new_pod singularity_cri.Kube.Pod.Stages.prepare_files
    singularity_cri.Kube.Pod.Namespaces.unshare_namespaces singularity_cri.Kube.Pod.Namespaces.bind
    singularity_cri.Kube.Pod.Stages.add_oci_bundle singularity_cri.Runtime.Client.create
    singularity_cri.Kube.Pod.expect_state singularity_cri.Runtime.Client.start
    singularity_cri.Runtime.Client.state singularity_cri.Kube.Pod.update_state
    singularity_cri.Kube.Pod.Namespaces.namespace_path
    singularity_cri.Kube.Pod.Namespaces.own_namespaces
    singularity_cri.Kube.Pod.Namespaces.unshare_all singularity_cri.Kube.Pod.Stages.spawn
    singularity_cri.Network.set_up_network singularity_cri.Network.set_up_pod
    singularity_cri.Network.check_init singularity_cri.Network.set_default_network
    singularity_cri.Network.has_ip_ranges singularity_cri.Server.Runtime.Pods.connect
    singularity_cri.Kube.Pod.Namespaces.bind_namespace_path
run_pod_sandbox-leaves_example =
    run_pod_sandbox-leaves base translate_pod [] pod_config
      (wrapf "could not set up pod's network" (errorf "no CNI network configuration found")) bare
      refl refl refl
