-- ===== src/Server/Runtime.antt =====
-- The runtime service of pkg/server/runtime: what it keeps, and how its handlers reach a pod or a
-- container.
pub mod Containers
pub mod Create
pub mod Pods
pub mod Service
pub mod Usage
pub mod Streaming
pub mod Start
pub mod Forgotten
pub mod Handlers
pub mod Made
pub mod Unconnected
use singularity_cri.Base.{
  ℕ, nat_eq, Bool, Option, none, some, List, [], ◌∷◌, ◌++◌, ◌==◌, if◌then◌else◌, is_nil,
}
use singularity_cri.Base.Text.{Text, codes, text_eq}
use singularity_cri.Base.Result.{Result, ok, err, panic, Error, Code, status, is_index_not_found}
use singularity_cri.Base.Exec.{Exec, ◌>>=◌, ◌>>◌, pure, raise, crash, gets}
use singularity_cri.Patricia.{Trie}
use singularity_cri.TruncIndex.{TruncIndex}
use singularity_cri.Runtime.Host.{Host}
use singularity_cri.Image.Info.{Info}
use singularity_cri.Index.Images.{Images}
use singularity_cri.Index.Pods as PodIndex
use singularity_cri.Index.Containers as ContainerIndex
use singularity_cri.Kube.Types.{Container, Pod, Scene}
use singularity_cri.Kube.Pod.{Yard}
use singularity_cri.Network.{Cni, Manager, PodNetwork, Wire}

-- SingularityRuntime, and the pods and containers that its indexes point to, each at the address of its
-- ID: the image and the pod of a container, and the network of a pod, are the fields of the same names.
pub record Node {H : Host} (N : Cni H) (TI : Trie ℕ) (TP TC : Trie Text) : Type 0 where
  pub images : Images TI
  pub pods : TruncIndex TP
  pub containers : TruncIndex TC
  pub pod_at : Text → Pod
  pub container_at : Text → Container
  pub image_of : Text → ℕ
  pub pod_of : Text → Text
  pub network_of : Text → Option (PodNetwork N)
  pub manager : Manager
  -- s.streaming != nil
  pub streaming : Bool
  pub base_run_dir : Text
  pub trash_dir : Text
  pub world : H.World

-- The answer of findPod and of findContainer to what the index finds.
abbrev known : Result Text → Result Text
known (ok id) = ok id
known (err e) =
    if is_index_not_found e then err (status Code.not_found) else err (status Code.invalid_argument)
known panic = panic

module _ {H : Host} {N : Cni H} {TI : Trie ℕ} {TP TC : Trie Text} where
  abbrev pub on_host : {A : Type 0} → Exec H.World A → Exec (Node N TI TP TC) A
  on_host m s = let (r, w) = m s.world in (r, record s { world = w })

  abbrev pub on_pods : {A : Type 0} → Exec (TruncIndex TP) A → Exec (Node N TI TP TC) A
  on_pods m s = let (r, i) = m s.pods in (r, record s { pods = i })

  abbrev pub on_containers : {A : Type 0} → Exec (TruncIndex TC) A → Exec (Node N TI TP TC) A
  on_containers m s = let (r, i) = m s.containers in (r, record s { containers = i })

  abbrev pub on_network : {A : Type 0} → Exec (Wire H) A → Exec (Node N TI TP TC) A
  on_network m s =
      let (r, n) = m (record { manager = s.manager; world = s.world }) in
      (r, record s { manager = n.manager; world = n.world })

  -- What the methods of the pod with an ID see.
  abbrev pub yard_of : Text → Node N TI TP TC → Yard H
  yard_of p s = record {
    pod = s.pod_at p;
    containers = s.container_at;
    image_of = s.image_of;
    images = s.images.infos;
    world = s.world;
  }

  abbrev pub left_yard : Text → Node N TI TP TC → Yard H → Node N TI TP TC
  left_yard p s y = record s {
    pod_at = λ q. if p == q then y.pod else s.pod_at q;
    container_at = y.containers;
    images = record s.images { infos = y.images };
    world = y.world;
  }

  unfoldable pub in_pod : {A : Type 0} → Text → Exec (Yard H) A → Exec (Node N TI TP TC) A
  in_pod p m s = let (r, y) = m (yard_of p s) in (r, left_yard p s y)

  -- What the methods of the container with an ID see.
  abbrev pub scene_of : Text → Node N TI TP TC → Scene H
  scene_of c s = record {
    cont = s.container_at c;
    pod = s.pod_at (s.pod_of c);
    info = s.images.infos (s.image_of c);
    world = s.world;
  }

  abbrev pub left_scene : Text → Node N TI TP TC → Scene H → Node N TI TP TC
  left_scene c s t = record s {
    container_at = λ x. if c == x then t.cont else s.container_at x;
    pod_at = λ q. if s.pod_of c == q then t.pod else s.pod_at q;
    images = record s.images {
      infos = λ p. if s.image_of c == p then t.info else s.images.infos p;
    };
    world = t.world;
  }

  unfoldable pub in_container : {A : Type 0} → Text → Exec (Scene H) A → Exec (Node N TI TP TC) A
  in_container c m s = let (r, t) = m (scene_of c s) in (r, left_scene c s t)

  -- if err != nil { return nil, status.Errorf(code, …) }
  abbrev as_status : {A : Type 0} → Code → Result A × Node N TI TP TC → Result A × Node N TI TP TC
  as_status code (ok a, s) = (ok a, s)
  as_status code (err e, s) = (err (status code), s)
  as_status code (panic, s) = (panic, s)

  abbrev pub answering : {A : Type 0} → Code → Exec (Node N TI TP TC) A → Exec (Node N TI TP TC) A
  answering code m s = as_status code (m s)

  unfoldable pub find_pod : Text → Exec (Node N TI TP TC) Text
  find_pod id s = (known (PodIndex.find TP s.pods id), s)

  unfoldable pub find_container : Text → Exec (Node N TI TP TC) Text
  find_container id s = (known (ContainerIndex.find TC s.containers id), s)
