-- ===== src/Server/Runtime/Pods.antt =====
-- The handlers of pods: pkg/server/runtime/pod.go, and NewPod of pkg/kube/pod.go.
use singularity_cri.Base.{
  ℕ, nat_eq, false, Option, none, some, List, [], ◌∷◌, ◌++◌, ◌==◌, ◌&&◌, not, if◌then◌else◌, is_nil,
}
use singularity_cri.Base.Text.{Text, codes, text_eq}
use singularity_cri.Base.Result.{Result, ok, err, panic, Code, status, is_index_not_found}
use singularity_cri.Base.Exec.{Exec, ◌>>=◌, ◌>>◌, pure, raise, crash, modify, gets, logged, attempt}
use singularity_cri.Patricia.{Trie}
use singularity_cri.Runtime.State.{State, OciState}
use singularity_cri.Runtime.Host.{Host}
use singularity_cri.Index.Pods as PodIndex
use singularity_cri.Index.Containers as ContainerIndex
use singularity_cri.Kube.Types.{Pod, PodConfig}
use singularity_cri.Kube.Members.{live}
use singularity_cri.Kube.Pod.{update_state}
use singularity_cri.Kube.Pod.Life
use singularity_cri.Kube.Filter.{PodFilter, PodState, pod_matches, pod_state}
use singularity_cri.Network.{Cni, PodNetwork, set_up_network, tear_down_network, get_ip}
use singularity_cri.Server.Runtime.{
  Node, on_pods, on_containers, on_network, in_pod, answering, find_pod,
}

abbrev pub runtime_name : Text
runtime_name = codes "singularity"

-- NewPod, behind the choice of its ID
unfoldable pub new_pod : Text → PodConfig → Pod
new_pod id config = record {
  id = id;
  config = config;
  base_dir = [];
  is_stopped = false;
  is_removed = false;
  runtime_state = State.unknown;
  oci_state = none;
  namespaces = [];
  containers = record { cells = []; len = 0 };
  has_cancel = false;
}

-- k8s.PodSandboxStatus and k8s.PodSandbox, but what they copy of the configuration.
pub record PodStatus : Type 0 where
  pub id : Text
  pub state : PodState
  pub created_at : ℕ
  pub ip : Option Text

pub record ListedPod : Type 0 where
  pub id : Text
  pub state : PodState
  pub created_at : ℕ

-- CreatedAt of a pod: a nil state panics.
pod_created_at : Option OciState → Result ℕ
pod_created_at none = panic
pod_created_at (some o) = elim o.created_at [ none ↦ ok 0 | some t ↦ ok t ]

module _ {H : Host} {N : Cni H} {TI : Trie ℕ} {TP TC : Trie Text} (base : List Text) where
  -- cleanupOnFailure()
  unfoldable pub forget : Text → Exec (Node N TI TP TC) (Unit {0})
  forget p = logged (on_pods (PodIndex.remove TP p))

  -- The answers to an error of Run or SetUpNetwork, and of Add.
  unfoldable pub or_internal : Text → Result (Unit {0}) → Exec (Node N TI TP TC) (Unit {0})
  unfolding forget
  or_internal p (ok _) = pure tt
  or_internal p (err e) = do forget p; raise (status Code.internal)
  or_internal p panic = crash

  added : Text → Result (Unit {0}) → Exec (Node N TI TP TC) Text
  unfolding forget
  added p (ok _) = pure p
  added p (err e) = do forget p; raise e
  added p panic = crash

  unfoldable pub place : Text → Pod → Node N TI TP TC → Node N TI TP TC
  place p pod s = record s {
    pod_at = λ q. if p == q then pod else s.pod_at q;
    network_of = λ q. if p == q then none else s.network_of q;
  }

  -- SetUpNetwork of the pod with an ID
  unfoldable pub connect : Text → Exec (Node N TI TP TC) (Unit {0})
  connect p = do
    network ← λ s. on_network (set_up_network N (s.pod_at p) (s.network_of p)) s
    modify (λ s. record s { network_of = λ q. if p == q then network else s.network_of q })

  -- The part of RunPodSandbox behind Run.
  unfoldable pub finish_run : Text → Exec (Node N TI TP TC) Text
  unfolding or_internal connect added
  finish_run p = do
    connected ← attempt (connect p)
    or_internal p connected
    indexed ← attempt (on_pods (PodIndex.add TP p))
    added p indexed

  -- TearDownNetwork of the pod with an ID
  disconnect : Text → Exec (Node N TI TP TC) (Unit {0})
  disconnect p = do
    network ← λ s. on_network (tear_down_network N (s.network_of p)) s
    modify (λ s. record s { network_of = λ q. if p == q then network else s.network_of q })

  unfoldable pub stop_pod_sandbox : Text → Exec (Node N TI TP TC) (Unit {0})
  unfolding disconnect
  stop_pod_sandbox id = do
    p ← find_pod id
    answering Code.internal (in_pod p (Life.stop H base))
    logged (disconnect p)

  -- The loop over the IDs of the pod's containers.
  unfoldable pub unlist : List Text → Exec (Node N TI TP TC) (Unit {0})
  unlist [] = pure tt
  unlist (c ∷ cs) = do
    answering Code.internal (on_containers (ContainerIndex.remove TC c))
    unlist cs

  -- RemovePodSandbox of a pod that has been found, and whose containers were listed
  unfoldable pub remove_listed : Text → List Text → Exec (Node N TI TP TC) (Unit {0})
  unfolding unlist
  remove_listed p members = do
    answering Code.internal (in_pod p (Life.remove H base))
    answering Code.internal (on_pods (PodIndex.remove TP p))
    unlist members

  unfoldable pub remove_found : Result Text → Exec (Node N TI TP TC) (Unit {0})
  unfolding remove_listed
  remove_found (ok p) s = remove_listed p (live (s.pod_at p).containers) s
  remove_found (err e) s =
      if is_index_not_found e then (ok tt, s) else (err (status Code.invalid_argument), s)
  remove_found panic s = (panic, s)

  unfoldable pub remove_pod_sandbox : Text → Exec (Node N TI TP TC) (Unit {0})
  unfolding remove_found
  remove_pod_sandbox id s = remove_found (PodIndex.find TP s.pods id) s

  -- NetworkStatus: an error is only logged.
  ip_or_none : Result Text → Exec (Node N TI TP TC) (Option Text)
  ip_or_none (ok ip) = pure (some ip)
  ip_or_none (err e) = pure none
  ip_or_none panic = crash

  ip_of : Option (PodNetwork N) → Exec (Node N TI TP TC) (Option Text)
  unfolding ip_or_none
  ip_of none = pure none
  ip_of (some network) = do ip ← attempt (on_network (get_ip N network)); ip_or_none ip

  unfoldable pub pod_sandbox_status : Text → Exec (Node N TI TP TC) PodStatus
  unfolding ip_of pod_created_at
  pod_sandbox_status id = do
    p ← find_pod id
    answering Code.internal (in_pod p (update_state H base))
    made ← λ s. (pod_created_at (s.pod_at p).oci_state, s)
    ip ← λ s. ip_of (s.network_of p) s
    gets (λ s. record {
      id = (s.pod_at p).id;
      state = pod_state (s.pod_at p);
      created_at = made;
      ip = ip;
    })

  listed_view : Text → Exec (Node N TI TP TC) (List ListedPod)
  unfolding pod_created_at
  listed_view p = do
    made ← λ s. (pod_created_at (s.pod_at p).oci_state, s)
    gets (λ s.
        record { id = (s.pod_at p).id; state = pod_state (s.pod_at p); created_at = made } ∷ [])

  -- One pod of ListPodSandbox: one whose state cannot be read is left out.
  list_one : Option PodFilter → Text → Result (Unit {0}) → Exec (Node N TI TP TC) (List ListedPod)
  unfolding listed_view
  list_one filter p (ok _) s =
      if pod_matches (s.pod_at p) filter then listed_view p s else (ok [], s)
  list_one filter p (err e) s = (ok [], s)
  list_one filter p panic s = (panic, s)

  list_all : Option PodFilter → List Text → Exec (Node N TI TP TC) (List ListedPod)
  unfolding list_one
  list_all filter [] = pure []
  list_all filter (p ∷ ps) = do
    known ← attempt (in_pod p (update_state H base))
    one ← list_one filter p known
    rest ← list_all filter ps
    pure (one ++ rest)

  unfoldable pub list_pod_sandbox : Option PodFilter → Exec (Node N TI TP TC) (List ListedPod)
  unfolding list_all
  list_pod_sandbox filter s = list_all filter (PodIndex.iterate TP s.pods) s

module _ {H : Host} {N : Cni H} {TI : Trie ℕ} {TP TC : Trie Text} (base : List Text)
    (translate : Pod → Exec H.World (Unit {0})) where
  unfoldable pub run_new : PodConfig → Text → Exec (Node N TI TP TC) Text
  unfolding new_pod place or_internal finish_run
  run_new config p = do
    modify (place base p (new_pod p config))
    ran ← attempt (λ s.
        in_pod p (Life.run H base translate (H.join (s.base_run_dir ∷ codes "pods" ∷ p ∷ []))) s)
    or_internal base p ran
    finish_run base p

  -- RunPodSandbox, for a runtime handler
  unfoldable pub run_pod_sandbox : Text → PodConfig → Exec (Node N TI TP TC) Text
  unfolding run_new
  run_pod_sandbox handler config s =
      if not (is_nil handler) && not (handler == runtime_name)
      then (err (status Code.failed_precondition), s)
      else run_new config (H.random_id s.world).0 (record s { world = (H.random_id s.world).1 })
