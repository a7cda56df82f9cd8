-- ===== src/Server/Runtime/Containers.antt =====
-- The handlers of containers that exist: pkg/server/runtime/container.go.
use singularity_cri.Base.{ℕ, nat_eq, Option, List, [], ◌∷◌, ◌++◌, if◌then◌else◌}
use singularity_cri.Base.Text.{Text, text_eq}
use singularity_cri.Base.Result.{
  Result, ok, err, panic, sentinel, Sentinel, Code, status, is_index_not_found,
}
use singularity_cri.Base.Exec.{Exec, ◌>>=◌, ◌>>◌, pure, raise, crash, gets, attempt}
use singularity_cri.Patricia.{Trie}
use singularity_cri.Runtime.Host.{Host}
use singularity_cri.Index.Containers as ContainerIndex
use singularity_cri.Kube.Container.{update_state}
use singularity_cri.Kube.Container.Life
use singularity_cri.Kube.Container.Status.{
  ContainerState, state_of, created_at, started_at, finished_at, exit_code, state_reason,
}
use singularity_cri.Kube.Filter.{ContainerFilter, container_matches}
use singularity_cri.Network.{Cni}
use singularity_cri.Server.Runtime.{Node, on_containers, in_container, answering, find_container}

-- k8s.ContainerStatus, but what it copies of the configuration.
pub record ContainerStatus : Type 0 where
  pub id : Text
  pub state : ContainerState
  pub created_at : ℕ
  pub started_at : ℕ
  pub finished_at : ℕ
  pub exit_code : ℕ
  pub image_ref : Text
  pub reason : Text

-- k8s.Container, but what it copies of the configuration.
pub record ListedContainer : Type 0 where
  pub id : Text
  pub pod_id : Text
  pub image_ref : Text
  pub state : ContainerState
  pub created_at : ℕ

module _ {H : Host} {N : Cni H} {TI : Trie ℕ} {TP TC : Trie Text} (base : List Text) where
  started : Result (Unit {0}) → Exec (Node N TI TP TC) (Unit {0})
  started (ok _) = pure tt
  started (err (sentinel Sentinel.container_not_created)) = raise (status Code.invalid_argument)
  started (err e) = raise (status Code.internal)
  started panic = crash

  unfoldable pub start_container : Text → Exec (Node N TI TP TC) (Unit {0})
  unfolding started
  start_container id = do
    c ← find_container id
    done ← attempt (in_container c (Life.start H base))
    started done

  unfoldable pub stop_container : Text → ℕ → Exec (Node N TI TP TC) (Unit {0})
  stop_container id timeout = do
    c ← find_container id
    answering Code.internal (in_container c (Life.stop H base timeout))

  -- RemoveContainer, by what Find answers.
  unfoldable pub remove_found : Result Text → Exec (Node N TI TP TC) (Unit {0})
  remove_found (ok c) = do
    answering Code.internal (in_container c (Life.remove H base))
    answering Code.internal (on_containers (ContainerIndex.remove TC c))
  remove_found (err e) =
      if is_index_not_found e then pure tt else raise (status Code.invalid_argument)
  remove_found panic = crash

  unfoldable pub remove_container : Text → Exec (Node N TI TP TC) (Unit {0})
  unfolding remove_found
  remove_container id s = remove_found (ContainerIndex.find TC s.containers id) s

  -- The getters of the answers: each panics where there is no state.
  status_view : Text → Exec (Node N TI TP TC) ContainerStatus
  status_view c = do
    made ← λ s. (created_at (s.container_at c), s)
    began ← λ s. (started_at (s.container_at c), s)
    ended ← λ s. (finished_at (s.container_at c), s)
    code ← λ s. (exit_code (s.container_at c), s)
    reason ← λ s. (state_reason (s.container_at c) (s.container_at c).runtime_state, s)
    gets (λ s. record {
      id = (s.container_at c).id;
      state = state_of (s.container_at c);
      created_at = made;
      started_at = began;
      finished_at = ended;
      exit_code = code;
      image_ref = (s.images.infos (s.image_of c)).id;
      reason = reason;
    })

  unfoldable pub container_status : Text → Exec (Node N TI TP TC) ContainerStatus
  unfolding status_view
  container_status id = do
    c ← find_container id
    answering Code.internal (in_container c (update_state H base))
    status_view c

  listed_view : Text → Exec (Node N TI TP TC) (List ListedContainer)
  listed_view c = do
    made ← λ s. (created_at (s.container_at c), s)
    gets (λ s.
        record {
          id = (s.container_at c).id;
          pod_id = (s.pod_at (s.pod_of c)).id;
          image_ref = (s.images.infos (s.image_of c)).id;
          state = state_of (s.container_at c);
          created_at = made;
        }
        ∷ [])

  -- One container of ListContainers: one whose state cannot be read is left out.
  list_one :
      Option ContainerFilter
      → Text
      → Result (Unit {0})
      → Exec (Node N TI TP TC) (List ListedContainer)
  unfolding listed_view
  list_one filter c (ok _) s =
      if container_matches (s.container_at c) (s.pod_at (s.pod_of c)).id filter
      then listed_view c s
      else (ok [], s)
  list_one filter c (err e) s = (ok [], s)
  list_one filter c panic s = (panic, s)

  list_all : Option ContainerFilter → List Text → Exec (Node N TI TP TC) (List ListedContainer)
  unfolding list_one
  list_all filter [] = pure []
  list_all filter (c ∷ cs) = do
    known ← attempt (in_container c (update_state H base))
    one ← list_one filter c known
    rest ← list_all filter cs
    pure (one ++ rest)

  unfoldable pub list_containers :
      Option ContainerFilter → Exec (Node N TI TP TC) (List ListedContainer)
  unfolding list_all
  list_containers filter s = list_all filter (ContainerIndex.iterate TC s.containers) s
