-- ===== src/Server/Runtime/Usage.antt =====
-- The handlers of pkg/server/runtime/runtime.go that read or change what a container that runs uses:
-- UpdateContainerResources, ReopenContainerLog, ExecSync, and the stats of containers.
use singularity_cri.Base.{ℕ, nat_eq, Option, none, some, List, [], ◌∷◌, ◌++◌, if◌then◌else◌}
use singularity_cri.Base.Text.{Text, text_eq}
use singularity_cri.Base.Result.{Result, ok, err, panic, Code, status}
use singularity_cri.Base.Exec.{Exec, ◌>>=◌, ◌>>◌, pure, crash, gets, attempt}
use singularity_cri.Patricia.{Trie}
use singularity_cri.Runtime.Host.{Host}
use singularity_cri.Index.Containers as ContainerIndex
use singularity_cri.Kube.Types.{Resources}
use singularity_cri.Kube.Container.{update_state}
use singularity_cri.Kube.Container.Status.{ContainerState, state_of}
use singularity_cri.Kube.Container.Use.{
  Shell, Stat, ExecResponse, exec_sync as run_exec_sync, update_resources, stat, reopen_log_file,
}
use singularity_cri.Kube.Filter.{ContainerFilter, container_matches}
use singularity_cri.Network.{Cni}
use singularity_cri.Server.Runtime.{Node, in_container, answering, find_container}
use singularity_cri.Server.Runtime.Service.{is_running}

-- The filter of ListContainerStats: that of the request, for containers that run.
abbrev running_only : Option ContainerFilter → Option ContainerFilter
running_only none = none
running_only (some filter) = some (record filter { state = some ContainerState.container_running })

module _ {H : Host} {N : Cni H} {TI : Trie ℕ} {TP TC : Trie Text} (base : List Text)
    (S : Shell H) where
  updated_with : Text → Option Resources → Exec (Node N TI TP TC) (Unit {0})
  updated_with c none = crash
  updated_with c (some resources) =
      answering Code.internal (in_container c (update_resources S base resources))

  unfoldable pub update_container_resources :
      Text → Option Resources → Exec (Node N TI TP TC) (Unit {0})
  unfolding updated_with
  update_container_resources id resources = do c ← find_container id; updated_with c resources

  unfoldable pub reopen_container_log : Text → Exec (Node N TI TP TC) (Unit {0})
  unfolding is_running
  reopen_container_log id = do
    c ← find_container id
    answering Code.internal (in_container c (update_state H base))
    λ s.
        if is_running (state_of (s.container_at c))
        then (ok tt, s)
        else (err (status Code.invalid_argument), s)
    answering Code.internal (in_container c (reopen_log_file S base))

  unfoldable pub exec_sync : Text → ℕ → List Text → Exec (Node N TI TP TC) ExecResponse
  exec_sync id timeout cmd = do
    c ← find_container id
    answering Code.internal (in_container c (run_exec_sync S base timeout cmd))

  unfoldable pub container_stats : Text → Exec (Node N TI TP TC) (Text × Stat)
  container_stats id = do
    c ← find_container id
    found ← answering Code.internal (in_container c (stat S base))
    gets (λ s. ((s.container_at c).id, found))

  -- One container of ListContainerStats: one without its stat is left out.
  stat_one : Text → Result Stat → Exec (Node N TI TP TC) (List (Text × Stat))
  stat_one c (ok found) s = (ok (((s.container_at c).id, found) ∷ []), s)
  stat_one c (err e) s = (ok [], s)
  stat_one c panic s = (panic, s)

  stat_all : Option ContainerFilter → List Text → Exec (Node N TI TP TC) (List (Text × Stat))
  unfolding stat_one
  stat_all filter [] = pure []
  stat_all filter (c ∷ cs) = do
    one ← λ s.
        if container_matches (s.container_at c) (s.pod_at (s.pod_of c)).id filter
        then (do found ← attempt (in_container c (stat S base)); stat_one c found) s
        else (ok [], s)
    rest ← stat_all filter cs
    pure (one ++ rest)

  unfoldable pub list_container_stats :
      Option ContainerFilter → Exec (Node N TI TP TC) (List (Text × Stat))
  unfolding stat_all
  list_container_stats filter s =
      stat_all (running_only filter) (ContainerIndex.iterate TC s.containers) s
