-- ===== src/Kube/Filter.antt =====
-- MatchesFilter of containers (pkg/kube/container.go) and of pods (pkg/kube/pod.go).
use singularity_cri.Base.{
  ◌≡◌, nat_eq, Bool, true, false, Option, none, some, [], ◌∷◌, ◌==◌, if◌then◌else◌, arith, ◌↔◌,
  ◌&&◌, not, ◌⊎◌, is_nil,
}
use singularity_cri.Base.Text.{Text, text_eq, text_beq_iff}
use singularity_cri.Base.Dict.{Dict, lookup}
use singularity_cri.Runtime.State.{State, state_beq}
use singularity_cri.Kube.Types.{Container, Pod}
use singularity_cri.Kube.Container.Status.{ContainerState, state_of}

-- k8s.ContainerFilter and k8s.PodSandboxFilter: an empty ID, no state and no label ask for nothing.
pub record ContainerFilter : Type 0 where
  pub id : Text
  pub pod_sandbox_id : Text
  pub state : Option ContainerState
  pub label_selector : Dict Text

pub data PodState : Type 0 where
  ready not_ready : PodState

pub record PodFilter : Type 0 where
  pub id : Text
  pub state : Option PodState
  pub label_selector : Dict Text

-- Pod.State
unfoldable pub pod_state : Pod → PodState
pod_state p = if state_beq p.runtime_state State.running then PodState.ready else PodState.not_ready

abbrev same_label : Option Text → Text → Bool
same_label none v = false
same_label (some label) v = v == label

-- The loop over the label selector.
unfoldable pub labels_match : Dict Text → Dict Text → Bool
labels_match labels [] = true
labels_match labels ((k, v) ∷ selector) =
    if same_label (lookup k labels) v then labels_match labels selector else false

abbrev container_state_beq : ContainerState → ContainerState → Bool
container_state_beq ContainerState.container_created ContainerState.container_created = true
container_state_beq ContainerState.container_running ContainerState.container_running = true
container_state_beq ContainerState.container_exited ContainerState.container_exited = true
container_state_beq ContainerState.container_unknown ContainerState.container_unknown = true
container_state_beq _ _ = false

abbrev pod_state_beq : PodState → PodState → Bool
pod_state_beq PodState.ready PodState.ready = true
pod_state_beq PodState.not_ready PodState.not_ready = true
pod_state_beq _ _ = false

abbrev differs : Text → Text → Bool
differs wanted id = not (is_nil wanted) && not (wanted == id)

abbrev container_state_differs : Option ContainerState → ContainerState → Bool
container_state_differs none state = false
container_state_differs (some wanted) state = not (container_state_beq wanted state)

abbrev pod_state_differs : Option PodState → PodState → Bool
pod_state_differs none state = false
pod_state_differs (some wanted) state = not (pod_state_beq wanted state)

unfoldable pub container_matches : Container → Text → Option ContainerFilter → Bool
unfolding labels_match
container_matches c pod_id none = true
container_matches c pod_id (some filter) =
    if differs filter.id c.id
    then false
    else if differs filter.pod_sandbox_id pod_id
    then false
    else if container_state_differs filter.state (state_of c)
    then false
    else labels_match c.config.labels filter.label_selector

unfoldable pub pod_matches : Pod → Option PodFilter → Bool
unfolding labels_match pod_state
pod_matches p none = true
pod_matches p (some filter) =
    if differs filter.id p.id
    then false
    else if pod_state_differs filter.state (pod_state p)
    then false
    else labels_match p.config.labels filter.label_selector

-- What a label selector asks for: each of its labels, with its value.
abbrev pub Selects : Dict Text → Dict Text → Type 0
Selects labels [] = Unit
Selects labels ((k, v) ∷ selector) = (lookup k labels ≡ some v) × Selects labels selector

same_label_iff : (o : Option Text) (v : Text) → (same_label o v ≡ true) ↔ (o ≡ some v)
same_label_iff none v = ground arith
same_label_iff (some w) v = ground (arith, text_beq_iff v w)

labels_match_iff :
    (labels selector : Dict Text) → (labels_match labels selector ≡ true) ↔ Selects labels selector
unfolding labels_match
labels_match_iff labels [] = ground arith
labels_match_iff labels ((k, v) ∷ selector) =
    let same = same_label_iff (lookup k labels) v in
    let ih = labels_match_iff labels selector in
    (λ h. (same.0 (ground arith), ih.0 (ground arith)), λ (p, q). rw (same.1 p) (ih.1 q))

abbrev pub AsksFor {ℓ} : {A : Type ℓ} → Option A → A → Type ℓ
AsksFor none a = Unit
AsksFor (some wanted) a = wanted ≡ a

-- What a container filter asks for.
pub record ContainerFits (c : Container) (pod_id : Text) (filter : ContainerFilter) : Type 0 where
  pub id : (filter.id ≡ []) ⊎ (filter.id ≡ c.id)
  pub pod : (filter.pod_sandbox_id ≡ []) ⊎ (filter.pod_sandbox_id ≡ pod_id)
  pub state : AsksFor filter.state (state_of c)
  pub labels : Selects c.config.labels filter.label_selector

pub record PodFits (p : Pod) (filter : PodFilter) : Type 0 where
  pub id : (filter.id ≡ []) ⊎ (filter.id ≡ p.id)
  pub state : AsksFor filter.state (pod_state p)
  pub labels : Selects p.config.labels filter.label_selector

differs-false : (wanted id : Text) → (differs wanted id ≡ false) ↔ ((wanted ≡ []) ⊎ (wanted ≡ id))
differs-false [] id = ground arith
differs-false (c ∷ wanted) id = ground (arith, text_beq_iff (c ∷ wanted) id)

container_state_fits :
    (o : Option ContainerState) (s : ContainerState)
    → (container_state_differs o s ≡ false) ↔ AsksFor o s
container_state_fits none s = ground arith
container_state_fits (some w) s = ground arith

pod_state_fits :
    (o : Option PodState) (s : PodState) → (pod_state_differs o s ≡ false) ↔ AsksFor o s
pod_state_fits none s = ground arith
pod_state_fits (some w) s = ground arith

-- A container passes a filter exactly when its ID, its pod's ID and its state are those that the
-- filter names, where it names them, and it has each label of the selector with its value.
pub container_matches_iff :
    (c : Container) (pod_id : Text) (filter : ContainerFilter)
    → (container_matches c pod_id (some filter) ≡ true) ↔ ContainerFits c pod_id filter
unfolding container_matches
container_matches_iff c pod_id filter =
    let id = differs-false filter.id c.id in
    let pod = differs-false filter.pod_sandbox_id pod_id in
    let state = container_state_fits filter.state (state_of c) in
    let labels = labels_match_iff c.config.labels filter.label_selector in
    (
      λ h. record {
        id = id.0 (ground arith);
        pod = pod.0 (ground arith);
        state = state.0 (ground arith);
        labels = labels.0 (ground arith);
      },
      λ fits. rw (id.1 fits.id, pod.1 fits.pod, state.1 fits.state) (labels.1 fits.labels),
    )

-- A pod passes a filter exactly when its ID and its state are those that the filter names, where
-- it names them, and it has each label of the selector with its value.
pub pod_matches_iff :
    (p : Pod) (filter : PodFilter) → (pod_matches p (some filter) ≡ true) ↔ PodFits p filter
unfolding pod_matches
pod_matches_iff p filter =
    let id = differs-false filter.id p.id in
    let state = pod_state_fits filter.state (pod_state p) in
    let labels = labels_match_iff p.config.labels filter.label_selector in
    (
      λ h. record {
        id = id.0 (ground arith);
        state = state.0 (ground arith);
        labels = labels.0 (ground arith);
      },
      λ fits. rw (id.1 fits.id, state.1 fits.state) (labels.1 fits.labels),
    )
