-- ===== src/Kube/Pod.antt =====
-- Pod of pkg/kube: pod.go, pod_runtime.go and pod_files.go, with UnshareAll, Bind and Remove of
-- pkg/namespace. The pod's methods read and write a `Yard`: the pod, its containers and their images by
-- address, and the host.
pub mod Stages
pub mod Namespaces
pub mod Life
use singularity_cri.Base.{
  ◌≡◌, refl, ◌∙◌, ap, sym, ◌≢◌, ℕ, nat_eq, Bool, true, false, Option, none, some, List, [], ◌∷◌,
  ◌++◌, ◌==◌, if◌then◌else◌, arith, Bool-cases, inl, inr, is_some, ◌↔◌, ◌||◌, ◌&&◌, not, ◌+◌, ◌-◌,
  ◌≤◌, ◌<◌, zero, suc, ◌⊎◌, length, is_nil, length-append,
}
use singularity_cri.Base.Text.{Text, text_eq, text_beq_iff, codes}
use singularity_cri.Base.Result.{
  Result, ok, err, panic, Error, sentinel, Sentinel, wrapf, errorf, is_runtime_not_found,
}
use singularity_cri.Base.Exec.{
  Exec, ◌>>=◌, ◌>>◌, pure, modify, wrapping, attempt, logged, raise, crash,
}
use singularity_cri.Runtime.State.{State, state_beq, OciState}
use singularity_cri.Runtime.Host.{Host}
use singularity_cri.Runtime.Client
use singularity_cri.Image.Info
use singularity_cri.Image.Info.{Info}
use singularity_cri.Kube.Types.{Container, Pod, Scene, Members as Slice}
use singularity_cri.Kube.Members
use singularity_cri.Kube.Files
use singularity_cri.Slice.{contains}
use singularity_cri.Kube.Capabilities.{get_elem?}
use singularity_cri.Runtime.State.{status_to_state}
use singularity_cri.Kube.Types.{NamespaceType, Namespace}

-- A container's address is its ID; `image_of` is the address of its image.
pub record Yard (H : Host) : Type 0 where
  pub pod : Pod
  pub containers : Text → Container
  pub image_of : Text → ℕ
  pub images : ℕ → Info
  pub world : H.World

module _ (H : Host) where
  abbrev pub on_host : {A : Type 0} → Exec H.World A → Exec (Yard H) A
  on_host m s = let (r, w) = m s.world in (r, record s { world = w })

  -- What the methods of the container at an address see.
  abbrev pub enter : Text → Yard H → Scene H
  enter c s = record {
    cont = s.containers c;
    pod = s.pod;
    info = s.images (s.image_of c);
    world = s.world;
  }

  abbrev pub leave : Text → Yard H → Scene H → Yard H
  leave c s t = record {
    pod = t.pod;
    containers = λ x. if c == x then t.cont else s.containers x;
    image_of = s.image_of;
    images = λ x. if s.image_of c == x then t.info else s.images x;
    world = t.world;
  }

  -- A method of the container at an address.
  unfoldable pub in_container : Exec (Scene H) (Unit {0}) → Text → Exec (Yard H) (Unit {0})
  in_container m c s = let (r, t) = m (enter c s) in (r, leave c s t)

  -- for _, c := range p.containers: the rounds left, and the index of the next. The slice is read when
  -- the loop starts, and its array in every round.
  visit : Option Text → (Text → Exec (Yard H) (Unit {0})) → Exec (Yard H) (Unit {0})
  visit none body = crash
  visit (some c) body = body c

  unfoldable pub range_containers :
      (Text → Exec (Yard H) (Unit {0})) → ℕ → ℕ → Exec (Yard H) (Unit {0})
  unfolding visit
  range_containers body zero i = pure tt
  range_containers body (suc rounds) i =
      (λ s. visit (get_elem? s.pod.containers.cells i) body s)
      >> range_containers body rounds (suc i)

  abbrev pub socket_path : Pod → Text
  socket_path p = H.join (p.base_dir ∷ codes "sync.sock" ∷ [])

  unfoldable pub deferring_cancel : Exec (Yard H) (Unit {0}) → Exec (Yard H) (Unit {0})
  deferring_cancel m s =
      let (r, t) = m s in
      (r, if s.pod.has_cancel then record t { world = H.cancel (socket_path s.pod) t.world } else t)

  updated : Yard H → Result (Option OciState) → Result (Unit {0}) × Yard H
  updated s (ok (some o)) = (
    ok tt,
    record s {
      pod = record s.pod { oci_state = some o; runtime_state = status_to_state o.status };
    },
  )
  updated s (ok none) = (panic, record s { pod = record s.pod { oci_state = none } })
  updated s (err e) = (
    err (wrapf "could not get pod state" e),
    record s { pod = record s.pod { oci_state = none } },
  )
  updated s panic = (panic, s)

  unfoldable pub update_state : List Text → Exec (Yard H) (Unit {0})
  unfolding updated
  update_state base s =
      let (r, w) = Client.state H base s.pod.id s.world in updated (record s { world = w }) r

  expected : State → State → Yard H → Result (Unit {0}) × Yard H
  expected expect got s = (
    if state_beq got expect then ok tt else err (errorf "unexpected pod state"),
    record s { pod = record s.pod { runtime_state = got } },
  )

  unfoldable pub expect_state : State → Exec (Yard H) (Unit {0})
  unfolding expected
  expect_state expect s =
      let (got, w) = H.receive (socket_path s.pod) s.world in
      expected expect got (record s { world = w })

  unfoldable pub terminate : List Text → Bool → Exec (Yard H) (Unit {0})
  unfolding deferring_cancel
  terminate base force = deferring_cancel λ s.
      if state_beq s.pod.runtime_state State.exited
      then (ok tt, s)
      else (do
        wrapping "could not terminate pod" (λ s. on_host (Client.kill H base s.pod.id force) s)
        expect_state State.exited)
          s
