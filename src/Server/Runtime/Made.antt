-- ===== src/Server/Runtime/Made.antt =====
-- CreateContainer of pkg/server/runtime/container.go: what is there after it has returned.
use singularity_cri.Base.Exec.{Exec, attempt, ◌>>=◌, ◌>>◌}
use singularity_cri.Image.Info.{Info}
use singularity_cri.Base.{
  ◌≡◌, refl, arith, ℕ, nat_eq, true, Bool-cases, inl, inr, List, [], ◌∷◌, length,
}
use singularity_cri.Base.Text.{Text, codes, text_eq, text_beq, text_beq_iff}
use singularity_cri.Base.Result.{ok}
use singularity_cri.Patricia.{Trie, IsLawful}
use singularity_cri.TruncIndex.{check_key}
use singularity_cri.TruncIndex.Keys.{IsConsistent}
use singularity_cri.TruncIndex.Ids.{HasLength}
use singularity_cri.Runtime.Host.{Host}
use singularity_cri.Slice.{contains, IsOrder}
use singularity_cri.Slice.Laws.{contains-count}
use singularity_cri.Image.Info
use singularity_cri.Image.Info.Use.{borrow-used_by}
use singularity_cri.Index.Containers as ContainerIndex
use singularity_cri.Index.Containers.Laws.{find-add}
use singularity_cri.Kube.Types.{ContainerConfig, Container, Pod, Scene}
use singularity_cri.Kube.Members.{live}
use singularity_cri.Kube.Members.Laws.{Fits, live-add_container}
use singularity_cri.Kube.Container.Life as ContainerLife
use singularity_cri.Kube.Container.Life.Create.{create-Joined}
use singularity_cri.Network.{Cni}
use singularity_cri.Index.Images
use singularity_cri.Server.Runtime.{find_pod, Node, in_container, scene_of, on_containers}
use singularity_cri.Server.Runtime.Create.{
  create_container, create_from, create_placed, is_refused, create_in, with_image, created, added,
  place as place_container, new_container,
}

module _ {H : Host} {N : Cni H} {TI : Trie ℕ} {TP TC : Trie Text} (base : List Text)
    (order : List Text → List Text)
    (translate : Container → Pod → Info → Exec H.World (Unit {0})) where
  -- A container with an ID in a pod from an image: its pod lists it, and its image knows it as a user.
  pub record IsMade (c p : Text) (i : ℕ) (s : Node N TI TP TC) : Type 0 where
    pub pod : s.pod_of c ≡ p
    pub image : s.image_of c ≡ i
    pub listed : contains (live (s.pod_at p).containers) c ≡ true
    pub borrowed : contains (s.images.infos i).used_by c ≡ true

  -- Create where it succeeds, on a container that has just been placed.
  placed-IsMade :
      (c base_dir : Text) (s : Node N TI TP TC)
      → IsOrder order
      → Fits (s.pod_at (s.pod_of c)).containers
      → (s.container_at c).id ≡ c
      → (in_container c (ContainerLife.create H base order translate base_dir) s).0 ≡ ok tt
      → IsMade c
          (s.pod_of c)
          (s.image_of c)
          (in_container c (ContainerLife.create H base order translate base_dir) s).1
  unfolding in_container Info.borrow
  placed-IsMade c base_dir s o fits id done =
      let j = create-Joined H base order translate base_dir (scene_of c s) done in
      let t = (ContainerLife.create H base order translate base_dir (scene_of c s)).1 in
      let pod : contains (live t.pod.containers) c ≡ true = ground (
        arith,
        j.containers,
        id,
        live-add_container (s.pod_at (s.pod_of c)).containers c c,
        text_beq_iff c c,
      ) in
      let info : contains t.info.used_by c ≡ true =
        rw (j.info, id)
          (ground (
            arith,
            borrow-used_by order o (s.images.infos (s.image_of c)) c c,
            contains-count c (Info.borrow order c (s.images.infos (s.image_of c))).used_by,
            text_beq_iff c c,
          )) in
      record {
        pod = refl;
        image = refl;
        listed = ground (arith, pod, text_beq_iff (s.pod_of c) (s.pod_of c));
        borrowed = ground (arith, info);
      }

  -- A Create that returns, and what follows it in CreateContainer.
  indexed-ok :
      (c d : Text) (m : Exec (Node N TI TP TC) (Unit {0})) (s : Node N TI TP TC)
      → ((do
        made ← attempt m
        created base order translate c made
        indexed ← attempt (on_containers (ContainerIndex.add TC c))
        added base order translate c indexed)
          s).0
        ≡ ok d
      → ((m s).0 ≡ ok tt)
        × (((ContainerIndex.add TC c (m s).1.containers).0 ≡ ok tt)
            × ((do
              made ← attempt m
              created base order translate c made
              indexed ← attempt (on_containers (ContainerIndex.add TC c))
              added base order translate c indexed)
                  s
                ≡ (
                  ok c,
                  record (m s).1 { containers = (ContainerIndex.add TC c (m s).1.containers).1 },
                )))
  unfolding created added
  indexed-ok c d m s h = ground arith

  in_container-containers :
      (c : Text) (m : Exec (Scene H) (Unit {0})) (s : Node N TI TP TC)
      → (in_container c m s).1.containers ≡ s.containers
  unfolding in_container
  in_container-containers c m s = refl

  create_placed-created :
      (L : IsLawful TC) (n : ℕ) (c d : Text) (s : Node N TI TP TC)
      → IsOrder order
      → Fits (s.pod_at (s.pod_of c)).containers
      → IsConsistent TC s.containers
      → HasLength TC n s.containers
      → length c ≡ n
      → check_key c ≡ ok tt
      → (s.container_at c).id ≡ c
      → (create_placed base order translate c s).0 ≡ ok d
      → IsMade c (s.pod_of c) (s.image_of c) (create_placed base order translate c s).1
        × (ContainerIndex.find TC (create_placed base order translate c s).1.containers c ≡ ok c)
  unfolding create_placed
  create_placed-created L n c d s o fits inv sized size legal id h =
      let dir = H.join (s.base_run_dir ∷ codes "containers" ∷ c ∷ []) in
      let m : Exec (Node N TI TP TC) (Unit {0}) = (λ t.
        in_container c
          (ContainerLife.create H base order translate
            (H.join (t.base_run_dir ∷ codes "containers" ∷ c ∷ [])))
          t) in
      let done = indexed-ok c d m s h in
      let made = placed-IsMade c dir s o fits id done.0 in
      let kept = in_container-containers c (ContainerLife.create H base order translate dir) s in
      rw (done.1.1) (
        record {
          pod = made.pod;
          image = made.image;
          listed = made.listed;
          borrowed = made.borrowed;
        },
        rw kept (find-add TC L n s.containers inv sized c size legal (rw kept at done.1.0)),
      )

  create_from-created :
      (L : IsLawful TC) (n : ℕ) (config : ContainerConfig) (p d : Text) (i : ℕ)
      (s : Node N TI TP TC)
      → IsOrder order
      → Fits (s.pod_at p).containers
      → IsConsistent TC s.containers
      → HasLength TC n s.containers
      → length (H.random_id s.world).0 ≡ n
      → check_key (H.random_id s.world).0 ≡ ok tt
      → (create_from base order translate config p (ok i) s).0 ≡ ok d
      → IsMade (H.random_id s.world).0 p i (create_from base order translate config p (ok i) s).1
        × (ContainerIndex.find TC
              (create_from base order translate config p (ok i) s).1.containers
              (H.random_id s.world).0
            ≡ ok (H.random_id s.world).0)
  unfolding create_from
  create_from-created L n config p d i s o fits inv sized size legal h =
      let c = (H.random_id s.world).0 in
      let same : text_beq c c ≡ true = ground (arith, text_beq_iff c c) in
      let placed =
        place_container base order translate c p i
          (new_container s.trash_dir c config (s.images.infos i))
          (record s { world = (H.random_id s.world).1 }) in
      let made =
        create_placed-created L n c d placed o (rw same fits) inv sized size legal (rw same refl)
          h in
      rw same at made

  -- A CreateContainer that returns an ID, where the image and the pod were found: under the ID
  -- that was drawn the container index finds the container, the container's pod and image are
  -- those that were found, the pod lists it, and it is among the users of the image. The index is
  -- consistent, over a lawful trie, its IDs and the drawn one have one length, the drawn one
  -- passes the checks, the pod's slice lies within its array, and Go may range over a map in any
  -- order that gives each key once.
  pub create_container-created :
      (L : IsLawful TC) (n : ℕ) (pod_id p d : Text) (i : ℕ) (config : ContainerConfig)
      (s : Node N TI TP TC)
      → IsOrder order
      → Fits (s.pod_at p).containers
      → IsConsistent TC s.containers
      → HasLength TC n s.containers
      → length (H.random_id s.world).0 ≡ n
      → check_key (H.random_id s.world).0 ≡ ok tt
      → Images.find TI s.images config.image ≡ ok i
      → (find_pod pod_id s).0 ≡ ok p
      → (create_container base order translate pod_id config s).0 ≡ ok d
      → IsMade (H.random_id s.world).0 p i (create_container base order translate pod_id config s).1
        × (ContainerIndex.find TC
              (create_container base order translate pod_id config s).1.containers
              (H.random_id s.world).0
            ≡ ok (H.random_id s.world).0)
  unfolding create_container with_image create_in find_pod
  create_container-created L n pod_id p d i config s o fits inv sized size legal f k h =
      elim (Bool-cases (is_refused config)) [
        | inl r ↦ cc
        | inr r ↦
            let same : create_container base order translate pod_id config s
                ≡ create_from base order translate config p (ok i) s =
              rw (r, f) (ground arith) in
            rw same
              (create_from-created L n config p d i s o fits inv sized size legal (rw same at h))
      ]
