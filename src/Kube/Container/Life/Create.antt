-- ===== src/Kube/Container/Life/Create.antt =====
-- Create of a container, and what it undoes.
use singularity_cri.Base.Exec.{Exec}
use singularity_cri.Base.{◌≡◌, nat_eq, false, Option, none, some, List, arith, inl, inr, ◌⊎◌}
use singularity_cri.Base.Text.{Text, text_eq, text_beq_iff}
use singularity_cri.Base.Result.{ok, err, Error}
use singularity_cri.Runtime.Host.{Host}
use singularity_cri.Image.Info
use singularity_cri.Image.Info.{Info}
use singularity_cri.Kube.Types.{Scene, Container, Pod}
use singularity_cri.Kube.Members
use singularity_cri.Slice.{contains}
use singularity_cri.Slice.{IsOrder}
use singularity_cri.Image.Info.Use.{IsSetOfUsers, borrow-IsSetOfUsers, give_back-used_by}
use singularity_cri.Kube.Container.{expect_state}
use singularity_cri.Kube.Container.Kept.{Kept, update_state-Kept, kill-Kept}
use singularity_cri.Kube.Container.Life.{
  create, create_steps, prepare_create, finish_create, spawn, validated, log_directory, undo_create,
  or_undo,
}

-- Giving back what was borrowed, or not borrowed yet, leaves no use.
given_back :
    (order : List Text → List Text) (i j : Info) (who : Text)
    → IsOrder order
    → IsSetOfUsers i
    → (j ≡ i) ⊎ (j ≡ Info.borrow order who i)
    → contains (Info.give_back who j).used_by who ≡ false
given_back order i j who o u (inl e) =
    rw e (ground (arith, give_back-used_by i who who u, text_beq_iff who who))
given_back order i j who o u (inr e) = rw e (
    ground (
      arith,
      give_back-used_by (Info.borrow order who i) who who (borrow-IsSetOfUsers order o i who),
      text_beq_iff who who,
    ))

module _ (H : Host) (base : List Text) (order : List Text → List Text)
    (translate : Container → Pod → Info → Exec H.World (Unit {0})) where
  spawn-Kept : (s : Scene H) → Kept s (spawn H base order translate s).1
  unfolding spawn expect_state
  spawn-Kept s = ground arith

  validated-Kept : (s : Scene H) → Kept s (validated H base order translate s).1
  unfolding validated
  validated-Kept s = ground arith

  log_directory-Kept :
      (o : Option Text) (s : Scene H) → Kept s (log_directory H base order translate o s).1
  unfolding log_directory
  log_directory-Kept none s = ground arith
  log_directory-Kept (some path) s = ground arith

  -- The deferred function gives the image back.
  undo_create-info :
      (s : Scene H)
      → ((undo_create H base order translate s).1.info ≡ Info.give_back s.cont.id s.info)
        × ((undo_create H base order translate s).1.pod ≡ s.pod)
  unfolding undo_create
  undo_create-info s =
      ground (arith, kill-Kept H base (record s { info = Info.give_back s.cont.id s.info }))

  -- How far the steps may have come: the image is as it was, or borrowed.
  record Begun (s t : Scene H) : Type 0 where
    id : t.cont.id ≡ s.cont.id
    pod : t.pod ≡ s.pod
    info : (t.info ≡ s.info) ⊎ (t.info ≡ Info.borrow order s.cont.id s.info)

  -- A container that Create made: its pod lists it, and its image knows it as a user.
  pub record Joined (s t : Scene H) : Type 0 where
    pub id : t.cont.id ≡ s.cont.id
    pub containers : t.pod.containers ≡ Members.add_container s.pod.containers s.cont.id
    pub info : t.info ≡ Info.borrow order s.cont.id s.info

  prepare_create-Kept :
      (base_dir : Text) (s : Scene H) → Kept s (prepare_create H base order translate base_dir s).1
  unfolding prepare_create
  prepare_create-Kept base_dir s = grind (arith, validated-Kept, log_directory-Kept)

  finish_create-Joined :
      (s : Scene H)
      → (finish_create H base order translate s).0 ≡ ok tt
      → Joined s (finish_create H base order translate s).1
  unfolding finish_create
  finish_create-Joined s h =
      let b = record s { info = Info.borrow order s.cont.id s.info } in
      ground (arith, spawn-Kept b, update_state-Kept H base (spawn H base order translate b).1)

  finish_create-Begun :
      (s : Scene H) (e : Error)
      → (finish_create H base order translate s).0 ≡ err e
      → Begun s (finish_create H base order translate s).1
  unfolding finish_create
  finish_create-Begun s e h =
      let b = record s { info = Info.borrow order s.cont.id s.info } in
      ground (arith, spawn-Kept b, update_state-Kept H base (spawn H base order translate b).1)

  create_steps-Joined :
      (base_dir : Text) (s : Scene H)
      → (create_steps H base order translate base_dir s).0 ≡ ok tt
      → Joined s (create_steps H base order translate base_dir s).1
  unfolding create_steps
  create_steps-Joined base_dir s h = ground (
    arith,
    prepare_create-Kept base_dir s,
    finish_create-Joined (prepare_create H base order translate base_dir s).1,
  )

  create_steps-Begun :
      (base_dir : Text) (s : Scene H) (e : Error)
      → (create_steps H base order translate base_dir s).0 ≡ err e
      → Begun s (create_steps H base order translate base_dir s).1
  unfolding create_steps
  create_steps-Begun base_dir s e h = ground (
    arith,
    prepare_create-Kept base_dir s,
    finish_create-Begun (prepare_create H base order translate base_dir s).1 e,
  )

  -- A container that Create returns without an error is added to the list of its pod, and its
  -- image is borrowed in its name; its ID is the same. Nothing is assumed of the host.
  pub create-Joined :
      (base_dir : Text) (s : Scene H)
      → (create H base order translate base_dir s).0 ≡ ok tt
      → Joined s (create H base order translate base_dir s).1
  unfolding create or_undo
  create-Joined base_dir s h = ground (arith, create_steps-Joined base_dir s)

  -- The end of a Create whose steps failed.
  undone :
      (s t : Scene H) (c e : Error)
      → IsOrder order
      → IsSetOfUsers s.info
      → Begun s t
      → (or_undo H base order translate (err c) t).0 ≡ err e
      → ((or_undo H base order translate (err c) t).1.pod ≡ s.pod)
        × (contains (or_undo H base order translate (err c) t).1.info.used_by s.cont.id ≡ false)
  unfolding or_undo
  undone s t c e o u b h =
      ground (arith, undo_create-info t, given_back order s.info t.info s.cont.id o u b.info)

  -- A Create of a container that returns an error leaves the pod as it was, and the container is
  -- not among the users of its image. Go may range over a map in any order that gives each key
  -- once, and the image's users are listed once each before the call. Nothing is assumed of the
  -- host.
  pub create-fails :
      (base_dir : Text) (s : Scene H) (e : Error)
      → IsOrder order
      → IsSetOfUsers s.info
      → (create H base order translate base_dir s).0 ≡ err e
      → ((create H base order translate base_dir s).1.pod ≡ s.pod)
        × (contains (create H base order translate base_dir s).1.info.used_by s.cont.id ≡ false)
  unfolding create or_undo
  create-fails base_dir s e o u h = ground (
    arith,
    create_steps-Begun base_dir s e,
    undone s (create_steps H base order translate base_dir s).1 e e o u,
  )
