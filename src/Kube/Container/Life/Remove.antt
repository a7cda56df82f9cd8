-- ===== src/Kube/Container/Life/Remove.antt =====
-- Remove of a container.
use singularity_cri.Base.{
  ◌≡◌, ◌≢◌, refl, ◌≤◌, ◌==◌, if◌then◌else◌, nat_eq, true, false, List, arith,
}
use singularity_cri.Base.Text.{Text, text_eq}
use singularity_cri.Base.Result.{Result, ok, err, Error, sentinel, Sentinel}
use singularity_cri.Runtime.Host.{Host}
use singularity_cri.Runtime.Client
use singularity_cri.Image.Info
use singularity_cri.Image.Info.{Info, give_back}
use singularity_cri.Kube.Types.{Scene}
use singularity_cri.Kube.Members
use singularity_cri.Kube.Members.{live}
use singularity_cri.Kube.Members.Laws.{Fits, live-remove_container}
use singularity_cri.Slice.{contains, count}
use singularity_cri.Slice.Laws.{contains-remove_from_string}
use singularity_cri.Image.Info.Use.{IsSetOfUsers, give_back-used_by}
use singularity_cri.Kube.Container.{update_state}
use singularity_cri.Kube.Container.Kept.{
  Kept, Kept-refl, update_state-Kept, kill-Kept, close_stdin-Kept,
}
use singularity_cri.Kube.Container.Life.{
  remove, remove_present, remove_instance, forget, remove_known,
}

module _ (H : Host) (base : List Text) where
  remove_instance-Kept :
      (r : Result (Unit {0})) (s : Scene H) → Kept s (remove_instance H base r s).1
  unfolding remove_instance
  remove_instance-Kept r s = grind (arith, kill-Kept)

  -- The container is marked, its image given back, and its pod no longer lists it.
  pub record Left (s t : Scene H) : Type 0 where
    pub is_removed : t.cont.is_removed ≡ true
    pub id : t.cont.id ≡ s.cont.id
    pub info : t.info ≡ Info.give_back s.cont.id s.info
    pub containers : t.pod.containers ≡ Members.remove_container s.pod.containers s.cont.id

  forget-Left : (s : Scene H) → (forget H base s).0 ≡ ok tt → Left s (forget H base s).1
  unfolding forget
  forget-Left s h = grind (arith, close_stdin-Kept)

  forget-ne-err : (s : Scene H) (e : Error) → (forget H base s).0 ≢ err e
  unfolding forget
  forget-ne-err s e h = ground arith

  remove_known-Left :
      (r : Result (Unit {0})) (s t : Scene H)
      → Kept s t
      → (remove_known H base r t).0 ≡ ok tt
      → Left s (remove_known H base r t).1
  unfolding remove_known
  remove_known-Left r s t k h =
      ground (arith, remove_instance-Kept r t, forget-Left (remove_instance H base r t).1)

  remove_known-fails :
      (r : Result (Unit {0})) (s t : Scene H) (e : Error)
      → Kept s t
      → (remove_known H base r t).0 ≡ err e
      → Kept s (remove_known H base r t).1
  unfolding remove_known
  remove_known-fails r s t e k h =
      ground (arith, remove_instance-Kept r t, forget-ne-err (remove_instance H base r t).1 e)

  remove_present-Left :
      (s : Scene H) → (remove_present H base s).0 ≡ ok tt → Left s (remove_present H base s).1
  unfolding remove_present
  remove_present-Left s h = ground (
    arith,
    remove_known-Left (update_state H base s).0 s (update_state H base s).1
        (update_state-Kept H base s),
  )

  -- A Remove that succeeds on a container not removed yet marks it, and does on its image and on the
  -- list of its pod what Return and removeContainer do.
  pub remove-Left :
      (s : Scene H)
      → s.cont.is_removed ≡ false
      → (remove H base s).0 ≡ ok tt
      → Left s (remove H base s).1
  unfolding remove
  remove-Left s off h = ground (arith, remove_present-Left s)

  -- The container is marked; its image is as it was, but for its users, of which the container alone is
  -- gone; and its pod lists the other containers as it did, and the container no longer.
  pub record IsGone (s t : Scene H) : Type 0 where
    pub is_removed : t.cont.is_removed ≡ true
    pub id : t.cont.id ≡ s.cont.id
    pub info : t.info ≡ record s.info { used_by = t.info.used_by }
    pub users :
        (who : Text)
        → contains t.info.used_by who
          ≡ (if s.cont.id == who then false else contains s.info.used_by who)
    pub containers :
        (c : Text)
        → contains (live t.pod.containers) c
          ≡ (if s.cont.id == c then false else contains (live s.pod.containers) c)

  Left-IsGone :
      (s t : Scene H)
      → Fits s.pod.containers
      → ((c : Text) → count c (live s.pod.containers) ≤ 1)
      → IsSetOfUsers s.info
      → Left s t
      → IsGone s t
  Left-IsGone s t fits once users l = record {
    is_removed = l.is_removed;
    id = l.id;
    info = rw l.info (unfold give_back in refl);
    users = λ who. rw l.info (give_back-used_by s.info s.cont.id who users);
    containers = λ c. rw l.containers (
        rw (live-remove_container s.pod.containers s.cont.id fits)
          (contains-remove_from_string (live s.pod.containers) s.cont.id c (once s.cont.id)));
  }

  -- A Remove that succeeds on a container not removed yet marks it as removed and keeps its ID;
  -- its image is as it was, but that the container alone is no longer among its users; and its pod
  -- lists the other containers as it did, and this one no longer; whatever the host answers to the
  -- steps whose errors are only logged. The slice of the pod lies within its array, and the
  -- containers of the pod and the users of the image are listed once each.
  pub remove-IsGone :
      (s : Scene H)
      → Fits s.pod.containers
      → ((c : Text) → count c (live s.pod.containers) ≤ 1)
      → IsSetOfUsers s.info
      → s.cont.is_removed ≡ false
      → (remove H base s).0 ≡ ok tt
      → IsGone s (remove H base s).1
  remove-IsGone s fits once users off done =
      Left-IsGone s (remove H base s).1 fits once users (remove-Left s off done)

  -- After a Remove that succeeds, removing the container again succeeds and changes nothing, not
  -- even on the host.
  pub remove-remove :
      (s : Scene H)
      → (remove H base s).0 ≡ ok tt
      → remove H base (remove H base s).1 ≡ (ok tt, (remove H base s).1)
  unfolding remove
  remove-remove s h = ground (arith, remove_present-Left s)

  -- A Remove of a container that returns an error keeps the container's ID, the flags that it is
  -- stopped or removed, its pod with the list of containers, and its image with the users as they
  -- were.
  pub remove-fails :
      (s : Scene H) (e : Error) → (remove H base s).0 ≡ err e → Kept s (remove H base s).1
  unfolding remove remove_present
  remove-fails s e h = ground (
    arith,
    Kept-refl s,
    remove_known-fails (update_state H base s).0 s (update_state H base s).1 e
        (update_state-Kept H base s),
  )

  -- Where the client answers ErrNotFound for a container that is not removed yet, Remove does not
  -- succeed and the container is not marked as removed: UpdateState wraps ErrNotFound in another
  -- error, so that the test of Remove never meets it.
  pub remove_missing :
      (s : Scene H)
      → s.cont.is_removed ≡ false
      → (Client.state H base s.cont.id s.world).0 ≡ err (sentinel Sentinel.runtime_not_found)
      → ((remove H base s).0 ≢ ok tt) × ((remove H base s).1.cont.is_removed ≡ false)
  unfolding remove remove_present remove_known remove_instance update_state
  remove_missing s off h = ground arith

  pub remove_removed : (s : Scene H) → s.cont.is_removed ≡ true → remove H base s ≡ (ok tt, s)
  unfolding remove
  remove_removed s h = ground arith
