-- ===== src/Server/Registry/Guards.antt =====
-- What the image service of pkg/server/image/image.go refuses and what it leaves alone.
use singularity_cri.Base.Exec.{Exec, ◌>>=◌, ◌>>◌, gets, modify}
use singularity_cri.Base.{
  ◌≡◌, refl, arith, ℕ, nat_eq, true, false, List, ◌∷◌, [], is_nil, ◌==◌, sym, ◌∙◌,
}
use singularity_cri.Base.Text.{Text, text_eq, text_beq_iff}
use singularity_cri.Base.Result.{Result, ok, err, panic, Code, sentinel, Sentinel, status}
use singularity_cri.Patricia.{Trie}
use singularity_cri.Runtime.Host.{Host}
use singularity_cri.Slice.{contains}
use singularity_cri.Image.Reference.{parse_ref, local_file_domain, docker_domain}
use singularity_cri.Image.Pull.{pull}
use singularity_cri.Image.Pull.Kept.{pull-ref}
use singularity_cri.Image.Info
use singularity_cri.Image.Info.{Info}
use singularity_cri.Index.Images
use singularity_cri.Slice.{IsOrder}
use singularity_cri.Slice.Laws.{contains-count}
use singularity_cri.Kube.Types.{Scene, Container, Pod}
use singularity_cri.Kube.Container.Life.{create}
use singularity_cri.Kube.Container.Life.Create.{create-Joined}
use singularity_cri.Image.Info.Use.{borrow-used_by}
use singularity_cri.Image.Info.Verify.{IsDoubtful, verify-doubtful}
use singularity_cri.Server.Registry.{
  Backup, Registry, remove_image, remove_found, removed_file, pull_image, looked_up, unless_present,
  pull_new, admit, allocate, answering, on_host, or_give_up, give_up,
}

contains-is_nil :
    (users : List Text) (who : Text) → contains users who ≡ true → is_nil users ≡ false
contains-is_nil [] who h = ground arith
contains-is_nil (user ∷ users) who h = refl

module _ (H : Host) (T : Trie ℕ) (order : List Text → List Text) (B : Backup H) where
  used_refused :
      (info : Info) (who : Text) (w : H.World)
      → (info.ref.uri == local_file_domain) ≡ false
      → contains info.used_by who ≡ true
      → Info.remove H info w ≡ (err (sentinel Sentinel.image_is_used), w)
  unfolding Info.remove
  used_refused info who w l u = ground (arith, contains-is_nil info.used_by who)

  -- RemoveImage of an image that Find finds, which is not a local file and has a user, answers
  -- FailedPrecondition and changes nothing, neither in the registry nor on the host.
  pub remove_image-used :
      (image who : Text) (p : ℕ) (s : Registry H T)
      → Images.find T s.images image ≡ ok p
      → ((s.images.infos p).ref.uri == local_file_domain) ≡ false
      → contains (s.images.infos p).used_by who ≡ true
      → remove_image H T order B image s ≡ (err (status Code.failed_precondition), s)
  unfolding remove_image remove_found removed_file
  remove_image-used image who p s f l u =
      ground (arith, used_refused (s.images.infos p) who s.world)

  -- The IDs of the index, the references and the backup file are as they were.
  pub record IsKept (s t : Registry H T) : Type 0 where
    pub indx : t.images.indx ≡ s.images.indx
    pub ref_to_id : t.images.ref_to_id ≡ s.images.ref_to_id
    pub file : t.file ≡ s.file

  admit-refuses :
      (p : ℕ) (s : Registry H T)
      → IsDoubtful H
      → ((s.images.infos p).ref.uri == docker_domain) ≡ false
      → IsKept s (admit H T order B p s).1
  unfolding admit or_give_up give_up
  admit-refuses p s bad other =
      ground (arith, verify-doubtful H (s.images.infos p) s.world bad other)

  pull_new-refuses :
      (server image : Text) (s : Registry H T)
      → IsDoubtful H
      → ((parse_ref image).uri == docker_domain) ≡ false
      → IsKept s (pull_new H T order B server image s).1
  unfolding pull_new
  pull_new-refuses server image s bad other =
      from (pull H s.storage server (parse_ref image) s.world).0
        (pull H s.storage server (parse_ref image) s.world).1
        (λ info e. pull-ref H s.storage server (parse_ref image) s.world e)
    where
      from :
          (r : Result Info) (w : H.World)
          → ((info : Info) → r ≡ ok info → info.ref ≡ parse_ref image)
          → IsKept s
              ((do
                info ← answering Code.internal (on_host (λ _. (r, w)))
                p ← gets (λ (t : Registry H T). t.next)
                modify (allocate info)
                admit H T order B p)
                s).1
      from (ok info) w ref =
          let u : Registry H T = allocate info (record s { world = w }) in
          let a = admit-refuses s.next u bad (ground (arith, ref info refl)) in
          record { indx = a.indx; ref_to_id = a.ref_to_id; file = a.file }
      from (err e) w ref = record { indx = refl; ref_to_id = refl; file = refl }
      from panic w ref = record { indx = refl; ref_to_id = refl; file = refl }

  -- On a host that finds a signature in every image and none of them valid, PullImage of a
  -- reference outside docker.io leaves the IDs of the index, the references that lead to them and
  -- the backup file as they were, whatever it answers and whatever the host answers otherwise.
  pub pull_image-refuses :
      (server image : Text) (s : Registry H T)
      → IsDoubtful H
      → ((parse_ref image).uri == docker_domain) ≡ false
      → IsKept s (pull_image H T order B server image s).1
  unfolding pull_image looked_up unless_present
  pull_image-refuses server image s bad other = grind (arith, pull_new-refuses)

  -- After a Create of a container that returns no error, RemoveImage of an image that Find finds,
  -- and that is the container's as Create left it, answers FailedPrecondition and changes nothing,
  -- neither in the registry nor on the host. The image is not a local file, and Go may range over
  -- a map in any order that gives each key once.
  pub remove_image-created :
      (base : List Text) (translate : Container → Pod → Info → Exec H.World (Unit {0}))
      (base_dir image : Text) (p : ℕ) (c : Scene H) (s : Registry H T)
      → IsOrder order
      → (create H base order translate base_dir c).0 ≡ ok tt
      → (create H base order translate base_dir c).1.info ≡ s.images.infos p
      → (c.info.ref.uri == local_file_domain) ≡ false
      → Images.find T s.images image ≡ ok p
      → remove_image H T order B image s ≡ (err (status Code.failed_precondition), s)
  unfolding Info.borrow
  remove_image-created base translate base_dir image p c s o made e l f =
      let j = create-Joined H base order translate base_dir c made in
      let same : s.images.infos p ≡ Info.borrow order c.cont.id c.info = sym e ∙ j.info in
      remove_image-used image c.cont.id p s f (ground (arith, same)) (
        rw same (
          ground (
            arith,
            borrow-used_by order o c.info c.cont.id c.cont.id,
            text_beq_iff c.cont.id c.cont.id,
            contains-count c.cont.id (Info.borrow order c.cont.id c.info).used_by,
          )))
