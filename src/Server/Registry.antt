-- ===== src/Server/Registry.antt =====
-- pkg/server/image/image.go: the image service, on the index of images and its backup file. The JSON
-- text of an image and the operations on the file are the parameter `Backup`; an image that has been
-- pulled or decoded gets the next free address. The mutex is held by each method that uses the file.
pub mod Views
pub mod Guards
pub mod Restored
use singularity_cri.Base.{
  ℕ, suc, nat_eq, Bool, true, false, Option, none, some, List, [], ◌∷◌, ◌++◌, ◌==◌, if◌then◌else◌,
  map,
}
use singularity_cri.Base.Text.{Text, codes, text_eq}
use singularity_cri.Base.Result.{
  Result, ok, err, panic, Error, Code, sentinel, Sentinel, wrapf, status, is_index_not_found,
}
use singularity_cri.Base.Exec.{
  Exec, ◌>>=◌, ◌>>◌, pure, raise, crash, modify, gets, wrapping, attempt, logged,
}
use singularity_cri.Patricia.{Trie}
use singularity_cri.Runtime.Host.{Host}
use singularity_cri.Fs.{Entry, UsageInfo, usage}
use singularity_cri.Image.Reference.{parse_ref, local_file_domain}
use singularity_cri.Image.Info
use singularity_cri.Image.Info.{Info}
use singularity_cri.Image.Pull.{library_info, pull}
use singularity_cri.Index.Images
use singularity_cri.Index.Images.{Images}

pub record Backup (H : Host) : Type 0 where
  -- enc.Encode: the values that it leaves in the file, which need not be the text of the image, since
  -- its error is ignored
  pub write : Info → H.World → List Text × H.World
  pub decode : Text → Result Info
  pub seek_start : Exec H.World (Unit {0})
  pub truncate : Exec H.World (Unit {0})
  pub close : Exec H.World (Unit {0})
  -- exec.LookPath of the runtime, filepath.Abs, and os.OpenFile of the file
  pub look_path : Exec H.World (Unit {0})
  pub abs : Text → Exec H.World Text
  pub open_file : Text → Exec H.World (Unit {0})

-- SingularityRegistry, with what its file holds: the JSON values from the start on.
pub record Registry (H : Host) (T : Trie ℕ) : Type 0 where
  pub storage : Text
  pub images : Images T
  pub next : ℕ
  pub file : List Text
  pub world : H.World

-- The errors of Info.Remove and of LibraryInfo that the handlers look for.
abbrev pub is_image_used : Error → Bool
is_image_used (sentinel Sentinel.image_is_used) = true
is_image_used _ = false

abbrev pub is_image_not_found : Error → Bool
is_image_not_found (sentinel Sentinel.image_not_found) = true
is_image_not_found _ = false

abbrev pub is_not_library : Error → Bool
is_not_library (sentinel Sentinel.not_library) = true
is_not_library _ = false

module _ {H : Host} {T : Trie ℕ} where
  abbrev pub on_host : {A : Type 0} → Exec H.World A → Exec (Registry H T) A
  on_host m s = let (r, w) = m s.world in (r, record s { world = w })

  abbrev pub on_images : {A : Type 0} → Exec (Images T) A → Exec (Registry H T) A
  on_images m s = let (r, i) = m s.images in (r, record s { images = i })

  -- if err != nil { return nil, status.Errorf(code, …) }
  abbrev as_status : {A : Type 0} → Code → Result A × Registry H T → Result A × Registry H T
  as_status code (ok a, s) = (ok a, s)
  as_status code (err e, s) = (err (status code), s)
  as_status code (panic, s) = (panic, s)

  abbrev pub answering : {A : Type 0} → Code → Exec (Registry H T) A → Exec (Registry H T) A
  answering code m s = as_status code (m s)

  -- An image at a new address.
  abbrev pub allocate : Info → Registry H T → Registry H T
  allocate info s = record s {
    images = record s.images { infos = λ q. if q == s.next then info else s.images.infos q };
    next = suc s.next;
  }

module _ (H : Host) (T : Trie ℕ) (order : List Text → List Text) (B : Backup H) where
  -- encodeToFile: local files are left out.
  unfoldable pub encode_to_file : ℕ → Registry H T → Registry H T
  encode_to_file p s =
      if (s.images.infos p).ref.uri == local_file_domain
      then s
      else let (texts, w) = B.write (s.images.infos p) s.world in
        record s { file = s.file ++ texts; world = w }

  unfoldable pub encode_all : List ℕ → Registry H T → Registry H T
  unfolding encode_to_file
  encode_all [] s = s
  encode_all (p ∷ ps) s = encode_all ps (encode_to_file p s)

  unfoldable pub dump_info : Exec (Registry H T) (Unit {0})
  unfolding encode_all
  dump_info = do
    wrapping "could not seek registry info file" (on_host B.seek_start)
    wrapping "could not reset file" (on_host B.truncate)
    modify (λ s. record s { file = [] })
    modify (λ s. encode_all (Images.iterate T s.images) s)

  unfoldable pub load_one : Info → Exec (Registry H T) (Unit {0})
  load_one info = do
    p ← gets (λ s. s.next)
    modify (allocate info)
    wrapping "could not add decoded image to index" (on_images (Images.add T order p))

  load_values : List Text → Exec (Registry H T) (Unit {0})
  unfolding load_one
  load_values [] = pure tt
  load_values (text ∷ texts) = do
    info ← wrapping "could not decode image" (λ s. (B.decode text, s))
    load_one info
    load_values texts

  unfoldable pub load_info : Exec (Registry H T) (Unit {0})
  unfolding load_values
  load_info = do
    wrapping "could not seek registry info file" (on_host B.seek_start)
    λ s. load_values s.file s

  unfoldable pub shutdown : Exec (Registry H T) (Unit {0})
  shutdown = wrapping "could not close infoFile" (on_host B.close)

  -- An image that is not let in: its file is removed, and an error of that ignored.
  give_up : {A : Type 0} → Code → ℕ → Exec (Registry H T) A
  give_up code p = do
    logged (λ s. on_host (Info.remove H (s.images.infos p)) s)
    raise (status code)

  or_give_up : Code → ℕ → Result (Unit {0}) → Exec (Registry H T) (Unit {0})
  unfolding give_up
  or_give_up code p (ok _) = pure tt
  or_give_up code p (err e) = give_up code p
  or_give_up code p panic = crash

  -- Verify, Add and dumpInfo on an image that has been pulled.
  admit : ℕ → Exec (Registry H T) Text
  unfolding or_give_up
  admit p = do
    verified ← attempt (λ s. on_host (Info.verify H (s.images.infos p)) s)
    or_give_up Code.invalid_argument p verified
    added ← attempt (on_images (Images.add T order p))
    or_give_up Code.internal p added
    logged dump_info
    gets (λ s. (s.images.infos p).id)

  pull_new : Text → Text → Exec (Registry H T) Text
  unfolding admit
  pull_new server image = do
    info ← answering Code.internal (λ s. on_host (pull H s.storage server (parse_ref image)) s)
    p ← gets (λ s. s.next)
    modify (allocate info)
    admit p

  -- What LibraryInfo answers: an image that is there already, by its checksum, is not pulled.
  unfoldable unless_present : Text → Text → Info → Result ℕ → Exec (Registry H T) Text
  unfolding pull_new
  unless_present server image info (ok p) = pure info.id
  unless_present server image info (err e) = pull_new server image
  unless_present server image info panic = crash

  unfoldable looked_up : Text → Text → Result Info → Exec (Registry H T) Text
  unfolding unless_present
  looked_up server image (ok info) =
      λ s. unless_present server image info (Images.find T s.images info.sha256) s
  looked_up server image (err e) =
      if is_image_not_found e
      then raise (status Code.not_found)
      else if is_not_library e
      then pull_new server image
      else raise (status Code.internal)
  looked_up server image panic = crash

  -- PullImage: the ID of the image
  unfoldable pub pull_image : Text → Text → Exec (Registry H T) Text
  unfolding looked_up
  pull_image server image = do
    found ← attempt (on_host (library_info H server (parse_ref image)))
    looked_up server image found

  -- The two answers to an error of Info.Remove.
  unfoldable removed_file : Result (Unit {0}) → Exec (Registry H T) (Unit {0})
  removed_file (ok _) = pure tt
  removed_file (err e) =
      if is_image_used e
      then raise (status Code.failed_precondition)
      else raise (status Code.internal)
  removed_file panic = crash

  unfoldable remove_found : Result ℕ → Exec (Registry H T) (Unit {0})
  unfolding removed_file
  remove_found (ok p) = do
    removed ← attempt (λ s. on_host (Info.remove H (s.images.infos p)) s)
    removed_file removed
    answering Code.internal (λ s. on_images (Images.remove T (s.images.infos p).id) s)
    logged dump_info
  remove_found (err e) =
      if is_index_not_found e then pure tt else raise (status Code.invalid_argument)
  remove_found panic = crash

  -- RemoveImage
  unfoldable pub remove_image : Text → Exec (Registry H T) (Unit {0})
  unfolding remove_found
  remove_image image s = remove_found (Images.find T s.images image) s

  -- NewSingularityRegistry, on an index and what the file holds
  unfoldable pub new_registry : Text → Exec (Registry H T) (Unit {0})
  unfolding load_info
  new_registry store_path = do
    wrapping "could not find singularity on this machine" (on_host B.look_path)
    path ← wrapping "could not get absolute storage directory path" (on_host (B.abs store_path))
    modify (λ s. record s { storage = path })
    wrapping "could not create storage directory" (on_host (H.mkdir_all path))
    wrapping "could not open registry backup file"
        (on_host (B.open_file (H.join (path ∷ codes "registry.json" ∷ []))))
    load_info

  -- ImageFsInfo: the time and what Usage finds of the storage directory
  unfoldable pub image_fs_info :
      (Text → H.World → Result Text)
      → (Text → H.World → Entry)
      → (H.World → ℕ)
      → Exec (Registry H T) (ℕ × UsageInfo)
  image_fs_info parent_mount entry_at now = do
    found ←
        answering Code.internal
          (λ s. (usage (parent_mount s.storage s.world) (entry_at s.storage s.world), s))
    gets (λ s. (now s.world, found))
