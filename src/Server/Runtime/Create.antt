-- ===== src/Server/Runtime/Create.antt =====
-- CreateContainer of pkg/server/runtime/container.go, and NewContainer of pkg/kube/container.go.
use singularity_cri.Base.{
  ℕ, nat_eq, Bool, true, false, Option, none, some, List, [], ◌∷◌, ◌++◌, ◌==◌, ◌&&◌, not,
  if◌then◌else◌, is_nil, is_some, map,
}
use singularity_cri.Base.Text.{Text, codes, text_eq}
use singularity_cri.Base.Result.{Result, ok, err, panic, Code, status, is_index_not_found}
use singularity_cri.Base.Exec.{Exec, ◌>>=◌, ◌>>◌, pure, raise, crash, modify, logged, attempt}
use singularity_cri.Patricia.{Trie}
use singularity_cri.Runtime.State.{State}
use singularity_cri.Runtime.Host.{Host, ImageConfig}
use singularity_cri.Image.Info.{Info}
use singularity_cri.Index.Images
use singularity_cri.Index.Containers as ContainerIndex
use singularity_cri.Kube.Types.{Container, ContainerConfig, Pod}
use singularity_cri.Kube.Container.Life
use singularity_cri.Kube.Container.Envs.{setting}
use singularity_cri.Kube.Oci.Translate.{security_of}
use singularity_cri.Network.{Cni}
use singularity_cri.Server.Runtime.{Node, on_host, on_containers, in_container, find_pod}

-- What CreateContainer refuses of a configuration at once.
unfoldable pub is_refused : ContainerConfig → Bool
is_refused config =
    let security = security_of config.security in
    if config.tty && not config.stdin
    then true
    else if is_some security.run_as_user && not (is_nil security.run_as_username)
    then true
    else is_some security.run_as_group
      && (not (is_some security.run_as_user) && is_nil security.run_as_username)

abbrev image_env : Option ImageConfig → List Text
image_env none = []
image_env (some config) = config.env

-- The environment of NewContainer: that of the image, and that of the configuration. It is what the
-- container reads until the array that Kube.Container.Envs has behind it is written to.
unfoldable pub exec_envs : Option ImageConfig → List (Text × Text) → List Text
exec_envs image envs = image_env image ++ map setting envs

-- NewContainer, behind the choice of its ID
unfoldable pub new_container : Text → Text → ContainerConfig → Info → Container
unfolding exec_envs
new_container trash_dir id config info = record {
  id = id;
  config = config;
  base_dir = [];
  trash_dir = trash_dir;
  runtime_state = State.unknown;
  oci_state = none;
  log_path = [];
  exec_envs = exec_envs info.oci_config config.envs;
  is_stopped = false;
  is_removed = false;
  is_stdin_closed = false;
  stdin = false;
  has_cancel = false;
}

module _ {H : Host} {N : Cni H} {TI : Trie ℕ} {TP TC : Trie Text} (base : List Text)
    (order : List Text → List Text)
    (translate : Container → Pod → Info → Exec H.World (Unit {0})) where
  -- A container at the address of its ID, in a pod, from an image.
  pub place : Text → Text → ℕ → Container → Node N TI TP TC → Node N TI TP TC
  place c p i cont s = record s {
    container_at = λ x. if c == x then cont else s.container_at x;
    pod_of = λ x. if c == x then p else s.pod_of x;
    image_of = λ x. if c == x then i else s.image_of x;
  }

  -- cleanupOnFailure()
  unfoldable pub forget : Text → Exec (Node N TI TP TC) (Unit {0})
  forget c = logged (on_containers (ContainerIndex.remove TC c))

  -- The answers to an error of Create and of Add.
  unfoldable pub created : Text → Result (Unit {0}) → Exec (Node N TI TP TC) (Unit {0})
  unfolding forget
  created c (ok _) = pure tt
  created c (err e) = do forget c; raise (status Code.internal)
  created c panic = crash

  unfoldable pub added : Text → Result (Unit {0}) → Exec (Node N TI TP TC) Text
  unfolding forget
  added c (ok _) = pure c
  added c (err e) = do forget c; raise e
  added c panic = crash

  -- CreateContainer, behind NewContainer
  unfoldable pub create_placed : Text → Exec (Node N TI TP TC) Text
  unfolding created added
  create_placed c = do
    made ← attempt (λ s.
        in_container c
          (Life.create H base order translate
            (H.join (s.base_run_dir ∷ codes "containers" ∷ c ∷ [])))
          s)
    created c made
    indexed ← attempt (on_containers (ContainerIndex.add TC c))
    added c indexed

  -- CreateContainer from NewContainer on; a nil image panics there.
  unfoldable pub create_from : ContainerConfig → Text → Result ℕ → Exec (Node N TI TP TC) Text
  unfolding new_container place create_placed
  create_from config p (ok i) = do
    c ← on_host (λ w. let (id, w') = H.random_id w in (ok id, w'))
    modify (λ s. place c p i (new_container s.trash_dir c config (s.images.infos i)) s)
    create_placed c
  create_from config p (err e) = crash
  create_from config p panic = crash

  unfoldable pub create_in : ContainerConfig → Text → Result ℕ → Exec (Node N TI TP TC) Text
  unfolding create_from
  create_in config pod_id image = do p ← find_pod pod_id; create_from config p image

  -- The look-up of the image: of its errors only ErrNotFound ends the call.
  unfoldable pub with_image : ContainerConfig → Text → Result ℕ → Exec (Node N TI TP TC) Text
  unfolding create_in
  with_image config pod_id (ok i) = create_in config pod_id (ok i)
  with_image config pod_id (err e) =
      if is_index_not_found e
      then raise (status Code.not_found)
      else create_in config pod_id (err e)
  with_image config pod_id panic = crash

  unfoldable pub create_container : Text → ContainerConfig → Exec (Node N TI TP TC) Text
  unfolding with_image is_refused
  create_container pod_id config s =
      if is_refused config
      then (err (status Code.invalid_argument), s)
      else with_image config pod_id (Images.find TI s.images config.image) s
