-- ===== src/Kube/Oci/Command/Laws.antt =====
-- The command of a container, as the Kubernetes documentation has it, and the variables of its image.
use singularity_cri.Base.{
  ◌≡◌, ◌≢◌, refl, nat_eq, true, false, some, List, [], ◌∷◌, ◌++◌, if◌then◌else◌, arith, is_nil,
}
use singularity_cri.Base.Text.{Text, text_eq, text_beq_iff, split_byte, has_byte}
use singularity_cri.Base.Result.{ok, panic}
use singularity_cri.Runtime.Host.{ImageConfig}
use singularity_cri.Image.Info.{Info}
use singularity_cri.Image.Reference.{docker_domain}
use singularity_cri.Kube.Types.{ContainerConfig}
use singularity_cri.Kube.Oci.Command.{Command, command_of, image_command, image_envs}

-- What the container runs, by the table of the Kubernetes documentation: the command and the
-- arguments of the configuration where it has them, where a command of its own also drops the
-- arguments of the image.
abbrev pub documented : ContainerConfig → ImageConfig → List Text
documented c image = elim (is_nil c.command) [
  | false ↦ c.command ++ c.args
  | true ↦ elim (is_nil c.args) [
    | false ↦ image.entrypoint ++ c.args
    | true ↦ image.entrypoint ++ image.cmd
  ]
]

abbrev pub runs : Command → List Text
runs k = k.cmd ++ k.args

is_nil-append : (xs ys : List Text) → is_nil (xs ++ ys) ≡ (if is_nil xs then is_nil ys else false)
is_nil-append [] ys = refl
is_nil-append (x ∷ xs) ys = refl

-- split_byte cuts off the name of a variable, and gives the text up to the next '=' as its value.
split_byte-name :
    (name value : Text)
    → has_byte b'=' name ≡ false
    → split_byte b'=' (name ++ (b'=' ∷ value)) ≡ name ∷ split_byte b'=' value
unfolding split_byte has_byte
split_byte-name [] value h = refl
split_byte-name (c ∷ name) value h = ground (arith, split_byte-name name value)

split_byte-none : (s : Text) → has_byte b'=' s ≡ false → split_byte b'=' s ≡ s ∷ []
unfolding split_byte has_byte
split_byte-none [] h = refl
split_byte-none (c ∷ s) h = ground (arith, split_byte-none s)

-- Of a variable of an image whose value has an equals sign, the value is cut at that sign: the
-- variables are read as if the text ended there. Its name and the first part of its value have no
-- equals sign.
pub image_envs-cut :
    (name value rest : Text) (envs : List Text)
    → has_byte b'=' name ≡ false
    → has_byte b'=' value ≡ false
    → image_envs ((name ++ (b'=' ∷ value ++ (b'=' ∷ rest))) ∷ envs)
      ≡ image_envs ((name ++ (b'=' ∷ value)) ∷ envs)
unfolding image_envs
image_envs-cut name value rest envs h k = rw (
  split_byte-name name (value ++ (b'=' ∷ rest)) h,
  split_byte-name value rest k,
  split_byte-name name value h,
  split_byte-none value k,
)

-- A variable of an image without an equals sign makes configureProcess panic.
pub image_envs-panic :
    (env : Text) (envs : List Text) → has_byte b'=' env ≡ false → image_envs (env ∷ envs) ≡ panic
unfolding image_envs
image_envs-panic env envs h = rw (split_byte-none env h)

-- For an image with the domain docker.io and an OCI configuration, where the command of the
-- container is found: it runs what the table of the Kubernetes documentation says for its command
-- and arguments and for the entrypoint and the command of the image, and that is not empty.
pub command_of-documented :
    (c : ContainerConfig) (info : Info) (image : ImageConfig) (k : Command)
    → info.ref.uri ≡ docker_domain
    → command_of c info (some image) ≡ ok k
    → (runs k ≡ documented c image) × (runs k ≢ [])
unfolding command_of image_command
command_of-documented c info image k docker h =
    ground (arith, text_beq_iff info.ref.uri docker_domain, is_nil-append k.cmd k.args)
