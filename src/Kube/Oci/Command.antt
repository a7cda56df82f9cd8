-- ===== src/Kube/Oci/Command.antt =====
-- What the process of a container runs: the first part of configureProcess of container_oci.go.
pub mod Laws
use singularity_cri.Base.{
  Bool, true, false, Option, none, some, List, [], ◌∷◌, ◌++◌, ◌==◌, ◌&&◌, if◌then◌else◌, is_nil,
}
use singularity_cri.Base.Text.{Text, codes, text_eq, split_byte}
use singularity_cri.Base.Result.{Result, ok, err, panic, errorf, ◌>>=◌}
use singularity_cri.Runtime.Host.{ImageConfig}
use singularity_cri.Image.Info.{Info}
use singularity_cri.Image.Reference.{docker_domain}
use singularity_cri.Kube.Types.{ContainerConfig}

abbrev pub exec_script : Text
exec_script = codes "/.singularity.d/actions/exec"

abbrev pub run_script : Text
run_script = codes "/.singularity.d/actions/run"

-- What the process of a container is to run, and where; `envs` are those of the image.
pub record Command : Type 0 where
  pub cmd : List Text
  pub args : List Text
  pub cwd : Text
  pub envs : List (Text × Text)

-- parts[0], parts[1] of strings.Split(env, "=")
abbrev pub first_two : List Text → Result (Text × Text)
first_two (name ∷ value ∷ _) = ok (name, value)
first_two _ = panic

unfoldable pub image_envs : List Text → Result (List (Text × Text))
image_envs [] = ok []
image_envs (env ∷ envs) =
    first_two (split_byte b'=' env) >>= λ e. image_envs envs >>= λ es. ok (e ∷ es)

abbrev or_else : List Text → List Text → List Text
or_else xs ys = if is_nil xs then ys else xs

-- The command of an image that was built from an OCI image.
image_command : ContainerConfig → ImageConfig → Result Command
unfolding image_envs
image_command c image = image_envs image.env >>= λ envs.
    let cmd = or_else c.command image.entrypoint in
    let args = if is_nil c.command && is_nil c.args then image.cmd else c.args in
    if is_nil cmd && is_nil args
    then err (errorf "neither command nor arguments are provided for the container")
    else ok (record {
      cmd = cmd;
      args = args;
      cwd = if is_nil c.working_dir then image.working_dir else c.working_dir;
      envs = envs;
    })

-- The command of a native SIF image, which runs under one of its scripts.
script_command : ContainerConfig → Command
script_command c = record {
  cmd = if is_nil c.command then run_script ∷ [] else exec_script ∷ c.command;
  args = c.args;
  cwd = c.working_dir;
  envs = [];
}

-- The first part of configureProcess, up to what is set of the process.
unfoldable pub command_of : ContainerConfig → Info → Option ImageConfig → Result Command
unfolding image_command script_command
command_of c info none = ok (script_command c)
command_of c info (some image) =
    if info.ref.uri == docker_domain then image_command c image else ok (script_command c)
