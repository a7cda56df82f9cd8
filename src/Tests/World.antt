-- ===== src/Tests/World.antt =====
-- A host whose engine reports one status, whose sync sockets give the states listed, and on which
-- everything else succeeds; and a pod with containers on it.
use singularity_cri.Base.{◌≡◌, ◌≢◌, arith, true, false, none, some, List, [], ◌∷◌}
use singularity_cri.Base.Text.{Text, codes, text_beq, text_beq_iff}
use singularity_cri.Base.Result.{ok}
use singularity_cri.Base.Exec.{Exec}
use singularity_cri.Runtime.State.{State}
use singularity_cri.Runtime.Host.{Host, Ran}
use singularity_cri.Image.Info.{Info}
use singularity_cri.Kube.Types.{
  Container, ContainerConfig, Members, NamespaceMode, NamespaceOptions, Pod, PodConfig, Scene,
}
use singularity_cri.Kube.Pod.{Yard}

pub apart : (s t : Text) → text_beq s t ≡ false → s ≢ t
apart s t h e = ground (arith, text_beq_iff s t)

pub record Engine : Type 0 where
  pub ran : Ran
  pub coming : List State

abbrev pub next_state : List State → State
next_state [] = State.unknown
next_state (s ∷ ss) = s

abbrev pub later_states : List State → List State
later_states [] = []
later_states (s ∷ ss) = ss

abbrev succeeds : {A : Type 0} → A → Exec Engine A
succeeds a w = (ok a, w)

abbrev pub host : Host
host = record {
  World = Engine;
  command = λ words w. (w.ran, w);
  decode_state = λ text. ok (
      some record {
        status = text;
        pid = 7;
        created_at = some 1;
        started_at = some 2;
        finished_at = none;
        exit_code = none;
        exit_desc = [];
        attach_socket = codes "attach";
        control_socket = [];
      });
  open_pty = succeeds tt;
  listen = λ path. succeeds tt;
  receive = λ path w. (next_state w.coming, record w { coming = later_states w.coming });
  receive_within = λ seconds path w. (none, w);
  cancel = λ path w. w;
  mkdir_all = λ path. succeeds tt;
  mkdir = λ path. succeeds tt;
  remove_all = λ path. succeeds tt;
  remove = λ path. succeeds tt;
  rename = λ from to. succeeds tt;
  read_dir = λ path. succeeds [];
  join = λ parts. codes "path";
  dir = λ path. codes "dir";
  create_bundle = λ image bundle. succeeds tt;
  delete_bundle = λ bundle. succeeds tt;
  write_spec = λ path. succeeds tt;
  close_stdin = λ id. succeeds tt;
  verify = λ path w. (none, w);
  open_file = λ path. succeeds tt;
  file_size = λ path. succeeds 1;
  file_hash = λ path. succeeds (codes "hash");
  close_file = λ path. succeeds tt;
  load_image = λ path. succeeds tt;
  read_section = λ path name. succeeds none;
  decode_config = λ text. ok (record {
    env = [];
    entrypoint = [];
    cmd = [];
    working_dir = [];
    user = [];
    stop_signal = [];
  });
  library_client = λ server. succeeds tt;
  library_image = λ server ref. succeeds (codes "hash", 1);
  library_download = λ server ref path tag. succeeds tt;
  create_file = λ path. succeeds tt;
  copy_contents = λ from to. succeeds tt;
  normalize_capabilities = λ caps. caps;
  start_shell = λ kinds. succeeds 1;
  mount_namespace = λ pid file path. succeeds tt;
  unmount = λ path. succeeds tt;
  remove_if_there = λ path. succeeds tt;
  hostname = λ w. ok (codes "node");
  write_file = λ path text. succeeds tt;
  random_id = λ w. (codes "id", w);
}

abbrev pub base : List Text
base = codes "singularity" ∷ codes "oci" ∷ []

-- Go may range over a map in the order in which its keys came.
abbrev pub as_listed : List Text → List Text
as_listed keys = keys

abbrev pub busybox : Info
busybox = record {
  id = codes "f00d";
  sha256 = codes "f00d";
  size = 10;
  path = codes "/images/f00d";
  ref = record { uri = codes "docker.io"; tags = codes "busybox:latest" ∷ []; digests = [] };
  oci_config = none;
  used_by = [];
}

abbrev pub no_options : NamespaceOptions
no_options = record {
  network = NamespaceMode.pod_mode;
  pid = NamespaceMode.container_mode;
  ipc = NamespaceMode.pod_mode;
}

abbrev pub pod_config : PodConfig
pod_config = record {
  name = codes "web";
  namespace = codes "default";
  hostname = codes "web";
  annotations = [];
  port_mappings = [];
  security = record {
    privileged = false;
    readonly_rootfs = false;
    selinux_options = none;
    run_as_user = none;
    run_as_group = none;
    supplemental_groups = [];
  };
  log_directory = [];
  labels = (codes "app", codes "web") ∷ [];
  sysctls = (codes "net.ipv4.ip_forward", codes "1") ∷ [];
  cgroup_parent = [];
  dns = none;
  options = no_options;
  seccomp = none;
}

abbrev pub container_config : ContainerConfig
container_config = record {
  image = codes "busybox";
  command = [];
  args = [];
  working_dir = [];
  annotations = [];
  mounts = [];
  devices = [];
  resources = record {
    cpu_period = 0;
    cpu_quota = 0;
    cpu_shares = 0;
    memory_limit = 0;
    oom_score_adj = 0;
    cpuset_cpus = [];
    cpuset_mems = [];
  };
  labels = (codes "tier", codes "front") ∷ [];
  envs = [];
  stdin = false;
  stdin_once = false;
  tty = false;
  log_path = [];
  security = none;
}

abbrev pub container : Text → Container
container id = record {
  id = id;
  config = container_config;
  base_dir = [];
  trash_dir = [];
  runtime_state = State.unknown;
  oci_state = none;
  log_path = [];
  exec_envs = [];
  is_stopped = false;
  is_removed = false;
  is_stdin_closed = false;
  stdin = false;
  has_cancel = true;
}

abbrev pub pod : Members → Pod
pod containers = record {
  id = codes "pod";
  config = pod_config;
  base_dir = [];
  is_stopped = false;
  is_removed = false;
  runtime_state = State.running;
  oci_state = none;
  namespaces = [];
  containers = containers;
  has_cancel = true;
}

abbrev pub three : Members
three = record { cells = codes "a" ∷ codes "b" ∷ codes "c" ∷ []; len = 3 }

abbrev pub reports : Text → List State → Engine
reports status coming = record { ran = Ran.succeeded status; coming = coming }

-- Container "a" of the pod with three containers.
abbrev pub scene : Engine → Scene host
scene engine = record {
  cont = container (codes "a");
  pod = pod three;
  info = busybox;
  world = engine;
}

abbrev pub yard : Engine → Yard host
yard engine = record {
  pod = pod three;
  containers = container;
  image_of = λ c. 0;
  images = λ image. busybox;
  world = engine;
}

-- Translations that succeed.
abbrev pub translate : Container → Pod → Info → Exec Engine (Unit {0})
translate c p i w = (ok tt, w)

abbrev pub translate_pod : Pod → Exec Engine (Unit {0})
translate_pod p w = (ok tt, w)
