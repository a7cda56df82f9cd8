-- ===== src/Tests/Streaming.antt =====
-- The streams of a container, its environment, the backup file and the start of the service at concrete
-- inputs.
use singularity_cri.Base.{
  ◌≡◌, refl, ℕ, Bool, true, false, Option, none, some, List, [], ◌∷◌, ◌++◌, arith,
}
use singularity_cri.Base.Text.{Text, codes}
use singularity_cri.Base.Result.{ok, err, panic, errorf}
use singularity_cri.Base.Exec.{Exec}
use singularity_cri.Index.Images
use singularity_cri.TruncIndex
use singularity_cri.TruncIndex.{TruncIndex}
use singularity_cri.Config.{default_config}
use singularity_cri.Kube.Container.Envs.{new_envs, read_envs, read_envs-overwritten}
use singularity_cri.Server.Registry.{Registry, dump_info, load_info, on_host}
use singularity_cri.Server.Registry.Restored.{
  restored, AllWhole, Loaded, add_all, load_info-dump_info,
}
use singularity_cri.Server.Runtime.{Node}
use singularity_cri.Server.Runtime.Service.{Streams}
use singularity_cri.Server.Runtime.Streaming.{Terminal, Attached, attach_begin}
use singularity_cri.Server.Runtime.Streaming.Copies.{
  Copies, Copied, Step, Reach, begun, Copier, output_answers,
}
use singularity_cri.Server.Runtime.Streaming.Answers.{attach_begin-waits, Answered, begun-Answered}
use singularity_cri.Command.Service.{Service, start_cri, stop_cri, start_cri-stop_cri}
use singularity_cri.Tests.World.{
  Engine, host, base, busybox, as_listed, container, pod, three, reports,
}
use singularity_cri.Tests.Images as ImageTests
use singularity_cri.Tests.Index.{trie, nothing}
use singularity_cri.Tests.Server.{backup, registry}
use singularity_cri.Tests.Runtime.{cni, manager, node, bridge, one_pod, one_container}

abbrev succeeds : {A : Type 0} → A → Exec Engine A
succeeds a w = (ok a, w)

abbrev terminal : Terminal host
terminal = record {
  start_pty = λ envs command. succeeds tt;
  wait_pty = succeeds tt;
  close_pty = λ w. w;
  copy_in = λ w. w;
  copy_out = λ w. w;
  dial = λ socket. succeeds tt;
  hang_up = λ socket w. w;
  send_size = λ socket height width. succeeds tt;
  look_path = λ name. succeeds name;
  stdin_pipe = succeeds tt;
  run_on_stream = λ command. succeeds tt;
}

-- Container "a" runs without a stdin, and only its stdin is asked for.
abbrev only_stdin : Streams
only_stdin = record { stdin = true; stdout = false; stderr = false; tty = false }

abbrev running : Node (cni (bridge ∷ [])) ImageTests.trie trie trie
running = node (bridge ∷ []) one_pod one_container (reports (codes "running") [])

abbrev no_copier : Attached
no_copier = record { output = false; input = false }

attach_begin-waits_example : ¬ Step (begun no_copier) (begun no_copier)
unfolding attach_begin singularity_cri.Server.Runtime.Service.stream_to_container
    singularity_cri.Index.Containers.find TruncIndex.get TruncIndex.check_key
    singularity_cri.Base.Dict.restrict TruncIndex.add singularity_cri.Base.Dict.lookup
    singularity_cri.Base.Dict.insert singularity_cri.Base.Text.has_prefix
    singularity_cri.Server.Runtime.in_container singularity_cri.Kube.Container.update_state
    singularity_cri.Runtime.Client.state singularity_cri.Kube.Container.Status.k8s_state
    singularity_cri.Base.Text.text_beq singularity_cri.Runtime.State.status_to_state
    singularity_cri.Server.Runtime.Streaming.attached
    singularity_cri.Server.Runtime.Streaming.has_stdin
attach_begin-waits_example =
    attach_begin-waits terminal base (codes "a") (codes "a") only_stdin no_copier running
      (attach_begin terminal base (codes "a") only_stdin running).1 refl refl refl (begun no_copier)

-- Both are copied, and the output has just ended.
abbrev both : Attached
both = record { output = true; input = true }

abbrev ended : Copies
ended = record (begun both) { output = Copier.sending (output_answers Copied.at_end) }

begun-Answered_example : Answered ended
unfolding begun
begun-Answered_example =
    begun-Answered both ended refl (Reach.next Reach.here (Step.output_copied Copied.at_end refl))

-- An array of two cells, of which the image uses one.
abbrev cells : List Text
cells = codes "PATH=/bin" ∷ codes "" ∷ []

abbrev user : Text → Text × Text
user name = (codes "USER", name)

read_envs-overwritten_example :
    let (after_first, e) = new_envs (some 1) cells (user (codes "a") ∷ []) in
    let (after_second, _) = new_envs (some 1) after_first (user (codes "b") ∷ []) in
    (read_envs after_first e ≡ codes "PATH=/bin" ∷ codes "USER=a" ∷ [])
    × (read_envs after_second e ≡ codes "PATH=/bin" ∷ codes "USER=b" ∷ [])
read_envs-overwritten_example =
    read_envs-overwritten cells 1 (user (codes "a")) (user (codes "b")) [] (omega arith)

-- A registry with one image in use, and an empty one over the file that it has written.
abbrev before : Registry host ImageTests.trie
before = registry (record busybox { used_by = codes "a" ∷ [] })

abbrev after : Registry host ImageTests.trie
after = record (registry busybox) {
  images = ImageTests.no_images;
  file = (dump_info host ImageTests.trie as_listed backup before).1.file;
}

whole :
    AllWhole host ImageTests.trie as_listed backup before.images.infos
      (Images.iterate ImageTests.trie before.images)
unfolding Images.iterate TruncIndex.iterate singularity_cri.Base.Dict.restrict Images.add
    Images.find Images.find_id TruncIndex.get TruncIndex.check_key singularity_cri.Base.Dict.lookup
    Images.add_new Images.remove_overlap_refs TruncIndex.add singularity_cri.Base.Dict.insert
    singularity_cri.Base.Text.has_prefix
whole = (λ w. (codes "f00d", refl, refl), tt)

load_info-dump_info_example :
    Loaded host ImageTests.trie as_listed backup
      (load_info host ImageTests.trie as_listed backup after)
      (add_all ImageTests.trie as_listed
        (restored before.images.infos (Images.iterate ImageTests.trie before.images))
        after.next
        after.images)
unfolding dump_info
load_info-dump_info_example =
    load_info-dump_info host ImageTests.trie as_listed backup before after whole refl refl refl

-- A service whose streaming server cannot be made.
abbrev no_server : Text → Exec Engine (Unit {0})
no_server url w = (err (errorf "address in use"), w)

abbrev starts : Exec Engine (Service (cni []) ImageTests.trie trie trie)
starts =
    start_cri (cni []) ImageTests.trie trie trie as_listed backup base
      (succeeds (codes "singularity")) no_server (λ path. succeeds tt) (λ p. pod three) container
      manager ImageTests.no_images [] default_config

abbrev unstarted : Service (cni []) ImageTests.trie trie trie
unstarted = record {
  registry = registry busybox;
  runtime = node [] nothing nothing (reports [] []);
}

abbrev service : Service (cni []) ImageTests.trie trie trie
service = elim (starts (reports [] [])).0 [ ok v ↦ v | _ ↦ unstarted ]

start_cri-stop_cri_example :
    (stop_cri
      (cni [])
      ImageTests.trie
      trie
      trie
      as_listed
      backup
      base
      (succeeds (codes "singularity"))
      no_server
      (λ path. succeeds tt)
      (λ p. pod three)
      container
      manager
      (λ w. w)
      (succeeds tt)
      service
      (reports [] [])).0
    ≡ panic
unfolding start_cri singularity_cri.Server.Registry.new_registry
    singularity_cri.Server.Runtime.Start.new_runtime
    singularity_cri.Server.Runtime.Start.with_streaming
    singularity_cri.Server.Runtime.Service.with_network singularity_cri.Network.init
    singularity_cri.Server.Runtime.Start.with_base_run_dir
    singularity_cri.Server.Runtime.Start.with_trash_dir
start_cri-stop_cri_example =
    start_cri-stop_cri (cni []) ImageTests.trie trie trie as_listed backup base
      (succeeds (codes "singularity")) no_server (λ path. succeeds tt) (λ p. pod three) container
      manager ImageTests.no_images [] default_config service (λ w. w) (succeeds tt) (reports [] [])
      (reports [] []) (λ url x. refl) refl
