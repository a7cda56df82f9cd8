-- ===== src/Kube/Container/Use.antt =====
-- What is done to a container that runs: ExecSync, Exec and ReopenLogFile of pkg/kube/container.go, Stat
-- and UpdateResources of container_stat.go, and the calls of the CLI client behind them
-- (pkg/singularity/runtime/client_oci.go).
use singularity_cri.Base.{
  ℕ, nat_eq, Option, none, some, List, [], ◌∷◌, ◌++◌, ◌==◌, ◌&&◌, if◌then◌else◌, is_nil, is_some,
}
use singularity_cri.Base.Text.{Text, codes, text_eq}
use singularity_cri.Base.Result.{Result, ok, err, errorf, wrapf, external}
use singularity_cri.Base.Exec.{Exec, ◌>>=◌, ◌>>◌, pure, raise, crash, wrapping}
use singularity_cri.Runtime.State.{OciState}
use singularity_cri.Runtime.Host.{Host}
use singularity_cri.Image.Info.{Info}
use singularity_cri.Image.Reference.{docker_domain}
use singularity_cri.Fs.{Entry, UsageInfo, usage}
use singularity_cri.Kube.Types.{Scene, Resources}
use singularity_cri.Kube.Container.{on_host}
use singularity_cri.Kube.Oci.Numbers.{format_int}
use singularity_cri.Kube.Oci.Command.{exec_script}

-- How a command with captured streams ended: the status is the bits of an int32.
pub data Ended : Type 0 where
  exited : Text → Text → ℕ → Ended
  not_run : ℕ → Ended

-- specs.LinuxResources as UpdateResources fills it: the limits that are given, as bits of 64.
pub record Update : Type 0 where
  pub memory_limit : Option ℕ
  pub cpu_shares : Option ℕ
  pub cpu_quota : Option ℕ
  pub cpu_period : Option ℕ
  pub cpus : Text
  pub mems : Text

-- The rest of the host that these methods call.
pub record Shell (H : Host) : Type 0 where
  -- a command with an environment, for at most the given seconds, or without an end
  pub run_for : Option ℕ → List Text → List Text → H.World → Ended × H.World
  -- the same with the caller's streams
  pub run_on_streams : List Text → List Text → H.World → Ended × H.World
  -- json.Encode of an update, and a command that reads a text
  pub encode_update : Update → Result Text
  pub run_with_input : List Text → Text → Exec H.World (Unit {0})
  -- /proc/<pid>/oom_adj, opened and written
  pub open_oom_adj : ℕ → Exec H.World (Unit {0})
  pub write_oom_adj : ℕ → Text → Exec H.World (Unit {0})
  -- proc.ParentMount, and what is at a path
  pub parent_mount : Text → H.World → Result Text
  pub entry_at : Text → H.World → Entry
  -- cgroups.Load of a process, and its Stat: the CPU time and the memory, where they are there
  pub load_cgroup : ℕ → Exec H.World (Unit {0})
  pub cgroup_stat : ℕ → Exec H.World (Option ℕ × Option ℕ)
  -- unix.Dial, the encoded control message, and the read of a byte, with no error for io.EOF
  pub dial : Text → Exec H.World (Unit {0})
  pub send_reopen : Text → Exec H.World (Unit {0})
  pub wait_reply : Text → Exec H.World (Unit {0})

-- k8s.ExecSyncResponse
pub record ExecResponse : Type 0 where
  pub stdout : Text
  pub stderr : Text
  pub exit_code : ℕ

-- ContainerStat
pub record Stat : Type 0 where
  pub fs : UsageInfo
  pub memory : ℕ
  pub cpu : ℕ

-- Under the exec script, but in a container of an OCI image.
unfoldable pub exec_command : Info → List Text → List Text
exec_command info cmd =
    if (info.ref.uri == docker_domain) && is_some info.oci_config then cmd else exec_script ∷ cmd

abbrev given : ℕ → Option ℕ
given n = if n == 0 then none else some n

-- The request of UpdateResources.
unfoldable pub update_of : Resources → Update
update_of r = record {
  memory_limit = given r.memory_limit;
  cpu_shares = given r.cpu_shares;
  cpu_quota = given r.cpu_quota;
  cpu_period = given r.cpu_period;
  cpus = r.cpuset_cpus;
  mems = r.cpuset_mems;
}

or_zero : Option ℕ → ℕ
or_zero none = 0
or_zero (some n) = n

module _ {H : Host} (S : Shell H) (base : List Text) where
  -- ExecSync of the client: a status that is not 0 is no error.
  executed : Ended → Result ExecResponse
  executed (Ended.exited out errs code) =
      ok (record { stdout = out; stderr = errs; exit_code = code })
  executed (Ended.not_run e) = err (wrapf "could not execute" (external e))

  unfoldable pub client_exec_sync :
      Option ℕ → Text → List Text → List Text → Exec H.World ExecResponse
  unfolding executed
  client_exec_sync timeout id args envs w =
      let (ended, w') = S.run_for timeout envs (base ++ (codes "exec" ∷ id ∷ args)) w in
      (executed ended, w')

  unfoldable pub exec_sync : ℕ → List Text → Exec (Scene H) ExecResponse
  unfolding exec_command client_exec_sync
  exec_sync timeout cmd = wrapping "exec sync returned error" λ s.
      on_host H
        (client_exec_sync (given timeout) s.cont.id (exec_command s.info cmd) s.cont.exec_envs) s

  streamed : Ended → Result (Unit {0})
  streamed (Ended.exited out errs code) = ok tt
  streamed (Ended.not_run e) = err (wrapf "could not execute" (external e))

  unfoldable pub client_exec : Text → List Text → List Text → Exec H.World (Unit {0})
  unfolding streamed
  client_exec id args envs w =
      let (ended, w') = S.run_on_streams envs (base ++ (codes "exec" ∷ id ∷ args)) w in
      (streamed ended, w')

  unfoldable pub exec : List Text → Exec (Scene H) (Unit {0})
  unfolding exec_command client_exec
  exec cmd =
      wrapping "exec returned error"
        λ s. on_host H (client_exec s.cont.id (exec_command s.info cmd) s.cont.exec_envs) s

  unfoldable pub client_update : Text → Update → Exec H.World (Unit {0})
  client_update id update = do
    text ← wrapping "could not encode update request" (λ w. (S.encode_update update, w))
    wrapping "could not execute" (
        S.run_with_input (base ++ (codes "update" ∷ codes "--from-file" ∷ codes "-" ∷ id ∷ []))
          text)

  -- Pid of a nil state panics.
  pid_of : Option OciState → Exec (Scene H) ℕ
  pid_of none = crash
  pid_of (some o) = pure o.pid

  adjust_oom : ℕ → Exec (Scene H) (Unit {0})
  unfolding pid_of
  adjust_oom adj = do
    pid ← λ s. pid_of s.cont.oci_state s
    wrapping "could not open oom_adj for container" (on_host H (S.open_oom_adj pid))
    wrapping "could not update oom_adj for container"
        (on_host H (S.write_oom_adj pid (format_int 32 adj)))

  unfoldable pub update_resources : Resources → Exec (Scene H) (Unit {0})
  unfolding client_update update_of adjust_oom
  update_resources r = do
    wrapping "could not update resources" (λ s. on_host H (client_update s.cont.id (update_of r)) s)
    (if r.oom_score_adj == 0 then pure tt else adjust_oom r.oom_score_adj)

  unfoldable pub stat : Exec (Scene H) Stat
  unfolding pid_of or_zero
  stat = do
    info ← wrapping "could not get fs usage" (λ s.
        (usage (S.parent_mount s.cont.base_dir s.world) (S.entry_at s.cont.base_dir s.world), s))
    pid ← λ s. pid_of s.cont.oci_state s
    wrapping "could not load cgroups" (on_host H (S.load_cgroup pid))
    metrics ← wrapping "could not fetch metrics" (on_host H (S.cgroup_stat pid))
    pure (record { fs = info; memory = or_zero metrics.1; cpu = or_zero metrics.0 })

  control_socket : Option OciState → Exec (Scene H) Text
  control_socket none = crash
  control_socket (some o) =
      if is_nil o.control_socket
      then raise (errorf "container didn't provide control socket")
      else pure o.control_socket

  unfoldable pub reopen_log_file : Exec (Scene H) (Unit {0})
  unfolding control_socket
  reopen_log_file = do
    socket ← λ s. control_socket s.cont.oci_state s
    wrapping "could not connect to control socket" (on_host H (S.dial socket))
    wrapping "could not send reopen log to control socket" (on_host H (S.send_reopen socket))
    wrapping "could not wait reopen log" (on_host H (S.wait_reply socket))
