-- ===== src/Server/Runtime/Unconnected.antt =====
-- RunPodSandbox of pkg/server/runtime/pod.go, where the network of the pod fails.
use singularity_cri.Base.Exec.{Exec, attempt, ◌>>=◌, ◌>>◌}
use singularity_cri.Base.{
  ◌≡◌, ◌≢◌, arith, ℕ, nat_eq, true, List, [], ◌∷◌, ◌==◌, ◌||◌, is_nil, ◌∙◌, ap,
}
use singularity_cri.Base.Text.{Text, codes, text_eq}
use singularity_cri.Base.Result.{Result, ok, err, panic, Error, Code, status}
use singularity_cri.Patricia.{Trie}
use singularity_cri.TruncIndex
use singularity_cri.TruncIndex.{TruncIndex, check_key}
use singularity_cri.Runtime.Host.{Host}
use singularity_cri.Index.Pods as PodIndex
use singularity_cri.Kube.Types.{PodConfig, Pod}
use singularity_cri.Kube.Pod.Life
use singularity_cri.Network.{Cni}
use singularity_cri.Server.Runtime.{Node, in_pod}
use singularity_cri.Server.Runtime.Pods.{
  run_pod_sandbox, run_new, finish_run, or_internal, connect, forget, place, new_pod, runtime_name,
}

-- The index answers a removal, whatever it holds.
remove-returns :
    {TP : Trie Text} (p : Text) (i : TruncIndex TP) → (PodIndex.remove TP p i).0 ≢ panic
unfolding PodIndex.remove TruncIndex.delete check_key
remove-returns p i = ground arith

module _ {H : Host} {N : Cni H} {TI : Trie ℕ} {TP TC : Trie Text} (base : List Text)
    (translate : Pod → Exec H.World (Unit {0})) where
  -- What Run of the pod that RunPodSandbox makes answers, and what is there after it.
  abbrev pub new_id : Node N TI TP TC → Text
  new_id s = (H.random_id s.world).0

  abbrev pub after_run : PodConfig → Node N TI TP TC → Result (Unit {0}) × Node N TI TP TC
  after_run config s =
      let p = new_id s in
      in_pod p (Life.run H base translate (H.join (s.base_run_dir ∷ codes "pods" ∷ p ∷ [])))
        (place base p (new_pod p config) (record s { world = (H.random_id s.world).1 }))

  -- A step of RunPodSandbox that returns, and what follows it.
  or_internal-ok :
      (p : Text) (m : Exec (Node N TI TP TC) (Unit {0})) (s : Node N TI TP TC)
      → (m s).0 ≡ ok tt
      → (do ran ← attempt m; or_internal base p ran; finish_run base p) s
        ≡ finish_run base p (m s).1
  unfolding or_internal
  or_internal-ok p m s h = ground arith

  -- A network that fails ends RunPodSandbox.
  finish_run-fails :
      (p : Text) (e : Error) (s : Node N TI TP TC)
      → (connect base p s).0 ≡ err e
      → finish_run base p s ≡ (
        err (status Code.internal),
        record (connect base p s).1 { pods = (PodIndex.remove TP p (connect base p s).1.pods).1 },
      )
  unfolding finish_run or_internal forget
  finish_run-fails p e s h = ground (arith, remove-returns p (connect base p s).1.pods)

  connect-pod_at : (p : Text) (s : Node N TI TP TC) → (connect base p s).1.pod_at ≡ s.pod_at
  unfolding connect
  connect-pod_at p s = ground arith

  run_new-leaves :
      (config : PodConfig) (e : Error) (s : Node N TI TP TC)
      → (after_run config s).0 ≡ ok tt
      → (connect base (new_id s) (after_run config s).1).0 ≡ err e
      → ((run_pod_sandbox base translate [] config s).0 ≡ err (status Code.internal))
        × (((run_pod_sandbox base translate [] config s).1.pod_at ≡ (after_run config s).1.pod_at)
            × ((run_pod_sandbox base translate [] config s).1.world
                ≡ (connect base (new_id s) (after_run config s).1).1.world))
  unfolding run_pod_sandbox run_new
  run_new-leaves config e s r f =
      let p = new_id s in
      let run : Exec (Node N TI TP TC) (Unit {0}) = (λ t.
        in_pod p (Life.run H base translate (H.join (t.base_run_dir ∷ codes "pods" ∷ p ∷ []))) t) in
      let placed = place base p (new_pod p config) (record s { world = (H.random_id s.world).1 }) in
      let end = or_internal-ok p run placed r ∙ finish_run-fails p e (after_run config s).1 f in
      (
        ap (λ t. t.0) end,
        (
          ap (λ t. t.1.pod_at) end ∙ connect-pod_at p (after_run config s).1,
          ap (λ t. t.1.world) end,
        ),
      )

  -- RunPodSandbox with a supported runtime handler, where Run of the pod succeeds and SetUpNetwork
  -- fails, answers Internal, leaves every pod as Run and SetUpNetwork left it, and calls nothing
  -- on the host after SetUpNetwork: the pod that runs is neither stopped nor deleted.
  pub run_pod_sandbox-leaves :
      (handler : Text) (config : PodConfig) (e : Error) (s : Node N TI TP TC)
      → (is_nil handler || handler == runtime_name) ≡ true
      → (after_run config s).0 ≡ ok tt
      → (connect base (new_id s) (after_run config s).1).0 ≡ err e
      → ((run_pod_sandbox base translate handler config s).0 ≡ err (status Code.internal))
        × (((run_pod_sandbox base translate handler config s).1.pod_at
              ≡ (after_run config s).1.pod_at)
            × ((run_pod_sandbox base translate handler config s).1.world
                ≡ (connect base (new_id s) (after_run config s).1).1.world))
  unfolding run_pod_sandbox
  run_pod_sandbox-leaves handler config e s k r f =
      let same : run_pod_sandbox base translate handler config s
          ≡ run_pod_sandbox base translate [] config s =
        ground arith in
      rw same (run_new-leaves config e s r f)
