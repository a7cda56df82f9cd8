-- ===== src/Server/Runtime/Forgotten.antt =====
-- RemovePodSandbox of a pod with three containers or more: what becomes of the second one.
use singularity_cri.Base.{
  ◌≡◌, ◌≢◌, refl, sym, ◌∙◌, ap, arith, ℕ, nat_eq, suc, false, Bool-cases, inl, inr, List, [], ◌∷◌,
  ◌==◌, length,
}
use singularity_cri.Base.Text.{Text, text_eq, text_beq_iff}
use singularity_cri.Base.Result.{ok, err, sentinel, Sentinel}
use singularity_cri.Patricia.{Trie, IsLawful}
use singularity_cri.TruncIndex.{TruncIndex, check_key}
use singularity_cri.TruncIndex.Keys.{IsConsistent, delete-IsConsistent}
use singularity_cri.TruncIndex.Ids.{HasLength, delete-HasLength}
use singularity_cri.Runtime.Host.{Host}
use singularity_cri.Index.Pods as PodIndex
use singularity_cri.Index.Containers as ContainerIndex
use singularity_cri.Index.Containers.Laws.{find-remove, find-remove_ne}
use singularity_cri.Kube.Members.{live, take}
use singularity_cri.Kube.Pod.Life
use singularity_cri.Kube.Pod.Life.Skipped.{Crowded, remove-skips}
use singularity_cri.Network.{Cni}
use singularity_cri.Server.Runtime.{Node, in_pod, yard_of}
use singularity_cri.Server.Runtime.Pods.{remove_pod_sandbox, remove_found, remove_listed, unlist}

-- Whole IDs of one length.
abbrev pub AreWhole : ℕ → List Text → Type 0
AreWhole n [] = Unit
AreWhole n (c ∷ cs) = ((length c ≡ n) × (check_key c ≡ ok tt)) × AreWhole n cs

module _ {TC : Trie Text} (L : IsLawful TC) (n : ℕ) where
  -- An index on whole IDs of one length.
  pub record IsSound (i : TruncIndex TC) : Type 0 where
    pub consistent : IsConsistent TC i
    pub sized : HasLength TC n i

  remove-IsSound :
      (c : Text) (i : TruncIndex TC)
      → AreWhole n (c ∷ [])
      → IsSound i
      → IsSound (ContainerIndex.remove TC c i).1
  unfolding ContainerIndex.remove
  remove-IsSound c i w h = record {
    consistent = delete-IsConsistent TC L i h.consistent c;
    sized = delete-HasLength TC L n i h.consistent h.sized c w.0.0;
  }

  abbrev pub Absent : Text → TruncIndex TC → Type 0
  Absent b i = ContainerIndex.find TC i b ≡ err (sentinel Sentinel.index_not_found)

  remove-Absent :
      (c b : Text) (i : TruncIndex TC)
      → AreWhole n (c ∷ b ∷ [])
      → IsSound i
      → Absent b i
      → Absent b (ContainerIndex.remove TC c i).1
  remove-Absent c b i w h a = elim (Bool-cases (c == b)) [
    | inl e ↦
        let same : c ≡ b = ground (arith, text_beq_iff c b) in
        rw (sym same) ((find-remove TC L n i h.consistent h.sized c w.0.0 w.0.1).1)
    | inr e ↦
        let ne : c ≢ b = ground (arith, text_beq_iff c b) in
        find-remove_ne TC L n i h.consistent h.sized c w.0.0 w.0.1 b w.1.0.0 w.1.0.1 ne ∙ a
  ]

module _ {H : Host} {N : Cni H} {TI : Trie ℕ} {TP TC : Trie Text} (base : List Text)
    (L : IsLawful TC) (n : ℕ) where
  -- One round of the loop over the IDs always succeeds.
  abbrev without : Text → Node N TI TP TC → Node N TI TP TC
  without c s = record s { containers = (ContainerIndex.remove TC c s.containers).1 }

  unlist_round :
      (c : Text) (cs : List Text) (s : Node N TI TP TC)
      → AreWhole n (c ∷ [])
      → IsSound L n s.containers
      → unlist base (c ∷ cs) s ≡ unlist base cs (without c s)
  unfolding unlist
  unlist_round c cs s w h =
      ground (arith, find-remove TC L n s.containers h.consistent h.sized c w.0.0 w.0.1)

  unlist-Absent :
      (b : Text) (cs : List Text) (s : Node N TI TP TC)
      → AreWhole n (b ∷ cs)
      → IsSound L n s.containers
      → Absent L n b s.containers
      → Absent L n b (unlist base cs s).1.containers
  unfolding unlist
  unlist-Absent b [] s w h a = a
  unlist-Absent b (c ∷ cs) s w h a = rw (unlist_round c cs s (w.1.0, tt) h) (
      unlist-Absent b cs (without c s) (w.0, w.1.1)
        (remove-IsSound L n c s.containers (w.1.0, tt) h)
        (remove-Absent L n c b s.containers (w.1.0, (w.0, tt)) h a))

  -- The second of the IDs is gone after the loop, as each of them is.
  unlist-second :
      (a b : Text) (cs : List Text) (s : Node N TI TP TC)
      → AreWhole n (a ∷ b ∷ cs)
      → IsSound L n s.containers
      → Absent L n b (unlist base (a ∷ b ∷ cs) s).1.containers
  unlist-second a b cs s w h =
      let first = remove-IsSound L n a s.containers (w.0, tt) h in
      rw (unlist_round a (b ∷ cs) s (w.0, tt) h, unlist_round b cs (without a s) (w.1.0, tt) first)
        (unlist-Absent b cs (without b (without a s)) w.1
          (remove-IsSound L n b (without a s).containers (w.1.0, tt) first)
          ((find-remove TC L n (without a s).containers first.consistent first.sized b w.1.0.0
            w.1.0.1).1))

  unlist-container_at :
      (cs : List Text) (s : Node N TI TP TC) → (unlist base cs s).1.container_at ≡ s.container_at
  unfolding unlist
  unlist-container_at [] s = refl
  unlist-container_at (c ∷ cs) s = ground (arith, unlist-container_at cs (without c s))

  live-Crowded :
      (a b : Text) (p : Text) (s : Node N TI TP TC)
      → (c : Crowded H base a b (yard_of p s))
      → live (s.pod_at p).containers ≡ a ∷ b ∷ take (suc c.more) c.rest
  live-Crowded a b p s c = rw (c.cells, c.len)

  remove_listed-forgets :
      (p a b : Text) (cs : List Text) (s : Node N TI TP TC)
      → Crowded H base a b (yard_of p s)
      → (s.pod_at p).is_removed ≡ false
      → AreWhole n (a ∷ b ∷ cs)
      → IsSound L n s.containers
      → (remove_listed base p (a ∷ b ∷ cs) s).0 ≡ ok tt
      → (((remove_listed base p (a ∷ b ∷ cs) s).1.container_at b).is_removed ≡ false)
        × Absent L n b (remove_listed base p (a ∷ b ∷ cs) s).1.containers
  unfolding remove_listed in_pod
  remove_listed-forgets p a b cs s c off w h done =
      let kept : Node N TI TP TC → Node N TI TP TC =
        λ t. record t { pods = (PodIndex.remove TP p t.pods).1 } in
      let t = (in_pod p (Life.remove H base) s).1 in
      ground (
        arith,
        remove-skips H base (yard_of p s) a b c off,
        unlist-second a b cs (kept t) w h,
        unlist-container_at (a ∷ b ∷ cs) (kept t),
      )

  -- RemovePodSandbox of a pod with three containers or more, each at the address of its own ID,
  -- the second listed once and different from the first, and neither of these two nor the pod
  -- removed: where it succeeds, the second container is not removed, and the container index does
  -- not find it any more. The index is consistent, over a lawful trie, and its IDs and those of
  -- the pod's containers have one length and pass the checks.
  pub remove_pod_sandbox-forgets :
      (id p a b : Text) (s : Node N TI TP TC)
      → PodIndex.find TP s.pods id ≡ ok p
      → Crowded H base a b (yard_of p s)
      → (s.pod_at p).is_removed ≡ false
      → AreWhole n (live (s.pod_at p).containers)
      → IsSound L n s.containers
      → (remove_pod_sandbox base id s).0 ≡ ok tt
      → (((remove_pod_sandbox base id s).1.container_at b).is_removed ≡ false)
        × (ContainerIndex.find TC (remove_pod_sandbox base id s).1.containers b
            ≡ err (sentinel Sentinel.index_not_found))
  unfolding remove_pod_sandbox remove_found
  remove_pod_sandbox-forgets id p a b s f c off w h done =
      let members = live-Crowded a b p s c in
      let listed =
        remove_listed-forgets p a b (take (suc c.more) c.rest) s c off (rw members at w) h in
      let same : remove_pod_sandbox base id s
          ≡ remove_listed base p (a ∷ b ∷ take (suc c.more) c.rest) s =
        rw f (ap (λ cs. remove_listed base p cs s) members) in
      rw same (listed (rw same at done))
