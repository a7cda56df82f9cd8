-- ===== src/Kube/Pod/Life/Skipped.antt =====
-- Remove of a pod with three or more containers: the loop skips the second.
use singularity_cri.Base.{
  ◌≡◌, refl, sym, ◌≢◌, ℕ, nat_eq, Bool, true, false, Option, none, some, List, ◌∷◌, ◌==◌, arith,
  Bool-cases, inl, inr, zero, suc, ◌⊎◌,
}
use singularity_cri.Base.Text.{Text, text_eq, text_beq_iff}
use singularity_cri.Base.Result.{ok}
use singularity_cri.Base.Exec.{Exec, first-ok, then_lem}
use singularity_cri.Runtime.Host.{Host}
use singularity_cri.Kube.Members
use singularity_cri.Slice.{contains}
use singularity_cri.Kube.Capabilities.{get_elem?}
use singularity_cri.Kube.Members.Array.{
  FirstOnly, get_elem?-ne, remove_container-FirstOnly, remove_container-shifts,
}
use singularity_cri.Kube.Container.Life.Remove.{remove-Left, remove_removed}
use singularity_cri.Kube.Pod.{Yard, enter, in_container, range_containers, visit, terminate}
use mathlib.Core.Path.{subst}
use singularity_cri.Kube.Pod.{expect_state}
use singularity_cri.Kube.Pod.Life.Idempotent.{remove_present-is_removed}
use singularity_cri.Kube.Pod.Life.{remove, remove_present, remove_process, remove_container}

module _ (H : Host) (base : List Text) where
  -- Every container is pointed to by its own ID.
  abbrev pub Addressed : Yard H → Type 0
  Addressed s = (c : Text) → (s.containers c).id ≡ c

  -- A container that the loop over the pod's containers has passed by.
  record Passed (b : Text) (s : Yard H) : Type 0 where
    first : FirstOnly b s.pod.containers
    addressed : Addressed s
    present : (s.containers b).is_removed ≡ false

  -- One round, on the container at x.
  record Round (x : Text) (s t : Yard H) : Type 0 where
    others : (c : Text) → c ≢ x → t.containers c ≡ s.containers c
    own_id : (t.containers x).id ≡ (s.containers x).id
    list :
        (t.pod.containers ≡ s.pod.containers)
        ⊎ (t.pod.containers ≡ Members.remove_container s.pod.containers (s.containers x).id)

  remove_container-Round :
      (x : Text) (s : Yard H)
      → (remove_container H base x s).0 ≡ ok tt
      → Round x s (remove_container H base x s).1
  unfolding remove_container in_container
  remove_container-Round x s h = elim (Bool-cases (s.containers x).is_removed) [
    | inl gone ↦
        let same = remove_removed H base (enter H x s) gone in
        record {
          others = λ c ne. ground (arith, same, text_beq_iff x c);
          own_id = ground (arith, same, text_beq_iff x x);
          list = inl (ground (arith, same));
        }
    | inr here ↦
        let left = remove-Left H base (enter H x s) here (ground arith) in
        record {
          others = λ c ne. ground (arith, text_beq_iff x c);
          own_id = ground (arith, left.id, text_beq_iff x x);
          list = inr (ground (arith, left.containers));
        }
  ]

  Round-Passed : (b x : Text) (s t : Yard H) → x ≢ b → Passed b s → Round x s t → Passed b t
  Round-Passed b x s t ne p r = record {
    first = elim r.list [
      | inl e ↦ rw e p.first
      | inr e ↦ rw (e, p.addressed x) (remove_container-FirstOnly s.pod.containers b x ne p.first)
    ];
    addressed = λ c. addressed c (Bool-cases (c == x));
    present = rw (r.others b (λ e. ne (sym e))) p.present;
  }
    where
      addressed : (c : Text) → ((c == x) ≡ true) ⊎ ((c == x) ≡ false) → (t.containers c).id ≡ c
      addressed c (inl e) = ground (arith, text_beq_iff c x, r.own_id, p.addressed x)
      addressed c (inr e) = ground (arith, text_beq_iff c x, r.others c, p.addressed c)

  visit-Passed :
      (b : Text) (i : ℕ) (o : Option Text) (s : Yard H)
      → Passed b s
      → get_elem? s.pod.containers.cells (suc i) ≡ o
      → (visit H o (remove_container H base) s).0 ≡ ok tt
      → Passed b (visit H o (remove_container H base) s).1
  unfolding visit
  visit-Passed b i none s p e h = cc
  visit-Passed b i (some x) s p e h =
      Round-Passed b x s (remove_container H base x s).1
        (get_elem?-ne p.first.0 i b x p.first.2 (rw p.first.1 at e)) p
        (remove_container-Round x s h)

  -- From the second round on, the loop does not meet the container in the first cell.
  range-Passed :
      (b : Text) (rounds i : ℕ) (s : Yard H)
      → Passed b s
      → (range_containers H (remove_container H base) rounds (suc i) s).0 ≡ ok tt
      → Passed b (range_containers H (remove_container H base) rounds (suc i) s).1
  unfolding range_containers
  range-Passed b zero i s p h = p
  range-Passed b (suc rounds) i s p h =
      let round : Exec (Yard H) (Unit {0}) =
        (λ u. visit H (get_elem? u.pod.containers.cells (suc i)) (remove_container H base) u) in
      let rest = range_containers H (remove_container H base) rounds (suc (suc i)) in
      let next =
        visit-Passed b i (get_elem? s.pod.containers.cells (suc i)) s p refl
          (first-ok round rest s h) in
      let e = then_lem round rest s h in
      rw e (range-Passed b rounds (suc i) (round s).1 next (rw e at h))

  -- A pod with three containers or more, none of them removed yet.
  pub record Crowded (a b : Text) (s : Yard H) : Type 0 where
    pub rest : List Text
    pub more : ℕ
    pub cells : s.pod.containers.cells ≡ a ∷ b ∷ rest
    pub len : s.pod.containers.len ≡ suc (suc (suc more))
    pub once : contains rest b ≡ false
    pub distinct : a ≢ b
    pub addressed : Addressed s
    pub first : (s.containers a).is_removed ≡ false
    pub second : (s.containers b).is_removed ≡ false

  -- The first round removes the first container and moves the second into its cell.
  first_round :
      (s : Yard H) (a b : Text)
      → Crowded a b s
      → (remove_container H base a s).0 ≡ ok tt
      → Passed b (remove_container H base a s).1
  unfolding remove_container in_container
  first_round s a b c done =
      let left = remove-Left H base (enter H a s) c.first (ground arith) in
      let round = remove_container-Round a s done in
      let listed : (remove_container H base a s).1.pod.containers
          ≡ Members.remove_container s.pod.containers a =
        ground (arith, left.containers, c.addressed a) in
      record {
        first =
            rw listed
              (remove_container-shifts s.pod.containers a b c.rest c.more c.cells c.len c.once);
        addressed = λ x.
            ground
              (arith, round.others x, round.own_id, c.addressed x, c.addressed a, text_beq_iff a x);
        present = ground (arith, round.others b, c.second, c.distinct);
      }

  visit_first :
      (o : Option Text) (s : Yard H) (a b : Text)
      → Crowded a b s
      → o ≡ some a
      → (visit H o (remove_container H base) s).0 ≡ ok tt
      → Passed b (visit H o (remove_container H base) s).1
  unfolding visit
  visit_first none s a b c e h = cc
  visit_first (some x) s a b c e h = first_round s x b (rw (same) c) h
    where
      same : x ≡ a
      same = cc

  range_from_first :
      (rounds : ℕ) (s : Yard H) (a b : Text)
      → Crowded a b s
      → (range_containers H (remove_container H base) (suc rounds) 0 s).0 ≡ ok tt
      → Passed b (range_containers H (remove_container H base) (suc rounds) 0 s).1
  unfolding range_containers
  range_from_first rounds s a b c h =
      let round : Exec (Yard H) (Unit {0}) =
        (λ u. visit H (get_elem? u.pod.containers.cells 0) (remove_container H base) u) in
      let rest = range_containers H (remove_container H base) rounds 1 in
      let o = get_elem? s.pod.containers.cells 0 in
      let next = visit_first o s a b c (rw c.cells) (first-ok round rest s h) in
      let e = then_lem round rest s h in rw e (range-Passed b rounds 0 (round s).1 next (rw e at h))

  range_skips :
      (s : Yard H) (a b : Text)
      → Crowded a b s
      → (range_containers H (remove_container H base) s.pod.containers.len 0 s).0 ≡ ok tt
      → Passed b (range_containers H (remove_container H base) s.pod.containers.len 0 s).1
  range_skips s a b c =
      subst
        (λ n.
          (range_containers H (remove_container H base) n 0 s).0 ≡ ok tt
          → Passed b (range_containers H (remove_container H base) n 0 s).1)
        (sym c.len) (range_from_first (suc (suc c.more)) s a b c)

  terminate-containers :
      (force : Bool) (s : Yard H) → (terminate H base force s).1.containers ≡ s.containers
  unfolding terminate expect_state
  terminate-containers force s = ground arith

  remove_process-containers : (s : Yard H) → (remove_process H base s).1.containers ≡ s.containers
  unfolding remove_process
  remove_process-containers s = ground (arith, terminate-containers true s)

  remove_present-skips :
      (s : Yard H) (a b : Text)
      → Crowded a b s
      → (remove_present H base s).0 ≡ ok tt
      → ((remove_present H base s).1.containers b).is_removed ≡ false
  unfolding remove_present
  remove_present-skips s a b c h =
      let loop : Exec (Yard H) (Unit {0}) =
        (λ u. range_containers H (remove_container H base) u.pod.containers.len 0 u) in
      let passed = range_skips s a b c (first-ok loop (remove_process H base) s h) in
      rw (then_lem loop (remove_process H base) s h, remove_process-containers (loop s).1)
        passed.present

  -- For a pod with three containers or more, each at the address of its own ID, the second listed
  -- once and different from the first, and neither of these two removed: a Remove of the pod that
  -- succeeds marks the pod as removed and leaves the second container not removed, since the
  -- removal of the first moves it into the cell that the loop has left.
  pub remove-skips :
      (s : Yard H) (a b : Text)
      → Crowded a b s
      → s.pod.is_removed ≡ false
      → (remove H base s).0 ≡ ok tt
      → ((remove H base s).1.pod.is_removed ≡ true)
        × (((remove H base s).1.containers b).is_removed ≡ false)
  unfolding remove
  remove-skips s a b c off h =
      ground (arith, remove_present-skips s a b c, remove_present-is_removed H base s)
