-- ===== src/Server/Device/Stuck.antt =====
-- How the goroutine of monitorGPUs of pkg/server/device/nvml.go may be left behind.
use singularity_cri.Base.{
  ◌≡◌, ◌≢◌, refl, ap, ◌∙◌, arith, ℕ, suc, ◌≤◌, ◌+◌, true, false, none, List, [], ◌∷◌, ◌++◌, length,
  length-append,
}
use singularity_cri.Base.Text.{Text}
use singularity_cri.Server.Device.{Plugin}
use singularity_cri.Server.Device.Monitor.{
  Event, made_ill, Place, sending, Monitor, started, hear, push, Step, Reach,
}

-- Shutdown was called, the goroutine has not returned, and nobody can do anything any more.
abbrev pub IsStuck : List Text → Monitor → Type 0
IsStuck ids m = (m.done ≡ true) × (m.place ≢ Place.returned) × ((n : Monitor) → ¬ Step ids m n)

-- A critical error of no device in particular.
abbrev pub of_all : Event
of_all = record { code = 0; uuid = none }

-- Behind a state, the goroutine is at the select, with this many devices in the channel and the rest as
-- it was.
abbrev Filled : List Text → Monitor → ℕ → Type 0
Filled ids m k =
    (n : Monitor) × Reach ids m n
    × (n.place ≡ Place.at_select)
    × (length n.plugin.ill ≡ k)
    × (n.done ≡ m.done)
    × (n.served ≡ m.served)
    × (n.listeners ≡ m.listeners)

Reach_trans : {ids : List Text} {m n o : Monitor} → Reach ids m n → Reach ids n o → Reach ids m o
Reach_trans r Reach.here = r
Reach_trans r (Reach.next s st) = Reach.next (Reach_trans r s) st

-- Where the channel has room, all is sent.
fill :
    (ids xs : List Text) (m : Monitor)
    → m.place ≡ sending xs
    → length m.plugin.ill + length xs ≤ length ids
    → Filled ids m (length m.plugin.ill + length xs)
unfolding sending push
fill ids [] m p h = (m, Reach.here, p, omega arith, refl, refl, refl)
fill ids (x ∷ xs) m p h =
    let one : length (m.plugin.ill ++ (x ∷ [])) ≡ suc (length m.plugin.ill) =
      length-append m.plugin.ill (x ∷ []) ∙ omega arith in
    let (n, r, q, k, d, s, l) = fill ids xs (push x xs m) refl (rw one (omega arith)) in
    (
      n,
      Reach_trans (Reach.next Reach.here (Step.sends x xs p (omega arith))) r,
      q,
      k ∙ rw one (omega arith),
      d,
      s,
      l,
    )

-- A goroutine at a send into a full channel, with no ListAndWatch and no server, is stuck.
full-IsStuck :
    (ids : List Text) (m : Monitor) (id : Text) (rest : List Text)
    → m.place ≡ Place.at_send id rest
    → length m.plugin.ill ≡ length ids
    → m.done ≡ true
    → m.served ≡ false
    → m.listeners ≡ 0
    → IsStuck ids m
full-IsStuck ids m id rest p f d s l = (d, (λ r. absurd cc), from)
  where
    from : (n : Monitor) → ¬ Step ids m n
    from n (Step.quits q e) = absurd cc
    from n (Step.waits q e) = absurd cc
    from n (Step.failed q) = absurd cc
    from n (Step.event e q) = absurd cc
    from n (Step.sends other more q r) = omega arith
    from n (Step.called sent t) = absurd cc
    from n (Step.ended others t e) = absurd cc
    from n (Step.lists other more others sent t e) = absurd cc
    from n (Step.stopped t) = absurd cc
    from n (Step.shut_down t) = absurd cc

-- A plugin with at least one device and an empty channel can reach a state in which Shutdown was
-- called, the goroutine of monitorGPUs has not returned, and no step is possible: two critical
-- errors that name no device, and no ListAndWatch that takes the devices out of the channel.
pub started-IsStuck :
    (id : Text) (rest : List Text) (p : Plugin)
    → p.ill ≡ []
    → (m : Monitor) × Reach (id ∷ rest) (started p) m × IsStuck (id ∷ rest) m
unfolding hear made_ill sending
started-IsStuck id rest p h =
    let ids : List Text = id ∷ rest in
    let first : Monitor = hear ids of_all (record (started p) { place = Place.at_wait }) in
    let to_first : Reach ids (started p) first =
      Reach.next (Reach.next Reach.here (Step.waits refl refl)) (Step.event of_all refl) in
    let (n, r, q, k, d, s, l) = fill ids ids first refl (rw h (omega arith)) in
    let second : Monitor = hear ids of_all (record n { place = Place.at_wait }) in
    let last : Monitor = record second { served = false; done = true } in
    (
      last,
      Reach.next
          (Reach.next
            (Reach.next (Reach.next (Reach_trans to_first r) (Step.waits q d))
              (Step.event of_all refl))
            (Step.stopped s))
          (Step.shut_down d),
      full-IsStuck ids last id rest refl (k ∙ ap (λ l. length l + length ids) h ∙ omega arith) refl
          refl l,
    )
