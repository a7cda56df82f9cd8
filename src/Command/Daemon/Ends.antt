-- ===== src/Command/Daemon/Ends.antt =====
-- How main of cmd/server/main.go ends: it always can, and what it may leave behind.
use singularity_cri.Base.{
  ap, ◌∙◌, ◌≡◌, ◌≢◌, ◌⊎◌, inl, inr, refl, arith, Bool, true, false, List, [], ◌∷◌,
}
use singularity_cri.Base.Text.{codes, text_beq}
use singularity_cri.Fs.Watcher.{WatchEvent, Op}
use singularity_cri.Command.Daemon.{
  Worker, Started, Place, Daemon, launch, leave, on_event, restart, worker_of, is_recreated,
  is_create, current, Step, Reach,
}
use singularity_cri.Command.Daemon.Exits.{Reach-launch-IsSound, Known}

Reach_trans : {c d e : Daemon} → Reach c d → Reach d e → Reach c e
Reach_trans r Reach.here = r
Reach_trans r (Reach.next s st) = Reach.next (Reach_trans r s) st

-- A state behind this one in which main has returned.
abbrev pub Ends : Daemon → Type 0
Ends d = (e : Daemon) × Reach d e × (e.place ≡ Place.exited)

Ends-back : {c d : Daemon} → Reach c d → Ends d → Ends c
Ends-back r (e, s, p) = (e, Reach_trans r s, p)

Worker-cases : (w : Worker) → (w ≡ Worker.serving) ⊎ (w ≢ Worker.serving)
Worker-cases Worker.absent = inr cc
Worker-cases Worker.serving = inl refl
Worker-cases Worker.finished = inr cc

Ends-service : (d : Daemon) → d.place ≡ Place.at_service_wait → d.cancelled ≡ true → Ends d
Ends-service d p c = elim (Worker-cases d.service) [
  | inl s ↦ (
    _,
    Reach.next (Reach.next Reach.here (Step.service_finished (λ q. cc) c s))
        (Step.service_waited p (λ q. cc)),
    refl,
  )
  | inr n ↦ (_, Reach.next Reach.here (Step.service_waited p n), refl)
]

Ends-plugin : (d : Daemon) → d.place ≡ Place.at_plugin_wait → d.cancelled ≡ true → Ends d
Ends-plugin d p c = elim (Worker-cases d.first) [
  | inl s ↦
      Ends-back
        (Reach.next (Reach.next Reach.here (Step.first_finished (λ q. cc) (ground arith) s))
          (Step.plugin_waited p (λ q. cc)))
        (Ends-service _ refl c)
  | inr n ↦ Ends-back (Reach.next Reach.here (Step.plugin_waited p n)) (Ends-service _ refl c)
]

Ends-leaving : (d : Daemon) → Ends (leave d)
unfolding leave
Ends-leaving d = Ends-plugin (leave d) refl refl

Ends-restarting : (d : Daemon) → d.place ≡ Place.restarting → Ends d
unfolding restart worker_of
Ends-restarting d p = Ends-back (Reach.next Reach.here (Step.restarted Started.not_started p)) (
    Ends-leaving (record d {
      place = Place.in_loop;
      plugin_cancelled = false;
      later = Worker.absent ∷ d.later;
    }))

-- Behind the Wait of the restart.
Ends-waited : (d : Daemon) → d.place ≡ Place.at_restart → current d ≢ Worker.serving → Ends d
Ends-waited d p n =
    Ends-back (Reach.next Reach.here (Step.waited p n))
      (Ends-restarting (record d { place = Place.restarting }) refl)

Ends-restart : (d : Daemon) → d.place ≡ Place.at_restart → d.plugin_cancelled ≡ true → Ends d
Ends-restart d p c = elim (Worker-cases (current d)) [
  | inr n ↦ Ends-waited d p n
  | inl s ↦ from d.later refl s
]
  where
    from : (ws : List Worker) → d.later ≡ ws → current d ≡ Worker.serving → Ends d
    from [] e s =
        Ends-back
          (Reach.next Reach.here (Step.first_finished (λ q. cc) (ground arith) (ground arith)))
          (Ends-waited (record d { first = Worker.finished }) p (λ q. ground arith))
    from (w ∷ ws) e s =
        Ends-back
          (Reach.next Reach.here (Step.later_finished ws (λ q. cc) (ground arith) (ground arith)))
          (Ends-waited (record d { later = Worker.finished ∷ ws }) p (λ q. cc))

Ends-from : (p : Place) (d : Daemon) → d.place ≡ p → Known p d → Ends d
Ends-from Place.in_loop d e h = Ends-back (Reach.next Reach.here (Step.signal e)) (Ends-leaving d)
Ends-from Place.at_restart d e h = Ends-restart d e h
Ends-from Place.restarting d e h = Ends-restarting d e
Ends-from Place.at_plugin_wait d e h = Ends-plugin d e h
Ends-from Place.at_service_wait d e h = Ends-service d e h.0
Ends-from Place.exited d e h = (d, Reach.here, e)

-- From every state that main reaches, however it was launched, there are steps to a state in which
-- it has returned: a signal, a wait or a restart never leaves it without a way to end, as long as
-- a goroutine whose context is done finishes.
pub Reach-Ends :
    (configured served watched : Bool) (plugin : Started) (d : Daemon)
    → Reach (launch configured served plugin watched) d
    → Ends d
Reach-Ends configured served watched plugin d r =
    Ends-from d.place d refl (Reach-launch-IsSound configured served watched plugin d r).1

-- The event that the socket of the kubelet was made again.
abbrev pub recreation : WatchEvent
recreation = record {
  path = codes "/var/lib/kubelet/device-plugins/kubelet.sock";
  op = Op.op_create;
}

-- The daemon in the loop with a plugin that serves since a restart, and how it ends.
restarted_end :
    (d : Daemon)
    → d.place ≡ Place.in_loop
    → d.service ≡ Worker.serving
    → d.first ≢ Worker.serving
    → (e : Daemon) × Reach d e
      × (e.place ≡ Place.exited)
      × (e.first ≡ d.first)
      × (e.later ≡ d.later)
unfolding leave
restarted_end d p s n = (
  _,
  Reach.next
      (Reach.next (Reach.next (Reach.next Reach.here (Step.signal p)) (Step.plugin_waited refl n))
        (Step.service_finished (λ q. cc) refl s))
      (Step.service_waited refl (λ q. cc)),
  refl,
  refl,
  refl,
)

-- From the loop with the first device plugin and the service serving, there are steps in which the
-- socket of the kubelet is made again, the plugin is restarted, a signal comes, and main returns
-- while the restarted plugin still serves: the deferred Wait is that of the first WaitGroup.
pub restarted-serving :
    (d : Daemon)
    → d.place ≡ Place.in_loop
    → d.watching ≡ true
    → d.service ≡ Worker.serving
    → d.first ≡ Worker.serving
    → d.later ≡ []
    → (e : Daemon) × Reach d e × (e.place ≡ Place.exited) × (e.later ≡ Worker.serving ∷ [])
unfolding on_event restart is_recreated is_create worker_of text_beq
restarted-serving d p w s f l =
    let a : Daemon = record d { place = Place.at_restart; plugin_cancelled = true } in
    let b : Daemon = record a { first = Worker.finished } in
    let c : Daemon = record b {
      place = Place.in_loop;
      plugin_cancelled = false;
      later = Worker.serving ∷ d.later;
    } in
    let to_a : Reach d a = Reach.next Reach.here (Step.event recreation p w) in
    let to_b : Reach d b = Reach.next to_a (Step.first_finished (λ x. cc) (ground arith) f) in
    let to_c : Reach d c =
      Reach.next (Reach.next to_b (Step.waited refl (λ x. ground arith)))
        (Step.restarted Started.started refl) in
    let (e, r, q, g, k) = restarted_end c refl s (λ x. cc) in
    (e, Reach_trans to_c r, q, k ∙ ap (λ ws. Worker.serving ∷ ws) l)
