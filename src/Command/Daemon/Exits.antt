-- ===== src/Command/Daemon/Exits.antt =====
-- What holds in every state that main of cmd/server/main.go reaches.
use mathlib.Core.Path.{subst}
use singularity_cri.Base.{
  ap, sym, ◌∙◌, ◌≡◌, ◌≢◌, refl, arith, ℕ, ◌+◌, Bool, true, false, List, [], ◌∷◌,
}
use singularity_cri.Fs.Watcher.{WatchEvent}
use singularity_cri.Command.Daemon.{
  Worker, Started, Place, Daemon, launch, leave, on_event, restart, current, Step, Reach,
}

abbrev pub serves : Worker → ℕ
serves Worker.serving = 1
serves _ = 0

abbrev pub total : List Worker → ℕ
total [] = 0
total (w ∷ ws) = serves w + total ws

-- How many device plugins serve.
abbrev pub plugins : Daemon → ℕ
plugins d = serves d.first + total d.later

-- Those that main has replaced.
abbrev pub others : Worker → List Worker → ℕ
others first [] = 0
others first (w ∷ ws) = serves first + total ws

abbrev pub replaced : Daemon → ℕ
replaced d = others d.first d.later

-- What main knows where it stands.
abbrev pub Known : Place → Daemon → Type 0
Known Place.in_loop d = Unit
Known Place.at_restart d = d.plugin_cancelled ≡ true
Known Place.restarting d = serves (current d) ≡ 0
Known Place.at_plugin_wait d = d.cancelled ≡ true
Known Place.at_service_wait d = (d.cancelled ≡ true) × (serves d.first ≡ 0)
Known Place.exited d = (serves d.first ≡ 0) × (serves d.service ≡ 0)

abbrev pub IsSound : Daemon → Type 0
IsSound d = (replaced d ≡ 0) × Known d.place d

pub serves-eq-zero : (w : Worker) → w ≢ Worker.serving → serves w ≡ 0
serves-eq-zero Worker.absent n = refl
serves-eq-zero Worker.serving n = absurd (n refl)
serves-eq-zero Worker.finished n = refl

on_event-IsSound :
    (e : WatchEvent) (d : Daemon) → d.place ≡ Place.in_loop → IsSound d → IsSound (on_event e d)
unfolding on_event
on_event-IsSound e d p h = ground (arith)

-- All plugins are those that were replaced, and the last one.
pub plugins_lem : (d : Daemon) → plugins d ≡ replaced d + serves (current d)
plugins_lem d = from d.first d.later
  where
    from :
        (f : Worker) (ws : List Worker)
        → serves f + total ws ≡ others f ws + serves (elim ws [ [] ↦ f | v ∷ vs ↦ v ])
    from f [] = omega arith
    from f (v ∷ vs) = omega arith

pub at_place : (d : Daemon) {p : Place} → d.place ≡ p → Known d.place d → Known p d
at_place d e h = subst (λ q. Known q d) e h

restart-IsSound :
    (plugin : Started) (d : Daemon)
    → replaced d ≡ 0
    → serves (current d) ≡ 0
    → IsSound (restart plugin d)
unfolding restart leave
restart-IsSound Started.started d h k = (omega (arith, plugins_lem d), tt)
restart-IsSound Started.unsupported d h k = (omega (arith, plugins_lem d), refl)
restart-IsSound Started.not_started d h k = (omega (arith, plugins_lem d), refl)

service-Known :
    (p : Place) (d : Daemon) → Known p d → Known p (record d { service = Worker.finished })
service-Known Place.exited d h = (h.0, refl)
service-Known Place.in_loop d h = h
service-Known Place.at_restart d h = h
service-Known Place.restarting d h = h
service-Known Place.at_plugin_wait d h = h
service-Known Place.at_service_wait d h = h

first-Known : (p : Place) (d : Daemon) → Known p d → Known p (record d { first = Worker.finished })
first-Known Place.in_loop d h = h
first-Known Place.at_restart d h = h
first-Known Place.restarting d h = ground arith
first-Known Place.at_plugin_wait d h = h
first-Known Place.at_service_wait d h = (h.0, refl)
first-Known Place.exited d h = (refl, h.1)

later-Known :
    (p : Place) (d : Daemon) (ws : List Worker)
    → Known p d
    → Known p (record d { later = Worker.finished ∷ ws })
later-Known Place.in_loop d ws h = h
later-Known Place.at_restart d ws h = h
later-Known Place.restarting d ws h = refl
later-Known Place.at_plugin_wait d ws h = h
later-Known Place.at_service_wait d ws h = h
later-Known Place.exited d ws h = h

finished-replaced :
    (first : Worker) (ws : List Worker) → others first ws ≡ 0 → others Worker.finished ws ≡ 0
finished-replaced first [] h = refl
finished-replaced first (w ∷ ws) h = omega arith

Step-IsSound : {d e : Daemon} → Step d e → IsSound d → IsSound e
unfolding leave
Step-IsSound {d} (Step.event e p w) h = on_event-IsSound e d p h
Step-IsSound (Step.signal p) h = (h.0, refl)
Step-IsSound {d} (Step.waited p w) h = (h.0, serves-eq-zero (current d) w)
Step-IsSound {d} (Step.restarted plugin p) h = restart-IsSound plugin d h.0 (at_place d p h.1)
Step-IsSound {d} (Step.plugin_waited p w) h = (h.0, (at_place d p h.1, serves-eq-zero d.first w))
Step-IsSound {d} (Step.service_waited p w) h =
    (h.0, ((at_place d p h.1).1, serves-eq-zero d.service w))
Step-IsSound {d} (Step.service_finished n c s) h = (h.0, service-Known d.place d h.1)
Step-IsSound {d} (Step.first_finished n c s) h =
    (finished-replaced d.first d.later h.0, first-Known d.place d h.1)
Step-IsSound {d} (Step.later_finished ws n c s) h =
    (ap (others d.first) (sym s) ∙ h.0, later-Known d.place d ws h.1)

launch-IsSound :
    (configured served watched : Bool) (plugin : Started)
    → IsSound (launch configured served plugin watched)
unfolding launch leave
launch-IsSound false served watched plugin = (refl, (refl, refl))
launch-IsSound true false watched plugin = (refl, refl)
launch-IsSound true true true Started.started = (refl, tt)
launch-IsSound true true false Started.started = (refl, refl)
launch-IsSound true true watched Started.unsupported = (refl, tt)
launch-IsSound true true watched Started.not_started = (refl, refl)

-- In every state that main reaches, however it was launched and in whatever order the kubelet, the
-- signals and the goroutines act: none of the device plugins that main has replaced serves, a
-- restart waits for a plugin that was told to stop, and where main has returned, neither the
-- service nor the first device plugin serves.
pub Reach-launch-IsSound :
    (configured served watched : Bool) (plugin : Started) (d : Daemon)
    → Reach (launch configured served plugin watched) d
    → IsSound d
Reach-launch-IsSound configured served watched plugin d Reach.here =
    launch-IsSound configured served watched plugin
Reach-launch-IsSound configured served watched plugin d (Reach.next r st) =
    Step-IsSound st (Reach-launch-IsSound configured served watched plugin _ r)
