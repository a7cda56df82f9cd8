-- ===== src/Server/Device/Listed.antt =====
-- What ListAndWatch of pkg/server/device/device.go learns of the events that the goroutine of monitorGPUs
-- hears.
use singularity_cri.Base.{
  ◌≡◌, ℕ, nat_eq, ◌==◌, ◌||◌, Bool, false, Option, none, some, if◌then◌else◌, refl, sym, ap, ◌∙◌,
  arith, ◌≤◌, List, [], ◌∷◌, ◌++◌, length, length-append, append-nil, append_assoc,
}
use singularity_cri.Base.Text.{Text, text_eq, text_beq_iff}
use singularity_cri.Base.Dict.{lookup, lookup-insert}
use singularity_cri.Slice.{contains}
use singularity_cri.Slice.Laws.{contains-append}
use singularity_cri.Server.Device.{Plugin, Health}
use singularity_cri.Server.Device.Monitor.{
  Event, made_ill, Place, sending, Monitor, started, hear, push, fall_ill, list, Step, Reach,
}

-- The error codes of an application, after which a device is still healthy.
abbrev pub of_application : List ℕ
of_application = 31 ∷ 43 ∷ 45 ∷ []

abbrev pub among : ℕ → List ℕ → Bool
among n [] = false
among n (x ∷ xs) = (n == x) || among n xs

-- The devices that an event with a UUID names: all of them where the UUID is empty.
abbrev pub named_by : List Text → Option Text → List Text
named_by ids none = ids
named_by ids (some []) = ids
named_by ids (some (b ∷ bs)) = (b ∷ bs) ∷ []

-- The devices that some events name, in their order.
abbrev pub named : List Text → List Event → List Text
named ids [] = []
named ids (e ∷ es) =
    (if among e.code of_application then [] else named_by ids e.uuid) ++ named ids es

made_ill-named :
    (ids : List Text) (e : Event)
    → made_ill ids e ≡ (if among e.code of_application then [] else named_by ids e.uuid)
unfolding made_ill
made_ill-named ids e = from e.uuid
  where
    from :
        (u : Option Text)
        → made_ill ids (record e { uuid = u })
          ≡ (if among e.code of_application then [] else named_by ids u)
    from none = ground arith
    from (some []) = ground arith
    from (some (b ∷ bs)) = ground arith

-- What the goroutine has yet to send for the last event.
abbrev pub held : Place → List Text
held (Place.at_send id ids) = id ∷ ids
held _ = []

-- Every device that was in the channel or that an event names is received, waits, or is to be sent, in
-- their order; in the hospital those that were received are unhealthy and the others as they were; and
-- the channel is not over its capacity.
abbrev pub IsListed : List Text → Plugin → Monitor → Type 0
IsListed ids p m =
    (m.listed ++ (m.plugin.ill ++ held m.place) ≡ p.ill ++ named ids m.heard)
    × ((x : Text)
        → lookup x m.plugin.hospital
          ≡ (if contains m.listed x then some Health.unhealthy else lookup x p.hospital))
    × (length m.plugin.ill ≤ length ids)

named-append :
    (ids : List Text) (xs ys : List Event) → named ids (xs ++ ys) ≡ named ids xs ++ named ids ys
named-append ids [] ys = refl
named-append ids (x ∷ xs) ys =
    let one = if among x.code of_application then [] else named_by ids x.uuid in
    ap (λ l. one ++ l) (named-append ids xs ys)
    ∙ sym (append_assoc one (named ids xs) (named ids ys))

held-sending : (ids : List Text) → held (sending ids) ≡ ids
unfolding sending
held-sending [] = refl
held-sending (id ∷ ids) = refl

-- Between two places where nothing is held.
moved :
    (ids : List Text) (p : Plugin) (m : Monitor) (q : Place)
    → held m.place ≡ []
    → held q ≡ []
    → IsListed ids p m
    → IsListed ids p (record m { place = q })
moved ids p m q a b (o, h, n) = (ap (λ l. m.listed ++ (m.plugin.ill ++ l)) (b ∙ sym a) ∙ o, h, n)

heard_more :
    (ids : List Text) (p : Plugin) (m : Monitor) (e : Event)
    → held m.place ≡ []
    → m.listed ++ (m.plugin.ill ++ held m.place) ≡ p.ill ++ named ids m.heard
    → m.listed ++ (m.plugin.ill ++ held (sending (made_ill ids e)))
      ≡ p.ill ++ named ids (m.heard ++ (e ∷ []))
heard_more ids p m e a o =
    let before : m.listed ++ m.plugin.ill ≡ p.ill ++ named ids m.heard =
      ap (λ l. m.listed ++ l) (sym (append-nil m.plugin.ill) ∙ ap (λ l. m.plugin.ill ++ l) (sym a))
      ∙ o in
    ap (λ l. m.listed ++ (m.plugin.ill ++ l)) (held-sending (made_ill ids e))
    ∙ sym (append_assoc m.listed m.plugin.ill (made_ill ids e))
    ∙ ap (λ l. l ++ made_ill ids e) before
    ∙ append_assoc p.ill (named ids m.heard) (made_ill ids e)
    ∙ ap (λ l. p.ill ++ (named ids m.heard ++ l)) (sym (append-nil (made_ill ids e)))
    ∙ ap (λ l. p.ill ++ (named ids m.heard ++ (l ++ []))) (made_ill-named ids e)
    ∙ ap (λ l. p.ill ++ l) (sym (named-append ids m.heard (e ∷ [])))

Step-IsListed :
    (ids : List Text) (p : Plugin) {m n : Monitor}
    → Step ids m n
    → IsListed ids p m
    → IsListed ids p n
unfolding hear push list fall_ill
Step-IsListed ids p {m} (Step.quits at d) h = moved ids p m Place.returned (ap held at) refl h
Step-IsListed ids p {m} (Step.waits at d) h = moved ids p m Place.at_wait (ap held at) refl h
Step-IsListed ids p {m} (Step.failed at) h = moved ids p m Place.at_select (ap held at) refl h
Step-IsListed ids p {m} (Step.event e at) (o, h, n) = (heard_more ids p m e (ap held at) o, h, n)
Step-IsListed ids p {m} (Step.sends id rest at r) (o, h, n) = (
  ap (λ l. m.listed ++ ((m.plugin.ill ++ (id ∷ [])) ++ l)) (held-sending rest)
      ∙ ap (λ l. m.listed ++ l)
          (append_assoc m.plugin.ill (id ∷ []) rest ∙ ap (λ l. m.plugin.ill ++ held l) (sym at))
      ∙ o,
  h,
  rw (length-append m.plugin.ill (id ∷ [])) (omega arith),
)
Step-IsListed ids p (Step.called sent s) h = h
Step-IsListed ids p (Step.ended others n d) h = h
Step-IsListed ids p {m} (Step.lists id rest others sent l e) (o, h, n) = (
  append_assoc m.listed (id ∷ []) (rest ++ held m.place)
      ∙ ap (λ l. m.listed ++ (l ++ held m.place)) (sym e)
      ∙ o,
  λ x. ground (
    arith,
    h x,
    lookup-insert id x Health.unhealthy m.plugin.hospital,
    contains-append m.listed (id ∷ []) x,
    text_beq_iff id x,
  ),
  shorter id rest m.plugin.ill e n,
)
  where
    shorter :
        (id : Text) (rest ill : List Text)
        → ill ≡ id ∷ rest
        → length ill ≤ length ids
        → length rest ≤ length ids
    shorter id rest ill e n = grind (arith, ap length e)
Step-IsListed ids p (Step.stopped s) h = h
Step-IsListed ids p (Step.shut_down d) h = h

-- In every state that the goroutine of monitorGPUs, NVML, the calls of ListAndWatch, Stop and
-- Shutdown can reach from a new plugin: the devices that ListAndWatch received, those in the
-- channel and those that the goroutine is about to send are those that were in the channel at the
-- start and those that the events name, in their order, an event of a code other than 31, 43 and
-- 45 its device, or all devices where it has none; in the hospital the received devices are
-- unhealthy and the others are as at the start; and the channel has no more devices than its
-- capacity. It had no more at the start.
pub Reach-IsListed :
    (ids : List Text) (p : Plugin) (m : Monitor)
    → length p.ill ≤ length ids
    → Reach ids (started p) m
    → IsListed ids p m
Reach-IsListed ids p m n Reach.here = (refl, λ x. refl, n)
Reach-IsListed ids p m n (Reach.next r st) = Step-IsListed ids p st (Reach-IsListed ids p _ n r)
