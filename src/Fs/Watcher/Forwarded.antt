-- ===== src/Fs/Watcher/Forwarded.antt =====
-- What the reader of Watch gets, in whatever order fsnotify, the context and the reader act.
use singularity_cri.Base.{
  ◌≡◌, ◌≢◌, if◌then◌else◌, ◌⊎◌, inl, inr, refl, sym, ap, ◌∙◌, List, [], ◌∷◌, ◌++◌, arith,
  append-nil, append_assoc,
}
use singularity_cri.Fs.Watcher.{
  Event, Op, WatchEvent, op_of, after_op, handle, Place, Watch, started, Step, Reach,
}

-- The supported events among some, in their order, by their bits: those with the bit of Remove are
-- removals, of the others those with the bit of Create are creations.
abbrev pub supported : List Event → List WatchEvent
supported [] = []
supported (e ∷ es) =
    let rest = supported es in
    if e.remove
    then record { path = e.name; op = Op.op_remove } ∷ rest
    else if e.create
    then record { path = e.name; op = Op.op_create } ∷ rest
    else rest

-- What the goroutine holds and has not sent.
abbrev pub held : Place → List WatchEvent
held Place.at_select = []
held (Place.at_send e) = e ∷ []
held Place.returned = []

supported-append : (xs ys : List Event) → supported (xs ++ ys) ≡ supported xs ++ supported ys
supported-append [] ys = refl
supported-append (x ∷ xs) ys = ground (arith, supported-append xs ys)

held-after : (e : Event) → held (after_op e.name (op_of e)) ≡ supported (e ∷ [])
unfolding after_op op_of
held-after e = ground arith

place-after :
    (e : Event)
    → (after_op e.name (op_of e) ≡ Place.at_select)
      ⊎ ((x : WatchEvent) × (after_op e.name (op_of e) ≡ Place.at_send x))
unfolding after_op op_of
place-after e = from (op_of e)
  where
    from :
        (o : Op)
        → (after_op e.name o ≡ Place.at_select)
          ⊎ ((x : WatchEvent) × (after_op e.name o ≡ Place.at_send x))
    from Op.op_unsupported = inl refl
    from Op.op_remove = inr (_, refl)
    from Op.op_create = inr (_, refl)

abbrev pub IsForwarded : Watch → Type 0
IsForwarded w = w.received ++ held w.place ≡ supported w.arrived

-- Nothing is held at the select.
received-at_select :
    (w : Watch) → w.place ≡ Place.at_select → IsForwarded w → w.received ≡ supported w.arrived
received-at_select w p h = sym (append-nil w.received) ∙ ap (λ l. w.received ++ held l) (sym p) ∙ h

Step-IsForwarded : {v w : Watch} → Step v w → IsForwarded v → IsForwarded w
unfolding handle
Step-IsForwarded {v} (Step.event e p) h =
    rw (held-after e, supported-append v.arrived (e ∷ []))
      (ap (λ l. l ++ supported (e ∷ [])) (received-at_select v p h))
Step-IsForwarded (Step.failed p) h = h
Step-IsForwarded {v} (Step.context_done p) h = append-nil v.received ∙ received-at_select v p h
Step-IsForwarded {v} (Step.taken e p) h =
    append_assoc v.received (e ∷ []) [] ∙ ap (λ l. v.received ++ held l) (sym p) ∙ h

-- In every state that Watch, fsnotify, the context and the reader of the channel can reach: what
-- the reader has received, and what the goroutine is about to send, are those of the events that
-- have come whose bits have Remove, as removals, and of the others those whose bits have Create,
-- as creations, in their order, each once.
pub Reach-IsForwarded : (w : Watch) → Reach started w → IsForwarded w
Reach-IsForwarded w Reach.here = refl
Reach-IsForwarded w (Reach.next r st) = Step-IsForwarded st (Reach-IsForwarded _ r)

Reach_trans : {u v w : Watch} → Reach u v → Reach v w → Reach u w
Reach_trans r Reach.here = r
Reach_trans r (Reach.next s st) = Reach.next (Reach_trans r s) st

-- A state at the select, behind another one, with these events.
abbrev Later : Watch → List Event → Type 0
Later w es = (v : Watch) × Reach w v × (v.place ≡ Place.at_select) × (v.arrived ≡ es)

-- One more event, and the reader that takes what is sent for it.
forward_one : (w : Watch) (e : Event) → w.place ≡ Place.at_select → Later w (w.arrived ++ (e ∷ []))
unfolding handle
forward_one w e p = elim (place-after e) [
  | inl stays ↦ (_, Reach.next Reach.here (Step.event e p), stays, refl)
  | inr (x, sends) ↦
      (_, Reach.next (Reach.next Reach.here (Step.event e p)) (Step.taken x sends), refl, refl)
]

forward_more : (w : Watch) (es : List Event) → w.place ≡ Place.at_select → Later w (w.arrived ++ es)
forward_more w [] p = (w, Reach.here, p, sym (append-nil w.arrived))
forward_more w (e ∷ es) p =
    let (v, r, q, a) = forward_one w e p in
    let (u, s, k, b) = forward_more v es q in
    (u, Reach_trans r s, k, b ∙ ap (λ l. l ++ es) a ∙ append_assoc w.arrived (e ∷ []) es)

-- A goroutine that has not returned comes back to the select.
comes_back : (w : Watch) → w.place ≢ Place.returned → Later w w.arrived
comes_back w n = from w.place refl
  where
    from : (p : Place) → w.place ≡ p → Later w w.arrived
    from Place.at_select p = (w, Reach.here, p, refl)
    from (Place.at_send x) p = (_, Reach.next Reach.here (Step.taken x p), refl, refl)
    from Place.returned p = absurd (n p)

-- From every state that Watch reaches and in which it has not returned, and for any further
-- events: there are steps to a state in which these have come, and the reader has received all of
-- the earlier ones and of these that remove or create: those whose bits have Remove as removals,
-- of the others those whose bits have Create as creations.
pub forwards_all :
    (w : Watch) (es : List Event)
    → Reach started w
    → w.place ≢ Place.returned
    → (v : Watch) × Reach w v
      × (v.arrived ≡ w.arrived ++ es)
      × (v.received ≡ supported (w.arrived ++ es))
forwards_all w es r n =
    let (v, s, p, a) = comes_back w n in
    let (u, t, q, b) = forward_more v es p in
    let all : u.arrived ≡ w.arrived ++ es = b ∙ ap (λ l. l ++ es) a in
    (
      u,
      Reach_trans s t,
      all,
      received-at_select u q (Reach-IsForwarded u (Reach_trans r (Reach_trans s t)))
          ∙ ap supported all,
    )

-- From a watcher that waits to send an event, the only step is that the event is received: the context
-- is not asked there.
pub context-at_send :
    {v w : Watch} (x : WatchEvent)
    → v.place ≡ Place.at_send x
    → Step v w
    → w ≡ record v { place = Place.at_select; received = v.received ++ (x ∷ []) }
context-at_send x p (Step.event e q) = absurd cc
context-at_send x p (Step.failed q) = absurd cc
context-at_send x p (Step.context_done q) = absurd cc
context-at_send {v} x p (Step.taken e q) = cc
