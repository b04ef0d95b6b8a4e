-- ===== src/Notify/Dispatcher/Steps.antt =====
-- internal/notify/dispatcher.go: a step of the dispatcher's goroutine keeps its invariant.
use alertmanager_webhook_rel.Base.{
  All, All-snoc, Bool, Bool-cases, List, Option, Option-cases, [], ap, arith, err, false, get_elem?,
  inl, inr, length, length-append, length-set, lt_of_get_elem?, ltb, none, ok, refl, set, some,
  subst, suc, sym, true, zero, ℕ, ◌&&◌, ◌++◌, ◌||◌, ◌∷◌, ◌≡◌, ◌⊎◌,
}
use alertmanager_webhook_rel.Alerts.{AlertGroup}
use alertmanager_webhook_rel.Notify.{Notification, SendResult}
use alertmanager_webhook_rel.Notify.Queue.{
  Queue, QueueError, Select, enqueue, on_buffer, on_ctx, on_done, queue_closed, queue_full,
}
use alertmanager_webhook_rel.Notify.State.{State, Lane, fanning, Phase, collecting}
use alertmanager_webhook_rel.Notify.Dispatcher.{
  succeeded, after_enqueue, collect, conclude, offer_lane, offer_phase, settle,
}
use alertmanager_webhook_rel.Notify.Dispatcher.Lanes.{
  All-get, All-set, Carries, failure, load, total-set, unsent, failures,
}
use alertmanager_webhook_rel.Notify.Dispatcher.Invariant.{InvAt, Inv, IsHonest}

pub stay : (s : State) {p : Phase} → s.phase ≡ p → InvAt s p → Inv s
stay s e v = subst (InvAt s) (sym e) v

enqueue_cases :
    (q : Queue Notification) (expired : Bool) (n : Notification) (choice : Select)
    → (enqueue q expired n choice ≡ none)
      ⊎ (((e : QueueError) × (enqueue q expired n choice ≡ some (err e, q)))
          ⊎ (enqueue q expired n choice ≡ some (ok tt, record q { ch = q.ch ++ n ∷ [] })))
unfolding enqueue
enqueue_cases q expired n on_buffer = elim (Bool-cases q.closed) [
  | inl c ↦ inr (inl (queue_closed, ground arith))
  | inr c ↦ elim (Bool-cases (ltb (length q.ch) q.size)) [
    | inl r ↦ inr (inr (ground arith))
    | inr r ↦ inl (ground arith)
  ]
]
enqueue_cases q expired n on_ctx = elim (Bool-cases q.closed) [
  | inl c ↦ inr (inl (queue_closed, ground arith))
  | inr c ↦ elim (Bool-cases expired) [
    | inl r ↦ inr (inl (queue_full, ground arith))
    | inr r ↦ inl (ground arith)
  ]
]
enqueue_cases q expired n on_done = elim (Bool-cases q.closed) [
  | inl c ↦ inr (inl (queue_closed, ground arith))
  | inr c ↦ elim (Bool-cases q.done) [
    | inl r ↦ inr (inl (queue_closed, ground arith))
    | inr r ↦ inl (ground arith)
  ]
]

module _ (s : State) (n : Notification) (i enqueued : ℕ) (gs : List AlertGroup) (lane : Lane)
    (at_i : get_elem? s.lanes i ≡ some lane) (v : InvAt s (fanning n i enqueued gs)) where
  accept-InvAt :
      InvAt
        (record s {
          lanes =
              set s.lanes i
                (record lane { queue = record lane.queue { ch = lane.queue.ch ++ n ∷ [] } });
          phase = fanning n (suc i) (suc enqueued) gs;
          round = record s.round { accepted = suc s.round.accepted };
        })
        (fanning n (suc i) (suc enqueued) gs)
  accept-InvAt =
      let new : Lane = record lane { queue = record lane.queue { ch = lane.queue.ch ++ n ∷ [] } } in
      let longer = length-append lane.queue.ch (n ∷ []) in
      let loads = total-set load s.lanes i lane new at_i in
      let unsents = total-set unsent s.lanes i lane new at_i in
      let fails = total-set failure s.lanes i lane new at_i in
      let size = length-set s.lanes i new in
      let inside = lt_of_get_elem? s.lanes i lane at_i in
      let carried = All-get (Carries n.group_key) s.lanes i lane v.current.0 at_i in
      record {
        counts = omega (arith, v.counts);
        sums = omega (arith, v.sums);
        current = (
          All-set (Carries n.group_key) s.lanes i new v.current.0
              (All-snoc (λ m. m.group_key ≡ n.group_key) lane.queue.ch n carried.0 refl, carried.1),
          v.current.1,
        );
        honest = omega (arith, v.honest);
      }

  skip-InvAt :
      InvAt
        (record s { lanes = set s.lanes i lane; phase = fanning n (suc i) enqueued gs })
        (fanning n (suc i) enqueued gs)
  skip-InvAt =
      let loads = total-set load s.lanes i lane lane at_i in
      let unsents = total-set unsent s.lanes i lane lane at_i in
      let fails = total-set failure s.lanes i lane lane at_i in
      let size = length-set s.lanes i lane in
      let inside = lt_of_get_elem? s.lanes i lane at_i in
      let carried = All-get (Carries n.group_key) s.lanes i lane v.current.0 at_i in
      record {
        counts = omega (arith, v.counts);
        sums = omega (arith, v.sums);
        current = (All-set (Carries n.group_key) s.lanes i lane v.current.0 carried, v.current.1);
        honest = omega (arith, v.honest);
      }

  offer-Inv :
      (expired : Bool) (choice : Select)
      → s.phase ≡ fanning n i enqueued gs
      → Inv (after_enqueue s n i enqueued gs lane (enqueue lane.queue expired n choice))
  unfolding after_enqueue
  offer-Inv expired choice e = elim (enqueue_cases lane.queue expired n choice) [
    | inl blocked ↦ rw blocked (stay s e v)
    | inr (inl (_, failed)) ↦ rw failed skip-InvAt
    | inr (inr taken) ↦ rw taken accept-InvAt
  ]

pub offer_phase-Inv :
    (s : State) (expired : Bool) (choice : Select) (p : Phase)
    → s.phase ≡ p
    → InvAt s p
    → Inv (offer_phase s expired choice p)
unfolding offer_phase offer_lane
offer_phase-Inv s expired choice (fanning n i enqueued gs) e v =
    elim (Option-cases (get_elem? s.lanes i)) [
      | inl beyond ↦ rw beyond (stay s e v)
      | inr (lane, at_i) ↦
          rw at_i (offer-Inv s n i enqueued gs lane at_i v (expired || s.ctx_done) choice e)
    ]
offer_phase-Inv s expired choice _ e v = stay s e v

pub settle-Inv :
    (s : State) (n : Notification) (i enqueued : ℕ) (gs : List AlertGroup) (there : Option Lane)
    → s.phase ≡ fanning n i enqueued gs
    → InvAt s (fanning n i enqueued gs)
    → Inv (settle s n enqueued gs there)
unfolding settle
settle-Inv s n i enqueued gs (some lane) e v = stay s e v
settle-Inv s n i zero gs none e v = record {
  counts = v.counts;
  sums = v.sums;
  current = tt;
  honest = tt;
}
settle-Inv s n i (suc k) gs none e v = record {
  counts = v.counts;
  sums = v.sums;
  current = v.current;
  honest = omega (arith, v.honest);
}

pub collect-Inv :
    (s : State) (n : Notification) (k : ℕ) (all_ok : Bool) (gs : List AlertGroup)
    (rs : List SendResult)
    → s.results ≡ rs
    → s.phase ≡ collecting n (suc k) all_ok gs
    → InvAt s (collecting n (suc k) all_ok gs)
    → Inv (collect s n k all_ok gs rs)
unfolding collect succeeded
collect-Inv s n k all_ok gs [] r e v = stay s e v
collect-Inv s n k all_ok gs (x ∷ rest) r e v = record {
  counts = omega (arith, v.counts, ap length r);
  sums = v.sums;
  current = (v.current.0, (subst (All (λ y. y.group_key ≡ n.group_key)) r v.current.1).1);
  honest = seen all_ok v.honest;
}
  where
    seen :
        (ok_before : Bool)
        → IsHonest s (collecting n (suc k) ok_before gs)
        → IsHonest
            (record s { results = rest; phase = collecting n k (ok_before && succeeded x.err) gs })
            (collecting n k (ok_before && succeeded x.err) gs)
    seen true h = ground (arith, ap failures r)
    seen false h = ground (arith, ap failures r)

pub conclude-Inv :
    (s : State) (n : Notification) (all_ok : Bool) (gs : List AlertGroup)
    → InvAt s (collecting n 0 all_ok gs)
    → Inv (conclude s n all_ok gs)
unfolding conclude
conclude-Inv s n true gs v = record { counts = v.counts; sums = v.sums; current = tt; honest = tt }
conclude-Inv s n false gs v = record { counts = v.counts; sums = v.sums; current = tt; honest = tt }
