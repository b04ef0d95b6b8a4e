-- ===== src/Notify/Dispatcher/Marking.antt =====
-- internal/notify/dispatcher.go: when an alert group is marked as sent.
use alertmanager_webhook_rel.Base.{
  Bool, List, Option, Text, [], ap, arith, eq_nil_of_length, false, get_elem?, if◌then◌else◌, inl,
  inr, none, refl, some, subst, suc, true, zero, ℕ, ◌++◌, ◌+◌, ◌<◌, ◌==◌, ◌∷◌, ◌≡◌, ◌⊎◌,
}
use alertmanager_webhook_rel.Alerts.{AlertGroup, Instant}
use alertmanager_webhook_rel.Notify.{Notification}
use alertmanager_webhook_rel.Notify.Queue.{Select, dequeue_wait, on_buffer, receive, try_receive}
use alertmanager_webhook_rel.Notify.State.{
  State, Lane, Phase, Worker, closing, collecting, fanning, idle, joining, polling, put_lane,
  reporting, returned, selecting, sending, stopped, waiting, start,
}
use alertmanager_webhook_rel.Notify.Worker.{work_lane}
use alertmanager_webhook_rel.Notify.Dispatcher.{
  step, run, Action, advance, advance_phase, after_enqueue, begin, begin_group, begin_phase, cancel,
  close_lane, close_phase, close_queue, collect, conclude, offer, offer_lane, offer_phase, poll,
  settle, tick, tick_phase, work, work_at,
}
use alertmanager_webhook_rel.Notify.Dispatcher.Lanes.{failure-le-load, failures, unsent-le-load}
use alertmanager_webhook_rel.Notify.Dispatcher.Invariant.{InvAt, Inv}
use alertmanager_webhook_rel.Notify.Dispatcher.Reach.{run-start-Inv}

-- The dispatcher stands behind its second loop, with every result in and `allOK` true.
abbrev pub IsAtEnd : Phase → Notification → Type 0
IsAtEnd (collecting m k all_ok gs) n = (m ≡ n) × (k ≡ 0) × (all_ok ≡ true)
IsAtEnd _ n = ⊥

-- What is known when `MarkSent` is called for a notification.
pub record Delivers (s : State) (n : Notification) : Type 0 where
  pub at_end : IsAtEnd s.phase n
  pub some_accepted : 0 < s.round.accepted
  pub all_delivered : s.round.delivered ≡ s.round.accepted
  pub none_failed : s.round.failed ≡ 0

marked-work_lane :
    (s : State) (i : ℕ) (lane : Lane) (w : Worker) (choice : Select) (e : Option Text)
    → (work_lane s i lane w choice e).marked ≡ s.marked
unfolding work_lane try_receive receive dequeue_wait
marked-work_lane s i lane idle choice e = ground arith
marked-work_lane s i lane waiting on_buffer e = ground arith
marked-work_lane s i lane waiting choice e = ground arith
marked-work_lane s i lane (sending n) choice e = refl
marked-work_lane s i lane (reporting r) choice e = ground arith
marked-work_lane s i lane returned choice e = refl

marked-offer :
    (s : State) (expired : Bool) (choice : Select) (p : Phase)
    → (offer_phase s expired choice p).marked ≡ s.marked
unfolding offer_phase offer_lane after_enqueue
marked-offer s expired choice (fanning n i enqueued gs) = ground arith
marked-offer s expired choice _ = refl

marked-tick :
    (s : State) (groups : Option (List AlertGroup)) (p : Phase)
    → (tick_phase s groups p).marked ≡ s.marked
unfolding tick_phase poll
marked-tick s groups selecting = ground arith
marked-tick s groups _ = refl

marked-begin : (s : State) (now : Instant) (p : Phase) → (begin_phase s now p).marked ≡ s.marked
unfolding begin_phase begin_group
marked-begin s now (polling gs) = ground arith
marked-begin s now _ = refl

marked-close : (s : State) (i : ℕ) (p : Phase) → (close_phase s i p).marked ≡ s.marked
unfolding close_phase close_lane put_lane
marked-close s i closing = ground arith
marked-close s i _ = refl

marked-work :
    (s : State) (i : ℕ) (choice : Select) (e : Option Text) (l : Option Lane)
    → (work_at s i choice e l).marked ≡ s.marked
unfolding work_at
marked-work s i choice e none = refl
marked-work s i choice e (some lane) = marked-work_lane s i lane lane.worker choice e

abbrev pub Marks : State → State → Type 0
Marks s t =
    (t.marked ≡ s.marked)
    ⊎ ((n : Notification) × (t.marked ≡ s.marked ++ n.group_key ∷ []) × Delivers s n)

marked-advance : (s : State) (p : Phase) → s.phase ≡ p → InvAt s p → Marks s (advance_phase s p)
unfolding advance_phase settle collect conclude
marked-advance s (collecting n zero true gs) e v = inr (
  n,
  refl,
  record {
    at_end = rw e (refl, refl, refl);
    some_accepted = omega (arith, v.honest);
    all_delivered =
        omega (
          arith,
          v.honest,
          v.counts,
          v.sums,
          failure-le-load s.lanes,
          unsent-le-load s.lanes,
          seen,
        );
    none_failed =
        omega (
          arith,
          v.honest,
          v.counts,
          v.sums,
          failure-le-load s.lanes,
          unsent-le-load s.lanes,
          seen,
        );
  },
)
  where
    seen : failures s.results ≡ 0
    seen = ap failures (eq_nil_of_length s.results (omega (arith, v.counts)))
marked-advance s (collecting n zero false gs) e v = inl refl
marked-advance s (collecting n (suc k) all_ok gs) e v = inl (ground arith)
marked-advance s selecting e v = inl (ground arith)
marked-advance s (polling gs) e v = inl refl
marked-advance s (fanning n i enqueued gs) e v = inl (ground arith)
marked-advance s closing e v = inl (ground arith)
marked-advance s joining e v = inl (ground arith)
marked-advance s stopped e v = inl refl

pub marked-step : (s : State) (a : Action) → Inv s → Marks s (step s a)
unfolding step
marked-step s cancel v = inl refl
marked-step s (tick groups) v = inl (marked-tick s groups s.phase)
marked-step s (begin now) v = inl (marked-begin s now s.phase)
marked-step s (offer expired choice) v = inl (marked-offer s expired choice s.phase)
marked-step s advance v = marked-advance s s.phase refl v
marked-step s (close_queue i) v = inl (marked-close s i s.phase)
marked-step s (work i choice e) v = inl (marked-work s i choice e (get_elem? s.lanes i))

-- In any state that a schedule can reach, a step of any goroutine calls `MarkSent` only with the key
-- of the dispatcher's current notification, after at least one queue took it, every send of an
-- accepted notification returned nil, and none failed.
pub marks_only_delivered :
    (names : List Text) (batch size : ℕ) (actions : List Action) (a : Action)
    → let s = run (start names batch size) actions in
      ((step s a).marked ≡ s.marked)
      ⊎ ((n : Notification) × ((step s a).marked ≡ s.marked ++ n.group_key ∷ []) × Delivers s n)
marks_only_delivered names batch size actions a =
    marked-step _ a (run-start-Inv names batch size actions)

conclude_marks-Inv :
    (s : State) (n : Notification) (all_ok : Bool) (gs : List AlertGroup)
    → InvAt s (collecting n 0 all_ok gs)
    → (conclude s n all_ok gs).marked
      ≡ (if s.round.failed == 0 then s.marked ++ n.group_key ∷ [] else s.marked)
unfolding conclude
conclude_marks-Inv s n true gs v =
    let seen : failures s.results ≡ 0 =
      ap failures (eq_nil_of_length s.results (omega (arith, v.counts))) in
    let none_failed : s.round.failed ≡ 0 =
      omega (arith, v.honest, v.counts, failure-le-load s.lanes) in
    ground arith
conclude_marks-Inv s n false gs v =
    let some_failed : 0 < s.round.failed = omega (arith, v.honest) in ground arith

-- In any state that a schedule can reach, when every result of a round is in, the dispatcher's next
-- step calls `MarkSent` if no send of the round failed, and otherwise leaves the group pending; and
-- every accepted notification was sent once.
pub conclude_marks :
    (names : List Text) (batch size : ℕ) (actions : List Action) (n : Notification) (all_ok : Bool)
    (gs : List AlertGroup)
    → let s = run (start names batch size) actions in
      s.phase ≡ collecting n 0 all_ok gs
      → ((step s advance).marked
          ≡ (if s.round.failed == 0 then s.marked ++ n.group_key ∷ [] else s.marked))
        × (s.round.delivered + s.round.failed ≡ s.round.accepted)
unfolding step advance_phase
conclude_marks names batch size actions n all_ok gs e =
    let s = run (start names batch size) actions in
    let v : InvAt s (collecting n 0 all_ok gs) =
      subst (InvAt s) e (run-start-Inv names batch size actions) in
    (
      rw (e, advance_phase) (conclude_marks-Inv s n all_ok gs v),
      omega (arith, v.sums, v.counts, unsent-le-load s.lanes),
    )
