-- ===== src/Notify/Dispatcher/OpenSteps.antt =====
-- internal/notify: every step keeps the queues open until the dispatcher shuts down.
use alertmanager_webhook_rel.Base.{
  All, Bool, Bool-cases, List, Option, Option-cases, Result, Text, [], at, err, false, get_elem?,
  inl, inr, length, map, none, ok, refl, some, subst, suc, sym, true, zero, ℕ, ◌==◌, ◌||◌, ◌∷◌, ◌≡◌,
}
use alertmanager_webhook_rel.Alerts.{AlertGroup, Instant}
use alertmanager_webhook_rel.Notify.{Notification, SendResult}
use alertmanager_webhook_rel.Notify.Queue.{Queue, QueueError, Select, enqueue, new_queue}
use alertmanager_webhook_rel.Notify.State.{
  State, Lane, Phase, put_lane, closing, fanning, polling, collecting, joining, new_lane, selecting,
  start,
}
use alertmanager_webhook_rel.Notify.Worker.{work_lane}
use alertmanager_webhook_rel.Notify.Dispatcher.{
  step, run, Action, has_returned, advance_phase, after_enqueue, begin_group, begin_phase,
  close_lane, close_phase, collect, conclude, offer_lane, offer_phase, poll, settle, tick_phase,
  work_at, advance, all_done, all_returned, begin, cancel, close_queue, offer, tick, work,
}
use alertmanager_webhook_rel.Notify.Dispatcher.Work.{phase-work_lane}
use alertmanager_webhook_rel.Notify.Dispatcher.Bounds.{IsShutdown}
use alertmanager_webhook_rel.Notify.Dispatcher.Open.{
  IsOpen, OpenAt, StaysOpen, enqueue-SameQueue, lane-IsOpen, set-IsOpen, work_lane-StaysOpen,
  open_queue,
}

module _ (size : ℕ) where
  abbrev Open : State → Type 0
  Open s = OpenAt size s s.phase

  stay-Open : (s : State) {p : Phase} → s.phase ≡ p → OpenAt size s p → Open s
  stay-Open s e v = subst (OpenAt size s) (sym e) v

  work-Open :
      (s : State) (i : ℕ) (choice : Select) (e : Option Text)
      → Open s
      → Open (work_at s i choice e (get_elem? s.lanes i))
  unfolding work_at
  work-Open s i choice e v = elim (Option-cases (get_elem? s.lanes i)) [
    | inl beyond ↦ rw beyond v
    | inr (lane, at_i) ↦ rw at_i (
        stay-Open (work_lane s i lane lane.worker choice e)
          (phase-work_lane s i lane lane.worker choice e)
          (elim v [
            | inl shut ↦ inl shut
            | inr (all_open, ctx) ↦
                inr (work_lane-StaysOpen size s i lane all_open ctx at_i lane.worker choice e refl)
          ]))
  ]

  after_enqueue-Open :
      (s : State) (n : Notification) (i enqueued : ℕ) (gs : List AlertGroup) (lane : Lane)
      (expired : Bool) (choice : Select)
      (o : Option (Result QueueError (Unit {0}) × Queue Notification))
      → s.phase ≡ fanning n i enqueued gs
      → get_elem? s.lanes i ≡ some lane
      → enqueue lane.queue expired n choice ≡ o
      → StaysOpen size s
      → Open (after_enqueue s n i enqueued gs lane o)
  unfolding after_enqueue has_returned
  after_enqueue-Open s n i enqueued gs lane expired choice none at at_i e (o, c) =
      stay-Open s at (inr (o, c))
  after_enqueue-Open s n i enqueued gs lane expired choice (some (ok u, q)) at at_i e (o, c) =
      let (same, back) = lane-IsOpen size s i lane o c at_i in
      let kept = enqueue-SameQueue lane.queue expired n choice _ q e in
      inr (set-IsOpen size s i lane o c at_i _ (open_queue size lane.queue q kept same, back), c)
  after_enqueue-Open s n i enqueued gs lane expired choice (some (err x, q)) at at_i e (o, c) =
      let (same, back) = lane-IsOpen size s i lane o c at_i in
      let kept = enqueue-SameQueue lane.queue expired n choice _ q e in
      inr (set-IsOpen size s i lane o c at_i _ (open_queue size lane.queue q kept same, back), c)

  offer-Open :
      (s : State) (expired : Bool) (choice : Select) (p : Phase)
      → s.phase ≡ p
      → OpenAt size s p
      → Open (offer_phase s expired choice p)
  unfolding offer_phase offer_lane
  offer-Open s expired choice (fanning n i enqueued gs) at (inl shut) = absurd shut
  offer-Open s expired choice (fanning n i enqueued gs) at (inr v) =
      elim (Option-cases (get_elem? s.lanes i)) [
        | inl beyond ↦ rw beyond (stay-Open s at (inr v))
        | inr (lane, at_i) ↦ rw at_i (
            after_enqueue-Open s n i enqueued gs lane (expired || s.ctx_done) choice _ at at_i refl
              v)
      ]
  offer-Open s expired choice p at v = stay-Open s at v

  settle-Open :
      (s : State) (n : Notification) (enqueued : ℕ) (gs : List AlertGroup) (l : Option Lane)
      → Open s
      → StaysOpen size s
      → Open (settle s n enqueued gs l)
  unfolding settle
  settle-Open s n enqueued gs (some lane) now v = now
  settle-Open s n zero gs none now v = inr v
  settle-Open s n (suc k) gs none now v = inr v

  collect-Open :
      (s : State) (n : Notification) (k : ℕ) (all_ok : Bool) (gs : List AlertGroup)
      (rs : List SendResult)
      → Open s
      → StaysOpen size s
      → Open (collect s n k all_ok gs rs)
  unfolding collect
  collect-Open s n k all_ok gs [] now v = now
  collect-Open s n k all_ok gs (r ∷ rest) now v = inr v

  advance-Open : (s : State) (p : Phase) → s.phase ≡ p → OpenAt size s p → Open (advance_phase s p)
  unfolding advance_phase conclude
  advance-Open s selecting at (inl shut) = absurd shut
  advance-Open s selecting at (inr v) = elim (Bool-cases s.ctx_done) [
    | inl ended ↦ rw ended (inl tt)
    | inr not_yet ↦ rw not_yet (stay-Open s at (inr v))
  ]
  advance-Open s (fanning n i enqueued gs) at (inl shut) = absurd shut
  advance-Open s (fanning n i enqueued gs) at (inr v) =
      settle-Open s n enqueued gs (get_elem? s.lanes i) (stay-Open s at (inr v)) v
  advance-Open s (collecting n k all_ok gs) at (inl shut) = absurd shut
  advance-Open s (collecting n (suc k) all_ok gs) at (inr v) =
      collect-Open s n k all_ok gs s.results (stay-Open s at (inr v)) v
  advance-Open s (collecting n zero true gs) at (inr v) = inr v
  advance-Open s (collecting n zero false gs) at (inr v) = inr v
  advance-Open s closing at v = elim (Bool-cases (all_done s.lanes)) [
    | inl closed_all ↦ rw closed_all (inl tt)
    | inr not_yet ↦ rw not_yet (stay-Open s at v)
  ]
  advance-Open s joining at v = elim (Bool-cases (all_returned s.lanes)) [
    | inl back ↦ rw back (inl tt)
    | inr not_yet ↦ rw not_yet (stay-Open s at v)
  ]
  advance-Open s p at v = stay-Open s at v

  tick-Open :
      (s : State) (groups : Option (List AlertGroup)) (p : Phase)
      → s.phase ≡ p
      → OpenAt size s p
      → Open (tick_phase s groups p)
  unfolding tick_phase poll
  tick-Open s none selecting at v = stay-Open s at v
  tick-Open s (some []) selecting at v = stay-Open s at v
  tick-Open s (some (g ∷ gs)) selecting at (inl shut) = absurd shut
  tick-Open s (some (g ∷ gs)) selecting at (inr v) = elim (Bool-cases (length s.lanes == 0)) [
    | inl no_lane ↦ rw no_lane (stay-Open s at (inr v))
    | inr some_lane ↦ rw some_lane (inr v)
  ]
  tick-Open s groups p at v = stay-Open s at v

  begin-Open :
      (s : State) (now : Instant) (p : Phase)
      → s.phase ≡ p
      → OpenAt size s p
      → Open (begin_phase s now p)
  unfolding begin_phase begin_group
  begin-Open s now (polling []) at (inr v) = inr v
  begin-Open s now (polling (g ∷ gs)) at (inr v) = inr v
  begin-Open s now (polling gs) at (inl shut) = absurd shut
  begin-Open s now p at v = stay-Open s at v

  close-Open :
      (s : State) (i : ℕ) (p : Phase) → s.phase ≡ p → OpenAt size s p → Open (close_phase s i p)
  unfolding close_phase close_lane put_lane
  close-Open s i closing at v = elim (Option-cases (get_elem? s.lanes i)) [
    | inl beyond ↦ rw beyond (stay-Open s at v)
    | inr (lane, at_i) ↦ rw at_i (inl (subst IsShutdown (sym at) tt))
  ]
  close-Open s i p at v = stay-Open s at v

  step-Open : (s : State) (a : Action) → Open s → Open (step s a)
  unfolding step
  step-Open s cancel v = v
  step-Open s (tick groups) v = tick-Open s groups s.phase refl v
  step-Open s (begin now) v = begin-Open s now s.phase refl v
  step-Open s (offer expired choice) v = offer-Open s expired choice s.phase refl v
  step-Open s advance v = advance-Open s s.phase refl v
  step-Open s (close_queue i) v = close-Open s i s.phase refl v
  step-Open s (work i choice e) v = work-Open s i choice e v

  run-Open : (s : State) (actions : List Action) → Open s → Open (run s actions)
  unfolding run
  run-Open s [] v = v
  run-Open s (a ∷ actions) v = run-Open (step s a) actions (step-Open s a v)

new_lanes-IsOpen : (names : List Text) (size : ℕ) → All (IsOpen size) (map (new_lane size) names)
unfolding new_lane new_queue has_returned
new_lanes-IsOpen [] size = tt
new_lanes-IsOpen (name ∷ names) size = (((refl, refl, refl), refl), new_lanes-IsOpen names size)

-- In any state that a schedule can reach before the dispatcher shuts down, no queue is closed, no
-- worker has returned, the workers' context has not ended, and every queue has the size that it had.
pub run-start-OpenAt :
    (names : List Text) (batch size : ℕ) (actions : List Action)
    → let s = run (start names batch size) actions in OpenAt size s s.phase
unfolding start
run-start-OpenAt names batch size actions =
    run-Open size (start names batch size) actions (inr (new_lanes-IsOpen names size, refl))
