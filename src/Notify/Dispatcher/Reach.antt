-- ===== src/Notify/Dispatcher/Reach.antt =====
-- internal/notify/dispatcher.go: the invariant holds after any schedule of actions.
use alertmanager_webhook_rel.Base.{
  Bool-cases, List, Option, Option-cases, Text, [], ap, arith, eq_nil_of_length, get_elem?, inl,
  inr, length, map, none, refl, some, suc, true, zero, ℕ, ◌==◌, ◌∷◌, ◌≡◌,
}
use alertmanager_webhook_rel.Alerts.{AlertGroup, Instant}
use alertmanager_webhook_rel.Notify.Queue.{Select, close, new_queue}
use alertmanager_webhook_rel.Notify.State.{
  State, Lane, fanning, Phase, collecting, closing, joining, polling, selecting, stopped, put_lane,
  new_lane, start,
}
use alertmanager_webhook_rel.Notify.Dispatcher.{
  step, run, advance_phase, begin_group, poll, all_done, all_returned, begin_phase, close_lane,
  close_phase, tick_phase, work_at, Action, advance, begin, cancel, close_queue, offer, tick, work,
}
use alertmanager_webhook_rel.Notify.Dispatcher.Lanes.{
  total, load, unsent, failures, Carries-of_empty, failure-le-load, unsent-le-load,
}
use alertmanager_webhook_rel.Notify.Dispatcher.Invariant.{
  InvAt, Inv, IsHonest, IsCurrent, lane-InvAt,
}
use alertmanager_webhook_rel.Notify.Dispatcher.Steps.{
  stay, collect-Inv, conclude-Inv, offer_phase-Inv, settle-Inv,
}
use alertmanager_webhook_rel.Notify.Dispatcher.Work.{work_lane-InvAt, phase-work_lane}

-- Where nothing is under way, any account is settled, and a new round may begin.
begin-Inv :
    (s : State) (now : Instant) (gs : List AlertGroup)
    → InvAt s (polling gs)
    → Inv (begin_group s now gs)
unfolding begin_group
begin-Inv s now [] v = record { counts = v.counts; sums = v.sums; current = tt; honest = tt }
begin-Inv s now (g ∷ gs) v =
    let empty : total load s.lanes ≡ 0 = omega (arith, v.counts) in
    let quiet : s.results ≡ [] = eq_nil_of_length s.results (omega (arith, v.counts)) in
    record {
      counts = v.counts;
      sums = omega (arith, unsent-le-load s.lanes);
      current = (Carries-of_empty _ s.lanes empty, rw quiet tt);
      honest = omega (arith, failure-le-load s.lanes, ap failures quiet);
    }

poll-Inv :
    (s : State) (groups : Option (List AlertGroup))
    → s.phase ≡ selecting
    → InvAt s selecting
    → Inv (poll s groups)
unfolding poll
poll-Inv s none e v = stay s e v
poll-Inv s (some []) e v = stay s e v
poll-Inv s (some (g ∷ gs)) e v = elim (Bool-cases (length s.lanes == 0)) [
  | inl none_set ↦ simp none_set (stay s e v)
  | inr set_up ↦
      simp set_up (record { counts = v.counts; sums = v.sums; current = tt; honest = tt })
]

advance-Inv : (s : State) (p : Phase) → s.phase ≡ p → InvAt s p → Inv (advance_phase s p)
unfolding advance_phase
advance-Inv s selecting e v = elim (Bool-cases s.ctx_done) [
  | inl c ↦ simp c (record { counts = v.counts; sums = v.sums; current = tt; honest = tt })
  | inr c ↦ simp c (stay s e v)
]
advance-Inv s (polling gs) e v = stay s e v
advance-Inv s (fanning n i enqueued gs) e v = settle-Inv s n i enqueued gs (get_elem? s.lanes i) e v
advance-Inv s (collecting n (suc k) all_ok gs) e v = collect-Inv s n k all_ok gs s.results refl e v
advance-Inv s (collecting n zero all_ok gs) e v = conclude-Inv s n all_ok gs v
advance-Inv s closing e v = elim (Bool-cases (all_done s.lanes)) [
  | inl c ↦ simp c (record { counts = v.counts; sums = v.sums; current = tt; honest = tt })
  | inr c ↦ simp c (stay s e v)
]
advance-Inv s joining e v = elim (Bool-cases (all_returned s.lanes)) [
  | inl c ↦
      simp c (record { counts = omega (arith, v.counts); sums = v.sums; current = tt; honest = tt })
  | inr c ↦ simp c (stay s e v)
]
advance-Inv s stopped e v = stay s e v

close-InvAt :
    (s : State) (i : ℕ) (lane : Lane)
    → get_elem? s.lanes i ≡ some lane
    → (p : Phase) → InvAt s p
    → InvAt (put_lane s i (record lane { queue = close lane.queue })) p
unfolding put_lane close
close-InvAt s i lane at_i p v = elim (Bool-cases lane.queue.closed) [
  | inl c ↦
      simp c (lane-InvAt s _ i lane lane at_i refl p refl refl refl refl (λ key c h. (c, h)) v)
  | inr c ↦ simp c (lane-InvAt s _ i lane _ at_i refl p refl refl refl refl (λ key c h. (c, h)) v)
]

close-Inv : (s : State) (i : ℕ) (p : Phase) → s.phase ≡ p → InvAt s p → Inv (close_phase s i p)
unfolding close_phase close_lane put_lane
close-Inv s i closing e v = elim (Option-cases (get_elem? s.lanes i)) [
  | inl beyond ↦ rw beyond (stay s e v)
  | inr (lane, at_i) ↦ rw at_i (close-InvAt s i lane at_i s.phase (stay s e v))
]
close-Inv s i _ e v = stay s e v

tick-Inv :
    (s : State) (groups : Option (List AlertGroup)) (p : Phase)
    → s.phase ≡ p
    → InvAt s p
    → Inv (tick_phase s groups p)
unfolding tick_phase
tick-Inv s groups selecting e v = poll-Inv s groups e v
tick-Inv s groups _ e v = stay s e v

begin_phase-Inv :
    (s : State) (now : Instant) (p : Phase) → s.phase ≡ p → InvAt s p → Inv (begin_phase s now p)
unfolding begin_phase
begin_phase-Inv s now (polling gs) e v = begin-Inv s now gs v
begin_phase-Inv s now _ e v = stay s e v

cancel-InvAt : (s : State) (p : Phase) → InvAt s p → InvAt (record s { ctx_done = true }) p
cancel-InvAt s p v = record {
  counts = v.counts;
  sums = v.sums;
  current = same_current p v.current;
  honest = same_honest p v.honest;
}
  where
    same_current : (p : Phase) → IsCurrent s p → IsCurrent (record s { ctx_done = true }) p
    same_current (fanning n i enqueued gs) h = h
    same_current (collecting n k all_ok gs) h = h
    same_current _ h = tt

    same_honest : (p : Phase) → IsHonest s p → IsHonest (record s { ctx_done = true }) p
    same_honest (fanning n i enqueued gs) h = h
    same_honest (collecting n k all_ok gs) h = h
    same_honest _ h = tt

work-Inv :
    (s : State) (i : ℕ) (choice : Select) (e : Option Text)
    → Inv s
    → Inv (work_at s i choice e (get_elem? s.lanes i))
unfolding work_at
work-Inv s i choice e v = elim (Option-cases (get_elem? s.lanes i)) [
  | inl beyond ↦ rw beyond v
  | inr (lane, at_i) ↦ rw at_i (
      stay _ (phase-work_lane s i lane lane.worker choice e)
        (work_lane-InvAt s i lane at_i s.phase v lane.worker choice e refl))
]

pub step-Inv : (s : State) (a : Action) → Inv s → Inv (step s a)
unfolding step
step-Inv s cancel v = cancel-InvAt s s.phase v
step-Inv s (tick groups) v = tick-Inv s groups s.phase refl v
step-Inv s (begin now) v = begin_phase-Inv s now s.phase refl v
step-Inv s (offer expired choice) v = offer_phase-Inv s expired choice s.phase refl v
step-Inv s advance v = advance-Inv s s.phase refl v
step-Inv s (close_queue i) v = close-Inv s i s.phase refl v
step-Inv s (work i choice e) v = work-Inv s i choice e v

start_load : (names : List Text) (size : ℕ) → total load (map (new_lane size) names) ≡ 0
unfolding new_lane new_queue
start_load [] size = refl
start_load (name ∷ names) size = omega (arith, start_load names size)

start_unsent : (names : List Text) (size : ℕ) → total unsent (map (new_lane size) names) ≡ 0
start_unsent names size =
    omega (arith, start_load names size, unsent-le-load (map (new_lane size) names))

pub start-Inv : (names : List Text) (batch size : ℕ) → Inv (start names batch size)
unfolding start
start-Inv names batch size = record {
  counts = omega (arith, start_load names size);
  sums = omega (arith, start_unsent names size);
  current = tt;
  honest = tt;
}

run-Inv : (s : State) (actions : List Action) → Inv s → Inv (run s actions)
unfolding run
run-Inv s [] v = v
run-Inv s (a ∷ actions) v = run-Inv (step s a) actions (step-Inv s a v)

-- After any schedule of actions from the start, the invariant holds: as many notifications are
-- queued, with a worker or waiting in the result channel as the dispatcher expects results, all
-- about its current alert group; and `allOK` is false exactly if it received a failure.
pub run-start-Inv :
    (names : List Text) (batch size : ℕ) (actions : List Action)
    → Inv (run (start names batch size) actions)
run-start-Inv names batch size actions = run-Inv _ actions (start-Inv names batch size)
