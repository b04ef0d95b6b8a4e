-- ===== src/Notify/Dispatcher/Steady.antt =====
-- internal/notify/dispatcher.go: what no step of the machine changes.
-- way.
use alertmanager_webhook_rel.Base.{
  Bool, List, Option, Option-cases, Result, Text, [], arith, err, get_elem?, inl, inr, length,
  length-set, none, ok, refl, some, suc, true, zero, ℕ, ◌∙◌, ◌∷◌, ◌≡◌,
}
use alertmanager_webhook_rel.Alerts.{AlertGroup, Instant}
use alertmanager_webhook_rel.Notify.{Notification}
use alertmanager_webhook_rel.Notify.Queue.{Queue, QueueError, Select}
use alertmanager_webhook_rel.Notify.State.{
  State, Lane, Phase, Worker, closing, collecting, fanning, idle, polling, put_lane, reporting,
  returned, selecting, sending, waiting,
}
use alertmanager_webhook_rel.Notify.Worker.{work_lane, after_read, after_wait}
use alertmanager_webhook_rel.Notify.Dispatcher.{
  step, run, Action, advance, advance_phase, after_enqueue, begin, begin_group, begin_phase, cancel,
  close_lane, close_phase, close_queue, collect, conclude, offer, offer_lane, offer_phase, poll,
  settle, tick, tick_phase, work, work_at,
}

-- What no step changes; a cancelled context stays so.
abbrev pub Same : State → State → Type 0
Same s t =
    (t.capacity ≡ s.capacity)
    × (length t.lanes ≡ length s.lanes)
    × (s.ctx_done ≡ true → t.ctx_done ≡ true)

Same-put_lane : (s : State) (i : ℕ) (lane : Lane) → Same s (put_lane s i lane)
unfolding put_lane
Same-put_lane s i lane = (refl, length-set s.lanes i lane, λ h. h)

Same-after_read :
    (s : State) (i : ℕ) (lane : Lane) (r : Option (Notification × Queue Notification))
    → Same s (after_read s i lane r)
unfolding after_read
Same-after_read s i lane none = Same-put_lane s i _
Same-after_read s i lane (some (n, q)) = Same-put_lane s i _

Same-after_wait :
    (s : State) (i : ℕ) (lane : Lane)
    (r : Option (Result QueueError Notification × Queue Notification))
    → Same s (after_wait s i lane r)
unfolding after_wait
Same-after_wait s i lane none = (refl, refl, λ h. h)
Same-after_wait s i lane (some (ok n, q)) = Same-put_lane s i _
Same-after_wait s i lane (some (err e, q)) = Same-put_lane s i _

Same-work_lane :
    (s : State) (i : ℕ) (lane : Lane) (w : Worker) (choice : Select) (e : Option Text)
    → Same s (work_lane s i lane w choice e)
unfolding work_lane
Same-work_lane s i lane idle choice e = Same-after_read s i lane _
Same-work_lane s i lane waiting choice e = Same-after_wait s i lane _
Same-work_lane s i lane (sending n) choice e = (refl, length-set s.lanes i _, λ h. h)
Same-work_lane s i lane (reporting r) choice e =
    ground (arith, length-set s.lanes i (record lane { worker = Worker.idle }))
Same-work_lane s i lane returned choice e = (refl, refl, λ h. h)

Same-after_enqueue :
    (s : State) (n : Notification) (i enqueued : ℕ) (gs : List AlertGroup) (lane : Lane)
    (r : Option (Result QueueError (Unit {0}) × Queue Notification))
    → Same s (after_enqueue s n i enqueued gs lane r)
unfolding after_enqueue
Same-after_enqueue s n i enqueued gs lane none = (refl, refl, λ h. h)
Same-after_enqueue s n i enqueued gs lane (some (ok _, q)) = (refl, length-set s.lanes i _, λ h. h)
Same-after_enqueue s n i enqueued gs lane (some (err _, q)) = (refl, length-set s.lanes i _, λ h. h)

Same-offer :
    (s : State) (expired : Bool) (choice : Select) (p : Phase)
    → Same s (offer_phase s expired choice p)
unfolding offer_phase offer_lane
Same-offer s expired choice (fanning n i enqueued gs) = elim (Option-cases (get_elem? s.lanes i)) [
  | inl beyond ↦ rw beyond (refl, refl, λ h. h)
  | inr (lane, there) ↦ rw there (Same-after_enqueue s n i enqueued gs lane _)
]
Same-offer s expired choice _ = (refl, refl, λ h. h)

Same-close : (s : State) (i : ℕ) (p : Phase) → Same s (close_phase s i p)
unfolding close_phase close_lane
Same-close s i closing = elim (Option-cases (get_elem? s.lanes i)) [
  | inl beyond ↦ rw beyond (refl, refl, λ h. h)
  | inr (lane, there) ↦ rw there (Same-put_lane s i _)
]
Same-close s i _ = (refl, refl, λ h. h)

Same-advance : (s : State) (p : Phase) → Same s (advance_phase s p)
unfolding advance_phase settle collect conclude
Same-advance s (collecting n zero all_ok gs) = ground arith
Same-advance s (collecting n (suc k) all_ok gs) = ground arith
Same-advance s p = ground arith

Same-tick :
    (s : State) (groups : Option (List AlertGroup)) (p : Phase) → Same s (tick_phase s groups p)
unfolding tick_phase poll
Same-tick s groups selecting = ground arith
Same-tick s groups _ = (refl, refl, λ h. h)

Same-begin : (s : State) (now : Instant) (p : Phase) → Same s (begin_phase s now p)
unfolding begin_phase begin_group
Same-begin s now (polling gs) = ground arith
Same-begin s now _ = (refl, refl, λ h. h)

Same-work :
    (s : State) (i : ℕ) (choice : Select) (e : Option Text) (l : Option Lane)
    → Same s (work_at s i choice e l)
unfolding work_at
Same-work s i choice e none = (refl, refl, λ h. h)
Same-work s i choice e (some lane) = Same-work_lane s i lane lane.worker choice e

Same-step : (s : State) (a : Action) → Same s (step s a)
unfolding step
Same-step s cancel = (refl, refl, λ h. refl)
Same-step s (tick groups) = Same-tick s groups s.phase
Same-step s (begin now) = Same-begin s now s.phase
Same-step s (offer expired choice) = Same-offer s expired choice s.phase
Same-step s advance = Same-advance s s.phase
Same-step s (close_queue i) = Same-close s i s.phase
Same-step s (work i choice e) = Same-work s i choice e (get_elem? s.lanes i)

pub Same-run : (s : State) (actions : List Action) → Same s (run s actions)
unfolding run
Same-run s [] = (refl, refl, λ h. h)
Same-run s (a ∷ actions) =
    let first = Same-step s a in
    let later = Same-run (step s a) actions in
    (later.0 ∙ first.0, later.1 ∙ first.1, λ h. later.2 (first.2 h))
