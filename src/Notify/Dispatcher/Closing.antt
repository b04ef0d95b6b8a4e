-- ===== src/Notify/Dispatcher/Closing.antt =====
-- internal/notify: the queues are closed one after the other.
use alertmanager_webhook_rel.Base.{
  All, List, [], ap, arith, eq_nil_of_length, false, inl, inr, length, map, refl, set, snoc-append,
  suc, sym, true, ℕ, ◌++◌, ◌∙◌, ◌∷◌, ◌≡◌, ◌⊎◌,
}
use alertmanager_webhook_rel.Notify.{Notification}
use alertmanager_webhook_rel.Notify.Queue.{Queue, close}
use alertmanager_webhook_rel.Notify.State.{
  State, Lane, Worker, closing, idle, put_lane, reporting, returned, sending, waiting,
}
use alertmanager_webhook_rel.Notify.Dispatcher.{
  step, run, Action, all_done, close_lane, close_phase, close_queue, has_returned,
}
use alertmanager_webhook_rel.Notify.Dispatcher.Lanes.{busy, load, total}
use alertmanager_webhook_rel.Notify.Dispatcher.Open.{IsOpen}
use alertmanager_webhook_rel.Notify.Dispatcher.FanOut.{get_elem-append, set-append}

-- Nothing is queued, the queue is open, and the worker waits for a notification.
abbrev pub IsQuiet : Lane → Type 0
IsQuiet lane =
    (lane.queue.ch ≡ [])
    × (lane.queue.closed ≡ false)
    × ((lane.worker ≡ idle) ⊎ (lane.worker ≡ waiting))

quiet_worker : (w : Worker) → busy w ≡ 0 → has_returned w ≡ false → (w ≡ idle) ⊎ (w ≡ waiting)
unfolding has_returned
quiet_worker idle b r = inl refl
quiet_worker waiting b r = inr refl
quiet_worker (sending n) b r = absurd (omega arith)
quiet_worker (reporting e) b r = absurd (omega arith)
quiet_worker returned b r = absurd (cc)

pub IsQuiet-All :
    (size : ℕ) (lanes : List Lane)
    → total load lanes ≡ 0
    → All (IsOpen size) lanes
    → All IsQuiet lanes
IsQuiet-All size [] empty h = tt
IsQuiet-All size (l ∷ lanes) empty (((_, not_closed, _), back), h) = (
  (
    eq_nil_of_length l.queue.ch (omega (arith, empty)),
    not_closed,
    quiet_worker l.worker (omega (arith, empty)) back,
  ),
  IsQuiet-All size lanes (omega (arith, empty)) h,
)

-- The lane when its queue is closed, and when its worker has returned.
abbrev pub shut : Lane → Lane
shut lane = record lane { queue = record lane.queue { closed = true; done = true } }

abbrev pub gone : Lane → Lane
gone lane = record (shut lane) { worker = returned }

abbrev pub closings : List Lane → List Lane → List Action
closings before [] = []
closings before (l ∷ lanes) = close_queue (length before) ∷ closings (before ++ shut l ∷ []) lanes

abbrev pub closing_at : State → List Lane → State
closing_at s lanes = record s { lanes = lanes; phase = closing }

close-open :
    (q : Queue Notification) → q.closed ≡ false → close q ≡ record q { closed = true; done = true }
unfolding close
close-open q h = simp h refl

close-shut :
    (s : State) (before : List Lane) (l : Lane) (lanes : List Lane)
    → l.queue.closed ≡ false
    → step (closing_at s (before ++ l ∷ lanes)) (close_queue (length before))
      ≡ closing_at s (before ++ shut l ∷ lanes)
unfolding step close_phase close_lane put_lane
close-shut s before l lanes h =
    let t = closing_at s (before ++ l ∷ lanes) in
    ap (close_lane t (length before)) (get_elem-append before l lanes)
    ∙ ap (λ q. closing_at s (set (before ++ l ∷ lanes) (length before) (record l { queue = q })))
        (close-open l.queue h)
    ∙ ap (closing_at s) (set-append before l (shut l) lanes)

pub run-closings :
    (s : State) (before lanes : List Lane)
    → All IsQuiet lanes
    → run (closing_at s (before ++ lanes)) (closings before lanes)
      ≡ closing_at s (before ++ map shut lanes)
unfolding run
run-closings s before [] h = refl
run-closings s before (l ∷ lanes) h =
    ap (λ t. run t (closings (before ++ shut l ∷ []) lanes))
      (close-shut s before l lanes h.0.1
        ∙ ap (closing_at s) (sym (snoc-append before (shut l) lanes)))
    ∙ run-closings s (before ++ shut l ∷ []) lanes h.1
    ∙ ap (closing_at s) (snoc-append before (shut l) (map shut lanes))

pub all_done-shut : (lanes : List Lane) → all_done (map shut lanes) ≡ true
unfolding all_done
all_done-shut [] = refl
all_done-shut (l ∷ lanes) = all_done-shut lanes

pub length-closings : (before lanes : List Lane) → length (closings before lanes) ≡ length lanes
length-closings before [] = refl
length-closings before (l ∷ lanes) = ap suc (length-closings (before ++ shut l ∷ []) lanes)
