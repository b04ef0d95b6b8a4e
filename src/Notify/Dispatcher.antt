-- ===== src/Notify/Dispatcher.antt =====
-- internal/notify/dispatcher.go: the dispatcher's goroutine, and the machine that any schedule of
-- actions drives. An action that cannot run in a state, such as a receive from an empty channel,
-- leaves the state as it is.
pub mod Lanes
pub mod Invariant
pub mod Work
pub mod Steps
pub mod Reach
pub mod Marking
pub mod Steady
pub mod Bounds
pub mod Partial
pub mod Open
pub mod OpenSteps
pub mod Progress
pub mod Ends
pub mod Delivery
pub mod FanOut
pub mod NextGroup
pub mod Cycle
pub mod Closing
pub mod Returning
pub mod Stops
pub mod Refused
pub mod Drains
use alertmanager_webhook_rel.Base.{
  Bool, List, Option, Result, Text, [], err, false, get_elem?, if◌then◌else◌, length, none, ok, set,
  some, str, suc, true, zero, ℕ, ◌&&◌, ◌++◌, ◌==◌, ◌||◌, ◌∷◌,
}
use alertmanager_webhook_rel.Alerts.{AlertGroup, Instant}
use alertmanager_webhook_rel.Notify.{Notification, SendResult, new_notification}
use alertmanager_webhook_rel.Notify.Queue.{Queue, QueueError, Select, enqueue, close}
use alertmanager_webhook_rel.Notify.State.{
  State, Lane, Phase, Worker, closing, collecting, fanning, joining, no_round, polling, put_lane,
  returned, selecting, stopped,
}
use alertmanager_webhook_rel.Notify.Worker.{work_lane}

-- What the scheduler and the environment choose.
pub data Action : Type 0 where
  -- The dispatcher's context is cancelled.
  cancel : Action
  -- The ticker fires, and `GetPending` returns these groups or an error.
  tick : Option (List AlertGroup) → Action
  -- The loop of `poll` takes its next group, at this time.
  begin : Instant → Action
  -- The next `Enqueue`: whether its own timeout has passed, and the case that its `select` takes. Its context
  -- is derived from the dispatcher's, so it is done after a cancellation too.
  offer : Bool → Select → Action
  -- Any other step of the dispatcher's goroutine.
  advance : Action
  -- `shutdown` closes the queue of this lane; the map is visited in any order.
  close_queue : ℕ → Action
  -- A step of this lane's worker: the case that its `select` takes, and what its `Send` returns.
  work : ℕ → Select → Option Text → Action

unfoldable pub succeeded : Option Text → Bool
succeeded none = true
succeeded (some _) = false

-- `poll` up to its loop.
unfoldable pub poll : State → Option (List AlertGroup) → State
poll s none = s
poll s (some []) = s
poll s (some (g ∷ gs)) = if length s.lanes == 0 then s else record s { phase = polling (g ∷ gs) }

-- The next round of the loop of `poll`, or its end.
unfoldable pub begin_group : State → Instant → List AlertGroup → State
begin_group s now [] = record s { phase = selecting }
begin_group s now (g ∷ gs) = record s {
  phase = fanning (new_notification now g) 0 0 gs;
  round = no_round;
}

-- The first loop of `fanOutAndCollect` goes on after this result of `Enqueue`.
unfoldable pub after_enqueue :
    State
    → Notification
    → ℕ
    → ℕ
    → List AlertGroup
    → Lane
    → Option (Result QueueError (Unit {0}) × Queue Notification)
    → State
after_enqueue s n i enqueued gs lane none = s
after_enqueue s n i enqueued gs lane (some (ok _, q)) = record s {
  lanes = set s.lanes i (record lane { queue = q });
  phase = fanning n (suc i) (suc enqueued) gs;
  round = record s.round { accepted = suc s.round.accepted };
}
after_enqueue s n i enqueued gs lane (some (err _, q)) = record s {
  lanes = set s.lanes i (record lane { queue = q });
  phase = fanning n (suc i) enqueued gs;
}

unfoldable pub offer_lane :
    State → Notification → ℕ → ℕ → List AlertGroup → Bool → Select → Option Lane → State
offer_lane s n i enqueued gs expired choice none = s
offer_lane s n i enqueued gs expired choice (some lane) =
    after_enqueue s n i enqueued gs lane (enqueue lane.queue expired n choice)

-- After the first loop: nothing to collect, or the second loop.
unfoldable pub settle : State → Notification → ℕ → List AlertGroup → Option Lane → State
settle s n enqueued gs (some lane) = s
settle s n zero gs none = record s { phase = polling gs }
settle s n (suc k) gs none = record s { phase = collecting n (suc k) true gs }

-- A result is received from the result channel, where there is one.
unfoldable pub collect : State → Notification → ℕ → Bool → List AlertGroup → List SendResult → State
collect s n k all_ok gs [] = s
collect s n k all_ok gs (r ∷ rest) = record s {
  results = rest;
  phase = collecting n k (all_ok && succeeded r.err) gs;
}

-- After the second loop. A failure of `MarkSent` is only logged.
unfoldable pub conclude : State → Notification → Bool → List AlertGroup → State
conclude s n all_ok gs =
    if all_ok
    then record s { phase = polling gs; marked = s.marked ++ n.group_key ∷ [] }
    else record s { phase = polling gs }

unfoldable pub all_done : List Lane → Bool
all_done [] = true
all_done (lane ∷ lanes) = lane.queue.done && all_done lanes

unfoldable pub has_returned : Worker → Bool
has_returned returned = true
has_returned _ = false

unfoldable pub all_returned : List Lane → Bool
all_returned [] = true
all_returned (lane ∷ lanes) = has_returned lane.worker && all_returned lanes

-- A step of the dispatcher's goroutine that needs no input from outside.
unfoldable pub advance_phase : State → Phase → State
unfolding settle collect conclude
advance_phase s selecting = if s.ctx_done then record s { phase = closing } else s
advance_phase s (fanning n i enqueued gs) = settle s n enqueued gs (get_elem? s.lanes i)
advance_phase s (collecting n (suc k) all_ok gs) = collect s n k all_ok gs s.results
advance_phase s (collecting n zero all_ok gs) = conclude s n all_ok gs
advance_phase s closing = if all_done s.lanes then record s { phase = joining } else s
advance_phase s joining =
    if all_returned s.lanes
    then record s { results = []; worker_ctx_done = true; running = false; phase = stopped }
    else s
advance_phase s phase = s

unfoldable pub tick_phase : State → Option (List AlertGroup) → Phase → State
unfolding poll
tick_phase s groups selecting = poll s groups
tick_phase s groups phase = s

unfoldable pub begin_phase : State → Instant → Phase → State
unfolding begin_group
begin_phase s now (polling gs) = begin_group s now gs
begin_phase s now phase = s

unfoldable pub offer_phase : State → Bool → Select → Phase → State
unfolding offer_lane after_enqueue
offer_phase s expired choice (fanning n i enqueued gs) =
    offer_lane s n i enqueued gs (expired || s.ctx_done) choice (get_elem? s.lanes i)
offer_phase s expired choice phase = s

unfoldable pub close_lane : State → ℕ → Option Lane → State
close_lane s i none = s
close_lane s i (some lane) = put_lane s i (record lane { queue = close lane.queue })

unfoldable pub close_phase : State → ℕ → Phase → State
unfolding close_lane put_lane
close_phase s i closing = close_lane s i (get_elem? s.lanes i)
close_phase s i phase = s

unfoldable pub work_at : State → ℕ → Select → Option Text → Option Lane → State
unfolding work_lane
work_at s i choice e none = s
work_at s i choice e (some lane) = work_lane s i lane lane.worker choice e

unfoldable pub step : State → Action → State
unfolding tick_phase begin_phase offer_phase advance_phase close_phase work_at succeeded all_done
    all_returned has_returned
step s cancel = record s { ctx_done = true }
step s (tick groups) = tick_phase s groups s.phase
step s (begin now) = begin_phase s now s.phase
step s (offer expired choice) = offer_phase s expired choice s.phase
step s advance = advance_phase s s.phase
step s (close_queue i) = close_phase s i s.phase
step s (work i choice e) = work_at s i choice e (get_elem? s.lanes i)

unfoldable pub run : State → List Action → State
run s [] = s
run s (a ∷ rest) = run (step s a) rest

-- `Check`: the readiness of the dispatcher.
unfoldable pub check : State → Option Text
check s = if s.running then none else some (str "dispatcher is not running")
