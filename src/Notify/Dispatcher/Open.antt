-- ===== src/Notify/Dispatcher/Open.antt =====
-- internal/notify: until the dispatcher shuts down, no queue is closed and no worker has returned.
use alertmanager_webhook_rel.Base.{
  All, Bool, Bool-cases, List, Option, Result, Text, [], arith, err, false, get_elem?, inl, inr,
  length, ltb, none, ok, refl, set, some, ℕ, ◌∙◌, ◌∷◌, ◌≡◌, ◌⊎◌,
}
use alertmanager_webhook_rel.Notify.{Notification}
use alertmanager_webhook_rel.Notify.Queue.{
  Queue, QueueError, Select, dequeue_wait, enqueue, enqueue_select, on_buffer, on_ctx, on_done,
  receive, received, try_receive,
}
use alertmanager_webhook_rel.Notify.State.{
  State, Lane, Phase, Worker, idle, put_lane, reporting, returned, sending, waiting,
}
use alertmanager_webhook_rel.Notify.Worker.{work_lane, after_read, after_wait}
use alertmanager_webhook_rel.Notify.Dispatcher.{has_returned}
use alertmanager_webhook_rel.Notify.Dispatcher.Lanes.{All-set, All-get}
use alertmanager_webhook_rel.Notify.Dispatcher.Bounds.{IsShutdown}

-- The queue is not closed, and has this size.
abbrev pub IsOpenQueue : {N : Type 0} → ℕ → Queue N → Type 0
IsOpenQueue size q = (q.done ≡ false) × (q.closed ≡ false) × (q.size ≡ size)

abbrev pub IsOpen : ℕ → Lane → Type 0
IsOpen size lane = IsOpenQueue size lane.queue × (has_returned lane.worker ≡ false)

-- Nothing is closed, with the dispatcher at this place.
abbrev pub OpenAt : ℕ → State → Phase → Type 0
OpenAt size s p = IsShutdown p ⊎ (All (IsOpen size) s.lanes × (s.worker_ctx_done ≡ false))

-- A call changes the buffer only.
abbrev pub SameQueue : {N : Type 0} → Queue N → Queue N → Type 0
SameQueue q r = (r.done ≡ q.done) × (r.closed ≡ q.closed) × (r.size ≡ q.size)

pub open_queue :
    {N : Type 0} (size : ℕ) (q r : Queue N)
    → SameQueue q r
    → IsOpenQueue size q
    → IsOpenQueue size r
open_queue size q r (done, closed, same) (d, c, n) = (done ∙ d, closed ∙ c, same ∙ n)

module _ {N : Type 0} where
  receive-SameQueue :
      (q : Queue N) (ns : List N) (n : N) (r : Queue N) → receive q ns ≡ some (n, r) → SameQueue q r
  unfolding receive
  receive-SameQueue q [] n r h = cc
  receive-SameQueue q (m ∷ ns) n r h = (cc, cc, cc)

  pub enqueue-SameQueue :
      (q : Queue N) (expired : Bool) (n : N) (choice : Select) (x : Result QueueError (Unit {0}))
      (r : Queue N)
      → enqueue q expired n choice ≡ some (x, r)
      → SameQueue q r
  unfolding enqueue enqueue_select
  enqueue-SameQueue q expired n on_buffer x r h = (ground arith, ground arith, ground arith)
  enqueue-SameQueue q expired n on_ctx x r h = (ground arith, ground arith, ground arith)
  enqueue-SameQueue q expired n on_done x r h = (ground arith, ground arith, ground arith)

  received-ok :
      (o : Option (N × Queue N)) (x : Result QueueError N) (r : Queue N)
      → received o ≡ some (x, r)
      → (n : N) × (x ≡ ok n) × (o ≡ some (n, r))
  unfolding received
  received-ok none x r h = cc
  received-ok (some (n, q)) x r h = (n, cc, cc)

  -- While nothing is closed, a blocking `Dequeue` ends with an item only.
  dequeue_wait_item :
      (q : Queue N) (expired : Bool) (choice : Select) (x : Result QueueError N) (r : Queue N)
      → q.done ≡ false
      → expired ≡ false
      → dequeue_wait q expired choice ≡ some (x, r)
      → (n : N) × (x ≡ ok n) × SameQueue q r
  unfolding dequeue_wait try_receive
  dequeue_wait_item q expired on_buffer x r all_open ctx h =
      let (n, e, found) = received-ok (receive q q.ch) x r h in
      (n, e, receive-SameQueue q q.ch n r found)
  dequeue_wait_item q expired on_ctx x r all_open ctx h =
      let blocked : dequeue_wait q expired on_ctx ≡ none = simp ctx refl in cc
  dequeue_wait_item q expired on_done x r all_open ctx h =
      let blocked : dequeue_wait q expired on_done ≡ none = simp all_open refl in cc

abbrev pub StaysOpen : ℕ → State → Type 0
StaysOpen size t = All (IsOpen size) t.lanes × (t.worker_ctx_done ≡ false)

module _ (size : ℕ) (s : State) (i : ℕ) (lane : Lane) (all_open : All (IsOpen size) s.lanes)
    (ctx : s.worker_ctx_done ≡ false) (at_i : get_elem? s.lanes i ≡ some lane) where
  pub lane-IsOpen : IsOpen size lane
  lane-IsOpen = All-get (IsOpen size) s.lanes i lane all_open at_i

  pub set-IsOpen : (new : Lane) → IsOpen size new → All (IsOpen size) (set s.lanes i new)
  set-IsOpen new h = All-set (IsOpen size) s.lanes i new all_open h

  after_read-StaysOpen :
      (o : Option (Notification × Queue Notification))
      → try_receive lane.queue ≡ o
      → StaysOpen size (after_read s i lane o)
  unfolding after_read put_lane try_receive has_returned
  after_read-StaysOpen none e = (set-IsOpen _ (lane-IsOpen.0, refl), ctx)
  after_read-StaysOpen (some (n, q)) e = (
    set-IsOpen _ (
      open_queue size lane.queue q (receive-SameQueue lane.queue lane.queue.ch n q e) lane-IsOpen.0,
      refl,
    ),
    ctx,
  )

  after_wait-StaysOpen :
      (o : Option (Result QueueError Notification × Queue Notification)) (choice : Select)
      → dequeue_wait lane.queue s.worker_ctx_done choice ≡ o
      → StaysOpen size (after_wait s i lane o)
  unfolding after_wait put_lane has_returned
  after_wait-StaysOpen none choice e = (all_open, ctx)
  after_wait-StaysOpen (some (ok n, q)) choice e =
      let (_, _, still) =
        dequeue_wait_item lane.queue s.worker_ctx_done choice (ok n) q lane-IsOpen.0.0 ctx e in
      (set-IsOpen _ (open_queue size lane.queue q still lane-IsOpen.0, refl), ctx)
  after_wait-StaysOpen (some (err x, q)) choice e =
      let (_, no_error, _) =
        dequeue_wait_item lane.queue s.worker_ctx_done choice (err x) q lane-IsOpen.0.0 ctx e in
      cc

  pub work_lane-StaysOpen :
      (w : Worker) (choice : Select) (e : Option Text)
      → lane.worker ≡ w
      → StaysOpen size (work_lane s i lane w choice e)
  unfolding work_lane has_returned
  work_lane-StaysOpen idle choice e h = after_read-StaysOpen (try_receive lane.queue) refl
  work_lane-StaysOpen waiting choice e h =
      after_wait-StaysOpen (dequeue_wait lane.queue s.worker_ctx_done choice) choice refl
  work_lane-StaysOpen (sending n) choice e h = (set-IsOpen _ (lane-IsOpen.0, refl), ctx)
  work_lane-StaysOpen (reporting r) choice e h =
      elim (Bool-cases (ltb (length s.results) s.capacity)) [
        | inl room ↦ rw room (set-IsOpen _ (lane-IsOpen.0, refl), ctx)
        | inr full ↦ rw full (all_open, ctx)
      ]
  work_lane-StaysOpen returned choice e h = (all_open, ctx)
