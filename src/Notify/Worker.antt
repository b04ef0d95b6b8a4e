-- ===== src/Notify/Worker.antt =====
-- internal/notify/worker.go: one step of a worker's loop.
use alertmanager_webhook_rel.Base.{
  Option, Result, Text, [], err, if◌then◌else◌, length, ltb, none, ok, set, some, suc, ℕ, ◌++◌, ◌∷◌,
}
use alertmanager_webhook_rel.Notify.{Notification, SendResult}
use alertmanager_webhook_rel.Notify.Queue.{Queue, QueueError, Select, try_receive, dequeue_wait}
use alertmanager_webhook_rel.Notify.State.{
  State, Lane, Round, Worker, put_lane, reporting, returned, sending, waiting,
}

unfoldable pub record_send : Option Text → Round → Round
record_send none r = record r { delivered = suc r.delivered }
record_send (some _) r = record r { failed = suc r.failed }

-- The worker's step after the first read of `Dequeue`.
unfoldable pub after_read : State → ℕ → Lane → Option (Notification × Queue Notification) → State
after_read s i lane none = put_lane s i (record lane { worker = waiting })
after_read s i lane (some (n, q)) = put_lane s i (record lane { queue = q; worker = sending n })

unfoldable pub after_wait :
    State → ℕ → Lane → Option (Result QueueError Notification × Queue Notification) → State
after_wait s i lane none = s
after_wait s i lane (some (ok n, q)) = put_lane s i (record lane { queue = q; worker = sending n })
after_wait s i lane (some (err _, q)) = put_lane s i (record lane { queue = q; worker = returned })

unfoldable pub result_of : Lane → Notification → Option Text → SendResult
result_of lane n e = record { group_key = n.group_key; channel = lane.name; err = e }

-- One step of `Worker.Run`.
unfoldable pub work_lane : State → ℕ → Lane → Worker → Select → Option Text → State
unfolding put_lane record_send after_read after_wait result_of
work_lane s i lane Worker.idle choice e = after_read s i lane (try_receive lane.queue)
work_lane s i lane waiting choice e =
    after_wait s i lane (dequeue_wait lane.queue s.worker_ctx_done choice)
work_lane s i lane (sending n) choice e = record s {
  lanes = set s.lanes i (record lane { worker = reporting (result_of lane n e) });
  round = record_send e s.round;
}
work_lane s i lane (reporting r) choice e =
    if ltb (length s.results) s.capacity
    then record s {
      lanes = set s.lanes i (record lane { worker = Worker.idle });
      results = s.results ++ r ∷ [];
    }
    else s
work_lane s i lane returned choice e = s
