-- ===== src/Notify/State.antt =====
-- internal/notify/dispatcher.go and worker.go: the state that the dispatcher's goroutine and one
-- worker goroutine for each channel share. The channels' names are distinct, as in main.go, so a
-- lane's index stands for its name.
use alertmanager_webhook_rel.Base.{Bool, List, Text, [], false, length, map, set, true, ℕ, ◌*◌, ◌+◌}
use alertmanager_webhook_rel.Alerts.{AlertGroup}
use alertmanager_webhook_rel.Notify.{Notification, SendResult}
use alertmanager_webhook_rel.Notify.Queue.{Queue, new_queue}

-- Where `Worker.Run` stands: before the first read of `Dequeue`, in its blocking `select`, in the
-- channel's `Send`, at the send on the result channel, or returned.
pub data Worker : Type 0 where
  idle waiting : Worker
  sending : Notification → Worker
  reporting : SendResult → Worker
  returned : Worker

-- A channel's name, its queue and its worker.
pub record Lane : Type 0 where
  pub name : Text
  pub queue : Queue Notification
  pub worker : Worker

-- Where the dispatcher's goroutine stands: in the `select` of `Run`; in the loop of `poll`, with the
-- groups to come; in the first loop of `fanOutAndCollect`, at the lane with this index and with this
-- many enqueued; in its second loop, with this many results to come and `allOK`; in `shutdown`, at
-- the loop over the queues or at `workerWg.Wait()`; returned.
pub data Phase : Type 0 where
  selecting : Phase
  polling : List AlertGroup → Phase
  fanning : Notification → ℕ → ℕ → List AlertGroup → Phase
  collecting : Notification → ℕ → Bool → List AlertGroup → Phase
  closing joining stopped : Phase

-- What happened to the current notification, for the statements only: how many queues took it, how
-- many sends of it succeeded, how many failed.
pub record Round : Type 0 where
  pub accepted : ℕ
  pub delivered : ℕ
  pub failed : ℕ

pub record State : Type 0 where
  pub lanes : List Lane
  pub results : List SendResult
  pub capacity : ℕ
  pub phase : Phase
  -- The contexts of the dispatcher and of the workers.
  pub ctx_done : Bool
  pub worker_ctx_done : Bool
  pub running : Bool
  -- The calls of `MarkSent`, oldest first.
  pub marked : List Text
  pub round : Round

abbrev pub no_round : Round
no_round = record { accepted = 0; delivered = 0; failed = 0 }

unfoldable pub new_lane : ℕ → Text → Lane
new_lane queue_size name = record {
  name = name;
  queue = new_queue name queue_size;
  worker = Worker.idle;
}

-- `Run` up to its loop, with the channels' names.
unfoldable pub start : List Text → ℕ → ℕ → State
unfolding new_lane
start names batch_size queue_size = record {
  lanes = map (new_lane queue_size) names;
  results = [];
  capacity = length names * batch_size + 1;
  phase = selecting;
  ctx_done = false;
  worker_ctx_done = false;
  running = true;
  marked = [];
  round = no_round;
}

unfoldable pub put_lane : State → ℕ → Lane → State
put_lane s i lane = record s { lanes = set s.lanes i lane }
