-- ===== src/Notify/Queue.antt =====
-- internal/notify/queue.go: the bounded queue between the dispatcher and a worker. A `select` takes
-- any case that is ready: the choice is an argument, and none means that the choice is not ready, so
-- a call blocks while every choice gives none. The buffer has room for `size` items, at least one.
pub mod Fifo
use alertmanager_webhook_rel.Base.{
  Bool, List, Option, Result, Text, [], err, false, if◌then◌else◌, length, ltb, none, ok, some,
  true, ℕ, ◌++◌, ◌∷◌,
}

pub data QueueError : Type 0 where
  queue_full queue_closed cancelled : QueueError

-- `closed` is the atomic flag, `done` whether the channel of that name is closed.
pub record Queue (N : Type 0) : Type 0 where
  pub name : Text
  pub ch : List N
  pub size : ℕ
  pub closed : Bool
  pub done : Bool

-- The cases of a `select`: the buffer, `<-ctx.Done()`, `<-q.done`.
pub data Select : Type 0 where
  on_buffer on_ctx on_done : Select

module _ {N : Type 0} where
  unfoldable pub new_queue : Text → ℕ → Queue N
  new_queue name size = record { name = name; ch = []; size = size; closed = false; done = false }

  unfoldable pub len : Queue N → ℕ
  len q = length q.ch

  -- The `select` of `Enqueue`; `expired` says whether the context is done.
  unfoldable pub enqueue_select :
      Queue N → Bool → N → Select → Option (Result QueueError (Unit {0}) × Queue N)
  enqueue_select q expired n on_buffer =
      if ltb (length q.ch) q.size then some (ok tt, record q { ch = q.ch ++ n ∷ [] }) else none
  enqueue_select q expired n on_ctx = if expired then some (err queue_full, q) else none
  enqueue_select q expired n on_done = if q.done then some (err queue_closed, q) else none

  unfoldable pub enqueue :
      Queue N → Bool → N → Select → Option (Result QueueError (Unit {0}) × Queue N)
  unfolding enqueue_select
  enqueue q expired n choice =
      if q.closed then some (err queue_closed, q) else enqueue_select q expired n choice

  -- A receive from the buffer, where it holds an item.
  unfoldable pub receive : Queue N → List N → Option (N × Queue N)
  receive q [] = none
  receive q (n ∷ rest) = some (n, record q { ch = rest })

  -- The non-blocking read with which `Dequeue` begins and, once `done` is closed, ends.
  unfoldable pub try_receive : Queue N → Option (N × Queue N)
  unfolding receive
  try_receive q = receive q q.ch

  -- What a non-blocking read gives, or this error.
  unfoldable pub or_else :
      QueueError → Queue N → Option (N × Queue N) → Result QueueError N × Queue N
  or_else e q none = (err e, q)
  or_else e q (some (n, q')) = (ok n, q')

  unfoldable pub received : Option (N × Queue N) → Option (Result QueueError N × Queue N)
  received none = none
  received (some (n, q)) = some (ok n, q)

  -- The blocking `select` of `Dequeue`. The queue may have changed since the first read.
  unfoldable pub dequeue_wait : Queue N → Bool → Select → Option (Result QueueError N × Queue N)
  unfolding try_receive or_else received
  dequeue_wait q expired on_buffer = received (try_receive q)
  dequeue_wait q expired on_ctx = if expired then some (err cancelled, q) else none
  dequeue_wait q expired on_done =
      if q.done then some (or_else queue_closed q (try_receive q)) else none

  -- `Dequeue` while nothing else touches the queue.
  unfoldable pub dequeue : Queue N → Bool → Select → Option (Result QueueError N × Queue N)
  unfolding dequeue_wait
  dequeue q expired choice = elim (try_receive q) [
    | some (n, q') ↦ some (ok n, q')
    | none ↦ dequeue_wait q expired choice
  ]

  -- The flag changes from false to true once, and that call closes `done`.
  unfoldable pub close : Queue N → Queue N
  close q = if q.closed then q else record q { closed = true; done = true }
