-- ===== src/Notify/Queue/Fifo.antt =====
-- internal/notify/queue.go: what any sequence of calls does to the items.
use alertmanager_webhook_rel.Base.{
  Bool, Bool-cases, List, Option, Result, Text, [], ap, append_assoc, arith, err, inl, inr, length,
  length-append, none, ok, refl, some, sym, ℕ, ◌++◌, ◌<◌, ◌∙◌, ◌∷◌, ◌≡◌, ◌≤◌,
}
use mathlib.Core.List.{append_assoc}
use alertmanager_webhook_rel.Notify.Queue.{
  Queue, QueueError, Select, enqueue, try_receive, dequeue_wait, close, new_queue, on_buffer,
  on_ctx, on_done, or_else, queue_closed, receive, received,
}

-- A call on the queue by any goroutine. `wait` is the second half of a `Dequeue` whose first read
-- found the buffer empty.
pub data Call (N : Type 0) : Type 0 where
  enqueues : Bool → N → Select → Call N
  reads : Call N
  waits : Bool → Select → Call N
  closes : Call N

-- A queue with the items that its calls accepted and handed out so far, oldest first.
pub record Account (N : Type 0) : Type 0 where
  pub queue : Queue N
  pub accepted : List N
  pub taken : List N

module _ {N : Type 0} where
  after_enqueue : Account N → N → Option (Result QueueError (Unit {0}) × Queue N) → Account N
  after_enqueue a n none = a
  after_enqueue a n (some (ok _, q)) = record a { queue = q; accepted = a.accepted ++ n ∷ [] }
  after_enqueue a n (some (err _, q)) = record a { queue = q }

  after_read : Account N → Option (N × Queue N) → Account N
  after_read a none = a
  after_read a (some (n, q)) = record a { queue = q; taken = a.taken ++ n ∷ [] }

  after_wait : Account N → Option (Result QueueError N × Queue N) → Account N
  after_wait a none = a
  after_wait a (some (ok n, q)) = record a { queue = q; taken = a.taken ++ n ∷ [] }
  after_wait a (some (err _, q)) = record a { queue = q }

  unfoldable pub step : Account N → Call N → Account N
  unfolding after_enqueue after_read after_wait
  step a (enqueues expired n choice) = after_enqueue a n (enqueue a.queue expired n choice)
  step a reads = after_read a (try_receive a.queue)
  step a (waits expired choice) = after_wait a (dequeue_wait a.queue expired choice)
  step a closes = record a { queue = close a.queue }

  unfoldable pub run : Account N → List (Call N) → Account N
  run a [] = a
  run a (c ∷ cs) = run (step a c) cs

  pub record Inv (a : Account N) : Type 0 where
    pub fifo : a.accepted ≡ a.taken ++ a.queue.ch
    pub bounded : length a.queue.ch ≤ a.queue.size

  taken-Inv :
      (a : Account N) (n : N) (rest : List N)
      → a.queue.ch ≡ n ∷ rest
      → Inv a
      → Inv (record a { queue = record a.queue { ch = rest }; taken = a.taken ++ n ∷ [] })
  taken-Inv a n rest e v = record {
    fifo = v.fifo ∙ rw e (sym (append_assoc a.taken (n ∷ []) rest));
    bounded = omega (arith, ap length e, v.bounded);
  }

  read-Inv :
      (a : Account N) (l : List N) → a.queue.ch ≡ l → Inv a → Inv (after_read a (receive a.queue l))
  unfolding after_read receive
  read-Inv a [] e v = v
  read-Inv a (n ∷ rest) e v = taken-Inv a n rest e v

  drain-Inv :
      (a : Account N) (l : List N)
      → a.queue.ch ≡ l
      → Inv a
      → Inv (after_wait a (some (or_else queue_closed a.queue (receive a.queue l))))
  unfolding after_wait or_else receive
  drain-Inv a [] e v = v
  drain-Inv a (n ∷ rest) e v = taken-Inv a n rest e v

  wait-Inv :
      (a : Account N) (l : List N)
      → a.queue.ch ≡ l
      → Inv a
      → Inv (after_wait a (received (receive a.queue l)))
  unfolding after_wait received receive
  wait-Inv a [] e v = v
  wait-Inv a (n ∷ rest) e v = taken-Inv a n rest e v

  enqueued-Inv :
      (a : Account N) (n : N)
      → length a.queue.ch < a.queue.size
      → Inv a
      → Inv (record a {
        queue = record a.queue { ch = a.queue.ch ++ n ∷ [] };
        accepted = a.accepted ++ n ∷ [];
      })
  enqueued-Inv a n h v = record {
    fifo = ap (λ l. l ++ n ∷ []) v.fifo ∙ append_assoc a.taken a.queue.ch (n ∷ []);
    bounded = omega (arith, length-append a.queue.ch (n ∷ []), h);
  }

  step-Inv : (a : Account N) (c : Call N) → Inv a → Inv (step a c)
  unfolding step enqueue try_receive dequeue_wait close
  step-Inv a (enqueues expired n on_buffer) v = ground (arith, enqueued-Inv a n)
  step-Inv a (enqueues expired n choice) v = ground arith
  step-Inv a reads v = read-Inv a a.queue.ch refl v
  step-Inv a (waits expired on_buffer) v = wait-Inv a a.queue.ch refl v
  step-Inv a (waits expired on_ctx) v = ground arith
  step-Inv a (waits expired on_done) v = elim (Bool-cases a.queue.done) [
    | inl e ↦ simp e (drain-Inv a a.queue.ch refl v)
    | inr e ↦ simp e v
  ]
  step-Inv a closes v = ground arith

  run-Inv : (a : Account N) (cs : List (Call N)) → Inv a → Inv (run a cs)
  unfolding run
  run-Inv a [] v = v
  run-Inv a (c ∷ cs) v = run-Inv (step a c) cs (step-Inv a c v)

  unfoldable pub opened : Text → ℕ → Account N
  unfolding new_queue
  opened name size = record { queue = new_queue name size; accepted = []; taken = [] }

  -- Whatever is called on a new queue, and in whatever order: the accepted items are the items
  -- handed out, in order, followed by those in the buffer, which never exceeds its size.
  pub run_fifo :
      (name : Text) (size : ℕ) (cs : List (Call N))
      → let a = run (opened name size) cs in
        (a.accepted ≡ a.taken ++ a.queue.ch) × (length a.queue.ch ≤ a.queue.size)
  unfolding opened
  run_fifo name size cs =
      let v = run-Inv (opened name size) cs (record { fifo = refl; bounded = omega arith }) in
      (v.fifo, v.bounded)
