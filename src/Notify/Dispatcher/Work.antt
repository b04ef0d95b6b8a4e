-- ===== src/Notify/Dispatcher/Work.antt =====
-- internal/notify/worker.go: a step of a worker keeps the invariant of the dispatcher.
use alertmanager_webhook_rel.Base.{
  All, All-snoc, Bool-cases, List, Option, Text, [], ap, arith, get_elem?, if◌then◌else◌, inl, inr,
  length, length-append, ltb, none, refl, set, some, subst, ℕ, ◌++◌, ◌+◌, ◌∷◌, ◌≡◌,
}
use alertmanager_webhook_rel.Notify.{Notification, SendResult}
use alertmanager_webhook_rel.Notify.Worker.{
  work_lane, record_send, after_read, result_of, after_wait,
}
use alertmanager_webhook_rel.Notify.Queue.{
  receive, Select, dequeue_wait, on_buffer, on_ctx, on_done, or_else, queue_closed, received,
  try_receive,
}
use alertmanager_webhook_rel.Notify.State.{
  State, Lane, Phase, Worker, put_lane, sending, reporting, waiting, idle, returned,
}
use alertmanager_webhook_rel.Notify.Dispatcher.{succeeded}
use alertmanager_webhook_rel.Notify.Dispatcher.Lanes.{
  HasKey, busy, failure, failure_by, failures, load, unsent, unsent_by,
}
use alertmanager_webhook_rel.Notify.Dispatcher.Invariant.{InvAt, lane-InvAt}

failures-snoc :
    (rs : List SendResult) (r : SendResult)
    → failures (rs ++ r ∷ []) ≡ failures rs + (if succeeded r.err then 0 else 1)
failures-snoc [] r = omega arith
failures-snoc (x ∷ rs) r = omega (arith, failures-snoc rs r)

module _ (s : State) (i : ℕ) (lane : Lane) (at_i : get_elem? s.lanes i ≡ some lane) (p : Phase)
    (v : InvAt s p) where
  -- An item leaves the queue for the worker.
  take-InvAt :
      (n : Notification) (rest : List Notification)
      → lane.queue.ch ≡ n ∷ rest
      → busy lane.worker ≡ 0
      → unsent_by lane.worker ≡ 0
      → failure_by lane.worker ≡ 0
      → InvAt
          (put_lane s i
            (record lane { queue = record lane.queue { ch = rest }; worker = sending n }))
          p
  unfolding put_lane
  take-InvAt n rest e b u f =
      lane-InvAt s _ i lane _ at_i refl p refl (omega (arith, ap length e))
        (omega (arith, ap length e)) (omega arith) (λ key c r. (current_parts key c.0, r)) v
    where
      current_parts :
          (key : Text)
          → All (λ m. m.group_key ≡ key) lane.queue.ch
          → All (λ m. m.group_key ≡ key) rest × (n.group_key ≡ key)
      current_parts key c =
          let parts = subst (All (λ m. m.group_key ≡ key)) e c in (parts.1, parts.0)

  -- The worker moves on with nothing in hand.
  idle-InvAt :
      (w : Worker)
      → load lane ≡ load (record lane { worker = w })
      → unsent lane ≡ unsent (record lane { worker = w })
      → failure lane ≡ failure (record lane { worker = w })
      → ((key : Text) → HasKey key w)
      → InvAt (put_lane s i (record lane { worker = w })) p
  unfolding put_lane
  idle-InvAt w l u f k =
      lane-InvAt s _ i lane _ at_i refl p refl (omega arith) (omega arith) (omega arith)
        (λ key c r. ((c.0, k key), r)) v

  -- `Send` returns.
  sent-InvAt :
      (n : Notification) (e : Option Text)
      → lane.worker ≡ sending n
      → InvAt
          (record s {
            lanes = set s.lanes i (record lane { worker = reporting (result_of lane n e) });
            round = record_send e s.round;
          })
          p
  unfolding succeeded record_send result_of
  sent-InvAt n none w =
      lane-InvAt s _ i lane _ at_i refl p refl (omega (arith, ap busy w))
        (omega (arith, ap unsent_by w)) (omega (arith, ap failure_by w))
        (λ key c h. ((c.0, subst (HasKey key) w c.1), h)) v
  sent-InvAt n (some m) w =
      lane-InvAt s _ i lane _ at_i refl p refl (omega (arith, ap busy w))
        (omega (arith, ap unsent_by w)) (omega (arith, ap failure_by w))
        (λ key c h. ((c.0, subst (HasKey key) w c.1), h)) v

  -- The result is sent, where the result channel has room.
  report-InvAt :
      (r : SendResult)
      → lane.worker ≡ reporting r
      → InvAt
          (record s {
            lanes = set s.lanes i (record lane { worker = Worker.idle });
            results = s.results ++ r ∷ [];
          })
          p
  unfolding succeeded
  report-InvAt r w =
      lane-InvAt s _ i lane _ at_i refl p refl
        (omega (arith, length-append s.results (r ∷ []), ap busy w)) (omega (arith, ap unsent_by w))
        (omega (arith, failures-snoc s.results r, ap failure_by w))
        (λ key c h.
          ((c.0, tt), All-snoc (λ x. x.group_key ≡ key) s.results r h (subst (HasKey key) w c.1)))
        v

  -- The worker looks into its empty queue, or stops.
  rest-InvAt :
      (w : Worker)
      → busy w ≡ 0
      → unsent_by w ≡ 0
      → failure_by w ≡ 0
      → busy lane.worker ≡ 0
      → unsent_by lane.worker ≡ 0
      → failure_by lane.worker ≡ 0
      → ((key : Text) → HasKey key w)
      → InvAt (put_lane s i (record lane { worker = w })) p
  rest-InvAt w b u f b' u' f' = idle-InvAt w (omega arith) (omega arith) (omega arith)

  read-InvAt :
      (ns : List Notification)
      → lane.queue.ch ≡ ns
      → lane.worker ≡ Worker.idle
      → InvAt (after_read s i lane (receive lane.queue ns)) p
  unfolding after_read receive put_lane
  read-InvAt [] e w =
      rest-InvAt waiting refl refl refl (ap busy w) (ap unsent_by w) (ap failure_by w) (λ key. tt)
  read-InvAt (n ∷ ns) e w = take-InvAt n ns e (ap busy w) (ap unsent_by w) (ap failure_by w)

  end-InvAt : lane.worker ≡ waiting → InvAt (put_lane s i (record lane { worker = returned })) p
  end-InvAt w =
      rest-InvAt returned refl refl refl (ap busy w) (ap unsent_by w) (ap failure_by w) (λ key. tt)

  wait_read-InvAt :
      (ns : List Notification)
      → lane.queue.ch ≡ ns
      → lane.worker ≡ waiting
      → InvAt (after_wait s i lane (received (receive lane.queue ns))) p
  unfolding after_wait received receive put_lane
  wait_read-InvAt [] e w = v
  wait_read-InvAt (n ∷ ns) e w = take-InvAt n ns e (ap busy w) (ap unsent_by w) (ap failure_by w)

  drain-InvAt :
      (ns : List Notification)
      → lane.queue.ch ≡ ns
      → lane.worker ≡ waiting
      → InvAt
          (after_wait s i lane (some (or_else queue_closed lane.queue (receive lane.queue ns))))
          p
  unfolding after_wait or_else receive put_lane
  drain-InvAt [] e w = end-InvAt w
  drain-InvAt (n ∷ ns) e w = take-InvAt n ns e (ap busy w) (ap unsent_by w) (ap failure_by w)

  wait-InvAt :
      (choice : Select)
      → lane.worker ≡ waiting
      → InvAt (after_wait s i lane (dequeue_wait lane.queue s.worker_ctx_done choice)) p
  unfolding dequeue_wait after_wait
  wait-InvAt on_buffer w = wait_read-InvAt lane.queue.ch refl w
  wait-InvAt on_ctx w = elim (Bool-cases s.worker_ctx_done) [
    | inl e ↦ simp e (end-InvAt w)
    | inr e ↦ simp e v
  ]
  wait-InvAt on_done w = elim (Bool-cases lane.queue.done) [
    | inl e ↦ simp e (drain-InvAt lane.queue.ch refl w)
    | inr e ↦ simp e v
  ]

  -- Every step of a worker keeps the invariant.
  pub work_lane-InvAt :
      (w : Worker) (choice : Select) (e : Option Text)
      → lane.worker ≡ w
      → InvAt (work_lane s i lane w choice e) p
  unfolding work_lane try_receive
  work_lane-InvAt idle choice e w = read-InvAt lane.queue.ch refl w
  work_lane-InvAt waiting choice e w = wait-InvAt choice w
  work_lane-InvAt (sending n) choice e w = sent-InvAt n e w
  work_lane-InvAt (reporting r) choice e w = elim (Bool-cases (ltb (length s.results) s.capacity)) [
    | inl room ↦ simp room (report-InvAt r w)
    | inr full ↦ simp full v
  ]
  work_lane-InvAt returned choice e w = v

pub phase-work_lane :
    (s : State) (i : ℕ) (lane : Lane) (w : Worker) (choice : Select) (e : Option Text)
    → (work_lane s i lane w choice e).phase ≡ s.phase
unfolding work_lane try_receive receive dequeue_wait
phase-work_lane s i lane idle choice e = ground arith
phase-work_lane s i lane waiting on_buffer e = ground arith
phase-work_lane s i lane waiting choice e = ground arith
phase-work_lane s i lane (sending n) choice e = refl
phase-work_lane s i lane (reporting r) choice e = ground arith
phase-work_lane s i lane returned choice e = refl
