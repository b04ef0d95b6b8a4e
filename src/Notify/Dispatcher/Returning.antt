-- ===== src/Notify/Dispatcher/Returning.antt =====
-- internal/notify: a worker whose queue is closed and empty returns.
use alertmanager_webhook_rel.Base.{
  All, Bool, List, [], ap, arith, err, inl, inr, length, map, none, refl, snoc-append, some, sym,
  true, ◌*◌, ◌++◌, ◌∙◌, ◌∷◌, ◌≡◌, ◌⊎◌,
}
use alertmanager_webhook_rel.Notify.{Notification}
use alertmanager_webhook_rel.Notify.Queue.{
  Queue, dequeue_wait, on_done, or_else, queue_closed, receive, try_receive,
}
use alertmanager_webhook_rel.Notify.State.{State, Lane, idle, joining, put_lane, waiting}
use alertmanager_webhook_rel.Notify.Worker.{work_lane, after_read, after_wait}
use alertmanager_webhook_rel.Notify.Dispatcher.{
  step, run, Action, all_returned, has_returned, work, work_at,
}
use alertmanager_webhook_rel.Notify.Dispatcher.FanOut.{get_elem-append, set-append}
use alertmanager_webhook_rel.Notify.Dispatcher.Closing.{IsQuiet, shut, gone}

abbrev pub joining_at : State → List Lane → State
joining_at s lanes = record s { lanes = lanes; phase = joining }

-- Two steps of each worker.
abbrev pub returns : List Lane → List Lane → List Action
returns before [] = []
returns before (l ∷ lanes) =
    work (length before) on_done none
    ∷ work (length before) on_done none
    ∷ returns (before ++ gone l ∷ []) lanes

read_empty : (q : Queue Notification) → q.ch ≡ [] → try_receive q ≡ none
unfolding try_receive receive
read_empty q h = ap (receive q) h

wait-done :
    (q : Queue Notification) (expired : Bool)
    → q.ch ≡ []
    → q.done ≡ true
    → dequeue_wait q expired on_done ≡ some (err queue_closed, q)
unfolding dequeue_wait or_else
wait-done q expired h d = simp (d, read_empty q h) refl

-- A step of the worker of a lane.
work-step :
    (s : State) (before : List Lane) (l new : Lane) (lanes : List Lane)
    → work_lane (joining_at s (before ++ l ∷ lanes)) (length before) l l.worker on_done none
      ≡ put_lane (joining_at s (before ++ l ∷ lanes)) (length before) new
    → step (joining_at s (before ++ l ∷ lanes)) (work (length before) on_done none)
      ≡ joining_at s (before ++ new ∷ lanes)
unfolding step work_at put_lane
work-step s before l new lanes h =
    let t = joining_at s (before ++ l ∷ lanes) in
    ap (work_at t (length before) on_done none) (get_elem-append before l lanes)
    ∙ h
    ∙ ap (joining_at s) (set-append before l new lanes)

abbrev waited : Lane → Lane
waited lane = record (shut lane) { worker = waiting }

gone-step :
    (s : State) (before : List Lane) (l : Lane) (lanes : List Lane)
    → l.queue.ch ≡ []
    → step (joining_at s (before ++ waited l ∷ lanes)) (work (length before) on_done none)
      ≡ joining_at s (before ++ gone l ∷ lanes)
unfolding work_lane after_wait
gone-step s before l lanes h =
    let t = joining_at s (before ++ waited l ∷ lanes) in
    work-step s before (waited l) (gone l) lanes (
      ap (after_wait t (length before) (waited l))
        (wait-done (shut l).queue s.worker_ctx_done h refl))

waited-step :
    (s : State) (before : List Lane) (l : Lane) (lanes : List Lane)
    → l.queue.ch ≡ []
    → step
        (joining_at s (before ++ record (shut l) { worker = idle } ∷ lanes))
        (work (length before) on_done none)
      ≡ joining_at s (before ++ waited l ∷ lanes)
unfolding work_lane after_read
waited-step s before l lanes h =
    let first = record (shut l) { worker = idle } in
    let t = joining_at s (before ++ first ∷ lanes) in
    work-step s before first (waited l) lanes
      (ap (after_read t (length before) first) (read_empty first.queue h))

rest-step :
    (s : State) (before : List Lane) (l : Lane) (lanes : List Lane)
    → step (joining_at s (before ++ gone l ∷ lanes)) (work (length before) on_done none)
      ≡ joining_at s (before ++ gone l ∷ lanes)
unfolding step work_at work_lane
rest-step s before l lanes =
    ap (work_at (joining_at s (before ++ gone l ∷ lanes)) (length before) on_done none)
      (get_elem-append before (gone l) lanes)

return_lane :
    (s : State) (before : List Lane) (l : Lane) (lanes : List Lane)
    → l.queue.ch ≡ []
    → (l.worker ≡ idle) ⊎ (l.worker ≡ waiting)
    → let a = work (length before) on_done none in
      step (step (joining_at s (before ++ shut l ∷ lanes)) a) a
      ≡ joining_at s (before ++ gone l ∷ lanes)
return_lane s before l lanes empty (inl h) =
    let a = work (length before) on_done none in
    ap (λ w. step (step (joining_at s (before ++ record (shut l) { worker = w } ∷ lanes)) a) a) h
    ∙ ap (λ t. step t a) (waited-step s before l lanes empty)
    ∙ gone-step s before l lanes empty
return_lane s before l lanes empty (inr h) =
    let a = work (length before) on_done none in
    ap (λ w. step (step (joining_at s (before ++ record (shut l) { worker = w } ∷ lanes)) a) a) h
    ∙ ap (λ t. step t a) (gone-step s before l lanes empty)
    ∙ rest-step s before l lanes

pub run-returns :
    (s : State) (before lanes : List Lane)
    → All IsQuiet lanes
    → run (joining_at s (before ++ map shut lanes)) (returns before lanes)
      ≡ joining_at s (before ++ map gone lanes)
unfolding run
run-returns s before [] h = refl
run-returns s before (l ∷ lanes) h =
    ap (λ t. run t (returns (before ++ gone l ∷ []) lanes))
      (return_lane s before l (map shut lanes) h.0.0 h.0.2
        ∙ ap (joining_at s) (sym (snoc-append before (gone l) (map shut lanes))))
    ∙ run-returns s (before ++ gone l ∷ []) lanes h.1
    ∙ ap (joining_at s) (snoc-append before (gone l) (map gone lanes))

pub all_returned-gone : (lanes : List Lane) → all_returned (map gone lanes) ≡ true
unfolding all_returned has_returned
all_returned-gone [] = refl
all_returned-gone (l ∷ lanes) = all_returned-gone lanes

pub length-returns : (before lanes : List Lane) → length (returns before lanes) ≡ 2 * length lanes
length-returns before [] = refl
length-returns before (l ∷ lanes) = omega (arith, length-returns (before ++ gone l ∷ []) lanes)
