-- ===== src/Notify/Dispatcher/Progress.antt =====
-- internal/notify: while the dispatcher collects results, some goroutine can go on.
use alertmanager_webhook_rel.Base.{
  All, Bool, Bool-cases, List, Option, Text, [], ap, arith, at, get_elem?, inl, inr, length,
  length-append, ltb, refl, set, some, subst, suc, sym, ℕ, ◌&&◌, ◌*◌, ◌+◌, ◌<◌, ◌∙◌, ◌∷◌, ◌≡◌,
}
use alertmanager_webhook_rel.Alerts.{AlertGroup}
use alertmanager_webhook_rel.Notify.{Notification, SendResult}
use alertmanager_webhook_rel.Notify.Queue.{
  Queue, dequeue_wait, on_buffer, receive, received, try_receive,
}
use alertmanager_webhook_rel.Notify.State.{
  State, Lane, Worker, idle, put_lane, reporting, returned, sending, waiting, collecting,
}
use alertmanager_webhook_rel.Notify.Worker.{work_lane, after_read, after_wait, result_of}
use alertmanager_webhook_rel.Notify.Dispatcher.{
  step, Action, has_returned, advance, advance_phase, collect, succeeded, work, work_at,
}
use alertmanager_webhook_rel.Notify.Dispatcher.Lanes.{total, load, busy, total-set, All-get}
use alertmanager_webhook_rel.Notify.Dispatcher.Open.{IsOpen}
use alertmanager_webhook_rel.Notify.Dispatcher.Work.{phase-work_lane}

-- How many steps a worker is away from the end of what it has taken, with the receipt of its result.
abbrev pub steps_of : Worker → ℕ
steps_of (sending n) = 3
steps_of (reporting r) = 2
steps_of _ = 0

abbrev pub lane_steps : Lane → ℕ
lane_steps lane = 4 * length lane.queue.ch + steps_of lane.worker

-- How many steps are left till every result is received.
abbrev pub steps_left : State → ℕ
steps_left s = total lane_steps s.lanes + length s.results

find_loaded :
    (lanes : List Lane)
    → 0 < total load lanes
    → (i : ℕ) × (lane : Lane) × (get_elem? lanes i ≡ some lane) × (0 < load lane)
find_loaded [] h = absurd (omega arith)
find_loaded (lane ∷ lanes) h = elim (Bool-cases (ltb 0 (load lane))) [
  | inl here ↦ (0, lane, refl, ground arith)
  | inr later ↦
      let rest : 0 < total load lanes = ground arith in
      let (i, l, at_i, loaded) = find_loaded lanes rest in (suc i, l, at_i, loaded)
]

module _ (s : State) (i : ℕ) (lane : Lane) (at_i : get_elem? s.lanes i ≡ some lane) where
  set_steps :
      (new : Lane)
      → total lane_steps (set s.lanes i new) + lane_steps lane
        ≡ total lane_steps s.lanes + lane_steps new
  set_steps new = total-set lane_steps s.lanes i lane new at_i

  receive_steps :
      (ns : List Notification)
      → lane.queue.ch ≡ ns
      → 0 < length ns
      → steps_of lane.worker ≡ 0
      → (n : Notification) × (q : Queue Notification) × (receive lane.queue ns ≡ some (n, q))
        × (suc (steps_left (put_lane s i (record lane { queue = q; worker = sending n })))
            ≡ steps_left s)
  unfolding receive put_lane
  receive_steps [] e h w = absurd (omega arith)
  receive_steps (n ∷ rest) e h w = (
    n,
    record lane.queue { ch = rest },
    refl,
    omega (
      arith,
      ap length e,
      set_steps (record lane { queue = record lane.queue { ch = rest }; worker = sending n }),
    ),
  )

  work_lane_steps :
      (size : ℕ) (w : Worker) (e : Option Text)
      → lane.worker ≡ w
      → IsOpen size lane
      → 0 < load lane
      → ((r : SendResult) → w ≡ reporting r → length s.results < s.capacity)
      → suc (steps_left (work_lane s i lane w on_buffer e)) ≡ steps_left s
  unfolding work_lane after_read after_wait dequeue_wait try_receive received has_returned
  work_lane_steps size idle e at all_open loaded room =
      let (n, q, found, less) =
        receive_steps lane.queue.ch refl (omega (arith, ap busy at)) (ap steps_of at) in
      simp found less
  work_lane_steps size waiting e at all_open loaded room =
      let (n, q, found, less) =
        receive_steps lane.queue.ch refl (omega (arith, ap busy at)) (ap steps_of at) in
      simp found less
  work_lane_steps size (sending n) e at all_open loaded room =
      omega
        (arith, ap steps_of at, set_steps (record lane { worker = reporting (result_of lane n e) }))
  work_lane_steps size (reporting r) e at all_open loaded room =
      elim (Bool-cases (ltb (length s.results) s.capacity)) [
        | inl free ↦ rw free (
            omega (
              arith,
              ap steps_of at,
              length-append s.results (r ∷ []),
              set_steps (record lane { worker = Worker.idle }),
            ))
        | inr full ↦ absurd (let space = room r refl in ground arith)
      ]
  work_lane_steps size returned e at all_open loaded room =
      absurd (let back = ap has_returned at in let no = all_open.1 in cc)

-- A step of the dispatcher's goroutine, or of a worker whose `Send` returns this.
abbrev pub IsInternal : (ℕ → Option Text) → Action → Type 0
IsInternal sends advance = Unit
IsInternal sends (work i choice e) = e ≡ sends i
IsInternal sends _ = ⊥

module _ (s : State) (n : Notification) (k : ℕ) (all_ok : Bool) (gs : List AlertGroup) where
  -- One step less is left, and the dispatcher still collects.
  abbrev pub GoesOn : State → Type 0
  GoesOn t =
      (j : ℕ) × (b : Bool) × (t.phase ≡ collecting n j b gs) × (suc (steps_left t) ≡ steps_left s)

  collect-GoesOn :
      (r : SendResult) (rest : List SendResult)
      → s.results ≡ r ∷ rest
      → GoesOn (advance_phase s (collecting n (suc k) all_ok gs))
  unfolding advance_phase collect
  collect-GoesOn r rest e = rw e (k, all_ok && succeeded r.err, refl, omega arith)

  pub progress :
      (size : ℕ) (sends : ℕ → Option Text)
      → s.phase ≡ collecting n (suc k) all_ok gs
      → All (IsOpen size) s.lanes
      → total load s.lanes + length s.results ≡ suc k
      → ((i : ℕ) (lane : Lane) (r : SendResult)
          → get_elem? s.lanes i ≡ some lane
          → lane.worker ≡ reporting r
          → length s.results < s.capacity)
      → (rs : List SendResult) → s.results ≡ rs
      → (a : Action) × IsInternal sends a × GoesOn (step s a)
  unfolding step work_at
  progress size sends e all_open counts room (r ∷ rest) found =
      (advance, tt, subst (λ p. GoesOn (advance_phase s p)) (sym e) (collect-GoesOn r rest found))
  progress size sends e all_open counts room [] found =
      let (i, lane, at_i, loaded) = find_loaded s.lanes (omega (arith, ap length found)) in
      let less =
        work_lane_steps s i lane at_i size lane.worker (sends i) refl
          (All-get (IsOpen size) s.lanes i lane all_open at_i) loaded
          (λ r w. room i lane r at_i w) in
      let same = phase-work_lane s i lane lane.worker on_buffer (sends i) in
      (work i on_buffer (sends i), refl, rw at_i (suc k, all_ok, same ∙ e, less))
