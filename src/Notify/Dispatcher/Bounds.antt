-- ===== src/Notify/Dispatcher/Bounds.antt =====
-- internal/notify/dispatcher.go: the result channel never fills up, and shutdown finds nothing under
-- way.
use alertmanager_webhook_rel.Base.{
  All, Bool, List, Text, [], ap, arith, eq_nil_of_length, get_elem?, length, map, refl, some, subst,
  suc, zero, ℕ, ◌*◌, ◌<◌, ◌∙◌, ◌∷◌, ◌≡◌, ◌≤◌,
}
use alertmanager_webhook_rel.Alerts.{AlertGroup}
use alertmanager_webhook_rel.Notify.{Notification, SendResult}
use alertmanager_webhook_rel.Notify.State.{
  State, Lane, Phase, closing, collecting, fanning, joining, reporting, selecting, start, stopped,
  new_lane,
}
use alertmanager_webhook_rel.Notify.Dispatcher.{run, Action}
use alertmanager_webhook_rel.Notify.Dispatcher.Lanes.{total, busy, load}
use alertmanager_webhook_rel.Notify.Dispatcher.Invariant.{InvAt, expected}
use alertmanager_webhook_rel.Notify.Dispatcher.Reach.{run-start-Inv}
use alertmanager_webhook_rel.Notify.Dispatcher.Steady.{Same-run}

length-map {ℓ κ} :
    {A : Type ℓ} {B : Type κ} (f : A → B) (xs : List A) → length (map f xs) ≡ length xs
length-map f [] = refl
length-map f (x ∷ xs) = ap suc (length-map f xs)

pub length-lanes :
    (names : List Text) (batch size : ℕ) (actions : List Action)
    → length (run (start names batch size) actions).lanes ≡ length names
unfolding start
length-lanes names batch size actions =
    (Same-run (start names batch size) actions).1 ∙ length-map (new_lane size) names

le-mul_right : (a b : ℕ) → 0 < b → a ≤ a * b
le-mul_right a b h = grind arith

expected_bound : (s : State) (p : Phase) → InvAt s p → expected p ≤ length s.lanes
expected_bound s (fanning n i enqueued gs) v = omega (arith, v.honest)
expected_bound s (collecting n k all_ok gs) v = omega (arith, v.honest)
expected_bound s _ v = omega arith

load-le-total :
    (lanes : List Lane) (i : ℕ) (lane : Lane)
    → get_elem? lanes i ≡ some lane
    → load lane ≤ total load lanes
load-le-total [] i lane h = cc
load-le-total (l ∷ lanes) zero lane h = ground arith
load-le-total (l ∷ lanes) (suc i) lane h = omega (arith, load-le-total lanes i lane h)

-- In any state that a schedule can reach, a worker that has a result to send finds room in the result
-- channel, where the batch size is positive: no worker ever blocks on it.
pub results_have_room :
    (names : List Text) (batch size : ℕ) (actions : List Action) (i : ℕ) (lane : Lane)
    (r : SendResult)
    → 0 < batch
    → let s = run (start names batch size) actions in
      get_elem? s.lanes i ≡ some lane → lane.worker ≡ reporting r → length s.results < s.capacity
unfolding start
results_have_room names batch size actions i lane r positive at_i w =
    let s = run (start names batch size) actions in
    let v = run-start-Inv names batch size actions in
    let fixed = Same-run (start names batch size) actions in
    omega (
      arith,
      v.counts,
      expected_bound s s.phase v,
      load-le-total s.lanes i lane at_i,
      ap busy w,
      fixed.0,
      fixed.1,
      length-map (new_lane size) names,
      le-mul_right (length names) batch positive,
    )

-- In any state that a schedule can reach, the next result that the dispatcher receives is about the
-- group that it collects for: the branch that logs a mismatch is never taken.
pub results_match :
    (names : List Text) (batch size : ℕ) (actions : List Action) (n : Notification) (k : ℕ)
    (all_ok : Bool) (gs : List AlertGroup) (r : SendResult) (rest : List SendResult)
    → let s = run (start names batch size) actions in
      s.phase ≡ collecting n k all_ok gs → s.results ≡ r ∷ rest → r.group_key ≡ n.group_key
results_match names batch size actions n k all_ok gs r rest e found =
    let s = run (start names batch size) actions in
    let v : InvAt s (collecting n k all_ok gs) =
      subst (InvAt s) e (run-start-Inv names batch size actions) in
    (subst (All (λ x. x.group_key ≡ n.group_key)) found v.current.1).0

abbrev pub IsShutdown : Phase → Type 0
IsShutdown closing = Unit
IsShutdown joining = Unit
IsShutdown stopped = Unit
IsShutdown _ = ⊥

-- Nothing is queued for the lane, and its worker neither sends nor reports.
abbrev pub IsAtRest : Lane → Type 0
IsAtRest lane = (lane.queue.ch ≡ []) × (busy lane.worker ≡ 0)

at_rest : (lanes : List Lane) → total load lanes ≡ 0 → All IsAtRest lanes
at_rest [] h = tt
at_rest (l ∷ lanes) h =
    ((eq_nil_of_length l.queue.ch (omega arith), omega arith), at_rest lanes (omega arith))

shutdown_rest :
    (s : State) (p : Phase) → IsShutdown p → InvAt s p → All IsAtRest s.lanes × (s.results ≡ [])
shutdown_rest s closing h v = (
  at_rest s.lanes (omega (arith, v.counts)),
  eq_nil_of_length s.results (omega (arith, v.counts)),
)
shutdown_rest s joining h v = (
  at_rest s.lanes (omega (arith, v.counts)),
  eq_nil_of_length s.results (omega (arith, v.counts)),
)
shutdown_rest s stopped h v = (
  at_rest s.lanes (omega (arith, v.counts)),
  eq_nil_of_length s.results (omega (arith, v.counts)),
)
shutdown_rest s selecting h v = absurd h
shutdown_rest s _ h v = absurd h

-- In any state that a schedule can reach, once the dispatcher shuts down, every queue is empty, no
-- worker sends or reports, and no result waits.
pub shutdown-IsAtRest :
    (names : List Text) (batch size : ℕ) (actions : List Action)
    → let s = run (start names batch size) actions in
      IsShutdown s.phase → All IsAtRest s.lanes × (s.results ≡ [])
shutdown-IsAtRest names batch size actions h =
    let s = run (start names batch size) actions in
    shutdown_rest s s.phase h (run-start-Inv names batch size actions)
