-- ===== src/Notify/Dispatcher/NextGroup.antt =====
-- internal/notify: where the channels succeed, the next pending group of a poll is delivered.
use alertmanager_webhook_rel.Base.{
  All, List, Text, [], ap, arith, inl, inr, length, refl, subst, suc, true, ℕ, ◌++◌, ◌<◌, ◌∙◌, ◌∷◌,
  ◌≡◌,
}
use alertmanager_webhook_rel.Alerts.{AlertGroup, Instant}
use alertmanager_webhook_rel.Notify.{new_notification}
use alertmanager_webhook_rel.Notify.State.{State, Lane, polling, start}
use alertmanager_webhook_rel.Notify.Dispatcher.Progress.{IsInternal}
use alertmanager_webhook_rel.Notify.Dispatcher.Lanes.{total, load}
use alertmanager_webhook_rel.Notify.Dispatcher.Bounds.{length-lanes}
use alertmanager_webhook_rel.Notify.Dispatcher.Invariant.{InvAt}
use alertmanager_webhook_rel.Notify.Dispatcher.Reach.{run-start-Inv}
use alertmanager_webhook_rel.Notify.Dispatcher.Open.{IsOpen, OpenAt}
use alertmanager_webhook_rel.Notify.Dispatcher.OpenSteps.{run-start-OpenAt}
use alertmanager_webhook_rel.Notify.Dispatcher.Delivery.{all_succeed, collection-EndsMarked}
use alertmanager_webhook_rel.Notify.Dispatcher.{step, run, Action}
use alertmanager_webhook_rel.Notify.Dispatcher.FanOut.{
  HasRoom, round_begins, round_begins-collecting,
}

pub run-append : (s : State) (xs ys : List Action) → run s (xs ++ ys) ≡ run (run s xs) ys
unfolding run
run-append s [] ys = refl
run-append s (x ∷ xs) ys = run-append (step s x) xs ys

All-HasRoom :
    (size : ℕ) (lanes : List Lane)
    → 0 < size
    → total load lanes ≡ 0
    → All (IsOpen size) lanes
    → All HasRoom lanes
All-HasRoom size [] room empty h = tt
All-HasRoom size (l ∷ lanes) room empty (((_, not_closed, same), _), h) = (
  (not_closed, omega (arith, empty, same, room)),
  All-HasRoom size lanes room (omega (arith, empty)) h,
)

some_lane :
    (lanes : List Lane) (k : ℕ)
    → length lanes ≡ suc k
    → (lane : Lane) × (rest : List Lane) × (lanes ≡ lane ∷ rest)
some_lane [] k h = absurd (omega arith)
some_lane (lane ∷ rest) k h = (lane, rest, refl)

module _ (name : Text) (others : List Text) (batch size : ℕ) (positive : 0 < batch)
    (room : 0 < size) where
  starting : State
  starting = start (name ∷ others) batch size

  polling-HasRoom :
      (actions : List Action) (gs : List AlertGroup)
      → (run starting actions).phase ≡ polling gs
      → All HasRoom (run starting actions).lanes
  unfolding starting
  polling-HasRoom actions gs here =
      let s = run starting actions in
      let v : InvAt s (polling gs) =
        subst (InvAt s) here (run-start-Inv (name ∷ others) batch size actions) in
      let opened : OpenAt size s (polling gs) =
        subst (OpenAt size s) here (run-start-OpenAt (name ∷ others) batch size actions) in
      elim opened [
        | inl shut ↦ absurd shut
        | inr (all_open, _) ↦ All-HasRoom size s.lanes room (omega (arith, v.counts)) all_open
      ]

  -- In any state that a schedule can reach with at least one channel, a positive batch size and room in
  -- the queues for at least one item, in which the dispatcher is about to take a pending group: the dispatcher's
  -- goroutine can offer the group to every queue, and if the channels' sends return nil, a
  -- schedule of its own steps and the workers' steps alone goes on from there to the call of `MarkSent` for the
  -- group's key, the only one, and leaves the dispatcher at the groups behind it.
  pub next_group_delivered :
      (actions : List Action) (now : Instant) (g : AlertGroup) (gs : List AlertGroup)
      → let s = run (start (name ∷ others) batch size) actions in
        s.phase ≡ polling (g ∷ gs)
        → (later : List Action) × All (IsInternal all_succeed) later
          × (let t = run s (round_begins s now ++ later) in
              (t.phase ≡ polling gs) × (t.marked ≡ s.marked ++ g.group_key ∷ []))
  unfolding new_notification starting
  next_group_delivered actions now g gs here =
      let s = run starting actions in
      let (lane, lanes, split_lanes) =
        some_lane s.lanes (length others) (length-lanes (name ∷ others) batch size actions) in
      let (collects, none_failed, marked) =
        round_begins-collecting s now g gs lane lanes here split_lanes
          (polling-HasRoom actions (g ∷ gs) here) in
      let there : run starting (actions ++ round_begins s now) ≡ run s (round_begins s now) =
        run-append starting actions (round_begins s now) in
      let (later, internal, ended, at_last) =
        collection-EndsMarked (name ∷ others) batch size positive (new_notification now g) gs
          (actions ++ round_begins s now) (length s.lanes) true
          (ap (λ (x : State). x.phase) there ∙ collects)
          (ap (λ (x : State). x.round.failed) there ∙ none_failed) in
      let split = run-append s (round_begins s now) later in
      (
        later,
        internal,
        (
          ap (λ (x : State). x.phase) split
              ∙ subst (λ (x : State). (run x later).phase ≡ polling gs) there ended,
          ap (λ (x : State). x.marked) split
              ∙ subst (λ (x : State). (run x later).marked ≡ x.marked ++ g.group_key ∷ []) there
                  at_last
              ∙ ap (λ ks. ks ++ g.group_key ∷ []) marked,
        ),
      )
