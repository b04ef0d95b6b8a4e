-- ===== src/Notify/Dispatcher/Ends.antt =====
-- internal/notify: a bounded number of steps ends the collection of a round's results.
use alertmanager_webhook_rel.Base.{
  All, Bool, List, Option, Text, [], ap, arith, at, false, inl, inr, length, refl, subst, suc, sym,
  true, zero, ℕ, ◌*◌, ◌++◌, ◌<◌, ◌∙◌, ◌∷◌, ◌≡◌, ◌≤◌,
}
use alertmanager_webhook_rel.Alerts.{AlertGroup}
use alertmanager_webhook_rel.Notify.{Notification}
use alertmanager_webhook_rel.Notify.State.{
  State, Lane, Worker, reporting, sending, collecting, polling, start,
}
use alertmanager_webhook_rel.Notify.Dispatcher.{step, run, Action, advance, advance_phase, conclude}
use alertmanager_webhook_rel.Notify.Dispatcher.Lanes.{total, load, busy}
use alertmanager_webhook_rel.Notify.Dispatcher.Invariant.{InvAt}
use alertmanager_webhook_rel.Notify.Dispatcher.Reach.{run-start-Inv}
use alertmanager_webhook_rel.Notify.Dispatcher.Bounds.{results_have_room}
use alertmanager_webhook_rel.Notify.Dispatcher.Open.{OpenAt}
use alertmanager_webhook_rel.Notify.Dispatcher.OpenSteps.{run-start-OpenAt}
use alertmanager_webhook_rel.Notify.Dispatcher.Progress.{
  steps_left, lane_steps, steps_of, IsInternal, GoesOn, progress,
}

worker_steps : (w : Worker) → steps_of w ≤ 3 * busy w
worker_steps (sending n) = omega arith
worker_steps (reporting r) = omega arith
worker_steps _ = omega arith

steps-le-load : (lanes : List Lane) → total lane_steps lanes ≤ 4 * total load lanes
steps-le-load [] = omega arith
steps-le-load (l ∷ lanes) = omega (arith, worker_steps l.worker, steps-le-load lanes)

pub run-snoc :
    (s : State) (xs : List Action) (a : Action) → run s (xs ++ a ∷ []) ≡ step (run s xs) a
unfolding run
run-snoc s [] a = refl
run-snoc s (x ∷ xs) a = run-snoc (step s x) xs a

-- The steps that end a collection.
abbrev pub Finishes : (ℕ → Option Text) → State → List AlertGroup → Type 0
Finishes sends s gs =
    (later : List Action) × All (IsInternal sends) later
    × (length later ≡ suc (steps_left s))
    × ((run s later).phase ≡ polling gs)

pub run-cons :
    (s : State) (a : Action) (later : List Action) → run s (a ∷ later) ≡ run (step s a) later
unfolding run
run-cons s a later = refl

conclude_phase :
    (s : State) (n : Notification) (all_ok : Bool) (gs : List AlertGroup)
    → (advance_phase s (collecting n zero all_ok gs)).phase ≡ polling gs
unfolding advance_phase conclude
conclude_phase s n true gs = refl
conclude_phase s n false gs = refl

pub last_step :
    (s : State) (n : Notification) (all_ok : Bool) (gs : List AlertGroup)
    → s.phase ≡ collecting n zero all_ok gs
    → (run s (advance ∷ [])).phase ≡ polling gs
unfolding run step
last_step s n all_ok gs e =
    subst (λ p. (advance_phase s p).phase ≡ polling gs) (sym e) (conclude_phase s n all_ok gs)

module _ (names : List Text) (batch size : ℕ) (positive : 0 < batch) (sends : ℕ → Option Text)
    (n : Notification) (gs : List AlertGroup) where
  abbrev pub reached : List Action → State
  reached actions = run (start names batch size) actions

  pub next_step :
      (actions : List Action) (k : ℕ) (all_ok : Bool)
      → (reached actions).phase ≡ collecting n (suc k) all_ok gs
      → (a : Action) × IsInternal sends a
        × GoesOn (reached actions) n k all_ok gs (step (reached actions) a)
  next_step actions k all_ok e =
      let s = reached actions in
      let v : InvAt s (collecting n (suc k) all_ok gs) =
        subst (InvAt s) e (run-start-Inv names batch size actions) in
      let opened : OpenAt size s (collecting n (suc k) all_ok gs) =
        subst (OpenAt size s) e (run-start-OpenAt names batch size actions) in
      elim opened [
        | inl shut ↦ absurd shut
        | inr (all_open, _) ↦
            progress s n k all_ok gs size sends e all_open v.counts
              (λ i lane r at_i w.
                results_have_room names batch size actions i lane r positive at_i w)
              s.results refl
      ]

  finish :
      (m : ℕ) (actions : List Action) (k : ℕ) (all_ok : Bool)
      → steps_left (reached actions) ≡ m
      → (reached actions).phase ≡ collecting n k all_ok gs
      → Finishes sends (reached actions) gs
  finish m actions zero all_ok left e =
      let s = reached actions in
      let v : InvAt s (collecting n zero all_ok gs) =
        subst (InvAt s) e (run-start-Inv names batch size actions) in
      let none_left : steps_left s ≡ 0 = omega (arith, v.counts, steps-le-load s.lanes) in
      (advance ∷ [], (tt, tt), ap suc (sym none_left), last_step s n all_ok gs e)
  finish zero actions (suc k) all_ok left e =
      let (a, _, (_, _, _, less)) = next_step actions k all_ok e in
      absurd (omega (arith, less, left))
  finish (suc m) actions (suc k) all_ok left e =
      let (a, internal, (j, b, at, less)) = next_step actions k all_ok e in
      let there : reached (actions ++ a ∷ []) ≡ step (reached actions) a =
        run-snoc (start names batch size) actions a in
      let (later, all_internal, size_later, done) =
        finish m (actions ++ a ∷ []) j b (ap steps_left there ∙ omega (arith, less, left))
          (ap (λ t. t.phase) there ∙ at) in
      (
        a ∷ later,
        (internal, all_internal),
        omega (arith, size_later, ap steps_left there, less),
        ap (λ t. t.phase) (run-cons (reached actions) a later)
            ∙ subst (λ t. (run t later).phase ≡ polling gs) there done,
      )

  -- Whenever the dispatcher collects results, in any state that a schedule can reach with a positive
  -- batch size, a schedule of its own steps and the workers' steps alone ends the collection, whatever
  -- the sends return, in one step more than are left by the count of what is queued, being sent,
  -- being reported and waiting: the collection waits for no tick, no cancellation and no result that
  -- nobody can deliver.
  pub collection_ends :
      (actions : List Action) (k : ℕ) (all_ok : Bool)
      → let s = run (start names batch size) actions in
        s.phase ≡ collecting n k all_ok gs → Finishes sends s gs
  collection_ends actions k all_ok e = finish (steps_left (reached actions)) actions k all_ok refl e
