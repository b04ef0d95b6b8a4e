-- ===== src/Notify/Dispatcher/Delivery.antt =====
-- internal/notify: where the channels succeed, a round ends with the call of `MarkSent`.
use alertmanager_webhook_rel.Base.{
  All, Bool, List, Option, Text, [], ap, arith, at, get_elem?, if◌then◌else◌, inl, inr, none, refl,
  some, subst, suc, sym, zero, ℕ, ◌++◌, ◌<◌, ◌==◌, ◌∙◌, ◌∷◌, ◌≡◌,
}
use alertmanager_webhook_rel.Alerts.{AlertGroup}
use alertmanager_webhook_rel.Notify.{Notification}
use alertmanager_webhook_rel.Notify.Queue.{Select, on_buffer, try_receive, receive, dequeue_wait}
use alertmanager_webhook_rel.Notify.State.{
  State, Phase, Lane, Worker, closing, collecting, fanning, joining, polling, selecting, stopped,
  start, idle, waiting, sending, reporting, returned,
}
use alertmanager_webhook_rel.Notify.Worker.{work_lane}
use alertmanager_webhook_rel.Notify.Dispatcher.{
  step, run, Action, advance, advance_phase, collect, conclude, settle, work, work_at, tick, begin,
  offer, cancel, close_queue,
}
use alertmanager_webhook_rel.Notify.Dispatcher.Reach.{run-start-Inv}
use alertmanager_webhook_rel.Notify.Dispatcher.Marking.{Marks, marked-step, conclude_marks, IsAtEnd}
use alertmanager_webhook_rel.Notify.Dispatcher.Progress.{steps_left, IsInternal}
use alertmanager_webhook_rel.Notify.Dispatcher.Ends.{next_step, run-snoc, run-cons, last_step}

-- Every `Send` returns nil.
abbrev pub all_succeed : ℕ → Option Text
all_succeed i = none

failed-work_lane :
    (s : State) (i : ℕ) (lane : Lane) (w : Worker) (choice : Select)
    → (work_lane s i lane w choice none).round.failed ≡ s.round.failed
unfolding work_lane try_receive receive dequeue_wait
failed-work_lane s i lane idle choice = ground arith
failed-work_lane s i lane waiting on_buffer = ground arith
failed-work_lane s i lane waiting choice = ground arith
failed-work_lane s i lane (sending n) choice = refl
failed-work_lane s i lane (reporting r) choice = ground arith
failed-work_lane s i lane returned choice = refl

failed-advance_phase : (s : State) (p : Phase) → (advance_phase s p).round.failed ≡ s.round.failed
unfolding advance_phase settle collect conclude
failed-advance_phase s selecting = ground arith
failed-advance_phase s (polling gs) = refl
failed-advance_phase s (fanning n i enqueued gs) = ground arith
failed-advance_phase s (collecting n zero all_ok gs) = ground arith
failed-advance_phase s (collecting n (suc k) all_ok gs) = ground arith
failed-advance_phase s closing = ground arith
failed-advance_phase s joining = ground arith
failed-advance_phase s stopped = refl

failed-work_at :
    (s : State) (i : ℕ) (choice : Select) (l : Option Lane)
    → (work_at s i choice none l).round.failed ≡ s.round.failed
unfolding work_at
failed-work_at s i choice none = refl
failed-work_at s i choice (some lane) = failed-work_lane s i lane lane.worker choice

failed-step :
    (s : State) (a : Action) → IsInternal all_succeed a → (step s a).round.failed ≡ s.round.failed
unfolding step
failed-step s advance h = failed-advance_phase s s.phase
failed-step s (work i choice e) h =
    subst (λ x. (work_at s i choice x (get_elem? s.lanes i)).round.failed ≡ s.round.failed) (sym h)
      (failed-work_at s i choice (get_elem? s.lanes i))
failed-step s cancel h = absurd h
failed-step s (tick groups) h = absurd h
failed-step s (begin now) h = absurd h
failed-step s (offer expired choice) h = absurd h
failed-step s (close_queue i) h = absurd h

-- Nothing is marked as long as results are to come.
marked_while_collecting :
    (s t : State) (n : Notification) (k : ℕ) (all_ok : Bool) (gs : List AlertGroup)
    → s.phase ≡ collecting n (suc k) all_ok gs
    → Marks s t
    → t.marked ≡ s.marked
marked_while_collecting s t n k all_ok gs e (inl same) = same
marked_while_collecting s t n k all_ok gs e (inr (m, _, d)) =
    let at_end = subst (λ p. IsAtEnd p m) e d.at_end in absurd (let no = at_end.1 in omega arith)

-- The steps that end a round with the call of `MarkSent`.
abbrev pub EndsMarked : State → Notification → List AlertGroup → Type 0
EndsMarked s n gs =
    (later : List Action) × All (IsInternal all_succeed) later
    × ((run s later).phase ≡ polling gs)
    × ((run s later).marked ≡ s.marked ++ n.group_key ∷ [])

module _ (names : List Text) (batch size : ℕ) (positive : 0 < batch) (n : Notification)
    (gs : List AlertGroup) where
  after : List Action → State
  after actions = run (start names batch size) actions

  last-EndsMarked :
      (actions : List Action) (all_ok : Bool)
      → (after actions).phase ≡ collecting n zero all_ok gs
      → (after actions).round.failed ≡ 0
      → EndsMarked (after actions) n gs
  unfolding after run
  last-EndsMarked actions all_ok e none_failed =
      let s = after actions in
      let marks = (conclude_marks names batch size actions n all_ok gs e).0 in
      (
        advance ∷ [],
        (tt, tt),
        last_step s n all_ok gs e,
        marks
            ∙ ap (λ (k : ℕ). if k == 0 then s.marked ++ n.group_key ∷ [] else s.marked) none_failed,
      )

  finish-EndsMarked :
      (m : ℕ) (actions : List Action) (k : ℕ) (all_ok : Bool)
      → steps_left (after actions) ≡ m
      → (after actions).phase ≡ collecting n k all_ok gs
      → (after actions).round.failed ≡ 0
      → EndsMarked (after actions) n gs
  unfolding after
  finish-EndsMarked m actions zero all_ok left e none_failed =
      last-EndsMarked actions all_ok e none_failed
  finish-EndsMarked zero actions (suc k) all_ok left e none_failed =
      let (a, _, (_, _, _, less)) =
        next_step names batch size positive all_succeed n gs actions k all_ok e in
      absurd (omega (arith, less, left))
  finish-EndsMarked (suc m) actions (suc k) all_ok left e none_failed =
      let s = after actions in
      let (a, internal, (j, b, at, less)) =
        next_step names batch size positive all_succeed n gs actions k all_ok e in
      let there : after (actions ++ a ∷ []) ≡ step s a =
        run-snoc (start names batch size) actions a in
      let kept =
        marked_while_collecting s (step s a) n k all_ok gs e
          (marked-step s a (run-start-Inv names batch size actions)) in
      let (later, all_internal, ended, marked) =
        finish-EndsMarked m (actions ++ a ∷ []) j b
          (ap steps_left there ∙ omega (arith, less, left)) (ap (λ t. t.phase) there ∙ at)
          (ap (λ t. t.round.failed) there ∙ failed-step s a internal ∙ none_failed) in
      (
        a ∷ later,
        (internal, all_internal),
        ap (λ t. t.phase) (run-cons s a later)
            ∙ subst (λ t. (run t later).phase ≡ polling gs) there ended,
        ap (λ t. t.marked) (run-cons s a later)
            ∙ subst (λ t. (run t later).marked ≡ t.marked ++ n.group_key ∷ []) there marked
            ∙ ap (λ ks. ks ++ n.group_key ∷ []) kept,
      )

  -- Whenever the dispatcher collects results, in any state that a schedule can reach with a positive batch size, and
  -- no send of the round has failed so far: if the sends still to come return nil, a schedule of its
  -- own steps and the workers' steps alone ends the round with the call of `MarkSent` for its key, and
  -- with no other call of it.
  pub collection-EndsMarked :
      (actions : List Action) (k : ℕ) (all_ok : Bool)
      → let s = run (start names batch size) actions in
        s.phase ≡ collecting n k all_ok gs → s.round.failed ≡ 0 → EndsMarked s n gs
  unfolding after
  collection-EndsMarked actions k all_ok e none_failed =
      finish-EndsMarked (steps_left (after actions)) actions k all_ok refl e none_failed
