-- ===== src/Notify/Dispatcher/Drains.antt =====
-- internal/notify: a shutdown in the middle of a poll ends, and which groups it delivers.
use alertmanager_webhook_rel.Base.{
  All, All-append, Bool, Bool-cases, List, Text, [], ap, append_assoc, append_nil, false,
  if◌then◌else◌, inl, inr, refl, subst, sym, true, ℕ, ◌++◌, ◌<◌, ◌∙◌, ◌∷◌, ◌≡◌,
}
use alertmanager_webhook_rel.Alerts.{AlertGroup, Instant}
use alertmanager_webhook_rel.Notify.State.{State, Lane, polling, selecting, start, stopped}
use alertmanager_webhook_rel.Notify.Dispatcher.{
  step, run, Action, advance, all_returned, begin, begin_phase,
}
use alertmanager_webhook_rel.Notify.Dispatcher.Steady.{Same-run}
use alertmanager_webhook_rel.Notify.Dispatcher.Ends.{run-snoc}
use alertmanager_webhook_rel.Notify.Dispatcher.FanOut.{round_begins}
use alertmanager_webhook_rel.Notify.Dispatcher.NextGroup.{next_group_delivered, run-append}
use alertmanager_webhook_rel.Notify.Dispatcher.Cycle.{IsSmooth, IsSmooth-All, IsSmooth-round_begins}
use alertmanager_webhook_rel.Notify.Dispatcher.Refused.{
  refusals, refused_round, refused_round-skips,
}
use alertmanager_webhook_rel.Notify.Dispatcher.Stops.{IsEnding, Stops, shutdown-Stops}

-- The keys of the groups that are chosen, in their order.
abbrev pub chosen_keys : (AlertGroup → Bool) → List AlertGroup → List Text
chosen_keys takes [] = []
chosen_keys takes (g ∷ gs) =
    let rest = chosen_keys takes gs in if takes g then g.group_key ∷ rest else rest

-- The steps of the rounds that are left, which mark these groups and no others.
abbrev Rounds : Instant → State → List Text → Type 0
Rounds now s keys =
    (rounds : List Action) × All (IsSmooth now) rounds
    × ((run s rounds).phase ≡ polling [])
    × ((run s rounds).marked ≡ s.marked ++ keys)

-- The steps that mark these groups, in this order and no others, and then end the dispatcher.
abbrev pub EndsMarking : Instant → State → List Text → Type 0
EndsMarking now s keys =
    (rounds : List Action) × (shutdown : List Action) × All (IsSmooth now) rounds
    × All IsEnding shutdown
    × (let t = run s (rounds ++ shutdown) in
        (t.phase ≡ stopped)
        × (t.running ≡ false)
        × (all_returned t.lanes ≡ true)
        × (t.marked ≡ s.marked ++ keys))

-- The loop of `poll` ends.
abbrev polled : State → State
polled s = record s { phase = selecting }

begin-polled : (s : State) (now : Instant) → s.phase ≡ polling [] → step s (begin now) ≡ polled s
unfolding step begin_phase
begin-polled s now h = ap (begin_phase s now) h

IsSmooth-refusals : (now : Instant) (lanes : List Lane) → All (IsSmooth now) (refusals lanes)
IsSmooth-refusals now [] = tt
IsSmooth-refusals now (l ∷ lanes) = (refl, IsSmooth-refusals now lanes)

IsSmooth-refused_round : (now : Instant) (s : State) → All (IsSmooth now) (refused_round s now)
IsSmooth-refused_round now s = (
  refl,
  All-append (IsSmooth now) (refusals s.lanes) (advance ∷ []) (IsSmooth-refusals now s.lanes)
      (tt, tt),
)

-- One round and the rounds behind it.
add_round :
    (now : Instant) (s : State) (round : List Action) (marks keys : List Text)
    → All (IsSmooth now) round
    → (run s round).marked ≡ s.marked ++ marks
    → Rounds now (run s round) keys
    → Rounds now s (marks ++ keys)
add_round now s round marks keys smooth marked (rest, all_smooth, at_end, rest_marked) =
    let split = run-append s round rest in
    (
      round ++ rest,
      All-append (IsSmooth now) round rest smooth all_smooth,
      ap (λ (x : State). x.phase) split ∙ at_end,
      ap (λ (x : State). x.marked) split
          ∙ rest_marked
          ∙ ap (λ ks. ks ++ keys) marked
          ∙ append_assoc s.marked marks keys,
    )

module _ (name : Text) (others : List Text) (batch size : ℕ) (positive : 0 < batch)
    (room : 0 < size) (now : Instant) (takes : AlertGroup → Bool) where
  abbrev beginning : State
  beginning = start (name ∷ others) batch size

  -- The rounds of a cancelled poll.
  cancelled-Rounds :
      (gs : List AlertGroup) (actions : List Action)
      → let s = run beginning actions in
        s.phase ≡ polling gs → s.ctx_done ≡ true → Rounds now s (chosen_keys takes gs)
  unfolding run
  cancelled-Rounds [] actions here over = ([], tt, here, sym (append_nil _))
  cancelled-Rounds (g ∷ gs) actions here over =
      let s = run beginning actions in
      let after : (round : List Action)
          → (run s round).phase ≡ polling gs
          → Rounds now (run s round) (chosen_keys takes gs) =
        λ round ended.
          let there : run beginning (actions ++ round) ≡ run s round =
            run-append beginning actions round in
          subst (λ x. Rounds now x (chosen_keys takes gs)) there
            (cancelled-Rounds gs (actions ++ round) (ap (λ (x : State). x.phase) there ∙ ended)
              (subst (λ (x : State). x.ctx_done ≡ true) (sym there) ((Same-run s round).2 over))) in
      elim (Bool-cases (takes g)) [
        | inl chosen ↦
            let (later, internal, (ended, marked)) =
              next_group_delivered name others batch size positive room actions now g gs here in
            let round = round_begins s now ++ later in
            let smooth =
              All-append (IsSmooth now) (round_begins s now) later (IsSmooth-round_begins now s)
                (IsSmooth-All now later internal) in
            rw chosen (
              add_round now s round (g.group_key ∷ []) (chosen_keys takes gs) smooth marked
                (after round ended))
        | inr left ↦
            let skips = refused_round-skips s now g gs here over in
            rw left (
              add_round now s (refused_round s now) [] (chosen_keys takes gs)
                (IsSmooth-refused_round now s)
                (ap (λ (x : State). x.marked) skips ∙ sym (append_nil s.marked))
                (after (refused_round s now) (ap (λ (x : State). x.phase) skips)))
      ]

  -- In any state that a schedule can reach with at least one channel, a positive batch size and queues with room
  -- for an item, in which the dispatcher is in the loop of a poll and its context is cancelled, so that in each
  -- `Enqueue` the queue and the ended context are open to the `select`: whichever of the groups that are left
  -- are chosen, a schedule of the dispatcher's goroutine and the workers, whose sends return nil, calls
  -- `MarkSent` once for each of the chosen groups, in their order, and for no other, and then ends the
  -- dispatcher with all its workers. So the shutdown can end, and may deliver all that is left or none.
  pub cancelled-EndsMarking :
      (gs : List AlertGroup) (actions : List Action)
      → let s = run beginning actions in
        s.phase ≡ polling gs → s.ctx_done ≡ true → EndsMarking now s (chosen_keys takes gs)
  cancelled-EndsMarking gs actions here over =
      let s = run beginning actions in
      let (later, smooth, at_end, marked) = cancelled-Rounds gs actions here over in
      let rounds = later ++ begin now ∷ [] in
      let there : run beginning (actions ++ rounds) ≡ run s rounds =
        run-append beginning actions rounds in
      let done : run s rounds ≡ polled (run s later) =
        run-snoc s later (begin now) ∙ begin-polled (run s later) now at_end in
      let (shutdown, ends, bound, (ended, off, back, unmarked)) = subst Stops there (
        shutdown-Stops (name ∷ others) batch size (actions ++ rounds)
          (ap (λ (x : State). x.phase) (there ∙ done))
          (subst (λ (x : State). x.ctx_done ≡ true) (sym there) ((Same-run s rounds).2 over))) in
      let split = run-append s rounds shutdown in
      (
        rounds,
        shutdown,
        All-append (IsSmooth now) later (begin now ∷ []) smooth (refl, tt),
        ends,
        (
          ap (λ (x : State). x.phase) split ∙ ended,
          ap (λ (x : State). x.running) split ∙ off,
          ap (λ (x : State). all_returned x.lanes) split ∙ back,
          ap (λ (x : State). x.marked) split
              ∙ unmarked
              ∙ ap (λ (x : State). x.marked) done
              ∙ marked,
        ),
      )
