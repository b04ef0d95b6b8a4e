-- ===== src/Notify/Dispatcher/Cycle.antt =====
-- internal/notify: where the channels succeed, every group that a poll hands out is delivered.
use alertmanager_webhook_rel.Base.{
  All, All-append, List, Text, [], ap, append_nil, false, map, none, refl, snoc-append, subst, sym,
  ℕ, ◌++◌, ◌<◌, ◌∙◌, ◌∷◌, ◌≡◌,
}
use alertmanager_webhook_rel.Alerts.{AlertGroup, Instant}
use alertmanager_webhook_rel.Notify.State.{State, Lane, polling, start}
use alertmanager_webhook_rel.Notify.Dispatcher.{
  run, Action, advance, begin, offer, work, cancel, tick, close_queue,
}
use alertmanager_webhook_rel.Notify.Dispatcher.Delivery.{all_succeed}
use alertmanager_webhook_rel.Notify.Dispatcher.Progress.{IsInternal}
use alertmanager_webhook_rel.Notify.Dispatcher.FanOut.{offers, round_begins}
use alertmanager_webhook_rel.Notify.Dispatcher.NextGroup.{next_group_delivered, run-append}

-- A step of the dispatcher's goroutine at this time, with an `Enqueue` whose own timeout has not passed, or of a
-- worker whose `Send` returns nil.
abbrev pub IsSmooth : Instant → Action → Type 0
IsSmooth now (begin time) = time ≡ now
IsSmooth now (offer expired choice) = expired ≡ false
IsSmooth now advance = Unit
IsSmooth now (work i choice e) = e ≡ none
IsSmooth now _ = ⊥

IsSmooth-of_internal : (now : Instant) (a : Action) → IsInternal all_succeed a → IsSmooth now a
IsSmooth-of_internal now advance h = tt
IsSmooth-of_internal now (work i choice e) h = h
IsSmooth-of_internal now cancel h = h
IsSmooth-of_internal now (tick groups) h = h
IsSmooth-of_internal now (begin time) h = absurd h
IsSmooth-of_internal now (offer expired choice) h = absurd h
IsSmooth-of_internal now (close_queue i) h = h

pub IsSmooth-All :
    (now : Instant) (later : List Action)
    → All (IsInternal all_succeed) later
    → All (IsSmooth now) later
IsSmooth-All now [] h = tt
IsSmooth-All now (a ∷ later) h = (IsSmooth-of_internal now a h.0, IsSmooth-All now later h.1)

IsSmooth-offers : (now : Instant) (lanes : List Lane) → All (IsSmooth now) (offers lanes)
IsSmooth-offers now [] = tt
IsSmooth-offers now (l ∷ lanes) = (refl, IsSmooth-offers now lanes)

pub IsSmooth-round_begins : (now : Instant) (s : State) → All (IsSmooth now) (round_begins s now)
IsSmooth-round_begins now s = (
  refl,
  All-append (IsSmooth now) (offers s.lanes) (advance ∷ []) (IsSmooth-offers now s.lanes) (tt, tt),
)

abbrev pub keys_of : List AlertGroup → List Text
keys_of gs = map (λ (g : AlertGroup). g.group_key) gs

-- The steps that mark all these groups, in this order, and leave the loop of `poll` at its end.
abbrev pub DeliversAll : Instant → State → List AlertGroup → Type 0
DeliversAll now s gs =
    (later : List Action) × All (IsSmooth now) later
    × ((run s later).phase ≡ polling [])
    × ((run s later).marked ≡ s.marked ++ keys_of gs)

module _ (name : Text) (others : List Text) (batch size : ℕ) (positive : 0 < batch)
    (room : 0 < size) (now : Instant) where
  -- In any state that a schedule can reach with at least one channel, a positive batch size and queues with room
  -- for an item, in which the dispatcher is in the loop of a poll: if no `Enqueue` times out and the channels'
  -- sends return nil, a schedule of the dispatcher's goroutine and the workers calls `MarkSent` once for
  -- each of the groups that are left of the poll, in their order, and for no other.
  pub poll-DeliversAll :
      (gs : List AlertGroup) (actions : List Action)
      → let s = run (start (name ∷ others) batch size) actions in
        s.phase ≡ polling gs → DeliversAll now s gs
  unfolding run
  poll-DeliversAll [] actions here = ([], tt, here, sym (append_nil _))
  poll-DeliversAll (g ∷ gs) actions here =
      let first = start (name ∷ others) batch size in
      let s = run first actions in
      let (later, internal, (ended, marked)) =
        next_group_delivered name others batch size positive room actions now g gs here in
      let round = round_begins s now ++ later in
      let there : run first (actions ++ round) ≡ run s round = run-append first actions round in
      let (rest, smooth, at_end, all_marked) =
        poll-DeliversAll gs (actions ++ round) (ap (λ (x : State). x.phase) there ∙ ended) in
      let split = run-append s round rest in
      (
        round ++ rest,
        All-append (IsSmooth now) round rest
            (All-append (IsSmooth now) (round_begins s now) later (IsSmooth-round_begins now s)
              (IsSmooth-All now later internal))
            smooth,
        ap (λ (x : State). x.phase) split
            ∙ subst (λ (x : State). (run x rest).phase ≡ polling []) there at_end,
        ap (λ (x : State). x.marked) split
            ∙ subst (λ (x : State). (run x rest).marked ≡ x.marked ++ keys_of gs) there all_marked
            ∙ ap (λ ks. ks ++ keys_of gs) marked
            ∙ snoc-append s.marked g.group_key (keys_of gs),
      )
