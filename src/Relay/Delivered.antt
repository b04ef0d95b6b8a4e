-- ===== src/Relay/Delivered.antt =====
-- main.go: where the channels and the database work, every group that a poll hands out becomes sent.
use alertmanager_webhook_rel.Base.{
  All, Bool, List, Text, [], ap, append_assoc, append_nil, false, inl, inr, map, refl, subst, sym,
  ℕ, ℤ, ◌++◌, ◌<◌, ◌∙◌, ◌∷◌, ◌≡◌,
}
use alertmanager_webhook_rel.Alerts.{AlertGroup, Instant}
use alertmanager_webhook_rel.Notify.State.{State, polling, start}
use alertmanager_webhook_rel.Notify.Dispatcher.{
  Action, advance, begin, cancel, close_queue, offer, tick, work,
}
use alertmanager_webhook_rel.Notify.Dispatcher
use alertmanager_webhook_rel.Notify.Dispatcher.Invariant.{Inv}
use alertmanager_webhook_rel.Notify.Dispatcher.Marking.{marked-step}
use alertmanager_webhook_rel.Notify.Dispatcher.Reach.{step-Inv, run-start-Inv}
use alertmanager_webhook_rel.Notify.Dispatcher.Ends.{run-snoc}
use alertmanager_webhook_rel.Notify.Dispatcher.Cycle.{IsSmooth, keys_of, poll-DeliversAll}
use alertmanager_webhook_rel.Storage.{Codec}
use alertmanager_webhook_rel.Storage.Rows.{Tables}
use alertmanager_webhook_rel.Relay.Rows.{calls_behind_same, calls_behind-snoc}
use alertmanager_webhook_rel.Relay.{
  Relay, Event, calls_behind, mark_all, step, run, start_relay, move, moves, polls, request,
}
use alertmanager_webhook_rel.Relay.Sent.{IsSentAfter, mark_all-IsSentAfter, mark_all-append}

-- The steps of the goroutines, where `MarkSent` does not fail.
abbrev pub as_moves : List Action → List Event
as_moves actions = map (λ a. moves a false) actions

append-cancel : (xs ys zs : List Text) → xs ++ ys ≡ xs ++ zs → ys ≡ zs
append-cancel [] ys zs h = h
append-cancel (x ∷ xs) ys zs h = append-cancel xs ys zs (cc)

-- The calls of `MarkSent` that a step makes.
step_marks :
    (s : State) (a : Action)
    → Inv s
    → (ks : List Text) × ((Dispatcher.step s a).marked ≡ s.marked ++ ks)
      × (calls_behind s.marked (Dispatcher.step s a).marked ≡ ks)
step_marks s a v = elim (marked-step s a v) [
  | inl same ↦ (
    [],
    same ∙ sym (append_nil s.marked),
    ap (calls_behind s.marked) same ∙ calls_behind_same s.marked,
  )
  | inr (n, marked, _) ↦ (
    n.group_key ∷ [],
    marked,
    ap (calls_behind s.marked) marked ∙ calls_behind-snoc s.marked n.group_key,
  )
]

module _ (codec : Codec) (max_alerts : ℤ) (batch : ℕ) where
  move_smooth :
      (r : Relay) (now : Instant) (a : Action)
      → IsSmooth now a
      → step codec max_alerts batch r (moves a false) ≡ record {
        tables =
            mark_all false
              (calls_behind r.dispatcher.marked (Dispatcher.step r.dispatcher a).marked)
              r.tables;
        dispatcher = Dispatcher.step r.dispatcher a;
      }
  unfolding step move
  move_smooth r now advance h = refl
  move_smooth r now (begin time) h = refl
  move_smooth r now (offer expired choice) h = refl
  move_smooth r now (work i choice e) h = refl
  move_smooth r now cancel h = absurd h
  move_smooth r now (tick groups) h = absurd h
  move_smooth r now (close_queue i) h = absurd h

  -- A run of such steps, on the dispatcher and on the tables.
  abbrev Follows : Relay → List Action → Type 0
  Follows r actions =
      let after = run codec max_alerts batch r (as_moves actions) in
      (ks : List Text) × (after.dispatcher ≡ Dispatcher.run r.dispatcher actions)
      × (after.dispatcher.marked ≡ r.dispatcher.marked ++ ks)
      × (after.tables ≡ mark_all false ks r.tables)

  follows :
      (r : Relay) (now : Instant) (actions : List Action)
      → Inv r.dispatcher
      → All (IsSmooth now) actions
      → Follows r actions
  unfolding run Dispatcher.run mark_all
  follows r now [] v h = ([], refl, sym (append_nil r.dispatcher.marked), refl)
  follows r now (a ∷ actions) v h =
      let (ks, marked, behind) = step_marks r.dispatcher a v in
      let r1 : Relay = record {
        tables = mark_all false ks r.tables;
        dispatcher = Dispatcher.step r.dispatcher a;
      } in
      let first : step codec max_alerts batch r (moves a false) ≡ r1 =
        move_smooth r now a h.0
        ∙ ap
            (λ ls. record {
              tables = mark_all false ls r.tables;
              dispatcher = Dispatcher.step r.dispatcher a;
            })
            behind in
      let (ls, same, later, tables) = follows r1 now actions (step-Inv r.dispatcher a v) h.1 in
      subst
        (λ (x : Relay).
          (ms : List Text) × ((run codec max_alerts batch x (as_moves actions)).dispatcher
            ≡ Dispatcher.run (Dispatcher.step r.dispatcher a) actions)
          × ((run codec max_alerts batch x (as_moves actions)).dispatcher.marked
              ≡ r.dispatcher.marked ++ ms)
          × ((run codec max_alerts batch x (as_moves actions)).tables ≡ mark_all false ms r.tables))
        (sym first)
        (
          ks ++ ls,
          same,
          later ∙ ap (λ l. l ++ ls) marked ∙ append_assoc r.dispatcher.marked ks ls,
          tables ∙ sym (mark_all-append ks ls r.tables),
        )

  -- The relay's dispatcher is where a schedule of the dispatcher alone leads.
  Scheduled : List Text → ℕ → Relay → Type 0
  Scheduled names size r =
      (actions : List Action) × (r.dispatcher ≡ Dispatcher.run (start names batch size) actions)

  goes_on :
      (names : List Text) (size : ℕ) (r : Relay) (a : Action) (t : State)
      → t ≡ Dispatcher.step r.dispatcher a
      → Scheduled names size r
      → (actions : List Action) × (t ≡ Dispatcher.run (start names batch size) actions)
  unfolding Scheduled
  goes_on names size r a t e (actions, same) = (
    actions ++ a ∷ [],
    e
        ∙ ap (λ (x : State). Dispatcher.step x a) same
        ∙ sym (run-snoc (start names batch size) actions a),
  )

  move-Scheduled :
      (names : List Text) (size : ℕ) (r : Relay) (a : Action) (fails : Bool)
      → Scheduled names size r
      → Scheduled names size (move a fails r)
  unfolding move Scheduled
  move-Scheduled names size r (tick groups) fails v = v
  move-Scheduled names size r cancel fails v = goes_on names size r cancel _ refl v
  move-Scheduled names size r (begin now) fails v = goes_on names size r (begin now) _ refl v
  move-Scheduled names size r (offer expired choice) fails v =
      goes_on names size r (offer expired choice) _ refl v
  move-Scheduled names size r advance fails v = goes_on names size r advance _ refl v
  move-Scheduled names size r (close_queue i) fails v =
      goes_on names size r (close_queue i) _ refl v
  move-Scheduled names size r (work i choice e) fails v =
      goes_on names size r (work i choice e) _ refl v

  step-Scheduled :
      (names : List Text) (size : ℕ) (r : Relay) (e : Event)
      → Scheduled names size r
      → Scheduled names size (step codec max_alerts batch r e)
  unfolding step Scheduled
  step-Scheduled names size r (request call content_type body) v = v
  step-Scheduled names size r (polls found query_fails rows_fail) v =
      goes_on names size r (tick _) _ refl v
  step-Scheduled names size r (moves a fails) v = move-Scheduled names size r a fails v

  run-Scheduled :
      (names : List Text) (size : ℕ) (r : Relay) (events : List Event)
      → Scheduled names size r
      → Scheduled names size (run codec max_alerts batch r events)
  unfolding run
  run-Scheduled names size r [] v = v
  run-Scheduled names size r (e ∷ events) v =
      run-Scheduled names size (step codec max_alerts batch r e) events
        (step-Scheduled names size r e v)

  -- Whatever happened before, with at least one channel, a positive batch size and queues with room for an item: when
  -- the dispatcher is in the loop of a poll, and from then on no `Enqueue` times out, the channels' sends return
  -- nil and `MarkSent` does not fail, a schedule of the dispatcher's goroutine and the workers ends the loop,
  -- and the row of each group that was left of the poll, where there is one, is then as it
  -- was except that it is sent.
  pub poll-IsSentAfter :
      (name : Text) (others : List Text) (size : ℕ) (tables : Tables) (before : List Event)
      (now : Instant) (gs : List AlertGroup)
      → 0 < batch
      → 0 < size
      → let r = run codec max_alerts batch (start_relay (name ∷ others) batch size tables) before in
        r.dispatcher.phase ≡ polling gs
        → (later : List Action) × All (IsSmooth now) later
          × (let t = run codec max_alerts batch r (as_moves later) in
              (t.dispatcher.phase ≡ polling []) × All (IsSentAfter r.tables t.tables) gs)
  unfolding Scheduled
  poll-IsSentAfter name others size tables before now gs positive room here =
      let first = start_relay (name ∷ others) batch size tables in
      let r = run codec max_alerts batch first before in
      let (actions, same) =
        run-Scheduled (name ∷ others) size first before ([], unfold Dispatcher.run in refl) in
      let (later, smooth, ended, marked) =
        poll-DeliversAll name others batch size positive room now gs actions
          (sym (ap (λ (x : State). x.phase) same) ∙ here) in
      let v : Inv r.dispatcher =
        subst Inv (sym same) (run-start-Inv (name ∷ others) batch size actions) in
      let (ks, dispatcher, marks, after) = follows r now later v smooth in
      let t = run codec max_alerts batch r (as_moves later) in
      let there : t.dispatcher
          ≡ Dispatcher.run (Dispatcher.run (start (name ∷ others) batch size) actions) later =
        dispatcher ∙ ap (λ (x : State). Dispatcher.run x later) same in
      let keys : ks ≡ keys_of gs = append-cancel r.dispatcher.marked ks (keys_of gs) (
        sym marks
        ∙ ap (λ (x : State). x.marked) there
        ∙ marked
        ∙ ap (λ (x : State). x.marked ++ keys_of gs) (sym same)) in
      (
        later,
        smooth,
        (
          ap (λ (x : State). x.phase) there ∙ ended,
          subst (λ u. All (IsSentAfter r.tables u) gs)
              (sym (after ∙ ap (λ ls. mark_all false ls r.tables) keys))
              (mark_all-IsSentAfter gs r.tables),
        ),
      )
