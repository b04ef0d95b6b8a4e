-- ===== src/Relay/Kept.antt =====
-- main.go: an alert group that the endpoint acknowledged stays in the database, to be sent, until its
-- key was delivered.
use alertmanager_webhook_rel.Base.{
  Bool, List, Text, [], inl, inr, refl, some, subst, sym, ℕ, ℤ, ◌∷◌, ◌≡◌, ◌⊎◌,
}
use alertmanager_webhook_rel.Alerts.{AlertGroup}
use alertmanager_webhook_rel.Alerts.Handler.{Decoded, bad_json, body_too_large, decoded}
use alertmanager_webhook_rel.Alerts.Handler.Outcomes.{handle_webhook-stored, handle_webhook_ok_iff}
use alertmanager_webhook_rel.Notify.Dispatcher.{
  Action, advance, begin, cancel, close_queue, offer, tick, work,
}
use alertmanager_webhook_rel.Notify.Dispatcher.Invariant.{Inv}
use alertmanager_webhook_rel.Notify.Dispatcher.Reach.{step-Inv, start-Inv}
use alertmanager_webhook_rel.Storage.{Codec, SaveCall}
use alertmanager_webhook_rel.Storage.Rows.{GroupRow, Tables, find_key, pending}
use alertmanager_webhook_rel.Storage.Calls.{save_atomic}
use alertmanager_webhook_rel.Relay.{
  Relay, Event, step, run, start_relay, answer, move, moves, request, sqlite_saver, polls,
}
use alertmanager_webhook_rel.Relay.Steps.{IsDelivered, step-Kept}

module _ (codec : Codec) (max_alerts : ℤ) (batch : ℕ) where
  abbrev next : Relay → Event → Relay
  next = step codec max_alerts batch

  -- One of these events does.
  abbrev pub IsDeliveredIn : Text → Relay → List Event → Type 0
  IsDeliveredIn key r [] = ⊥
  IsDeliveredIn key r (e ∷ events) =
      IsDelivered codec max_alerts batch key r e
      ⊎ IsDeliveredIn key (step codec max_alerts batch r e) events

  move-Inv :
      (a : Action) (fails : Bool) (r : Relay) → Inv r.dispatcher → Inv (move a fails r).dispatcher
  unfolding move
  move-Inv (tick groups) fails r v = v
  move-Inv cancel fails r v = step-Inv _ cancel v
  move-Inv (begin now) fails r v = step-Inv _ (begin now) v
  move-Inv (offer expired choice) fails r v = step-Inv _ (offer expired choice) v
  move-Inv advance fails r v = step-Inv _ advance v
  move-Inv (close_queue i) fails r v = step-Inv _ (close_queue i) v
  move-Inv (work i choice e) fails r v = step-Inv _ (work i choice e) v

  relay-Inv : (r : Relay) (e : Event) → Inv r.dispatcher → Inv (next r e).dispatcher
  unfolding step
  relay-Inv r (request call content_type body) v = v
  relay-Inv r (polls found query_fails rows_fail) v = step-Inv _ (tick _) v
  relay-Inv r (moves a fails) v = move-Inv a fails r v

  run-relay-Inv :
      (r : Relay) (events : List Event)
      → Inv r.dispatcher
      → Inv (run codec max_alerts batch r events).dispatcher
  unfolding run
  run-relay-Inv r [] v = v
  run-relay-Inv r (e ∷ events) v = run-relay-Inv (next r e) events (relay-Inv r e v)

  -- What these events leave of a row.
  abbrev Remains : Text → GroupRow → Relay → List Event → Type 0
  Remains key row r events =
      (after : GroupRow) × (find_key key (run codec max_alerts batch r events).tables.groups
        ≡ some after)
      × (row.notification_status ≡ pending
          → (after.notification_status ≡ pending) ⊎ IsDeliveredIn key r events)

  run-Remains :
      (key : Text) (row : GroupRow) (r : Relay) (events : List Event)
      → Inv r.dispatcher
      → find_key key r.tables.groups ≡ some row
      → Remains key row r events
  unfolding run
  run-Remains key row r [] v found = (row, found, λ h. inl h)
  run-Remains key row r (e ∷ events) v found =
      let (middle, there, first) = step-Kept codec max_alerts batch key row r e v found in
      let (after, at_end, later) =
        run-Remains key middle (next r e) events (relay-Inv r e v) there in
      (
        after,
        at_end,
        λ h. elim (first h) [
          | inl waits ↦ elim (later waits) [ inl still ↦ inl still | inr d ↦ inr (inr d) ]
          | inr d ↦ inr (inl d)
        ],
      )

  abbrev HasPending : Text → Tables → Type 0
  HasPending key tables =
      (row : GroupRow) × (find_key key tables.groups ≡ some row)
      × (row.notification_status ≡ pending)

  -- A payload that is answered with 200 has its row, which is pending.
  acknowledged-HasPending :
      (r : Relay) (call : SaveCall) (content_type : Text) (body : Decoded)
      → (answer codec max_alerts call content_type body r).0.code ≡ 200
      → (group : AlertGroup) × (body ≡ decoded group)
        × HasPending group.group_key (next r (request call content_type body)).tables
  unfolding step answer
  acknowledged-HasPending r call content_type body_too_large h =
      absurd
        ((handle_webhook_ok_iff (sqlite_saver codec call) max_alerts content_type _ r.tables).0 h).1
  acknowledged-HasPending r call content_type bad_json h =
      absurd
        ((handle_webhook_ok_iff (sqlite_saver codec call) max_alerts content_type _ r.tables).0 h).1
  acknowledged-HasPending r call content_type (decoded group) h =
      let store = sqlite_saver codec call in
      let body = decoded group in
      let (_, accepted) = (handle_webhook_ok_iff store max_alerts content_type body r.tables).0 h in
      let after = handle_webhook-stored store max_alerts content_type body r.tables h in
      (
        group,
        refl,
        subst (HasPending group.group_key) (sym after)
            (elim (save_atomic codec call group r.tables) [
              | inl (_, saved) ↦ (
                saved.upserted.row, saved.upserted.found, saved.upserted.holds.notification_status,
              )
              | inr (e, failed, _) ↦ absurd (let done = accepted.saved in cc)
            ]),
      )

  -- Whatever happened before, and whatever happens after, a payload that the endpoint answered with 200
  -- has its row in the database, and the row is still pending unless since then `MarkSent` was called with
  -- its group key, at the end of a round in which a queue took a notification with that key and every
  -- send of it returned nil.
  pub acknowledged_is_kept :
      (names : List Text) (size : ℕ) (tables : Tables) (before after : List Event) (call : SaveCall)
      (content_type : Text) (body : Decoded)
      → let r = run codec max_alerts batch (start_relay names batch size tables) before in
        let s = step codec max_alerts batch r (request call content_type body) in
        (answer codec max_alerts call content_type body r).0.code ≡ 200
        → (group : AlertGroup) × (body ≡ decoded group)
          × (row : GroupRow) × (find_key group.group_key
                (run codec max_alerts batch s after).tables.groups
              ≡ some row)
          × ((row.notification_status ≡ pending) ⊎ IsDeliveredIn group.group_key s after)
  acknowledged_is_kept names size tables before after call content_type body h =
      let r = run codec max_alerts batch (start_relay names batch size tables) before in
      let v =
        run-relay-Inv (start_relay names batch size tables) before (start-Inv names batch size) in
      let e = request call content_type body in
      let (group, same, (row, there, waits)) = acknowledged-HasPending r call content_type body h in
      let (last, at_end, how) =
        run-Remains group.group_key row (next r e) after (relay-Inv r e v) there in
      (group, same, last, at_end, how waits)
