-- ===== src/Relay/Steps.antt =====
-- main.go: what one event leaves of a row of the database that waits to be sent.
use alertmanager_webhook_rel.Base.{
  Bool, Text, [], ap, inl, inr, refl, some, subst, sym, ℕ, ℤ, ◌++◌, ◌∙◌, ◌∷◌, ◌≡◌, ◌⊎◌,
}
use alertmanager_webhook_rel.Alerts.Handler.{Decoded, bad_json, body_too_large, decoded}
use alertmanager_webhook_rel.Alerts.Handler.Outcomes.{handle_webhook_state, stored}
use alertmanager_webhook_rel.Notify.{Notification}
use alertmanager_webhook_rel.Notify.Dispatcher.{
  Action, advance, begin, cancel, close_queue, offer, tick, work,
}
use alertmanager_webhook_rel.Notify.Dispatcher
use alertmanager_webhook_rel.Notify.Dispatcher.Invariant.{Inv}
use alertmanager_webhook_rel.Notify.Dispatcher.Marking.{Delivers, marked-step, Marks}
use alertmanager_webhook_rel.Storage.{Codec, SaveCall}
use alertmanager_webhook_rel.Storage.Rows.{GroupRow, find_key, pending}
use alertmanager_webhook_rel.Relay.Rows.{
  StaysPending, calls_behind-snoc, calls_behind_same, mark_sent-present, save-StaysPending,
}
use alertmanager_webhook_rel.Relay.{
  Relay, Event, calls_behind, mark_all, step, answer, move, moves, request, sqlite_saver, polls,
}

module _ (codec : Codec) (max_alerts : ℤ) (batch : ℕ) where
  abbrev next : Relay → Event → Relay
  next = step codec max_alerts batch

  -- The event calls `MarkSent` with this key, at the end of a round in which a queue took a
  -- notification with this key, every send of it returned nil, and none failed.
  abbrev pub IsDelivered : Text → Relay → Event → Type 0
  IsDelivered key r e =
      (n : Notification) × (n.group_key ≡ key)
      × Delivers r.dispatcher n
      × ((step codec max_alerts batch r e).dispatcher.marked ≡ r.dispatcher.marked ++ key ∷ [])

  -- The row after an event.
  abbrev pub Kept : Text → GroupRow → Relay → Event → Type 0
  Kept key row r e =
      (after : GroupRow) × (find_key key (next r e).tables.groups ≡ some after)
      × (row.notification_status ≡ pending
          → (after.notification_status ≡ pending) ⊎ IsDelivered key r e)

  answer-StaysPending :
      (key : Text) (row : GroupRow) (r : Relay) (call : SaveCall) (content_type : Text)
      (body : Decoded)
      → find_key key r.tables.groups ≡ some row
      → StaysPending key row (answer codec max_alerts call content_type body r).1
  unfolding answer
  answer-StaysPending key row r call content_type body found =
      elim (handle_webhook_state (sqlite_saver codec call) max_alerts content_type body r.tables
        (λ e. refl)) [
          | inl same ↦ subst (StaysPending key row) (sym same) (row, found, λ h. h)
          | inr (saved, _) ↦ subst (StaysPending key row) (sym saved) (stored-StaysPending body)
        ]
    where
      stored-StaysPending :
          (b : Decoded) → StaysPending key row (stored (sqlite_saver codec call) b r.tables)
      stored-StaysPending (decoded group) =
          save-StaysPending key row r.tables found codec call group
      stored-StaysPending body_too_large = (row, found, λ h. h)
      stored-StaysPending bad_json = (row, found, λ h. h)

  request-Kept :
      (key : Text) (row : GroupRow) (r : Relay) (call : SaveCall) (content_type : Text)
      (body : Decoded)
      → find_key key r.tables.groups ≡ some row
      → Kept key row r (request call content_type body)
  unfolding step
  request-Kept key row r call content_type body found =
      let (after, there, still) = answer-StaysPending key row r call content_type body found in
      (after, there, λ h. inl (still h))

  -- The calls of `MarkSent` that a step of the dispatcher's machine makes.
  Marks-Kept :
      (key : Text) (row : GroupRow) (r : Relay) (a : Action) (fails : Bool)
      → find_key key r.tables.groups ≡ some row
      → Marks r.dispatcher (Dispatcher.step r.dispatcher a)
      → let after = Dispatcher.step r.dispatcher a in
        (row' : GroupRow) × (find_key key
            (mark_all fails (calls_behind r.dispatcher.marked after.marked) r.tables).groups
          ≡ some row')
        × (row.notification_status ≡ pending
            → (row'.notification_status ≡ pending)
              ⊎ ((n : Notification) × (n.group_key ≡ key)
                  × Delivers r.dispatcher n
                  × (after.marked ≡ r.dispatcher.marked ++ key ∷ [])))
  unfolding mark_all
  Marks-Kept key row r a fails found (inl same) =
      rw (same, calls_behind_same r.dispatcher.marked) (row, found, λ h. inl h)
  Marks-Kept key row r a fails found (inr (n, marked, d)) =
      let (after, there, how) = mark_sent-present key row r.tables found fails n.group_key in
      rw (marked, calls_behind-snoc r.dispatcher.marked n.group_key)
        (
          after,
          there,
          λ h. elim how [
            | inl same ↦ inr (n, same, d, ap (λ k. r.dispatcher.marked ++ k ∷ []) same)
            | inr untouched ↦ inl (ap (λ (x : GroupRow). x.notification_status) untouched ∙ h)
          ],
        )

  move-Kept :
      (key : Text) (row : GroupRow) (r : Relay) (a : Action) (fails : Bool)
      → Inv r.dispatcher
      → find_key key r.tables.groups ≡ some row
      → Kept key row r (moves a fails)
  unfolding step move
  move-Kept key row r (tick groups) fails v found = (row, found, λ h. inl h)
  move-Kept key row r cancel fails v found =
      Marks-Kept key row r cancel fails found (marked-step _ cancel v)
  move-Kept key row r (begin now) fails v found =
      Marks-Kept key row r (begin now) fails found (marked-step _ (begin now) v)
  move-Kept key row r (offer expired choice) fails v found =
      Marks-Kept key row r (offer expired choice) fails found
        (marked-step _ (offer expired choice) v)
  move-Kept key row r advance fails v found =
      Marks-Kept key row r advance fails found (marked-step _ advance v)
  move-Kept key row r (close_queue i) fails v found =
      Marks-Kept key row r (close_queue i) fails found (marked-step _ (close_queue i) v)
  move-Kept key row r (work i choice e) fails v found =
      Marks-Kept key row r (work i choice e) fails found (marked-step _ (work i choice e) v)

  pub step-Kept :
      (key : Text) (row : GroupRow) (r : Relay) (e : Event)
      → Inv r.dispatcher
      → find_key key r.tables.groups ≡ some row
      → Kept key row r e
  unfolding step
  step-Kept key row r (request call content_type body) v found =
      request-Kept key row r call content_type body found
  step-Kept key row r (polls order query_fails rows_fail) v found = (row, found, λ h. inl h)
  step-Kept key row r (moves a fails) v found = move-Kept key row r a fails v found
