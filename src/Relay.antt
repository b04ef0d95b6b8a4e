-- ===== src/Relay.antt =====
-- main.go: the webhook endpoint, the SQLite store and the dispatcher, over one database. An event is a
-- request, a poll, or any other step of the dispatcher's goroutine or of a worker.
pub mod Rows
pub mod Http
pub mod Steps
pub mod Kept
pub mod Ready
pub mod Sent
pub mod Delivered
mod Tests
use alertmanager_webhook_rel.Base.{
  Bool, List, Option, Result, Text, [], err, none, ok, some, ℕ, ℤ, ◌∷◌,
}
use alertmanager_webhook_rel.Alerts.{AlertGroup}
use alertmanager_webhook_rel.Alerts.Service.{Saver}
use alertmanager_webhook_rel.Alerts.Handler.{Decoded, Response, handle_webhook}
use alertmanager_webhook_rel.Notify.State.{State, start}
use alertmanager_webhook_rel.Notify.Dispatcher.{Action, tick}
use alertmanager_webhook_rel.Notify.Dispatcher
use alertmanager_webhook_rel.Storage.{Codec, SaveCall, StoreError, save, mark_sent, get_pending}
use alertmanager_webhook_rel.Storage.Rows.{GroupRow, Tables}

pub record Relay : Type 0 where
  pub tables : Tables
  pub dispatcher : State

pub data Event : Type 0 where
  -- The content type and the body, and what the database chooses for `Save`.
  request : SaveCall → Text → Decoded → Event
  -- The ticker fires: the order in which the database finds the rows, and whether the query or the rows fail.
  polls : (List GroupRow → List GroupRow) → Bool → Bool → Event
  -- A step of a goroutine, and whether a `MarkSent` in it fails. A tick is an event of its own.
  moves : Action → Bool → Event

-- The calls of `MarkSent` that are in the second log and not yet in the first.
unfoldable pub calls_behind : List Text → List Text → List Text
calls_behind [] calls = calls
calls_behind (k ∷ ks) [] = []
calls_behind (k ∷ ks) (c ∷ calls) = calls_behind ks calls

unfoldable pub mark_all : Bool → List Text → Tables → Tables
mark_all fails [] tables = tables
mark_all fails (k ∷ ks) tables = mark_all fails ks (mark_sent fails k tables).1

unfoldable pub groups_of : Result StoreError (List AlertGroup) → Option (List AlertGroup)
groups_of (ok groups) = some groups
groups_of (err e) = none

unfoldable pub move : Action → Bool → Relay → Relay
move (tick groups) fails r = r
move a fails r =
    let after = Dispatcher.step r.dispatcher a in
    record {
      tables = mark_all fails (calls_behind r.dispatcher.marked after.marked) r.tables;
      dispatcher = after;
    }

-- No error of the store wraps a sentinel of the payload.
abbrev pub sqlite_saver : Codec → SaveCall → Saver Tables StoreError
sqlite_saver codec call = record { save = save codec call; wraps = λ e. none }

unfoldable pub answer : Codec → ℤ → SaveCall → Text → Decoded → Relay → Response StoreError × Tables
answer codec max_alerts call content_type body r =
    handle_webhook (sqlite_saver codec call) max_alerts content_type body r.tables

module _ (codec : Codec) (max_alerts : ℤ) (batch : ℕ) where
  unfoldable pub step : Relay → Event → Relay
  unfolding answer move groups_of
  step r (request call content_type body) = record r {
    tables = (answer codec max_alerts call content_type body r).1;
  }
  step r (polls found query_fails rows_fail) = record r {
    dispatcher =
        Dispatcher.step r.dispatcher
          (tick (groups_of (get_pending codec found query_fails rows_fail batch r.tables)));
  }
  step r (moves a fails) = move a fails r

  unfoldable pub run : Relay → List Event → Relay
  run r [] = r
  run r (e ∷ events) = run (step r e) events

-- The relay starts on a database.
abbrev pub start_relay : List Text → ℕ → ℕ → Tables → Relay
start_relay names batch size tables = record {
  tables = tables;
  dispatcher = start names batch size;
}
