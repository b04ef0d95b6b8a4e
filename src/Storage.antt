-- ===== src/Storage.antt =====
-- internal/storage/sqlite/store.go over the tables of migrations/sqlite: each SQL statement of the
-- source is a function on the rows, and a transaction that fails leaves the tables as they were.
pub mod Rows
pub mod Laws
pub mod AlertRows
pub mod Upsert
pub mod Calls
pub mod Reasons
pub mod Marking
pub mod History
pub mod Ordering
pub mod Sorting
pub mod Oldest
pub mod Pending
pub mod Outbox
pub mod Delivery
pub mod Connection
pub mod Samples
mod Tests
use alertmanager_webhook_rel.Base.{
  Bool, List, Option, Result, Text, [], at, err, fail_if, if◌then◌else◌, ltz, none, not, ok, pos,
  some, str, suc, take, ℕ, ◌&&◌, ◌++◌, ◌==◌, ◌||◌, ◌∷◌, ◌>>=◌, ◌>>◌,
}
use alertmanager_webhook_rel.Alerts.{AlertGroup, Alert, Instant}
use alertmanager_webhook_rel.Storage.Rows.{
  GroupRow, AlertRow, Tables, count_key, delete_group, find_key, has_alert_id, has_id, pending,
  pending_rows, sent, update_key, oldest_first,
}

-- Where a call of the database may fail in `Save`.
pub data SaveStep : Type 0 where
  begin_tx upsert_group delete_old prepare_insert commit_tx : SaveStep
  insert_alert : ℕ → SaveStep

-- One constructor for each `fmt.Errorf`; not_found wraps ErrNotFound.
pub data StoreError : Type 0 where
  marshal_failed : StoreError
  failed_at : SaveStep → StoreError
  query_failed scan_failed : StoreError
  unmarshal_failed not_found : Text → StoreError
  mark_failed write_failed row_missing : StoreError

-- `json.Marshal`, `json.Unmarshal` and `Format` of a time in UTC.
pub record Codec : Type 0 where
  pub marshal : AlertGroup → Option Text
  pub unmarshal : Text → Option AlertGroup
  pub format_time : Instant → Text

-- What SQLite chooses during a call of `Save`: the time, the random identifiers (0 is the group's,
-- suc i the alert's with index i), and the calls that fail.
pub record SaveCall : Type 0 where
  pub now : ℕ
  pub random_id : ℕ → Text
  pub fails : SaveStep → Bool

abbrev pub or_fail {ℓ} : {A : Type ℓ} → StoreError → Option A → Result StoreError A
or_fail e none = err e
or_fail e (some a) = ok a

unfoldable pub new_group_row : Text → ℕ → AlertGroup → Text → GroupRow
new_group_row id now group payload = record {
  id = id;
  group_key = group.group_key;
  receiver = group.receiver;
  status = group.status;
  external_url = group.external_url;
  payload = payload;
  received_at = now;
  notification_status = pending;
}

-- `DO UPDATE SET …`
unfoldable pub update_group_row : ℕ → AlertGroup → Text → GroupRow → GroupRow
update_group_row now group payload row = record row {
  receiver = group.receiver;
  status = group.status;
  external_url = group.external_url;
  payload = payload;
  received_at = now;
  notification_status = pending;
}

-- The row's identifier and the table after the upsert, unless the new identifier is taken.
unfoldable pub upsert : Text → ℕ → AlertGroup → Text → List GroupRow → Option (Text × List GroupRow)
unfolding new_group_row update_group_row
upsert id now group payload rows = elim (find_key group.group_key rows) [
  | some row ↦ some (row.id, update_key group.group_key (update_group_row now group payload) rows)
  | none ↦
      if has_id id rows then none else some (id, rows ++ new_group_row id now group payload ∷ [])
]

module _ (codec : Codec) where
  unfoldable pub ends_at_of : Alert → Option Text
  ends_at_of a =
      if not (ltz a.ends_at (pos 0)) && not (ltz (pos 0) a.ends_at)
      then none
      else some (codec.format_time a.ends_at)

  unfoldable pub new_alert_row : Text → Text → Alert → AlertRow
  unfolding ends_at_of
  new_alert_row id group_id a = record {
    id = id;
    alert_group_id = group_id;
    fingerprint = a.fingerprint;
    status = a.status;
    alertname = at a.labels (str "alertname");
    severity = at a.labels (str "severity");
    starts_at = codec.format_time a.starts_at;
    ends_at = ends_at_of a;
  }

  -- The loop over the group's alerts, from the one with this index on.
  unfoldable pub insert_alerts :
      SaveCall → Text → List Alert → ℕ → List AlertRow → Result StoreError (List AlertRow)
  insert_alerts call group_id [] i rows = ok rows
  insert_alerts call group_id (a ∷ alerts) i rows = do
    fail_if (call.fails (insert_alert i) || has_alert_id (call.random_id (suc i)) rows)
        (failed_at (insert_alert i))
    insert_alerts call group_id alerts (suc i)
        (rows ++ new_alert_row (call.random_id (suc i)) group_id a ∷ [])

  -- The tables when `Commit` returns nil.
  unfoldable pub save_tx : SaveCall → AlertGroup → Tables → Result StoreError Tables
  save_tx call group t = do
    payload ← or_fail marshal_failed (codec.marshal group)
    fail_if (call.fails begin_tx) (failed_at begin_tx)
    fail_if (call.fails upsert_group) (failed_at upsert_group)
    stored ←
        or_fail (failed_at upsert_group) (upsert (call.random_id 0) call.now group payload t.groups)
    fail_if (call.fails delete_old) (failed_at delete_old)
    fail_if (call.fails prepare_insert) (failed_at prepare_insert)
    rows ← insert_alerts call stored.0 group.alerts 0 (delete_group stored.0 t.alerts)
    fail_if (call.fails commit_tx) (failed_at commit_tx)
    ok (record t { groups = stored.1; alerts = rows })

  -- `Rollback` is deferred: on an error the tables are as before.
  unfoldable pub save : SaveCall → AlertGroup → Tables → Result StoreError (Unit {0}) × Tables
  save call group t = elim (save_tx call group t) [ ok t' ↦ (ok tt, t') | err e ↦ (err e, t) ]

  -- The loop over the result of the query.
  unfoldable pub decode_rows : List GroupRow → Result StoreError (List AlertGroup)
  decode_rows [] = ok []
  decode_rows (row ∷ rows) = do
    group ← or_fail (unmarshal_failed row.group_key) (codec.unmarshal row.payload)
    groups ← decode_rows rows
    ok (group ∷ groups)

  -- `found` is the order in which the database finds the rows before it sorts them; `query_fails` and `rows_fail` are the errors of
  -- the query, and of a scan or the iteration.
  unfoldable pub get_pending :
      (List GroupRow → List GroupRow)
      → Bool
      → Bool
      → ℕ
      → Tables
      → Result StoreError (List AlertGroup)
  unfolding oldest_first
  get_pending found query_fails rows_fail limit t = do
    fail_if query_fails query_failed
    groups ← decode_rows (take limit (oldest_first (found (pending_rows t.groups))))
    fail_if rows_fail scan_failed
    ok groups

unfoldable pub set_sent : GroupRow → GroupRow
set_sent row = record row { notification_status = sent }

-- An error of `ExecContext`; the driver's `RowsAffected` returns no error.
unfoldable pub mark_sent : Bool → Text → Tables → Result StoreError (Unit {0}) × Tables
unfolding set_sent
mark_sent exec_fails key t = if exec_fails then (err mark_failed, t) else (
  if count_key key t.groups == 0 then err (not_found key) else ok tt,
  record t { groups = update_key key set_sent t.groups },
)

-- `Check`: the write to the row of health_check, which is there or not.
unfoldable pub check : Bool → ℕ → Tables → Result StoreError (Unit {0}) × Tables
check exec_fails now t = if exec_fails then (err write_failed, t) else elim t.health_check [
  | none ↦ (err row_missing, t)
  | some _ ↦ (ok tt, record t { health_check = some now })
]
