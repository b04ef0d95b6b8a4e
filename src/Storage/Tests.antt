-- ===== src/Storage/Tests.antt =====
-- internal/storage/sqlite: tests on two groups, and instances of the theorems.
use alertmanager_webhook_rel.Base.{
  All, List, Permᴰ, Text, [], ap, arith, at, err, false, if◌then◌else◌, length, none, ok, refl,
  some, str, sym, text_eq, true, ◌++◌, ◌==◌, ◌∷◌, ◌≡◌, ◌≢◌, ◌≤◌, ◌⊎◌,
}
use alertmanager_webhook_rel.Alerts.{AlertGroup}
use alertmanager_webhook_rel.Alerts.Samples.{sample}
use alertmanager_webhook_rel.Storage.Samples.{sample_codec, at_time, as_stored, as_stored-Reorders}
use alertmanager_webhook_rel.Dialogue.{Answers, perform, after_answer}
use alertmanager_webhook_rel.Storage.Connection.{
  DbCall, opens, sets_max_open_conns, executes, queries, closes, pragma_failed, new_store,
  after_sql_open, configure_pragmas, initialized, close_store,
}
use alertmanager_webhook_rel.Storage.Connection.Lifetime.{NewOutcome, new_store-NewOutcome}
use alertmanager_webhook_rel.Storage.{
  save, SaveCall, StoreError, commit_tx, decode_rows, ends_at_of, failed_at, get_pending,
  insert_alerts, mark_sent, new_alert_row, new_group_row, save_tx, set_sent, update_group_row,
  upsert,
}
use alertmanager_webhook_rel.Storage.Rows.{
  GroupRow, Tables, count_key, delete_group, find_key, has_alert_id, has_id, pending_rows, sent,
  update_key, insert_row, oldest_first,
}
use alertmanager_webhook_rel.Storage.Calls.{Saved, save_atomic}
use alertmanager_webhook_rel.Storage.Marking.{mark_sent-save}
use alertmanager_webhook_rel.Storage.Outbox.Refines.{run-DoesAll}
use alertmanager_webhook_rel.Storage.Reasons.{HasReason, save-HasReason}
use alertmanager_webhook_rel.Storage.Outbox.{DoesAll, HandsOut, outcomes, view}
use alertmanager_webhook_rel.Storage.History.{
  Call, run, run-IsConsistent, IsConsistent, empty_tables, marking, saving, step,
}
use alertmanager_webhook_rel.Storage.Delivery.{get_pending-save}
use alertmanager_webhook_rel.Storage.Ordering.{Has, IsNotYounger, IsOldestFirst}
use alertmanager_webhook_rel.Storage.Oldest.{AreDecoded, get_pending_oldest}

-- The same group, resolved.
abbrev newer : AlertGroup
newer = record sample { status = str "resolved" }

abbrev no_commit : SaveCall
no_commit = record (at_time 3) { fails = λ s. elim s [ commit_tx ↦ true | _ ↦ false ] }

abbrev one_row : Tables
one_row = (save sample_codec (at_time 5) sample empty_tables).1

saved : (save sample_codec (at_time 5) sample empty_tables).0 ≡ ok tt
unfolding save save_tx upsert find_key has_id insert_alerts has_alert_id delete_group text_eq
saved = refl

rolled_back : save sample_codec no_commit newer one_row ≡ (err (failed_at commit_tx), one_row)
unfolding save save_tx upsert find_key has_id insert_alerts has_alert_id delete_group text_eq
    new_group_row new_alert_row ends_at_of update_key update_group_row at
rolled_back = refl

handed_out : get_pending sample_codec as_stored false false 10 one_row ≡ ok (sample ∷ [])
unfolding oldest_first insert_row get_pending decode_rows pending_rows save save_tx upsert find_key
    has_id insert_alerts has_alert_id delete_group text_eq new_group_row new_alert_row ends_at_of at
handed_out = refl

-- The group is handed out, then its newer state is saved, then the old delivery is marked: the newer
-- state is no longer pending.
overtaken :
    get_pending sample_codec as_stored false false 10
      (run sample_codec one_row (saving (at_time 6) newer ∷ marking false (str "g1") ∷ []))
    ≡ ok []
unfolding oldest_first run step mark_sent set_sent get_pending decode_rows pending_rows save save_tx
    upsert find_key has_id insert_alerts has_alert_id delete_group text_eq new_group_row
    new_alert_row ends_at_of update_key update_group_row count_key at
overtaken = refl

save_atomic_example :
    (((save sample_codec no_commit newer one_row).0 ≡ ok tt)
      × Saved sample_codec no_commit newer one_row (save sample_codec no_commit newer one_row).1)
    ⊎ ((e : StoreError) × ((save sample_codec no_commit newer one_row).0 ≡ err e)
        × ((save sample_codec no_commit newer one_row).1 ≡ one_row))
save_atomic_example = save_atomic sample_codec no_commit newer one_row

mark_sent-save_example :
    (row : GroupRow) × (find_key
        (str "g1")
        (mark_sent false (str "g1") (save sample_codec (at_time 5) sample empty_tables).1).1.groups
      ≡ some row)
    × (some (str "firing") ≡ some row.payload)
    × (row.notification_status ≡ sent)
mark_sent-save_example = mark_sent-save sample_codec (at_time 5) sample empty_tables saved

run-IsConsistent_example :
    IsConsistent
      (run sample_codec empty_tables (saving (at_time 5) sample ∷ saving no_commit newer ∷ []))
run-IsConsistent_example =
    run-IsConsistent sample_codec (saving (at_time 5) sample ∷ saving no_commit newer ∷ [])

get_pending_oldest_example :
    (out : List GroupRow) × (left : List GroupRow) × Permᴰ
      (pending_rows one_row.groups)
      (out ++ left)
    × AreDecoded sample_codec out (sample ∷ [])
    × IsOldestFirst out
    × All (λ r. IsNotYounger r left) out
    × (length out ≤ 10)
    × (left ≢ [] → length out ≡ 10)
get_pending_oldest_example =
    get_pending_oldest sample_codec as_stored false false 10 one_row (sample ∷ [])
      as_stored-Reorders handed_out

reads_back :
    (json : Text)
    → sample_codec.marshal sample ≡ some json
    → sample_codec.unmarshal json ≡ some sample
reads_back json h =
    let e : str "firing" ≡ json = cc in ap (λ s. some (record sample { status = s })) (sym e)

one_pending : length (pending_rows one_row.groups) ≤ 10
unfolding pending_rows save save_tx upsert find_key has_id insert_alerts has_alert_id delete_group
    text_eq new_group_row new_alert_row ends_at_of at
one_pending = omega arith

get_pending-save_example : Has sample (sample ∷ [])
get_pending-save_example =
    get_pending-save sample_codec as_stored 10 (at_time 5) sample empty_tables (sample ∷ [])
      as_stored-Reorders reads_back saved one_pending handed_out

-- A database on which the third pragma fails.
abbrev locked : Answers DbCall
locked done c = if length done == 4 then some (str "locked") else none

refused_pragma : new_store locked (str "relay.db") ≡ (
  err (pragma_failed (str "busy_timeout=5000") (str "locked")),
  opens (str "relay.db")
      ∷ sets_max_open_conns 1
      ∷ executes (str "PRAGMA journal_mode=WAL")
      ∷ executes (str "PRAGMA foreign_keys=ON")
      ∷ executes (str "PRAGMA busy_timeout=5000")
      ∷ closes
      ∷ [],
)
unfolding new_store after_sql_open configure_pragmas initialized perform after_answer
refused_pragma = refl

-- An error of the checkpoint does not keep the database open.
closed_anyway :
    close_store (λ done c. if length done == 0 then some (str "busy") else none) []
    ≡ (none, queries (str "PRAGMA wal_checkpoint(TRUNCATE)") ∷ closes ∷ [])
unfolding close_store
closed_anyway = refl

new_store-NewOutcome_example :
    NewOutcome locked (str "relay.db") (new_store locked (str "relay.db"))
new_store-NewOutcome_example = new_store-NewOutcome locked (str "relay.db")

abbrev three_calls : List Call
three_calls = saving (at_time 5) sample ∷ saving no_commit newer ∷ marking false (str "g1") ∷ []

run-DoesAll_example :
    DoesAll sample_codec
      (λ key. none)
      three_calls
      (outcomes sample_codec empty_tables three_calls)
      (view (run sample_codec empty_tables three_calls))
    × HandsOut sample_codec (view (run sample_codec empty_tables three_calls)) (
        get_pending sample_codec as_stored false false 10
          (run sample_codec empty_tables three_calls))
run-DoesAll_example =
    run-DoesAll sample_codec three_calls as_stored false false 10 as_stored-Reorders

save-HasReason_example :
    ((save sample_codec no_commit newer one_row).0 ≡ ok tt)
    ⊎ ((e : StoreError) × ((save sample_codec no_commit newer one_row).0 ≡ err e)
        × HasReason sample_codec no_commit newer one_row e)
save-HasReason_example = save-HasReason sample_codec no_commit newer one_row
