-- ===== src/Storage/History.antt =====
-- internal/storage/sqlite/store.go: the constraints of migrations/sqlite under any sequence of calls.
use alertmanager_webhook_rel.Base.{
  Bool, List, Option-cases, Text, [], false, inl, inr, some, subst, suc, sym, true, ℕ, ◌++◌, ◌∙◌,
  ◌∷◌, ◌≡◌,
}
use alertmanager_webhook_rel.Alerts.{AlertGroup, Alert}
use alertmanager_webhook_rel.Storage.{
  Codec, mark_sent, check, SaveCall, new_alert_row, save, set_sent,
}
use alertmanager_webhook_rel.Storage.Rows.{GroupRow, AlertRow, Tables, has_id}
use alertmanager_webhook_rel.Storage.Laws.{
  AlertIdsAreUnique, AllReferToGroups, IdsAreUnique, KeysAreUnique, has_id-find_key,
  has_id-update_key, update_key-IdsAreUnique, update_key-KeysAreUnique,
}
use alertmanager_webhook_rel.Storage.AlertRows.{rows_of, All-imp, delete_group-All}
use alertmanager_webhook_rel.Storage.Calls.{Saved, save_atomic}
use alertmanager_webhook_rel.Storage.Marking.{set_sent_keeps}

-- A call that writes, with what SQLite chooses.
pub data Call : Type 0 where
  saving : SaveCall → AlertGroup → Call
  marking : Bool → Text → Call
  checking : Bool → ℕ → Call

abbrev pub empty_tables : Tables
empty_tables = record { groups = []; alerts = []; health_check = some 0 }

-- UNIQUE, both PRIMARY KEYs and the REFERENCES of the migrations.
pub record IsConsistent (t : Tables) : Type 0 where
  pub keys : KeysAreUnique t.groups
  pub ids : IdsAreUnique t.groups
  pub alert_ids : AlertIdsAreUnique t.alerts
  pub references : AllReferToGroups t.groups t.alerts

append-AllReferToGroups :
    (groups : List GroupRow) (old new : List AlertRow)
    → AllReferToGroups groups old × AllReferToGroups groups new
    → AllReferToGroups groups (old ++ new)
append-AllReferToGroups groups [] new h = h.1
append-AllReferToGroups groups (row ∷ old) new h =
    (h.0.0, append-AllReferToGroups groups old new (h.0.1, h.1))

module _ (codec : Codec) where
  unfoldable pub step : Tables → Call → Tables
  step t (saving call group) = (save codec call group t).1
  step t (marking exec_fails key) = (mark_sent exec_fails key t).1
  step t (checking exec_fails now) = (check exec_fails now t).1

  unfoldable pub run : Tables → List Call → Tables
  run t [] = t
  run t (c ∷ calls) = run (step t c) calls

  rows_of-refer :
      (call : SaveCall) (group_id : Text) (groups : List GroupRow) (alerts : List Alert) (i : ℕ)
      → has_id group_id groups ≡ true
      → AllReferToGroups groups (rows_of codec call group_id alerts i)
  unfolding new_alert_row
  rows_of-refer call group_id groups [] i h = tt
  rows_of-refer call group_id groups (a ∷ alerts) i h =
      (h, rows_of-refer call group_id groups alerts (suc i) h)

  Saved-IsConsistent :
      (call : SaveCall) (group : AlertGroup) (t after : Tables)
      → Saved codec call group t after
      → IsConsistent t
      → IsConsistent after
  Saved-IsConsistent call group t after saved v =
      let u = saved.upserted in
      let group_there : has_id saved.group_id after.groups ≡ true =
        subst (λ x. has_id x after.groups ≡ true) u.same_id
          (has_id-find_key group.group_key after.groups u.row u.found) in
      let old =
        delete_group-All _ saved.group_id t.alerts
          (All-imp _ _ t.alerts (λ row h. u.refers row.alert_group_id h) v.references) in
      let new = rows_of-refer call saved.group_id after.groups group.alerts 0 group_there in
      record {
        keys = u.keys v.keys;
        ids = u.ids v.ids;
        alert_ids = saved.alert_ids v.alert_ids;
        references =
            subst (AllReferToGroups after.groups) (sym saved.alert_rows)
              (append-AllReferToGroups _ _ _ (old, new));
      }

  mark_sent-IsConsistent :
      (exec_fails : Bool) (key : Text) (t : Tables)
      → IsConsistent t
      → IsConsistent (mark_sent exec_fails key t).1
  unfolding mark_sent
  mark_sent-IsConsistent true key t v = v
  mark_sent-IsConsistent false key t v = record {
    keys = update_key-KeysAreUnique key set_sent set_sent_keeps t.groups v.keys;
    ids = update_key-IdsAreUnique key set_sent set_sent_keeps t.groups v.ids;
    alert_ids = v.alert_ids;
    references =
        All-imp _ _ t.alerts
          (λ row h. has_id-update_key key set_sent set_sent_keeps row.alert_group_id t.groups ∙ h)
          v.references;
  }

  check-groups :
      (exec_fails : Bool) (now : ℕ) (t : Tables)
      → IsConsistent t
      → IsConsistent (check exec_fails now t).1
  unfolding check
  check-groups true now t v = v
  check-groups false now t v = elim (Option-cases t.health_check) [
    | inl absent ↦ rw (absent, check) v
    | inr (at_time, there) ↦
        rw (there, check)
          (record {
            keys = v.keys;
            ids = v.ids;
            alert_ids = v.alert_ids;
            references = v.references;
          })
  ]

  step-IsConsistent : (t : Tables) (c : Call) → IsConsistent t → IsConsistent (step t c)
  unfolding step
  step-IsConsistent t (saving call group) v = elim (save_atomic codec call group t) [
    | inl (_, saved) ↦ Saved-IsConsistent call group t _ saved v
    | inr (_, _, same) ↦ subst IsConsistent (sym same) v
  ]
  step-IsConsistent t (marking exec_fails key) v = mark_sent-IsConsistent exec_fails key t v
  step-IsConsistent t (checking exec_fails now) v = check-groups exec_fails now t v

  run_keeps : (t : Tables) (calls : List Call) → IsConsistent t → IsConsistent (run t calls)
  unfolding run
  run_keeps t [] v = v
  run_keeps t (c ∷ calls) v = run_keeps (step t c) calls (step-IsConsistent t c v)

  -- From empty tables, any sequence of calls, whichever of them fail and whatever identifiers are
  -- drawn, keeps group keys and identifiers unique, and every alert refers to a group.
  pub run-IsConsistent : (calls : List Call) → IsConsistent (run empty_tables calls)
  run-IsConsistent calls =
      run_keeps empty_tables calls (record { keys = tt; ids = tt; alert_ids = tt; references = tt })
