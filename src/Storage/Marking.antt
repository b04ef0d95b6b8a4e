-- ===== src/Storage/Marking.antt =====
-- internal/storage/sqlite/store.go: `MarkSent`, alone and after a `Save` of the same group key.
use alertmanager_webhook_rel.Base.{
  Bool-cases, List, Option-cases, Result, Text, [], ap, arith, err, false, inl, inr, none, ok, refl,
  some, sym, true, ◌==◌, ◌↔◌, ◌∙◌, ◌∷◌, ◌≡◌, ◌≢◌, ◌⊎◌,
}
use alertmanager_webhook_rel.Alerts.{AlertGroup}
use alertmanager_webhook_rel.Storage.{
  Codec, mark_sent, SaveCall, StoreError, not_found, save, set_sent,
}
use alertmanager_webhook_rel.Storage.Rows.{GroupRow, Tables, count_key, find_key, sent}
use alertmanager_webhook_rel.Storage.Laws.{
  map_some, KeepsKeys, find_key-update_key, find_key-update_key_other,
}
use alertmanager_webhook_rel.Storage.Calls.{save_atomic}

pub set_sent_keeps : KeepsKeys set_sent
unfolding set_sent
set_sent_keeps row = (refl, refl)

count_key_iff :
    (key : Text) (rows : List GroupRow)
    → ((count_key key rows == 0) ≡ true) ↔ (find_key key rows ≡ none)
unfolding count_key find_key
count_key_iff key [] = ground arith
count_key_iff key (r ∷ rows) = ground (arith, count_key_iff key rows)

-- What `MarkSent` does where the database does not fail: the group is not there, or its row alone
-- becomes sent and keeps its payload.
abbrev pub Marked : Text → Tables → Result StoreError (Unit {0}) → Tables → Type 0
Marked key t result after =
    ((find_key key t.groups ≡ none)
      × (result ≡ err (not_found key))
      × (find_key key after.groups ≡ none))
    ⊎ ((row : GroupRow) × (find_key key t.groups ≡ some row)
        × (result ≡ ok tt)
        × (find_key key after.groups ≡ some (set_sent row)))

-- `MarkSent` returns ErrNotFound exactly if no row has the group key. Otherwise it returns nil, and
-- the row of the key is as before except that it is sent. The rows of the other keys, and the
-- alerts, are as before.
pub mark_sent_outcome :
    (key : Text) (t : Tables)
    → let after = (mark_sent false key t).1 in
      Marked key t (mark_sent false key t).0 after
      × ((j : Text) → j ≢ key → find_key j after.groups ≡ find_key j t.groups)
      × (after.alerts ≡ t.alerts)
unfolding mark_sent
mark_sent_outcome key t =
    let updated_row = find_key-update_key key set_sent set_sent_keeps t.groups in
    (
      elim (Option-cases (find_key key t.groups)) [
        | inl absent ↦
            let none_affected = (count_key_iff key t.groups).1 absent in
            inl (absent, rw none_affected refl, updated_row ∙ ap (map_some set_sent) absent)
        | inr (row, found) ↦ elim (Bool-cases (count_key key t.groups == 0)) [
          | inl none_affected ↦
              let absent = (count_key_iff key t.groups).0 none_affected in absurd (ground arith)
          | inr affected ↦
              inr (row, found, rw affected refl, updated_row ∙ ap (map_some set_sent) found)
        ]
      ],
      λ j differs. find_key-update_key_other key set_sent set_sent_keeps j t.groups differs,
      refl,
    )

-- A `MarkSent` that comes after a `Save` of the same group key marks the payload of that `Save` as
-- sent, whichever payload was delivered.
pub mark_sent-save :
    (codec : Codec) (call : SaveCall) (group : AlertGroup) (t : Tables)
    → (save codec call group t).0 ≡ ok tt
    → let after = (mark_sent false group.group_key (save codec call group t).1).1 in
      (row : GroupRow) × (find_key group.group_key after.groups ≡ some row)
      × (codec.marshal group ≡ some row.payload)
      × (row.notification_status ≡ sent)
unfolding mark_sent
mark_sent-save codec call group t h = elim (save_atomic codec call group t) [
  | inr (e, failed, _) ↦ absurd (ground arith)
  | inl (_, saved) ↦
      let u = saved.upserted in
      (
        set_sent u.row,
        find_key-update_key group.group_key set_sent set_sent_keeps _
            ∙ ap (map_some set_sent) u.found,
        saved.marshalled ∙ ap some (sym u.holds.payload),
        refl,
      )
]
