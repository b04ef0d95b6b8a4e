-- ===== src/Storage/Upsert.antt =====
-- internal/storage/sqlite/store.go: what the upsert of `Save` does to the table of groups.
use alertmanager_webhook_rel.Base.{
  Bool-cases, List, Option-cases, Text, [], ap, arith, false, inl, inr, none, refl, some, subst,
  text_eq_iff, true, ℕ, ◌++◌, ◌∙◌, ◌∷◌, ◌≡◌, ◌≢◌,
}
use alertmanager_webhook_rel.Alerts.{AlertGroup}
use alertmanager_webhook_rel.Storage.{upsert, new_group_row, update_group_row}
use alertmanager_webhook_rel.Storage.Rows.{GroupRow, find_key, has_id, pending, update_key}
use alertmanager_webhook_rel.Storage.Laws.{
  KeysAreUnique, IdsAreUnique, KeepsKeys, append-IdsAreUnique, append-KeysAreUnique,
  find_key-append, find_key-append_other, find_key-update_key, find_key-update_key_other,
  find_key_sound, has_id-append, has_id-update_key, map_some, update_key-IdsAreUnique,
  update_key-KeysAreUnique,
}

-- The row that a group is stored in, to be sent.
pub record Holds (now : ℕ) (group : AlertGroup) (json : Text) (row : GroupRow) : Type 0 where
  pub group_key : row.group_key ≡ group.group_key
  pub receiver : row.receiver ≡ group.receiver
  pub status : row.status ≡ group.status
  pub external_url : row.external_url ≡ group.external_url
  pub payload : row.payload ≡ json
  pub received_at : row.received_at ≡ now
  pub notification_status : row.notification_status ≡ pending

module _ (new_id : Text) (now : ℕ) (group : AlertGroup) (json : Text) (rows : List GroupRow) where
  pub record Upserted (group_id : Text) (after : List GroupRow) : Type 0 where
    pub row : GroupRow
    pub found : find_key group.group_key after ≡ some row
    pub same_id : row.id ≡ group_id
    pub holds : Holds now group json row
    pub others : (j : Text) → j ≢ group.group_key → find_key j after ≡ find_key j rows
    pub refers : (j : Text) → has_id j rows ≡ true → has_id j after ≡ true
    pub keys : KeysAreUnique rows → KeysAreUnique after
    pub ids : IdsAreUnique rows → IdsAreUnique after

  update_keeps : KeepsKeys (update_group_row now group json)
  unfolding update_group_row
  update_keeps row = (refl, refl)

  updated :
      (row : GroupRow)
      → find_key group.group_key rows ≡ some row
      → Upserted row.id (update_key group.group_key (update_group_row now group json) rows)
  unfolding update_group_row
  updated row found = record {
    row = update_group_row now group json row;
    found = find_key-update_key group.group_key _ update_keeps rows ∙ ap (map_some _) found;
    same_id = refl;
    holds = record {
      group_key = find_key_sound group.group_key rows row found;
      receiver = refl;
      status = refl;
      external_url = refl;
      payload = refl;
      received_at = refl;
      notification_status = refl;
    };
    others = λ j differs. find_key-update_key_other group.group_key _ update_keeps j rows differs;
    refers = λ j h. has_id-update_key group.group_key _ update_keeps j rows ∙ h;
    keys = update_key-KeysAreUnique group.group_key _ update_keeps rows;
    ids = update_key-IdsAreUnique group.group_key _ update_keeps rows;
  }

  inserted :
      find_key group.group_key rows ≡ none
      → has_id new_id rows ≡ false
      → Upserted new_id (rows ++ new_group_row new_id now group json ∷ [])
  unfolding new_group_row
  inserted absent fresh = record {
    row = new_group_row new_id now group json;
    found = ground (
      arith,
      find_key-append group.group_key rows (new_group_row new_id now group json) absent,
      text_eq_iff group.group_key group.group_key,
    );
    same_id = refl;
    holds = record {
      group_key = refl;
      receiver = refl;
      status = refl;
      external_url = refl;
      payload = refl;
      received_at = refl;
      notification_status = refl;
    };
    others =
        λ j differs. find_key-append_other j rows (new_group_row new_id now group json) differs;
    refers =
        λ j h. let e = has_id-append j rows (new_group_row new_id now group json) in ground arith;
    keys = append-KeysAreUnique rows (new_group_row new_id now group json) absent;
    ids = append-IdsAreUnique rows (new_group_row new_id now group json) fresh;
  }

  pub upsert-Upserted :
      (group_id : Text) (after : List GroupRow)
      → upsert new_id now group json rows ≡ some (group_id, after)
      → Upserted group_id after
  unfolding upsert
  upsert-Upserted group_id after h = elim (Option-cases (find_key group.group_key rows)) [
    | inl absent ↦ elim (Bool-cases (has_id new_id rows)) [
      | inl taken ↦ absurd (ground arith)
      | inr fresh ↦
          let e : ◌≡◌ {A = Text × List GroupRow}
              (new_id, rows ++ new_group_row new_id now group json ∷ []) (group_id, after) =
            ground arith in
          subst (λ p. Upserted p.0 p.1) e (inserted absent fresh)
    ]
    | inr (row, found) ↦
        let e : ◌≡◌ {A = Text × List GroupRow}
            (row.id, update_key group.group_key (update_group_row now group json) rows)
            (group_id, after) =
          ground arith in
        subst (λ p. Upserted p.0 p.1) e (updated row found)
  ]
