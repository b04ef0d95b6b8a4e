-- ===== src/Storage/AlertRows.antt =====
-- migrations/sqlite: what the statements on the table of alerts keep.
use alertmanager_webhook_rel.Base.{
  All, List, Text, [], append_nil, arith, false, ok, refl, snoc-append, subst, suc, sym, text_eq,
  text_eq_iff, ℕ, ◌++◌, ◌||◌, ◌∙◌, ◌∷◌, ◌≡◌,
}
use alertmanager_webhook_rel.Alerts.{Alert}
use alertmanager_webhook_rel.Storage.{Codec, SaveCall, insert_alerts, new_alert_row}
use alertmanager_webhook_rel.Storage.Rows.{AlertRow, delete_group, has_alert_id}
use alertmanager_webhook_rel.Storage.Laws.{AlertIdsAreUnique}

pub has_alert_id-append :
    (id : Text) (rows : List AlertRow) (row : AlertRow)
    → has_alert_id id (rows ++ row ∷ []) ≡ (has_alert_id id rows || text_eq row.id id)
unfolding has_alert_id
has_alert_id-append id [] row = ground arith
has_alert_id-append id (r ∷ rows) row = ground (arith, has_alert_id-append id rows row)

pub append-AlertIdsAreUnique :
    (rows : List AlertRow) (row : AlertRow)
    → has_alert_id row.id rows ≡ false
    → AlertIdsAreUnique rows
    → AlertIdsAreUnique (rows ++ row ∷ [])
unfolding has_alert_id
append-AlertIdsAreUnique [] row h v = (refl, tt)
append-AlertIdsAreUnique (r ∷ rows) row h v =
    let absent = has_alert_id-append r.id rows row in
    let rest = append-AlertIdsAreUnique rows row (ground arith) v.1 in
    ground (arith, text_eq_iff r.id row.id, text_eq_iff row.id r.id)

pub has_alert_id-delete_group :
    (id group_id : Text) (rows : List AlertRow)
    → has_alert_id id rows ≡ false
    → has_alert_id id (delete_group group_id rows) ≡ false
unfolding has_alert_id delete_group
has_alert_id-delete_group id group_id [] h = refl
has_alert_id-delete_group id group_id (r ∷ rows) h =
    ground (arith, has_alert_id-delete_group id group_id rows)

pub delete_group-AlertIdsAreUnique :
    (group_id : Text) (rows : List AlertRow)
    → AlertIdsAreUnique rows
    → AlertIdsAreUnique (delete_group group_id rows)
unfolding delete_group
delete_group-AlertIdsAreUnique group_id [] v = tt
delete_group-AlertIdsAreUnique group_id (r ∷ rows) v =
    let rest = delete_group-AlertIdsAreUnique group_id rows v.1 in
    let absent = has_alert_id-delete_group r.id group_id rows v.0 in ground arith

pub delete_group-All {ℓ} :
    (P : AlertRow → Type ℓ) (group_id : Text) (rows : List AlertRow)
    → All P rows
    → All P (delete_group group_id rows)
unfolding delete_group
delete_group-All P group_id [] h = tt
delete_group-All P group_id (r ∷ rows) h =
    let rest = delete_group-All P group_id rows h.1 in ground arith

pub All-imp {ℓ κ} :
    (P : AlertRow → Type ℓ) (Q : AlertRow → Type κ) (rows : List AlertRow)
    → ((row : AlertRow) → P row → Q row)
    → All P rows
    → All Q rows
All-imp P Q [] f h = tt
All-imp P Q (r ∷ rows) f h = (f r h.0, All-imp P Q rows f h.1)

module _ (codec : Codec) (call : SaveCall) (group_id : Text) where
  -- The rows of a group's alerts, from the one with this index on.
  abbrev pub rows_of : List Alert → ℕ → List AlertRow
  rows_of [] i = []
  rows_of (a ∷ alerts) i =
      new_alert_row codec (call.random_id (suc i)) group_id a ∷ rows_of alerts (suc i)

  pub insert_alerts-eq-ok :
      (alerts : List Alert) (i : ℕ) (rows out : List AlertRow)
      → insert_alerts codec call group_id alerts i rows ≡ ok out
      → (out ≡ rows ++ rows_of alerts i) × (AlertIdsAreUnique rows → AlertIdsAreUnique out)
  unfolding insert_alerts new_alert_row
  insert_alerts-eq-ok [] i rows out h =
      let e : rows ≡ out = ground arith in
      (sym e ∙ sym (append_nil rows), λ v. subst AlertIdsAreUnique e v)
  insert_alerts-eq-ok (a ∷ alerts) i rows out h =
      let row = new_alert_row codec (call.random_id (suc i)) group_id a in
      let fresh : has_alert_id (call.random_id (suc i)) rows ≡ false = ground arith in
      let (e, unique) = insert_alerts-eq-ok alerts (suc i) (rows ++ row ∷ []) out (ground arith) in
      (
        e ∙ snoc-append rows row (rows_of alerts (suc i)),
        λ v. unique (append-AlertIdsAreUnique rows row fresh v),
      )
