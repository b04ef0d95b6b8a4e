-- ===== src/Storage/Rows.antt =====
-- migrations/sqlite: the tables, and the statements of internal/storage/sqlite/store.go on their rows.
use alertmanager_webhook_rel.Base.{
  Bool, List, Option, Text, [], false, if◌then◌else◌, leb, none, some, suc, text_eq, true, ℕ, ◌||◌,
  ◌∷◌,
}

-- The values of notification_status that the statements write.
pub data NotificationStatus : Type 0 where
  pending sent : NotificationStatus

-- `received_at` is in seconds, as `datetime('now')` is.
pub record GroupRow : Type 0 where
  pub id : Text
  pub group_key : Text
  pub receiver : Text
  pub status : Text
  pub external_url : Text
  pub payload : Text
  pub received_at : ℕ
  pub notification_status : NotificationStatus

pub record AlertRow : Type 0 where
  pub id : Text
  pub alert_group_id : Text
  pub fingerprint : Text
  pub status : Text
  pub alertname : Text
  pub severity : Text
  pub starts_at : Text
  pub ends_at : Option Text

-- `health_check` is the time in its single row, if the row is there.
pub record Tables : Type 0 where
  pub groups : List GroupRow
  pub alerts : List AlertRow
  pub health_check : Option ℕ

-- The row that `ON CONFLICT(group_key)` meets.
unfoldable pub find_key : Text → List GroupRow → Option GroupRow
find_key key [] = none
find_key key (row ∷ rows) = if text_eq row.group_key key then some row else find_key key rows

-- `UPDATE alert_groups SET … WHERE group_key = key`
unfoldable pub update_key : Text → (GroupRow → GroupRow) → List GroupRow → List GroupRow
update_key key f [] = []
update_key key f (row ∷ rows) =
    (if text_eq row.group_key key then f row else row) ∷ update_key key f rows

-- The rows that the update affects.
unfoldable pub count_key : Text → List GroupRow → ℕ
count_key key [] = 0
count_key key (row ∷ rows) =
    let rest = count_key key rows in if text_eq row.group_key key then suc rest else rest

-- The primary keys.
unfoldable pub has_id : Text → List GroupRow → Bool
has_id id [] = false
has_id id (row ∷ rows) = text_eq row.id id || has_id id rows

unfoldable pub has_alert_id : Text → List AlertRow → Bool
has_alert_id id [] = false
has_alert_id id (row ∷ rows) = text_eq row.id id || has_alert_id id rows

-- `DELETE FROM alerts WHERE alert_group_id = id`
unfoldable pub delete_group : Text → List AlertRow → List AlertRow
delete_group id [] = []
delete_group id (row ∷ rows) =
    let rest = delete_group id rows in if text_eq row.alert_group_id id then rest else row ∷ rest

abbrev pub is_pending : NotificationStatus → Bool
is_pending pending = true
is_pending sent = false

-- `WHERE notification_status = 'pending'`
unfoldable pub pending_rows : List GroupRow → List GroupRow
pending_rows [] = []
pending_rows (row ∷ rows) =
    let rest = pending_rows rows in if is_pending row.notification_status then row ∷ rest else rest

-- `ORDER BY received_at ASC`: a row is put before the first that is not older.
unfoldable pub insert_row : GroupRow → List GroupRow → List GroupRow
insert_row row [] = row ∷ []
insert_row row (r ∷ rows) =
    let rest = r ∷ insert_row row rows in
    if leb row.received_at r.received_at then row ∷ r ∷ rows else rest

unfoldable pub oldest_first : List GroupRow → List GroupRow
unfolding insert_row
oldest_first [] = []
oldest_first (r ∷ rows) = insert_row r (oldest_first rows)
