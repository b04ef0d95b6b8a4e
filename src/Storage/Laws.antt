-- ===== src/Storage/Laws.antt =====
-- migrations/sqlite: what the statements keep of the keys of the tables.
use alertmanager_webhook_rel.Base.{
  All, Bool-cases, List, Option, Text, [], arith, false, if◌then◌else◌, inl, inr, none, refl, some,
  text_eq, text_eq_iff, true, ◌++◌, ◌||◌, ◌∷◌, ◌≡◌, ◌≢◌,
}
use alertmanager_webhook_rel.Storage.Rows.{
  GroupRow, AlertRow, find_key, has_alert_id, has_id, update_key,
}

-- `group_key` is unique.
abbrev pub KeysAreUnique : List GroupRow → Type 0
KeysAreUnique [] = Unit
KeysAreUnique (row ∷ rows) = (find_key row.group_key rows ≡ none) × KeysAreUnique rows

-- `id` is the primary key of alert_groups, and of alerts.
abbrev pub IdsAreUnique : List GroupRow → Type 0
IdsAreUnique [] = Unit
IdsAreUnique (row ∷ rows) = (has_id row.id rows ≡ false) × IdsAreUnique rows

abbrev pub AlertIdsAreUnique : List AlertRow → Type 0
AlertIdsAreUnique [] = Unit
AlertIdsAreUnique (row ∷ rows) = (has_alert_id row.id rows ≡ false) × AlertIdsAreUnique rows

-- Every `alert_group_id` references a group.
abbrev pub AllReferToGroups : List GroupRow → List AlertRow → Type 0
AllReferToGroups groups = All (λ row. has_id row.alert_group_id groups ≡ true)

abbrev pub KeepsKeys : (GroupRow → GroupRow) → Type 0
KeepsKeys f = (row : GroupRow) → ((f row).group_key ≡ row.group_key) × ((f row).id ≡ row.id)

abbrev pub map_some : (GroupRow → GroupRow) → Option GroupRow → Option GroupRow
map_some f none = none
map_some f (some row) = some (f row)

pub find_key_sound :
    (key : Text) (rows : List GroupRow) (row : GroupRow)
    → find_key key rows ≡ some row
    → row.group_key ≡ key
unfolding find_key
find_key_sound key [] row h = cc
find_key_sound key (r ∷ rows) row h = elim (Bool-cases (text_eq r.group_key key)) [
  | inl same ↦ ground (arith, text_eq_iff r.group_key key)
  | inr differs ↦ find_key_sound key rows row (ground arith)
]

pub has_id-find_key :
    (key : Text) (rows : List GroupRow) (row : GroupRow)
    → find_key key rows ≡ some row
    → has_id row.id rows ≡ true
unfolding find_key has_id
has_id-find_key key [] row h = cc
has_id-find_key key (r ∷ rows) row h = elim (Bool-cases (text_eq r.group_key key)) [
  | inl same ↦ ground (arith, text_eq_iff r.id row.id)
  | inr differs ↦ let later = has_id-find_key key rows row (ground arith) in ground arith
]

module _ (key : Text) (f : GroupRow → GroupRow) (keeps : KeepsKeys f) where
  pub find_key-update_key :
      (rows : List GroupRow) → find_key key (update_key key f rows) ≡ map_some f (find_key key rows)
  unfolding find_key update_key
  find_key-update_key [] = refl
  find_key-update_key (r ∷ rows) =
      ground (arith, find_key-update_key rows, keeps r, text_eq_iff r.group_key key)

  pub find_key-update_key_other :
      (j : Text) (rows : List GroupRow)
      → j ≢ key
      → find_key j (update_key key f rows) ≡ find_key j rows
  unfolding find_key update_key
  find_key-update_key_other j [] h = refl
  find_key-update_key_other j (r ∷ rows) h = ground (
    arith,
    find_key-update_key_other j rows h,
    keeps r,
    text_eq_iff r.group_key key,
    text_eq_iff r.group_key j,
  )

  pub find_key-update_key-none :
      (j : Text) (rows : List GroupRow)
      → find_key j rows ≡ none
      → find_key j (update_key key f rows) ≡ none
  unfolding find_key update_key
  find_key-update_key-none j [] h = refl
  find_key-update_key-none j (r ∷ rows) h =
      ground (arith, find_key-update_key-none j rows, keeps r, text_eq_iff r.group_key key)

  pub has_id-update_key :
      (id : Text) (rows : List GroupRow) → has_id id (update_key key f rows) ≡ has_id id rows
  unfolding has_id update_key
  has_id-update_key id [] = refl
  has_id-update_key id (r ∷ rows) = ground (arith, has_id-update_key id rows, keeps r)

  pub update_key-KeysAreUnique :
      (rows : List GroupRow) → KeysAreUnique rows → KeysAreUnique (update_key key f rows)
  unfolding update_key
  update_key-KeysAreUnique [] h = tt
  update_key-KeysAreUnique (r ∷ rows) h =
      let rest = update_key-KeysAreUnique rows h.1 in
      let absent = find_key-update_key-none r.group_key rows h.0 in ground (arith, keeps r)

  pub update_key-IdsAreUnique :
      (rows : List GroupRow) → IdsAreUnique rows → IdsAreUnique (update_key key f rows)
  unfolding update_key
  update_key-IdsAreUnique [] h = tt
  update_key-IdsAreUnique (r ∷ rows) h =
      let rest = update_key-IdsAreUnique rows h.1 in
      let same = has_id-update_key r.id rows in ground (arith, keeps r)

-- A row is appended.
pub find_key-append :
    (j : Text) (rows : List GroupRow) (row : GroupRow)
    → find_key j rows ≡ none
    → find_key j (rows ++ row ∷ []) ≡ (if text_eq row.group_key j then some row else none)
unfolding find_key
find_key-append j [] row h = refl
find_key-append j (r ∷ rows) row h = ground (arith, find_key-append j rows row)

pub find_key-append_other :
    (j : Text) (rows : List GroupRow) (row : GroupRow)
    → j ≢ row.group_key
    → find_key j (rows ++ row ∷ []) ≡ find_key j rows
unfolding find_key
find_key-append_other j [] row h = ground (arith, text_eq_iff row.group_key j)
find_key-append_other j (r ∷ rows) row h = ground (arith, find_key-append_other j rows row h)

pub has_id-append :
    (id : Text) (rows : List GroupRow) (row : GroupRow)
    → has_id id (rows ++ row ∷ []) ≡ (has_id id rows || text_eq row.id id)
unfolding has_id
has_id-append id [] row = ground arith
has_id-append id (r ∷ rows) row = ground (arith, has_id-append id rows row)

pub append-KeysAreUnique :
    (rows : List GroupRow) (row : GroupRow)
    → find_key row.group_key rows ≡ none
    → KeysAreUnique rows
    → KeysAreUnique (rows ++ row ∷ [])
unfolding find_key
append-KeysAreUnique [] row h v = (refl, tt)
append-KeysAreUnique (r ∷ rows) row h v =
    let differs : r.group_key ≢ row.group_key =
      λ e. let hit = (text_eq_iff r.group_key row.group_key).1 e in ground arith in
    let absent = find_key-append_other r.group_key rows row differs in
    let rest = append-KeysAreUnique rows row (ground arith) v.1 in ground arith

pub append-IdsAreUnique :
    (rows : List GroupRow) (row : GroupRow)
    → has_id row.id rows ≡ false
    → IdsAreUnique rows
    → IdsAreUnique (rows ++ row ∷ [])
unfolding has_id
append-IdsAreUnique [] row h v = (refl, tt)
append-IdsAreUnique (r ∷ rows) row h v =
    let absent = has_id-append r.id rows row in
    let rest = append-IdsAreUnique rows row (ground arith) v.1 in
    ground (arith, text_eq_iff r.id row.id, text_eq_iff row.id r.id)
