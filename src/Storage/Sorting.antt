-- ===== src/Storage/Sorting.antt =====
-- internal/storage/sqlite/store.go: the ORDER BY of `GetPending` hands on the same rows, oldest first.
use alertmanager_webhook_rel.Base.{
  Bool-cases, List, Permᴰ, [], arith, inl, inr, leb, refl, ◌∷◌, ◌≤◌,
}
use alertmanager_webhook_rel.Storage.Rows.{GroupRow, insert_row, oldest_first}
use alertmanager_webhook_rel.Storage.Ordering.{IsNotYounger, IsOldestFirst, All-Permᴰ, Reorders}

pub same_rows : (rows : List GroupRow) → Permᴰ rows rows
same_rows [] = Permᴰ.nil
same_rows (r ∷ rows) = Permᴰ.cons refl (same_rows rows)

insert_row-Permᴰ :
    (row : GroupRow) (rows : List GroupRow) → Permᴰ (row ∷ rows) (insert_row row rows)
unfolding insert_row
insert_row-Permᴰ row [] = same_rows (row ∷ [])
insert_row-Permᴰ row (r ∷ rows) = elim (Bool-cases (leb row.received_at r.received_at)) [
  | inl first ↦ rw first (same_rows (row ∷ r ∷ rows))
  | inr later ↦
      rw later (Permᴰ.trans (Permᴰ.swap refl refl) (Permᴰ.cons refl (insert_row-Permᴰ row rows)))
]

pub oldest_first-Permᴰ : (rows : List GroupRow) → Permᴰ rows (oldest_first rows)
unfolding oldest_first
oldest_first-Permᴰ [] = Permᴰ.nil
oldest_first-Permᴰ (r ∷ rows) =
    Permᴰ.trans (Permᴰ.cons refl (oldest_first-Permᴰ rows)) (insert_row-Permᴰ r (oldest_first rows))

IsNotYounger-le :
    (a b : GroupRow) (rows : List GroupRow)
    → a.received_at ≤ b.received_at
    → IsNotYounger b rows
    → IsNotYounger a rows
IsNotYounger-le a b [] h k = tt
IsNotYounger-le a b (r ∷ rows) h k = (omega (arith, h, k.0), IsNotYounger-le a b rows h k.1)

insert_row-IsOldestFirst :
    (row : GroupRow) (rows : List GroupRow)
    → IsOldestFirst rows
    → IsOldestFirst (insert_row row rows)
unfolding insert_row
insert_row-IsOldestFirst row [] h = (tt, tt)
insert_row-IsOldestFirst row (r ∷ rows) h = elim (Bool-cases (leb row.received_at r.received_at)) [
  | inl first ↦
      let e : row.received_at ≤ r.received_at = ground (arith, first) in
      rw first ((e, IsNotYounger-le row r rows e h.0), h)
  | inr later ↦
      let e : r.received_at ≤ row.received_at = ground (arith, later) in
      rw later (
        All-Permᴰ (λ (x : GroupRow). r.received_at ≤ x.received_at) (insert_row-Permᴰ row rows)
            (e, h.0),
        insert_row-IsOldestFirst row rows h.1,
      )
]

pub oldest_first-IsOldestFirst : (rows : List GroupRow) → IsOldestFirst (oldest_first rows)
unfolding oldest_first
oldest_first-IsOldestFirst [] = tt
oldest_first-IsOldestFirst (r ∷ rows) =
    insert_row-IsOldestFirst r (oldest_first rows) (oldest_first-IsOldestFirst rows)

-- The rows, however they were found, come in the order of their times.
pub ordered-Permᴰ :
    (found : List GroupRow → List GroupRow) (rows : List GroupRow)
    → Reorders found
    → Permᴰ rows (oldest_first (found rows))
ordered-Permᴰ found rows same = Permᴰ.trans (same rows) (oldest_first-Permᴰ (found rows))
