-- ===== src/Storage/Ordering.antt =====
-- internal/storage/sqlite/store.go: what the ORDER BY of `GetPending` does to the rows.
use alertmanager_webhook_rel.Base.{
  All, All-append_inv, List, Permᴰ, [], ap, inl, inr, length, refl, subst, suc, ◌++◌, ◌∙◌, ◌∷◌, ◌≡◌,
  ◌≤◌, ◌⊎◌,
}
use alertmanager_webhook_rel.Storage.Rows.{GroupRow}

-- The list has this entry.
abbrev pub Has : {A : Type 0} → A → List A → Type 0
Has a [] = ⊥
Has a (x ∷ xs) = (a ≡ x) ⊎ Has a xs

-- None of these is older than the row.
abbrev pub IsNotYounger : GroupRow → List GroupRow → Type 0
IsNotYounger row rows = All (λ r. row.received_at ≤ r.received_at) rows

-- Each row is followed by rows that are not older.
abbrev pub IsOldestFirst : List GroupRow → Type 0
IsOldestFirst [] = Unit
IsOldestFirst (r ∷ rows) = IsNotYounger r rows × IsOldestFirst rows

-- The order in which the database finds rows: any order, with each row as often as it is there.
abbrev pub Reorders : (List GroupRow → List GroupRow) → Type 0
Reorders found = (rows : List GroupRow) → Permᴰ rows (found rows)

pub All-Permᴰ : (P : GroupRow → Type 0) {xs ys : List GroupRow} → Permᴰ xs ys → All P xs → All P ys
All-Permᴰ P Permᴰ.nil h = h
All-Permᴰ P (Permᴰ.cons e p) h = (subst P e h.0, All-Permᴰ P p h.1)
All-Permᴰ P (Permᴰ.swap e f) h = (subst P f h.1.0, (subst P e h.0, h.1.1))
All-Permᴰ P (Permᴰ.trans p q) h = All-Permᴰ P q (All-Permᴰ P p h)

pub Has-Permᴰ : (row : GroupRow) {xs ys : List GroupRow} → Permᴰ xs ys → Has row xs → Has row ys
Has-Permᴰ row Permᴰ.nil h = h
Has-Permᴰ row (Permᴰ.cons e p) h = elim h [
  | inl same ↦ inl (same ∙ e)
  | inr later ↦ inr (Has-Permᴰ row p later)
]
Has-Permᴰ row (Permᴰ.swap e f) h = elim h [
  | inl same ↦ inr (inl (same ∙ e))
  | inr later ↦ elim later [ inl same ↦ inl (same ∙ f) | inr rest ↦ inr (inr rest) ]
]
Has-Permᴰ row (Permᴰ.trans p q) h = Has-Permᴰ row q (Has-Permᴰ row p h)

pub length-Permᴰ : {xs ys : List GroupRow} → Permᴰ xs ys → length xs ≡ length ys
length-Permᴰ Permᴰ.nil = refl
length-Permᴰ (Permᴰ.cons e p) = ap suc (length-Permᴰ p)
length-Permᴰ (Permᴰ.swap e f) = refl
length-Permᴰ (Permᴰ.trans p q) = length-Permᴰ p ∙ length-Permᴰ q

-- No row of the front is younger than one behind it.
pub IsOldestFirst-append :
    (xs ys : List GroupRow)
    → IsOldestFirst (xs ++ ys)
    → IsOldestFirst xs × All (λ r. IsNotYounger r ys) xs
IsOldestFirst-append [] ys h = (tt, tt)
IsOldestFirst-append (x ∷ xs) ys h =
    let (sorted, before) = IsOldestFirst-append xs ys h.1 in
    let (near, far) = All-append_inv (λ (r : GroupRow). x.received_at ≤ r.received_at) xs ys h.0 in
    ((near, sorted), (far, before))
