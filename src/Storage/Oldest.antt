-- ===== src/Storage/Oldest.antt =====
-- internal/storage/sqlite/store.go: which groups `GetPending` hands out.
use alertmanager_webhook_rel.Base.{
  All, Bool, List, Permᴰ, [], ap, arith, bind_elim, fail_if, length, ok, refl, some, subst, suc,
  take, zero, ℕ, ◌++◌, ◌∷◌, ◌≡◌, ◌≢◌, ◌≤◌,
}
use alertmanager_webhook_rel.Alerts.{AlertGroup}
use alertmanager_webhook_rel.Storage.{
  Codec, get_pending, decode_rows, or_fail, query_failed, scan_failed, unmarshal_failed,
}
use alertmanager_webhook_rel.Storage.Rows.{GroupRow, Tables, pending_rows, oldest_first}
use alertmanager_webhook_rel.Storage.Sorting.{ordered-Permᴰ, oldest_first-IsOldestFirst}
use alertmanager_webhook_rel.Storage.Ordering.{
  Reorders, IsNotYounger, IsOldestFirst, IsOldestFirst-append,
}
use alertmanager_webhook_rel.Storage.Calls.{or_fail-eq-ok}

-- The rows behind the first ones: there are none unless the limit is reached.
split_at :
    (n : ℕ) (rows : List GroupRow)
    → (rest : List GroupRow) × (rows ≡ take n rows ++ rest)
      × (length (take n rows) ≤ n)
      × (rest ≢ [] → length (take n rows) ≡ n)
split_at zero rows = (rows, refl, omega arith, λ h. refl)
split_at (suc n) [] = ([], refl, omega arith, λ h. absurd (h refl))
split_at (suc n) (r ∷ rows) =
    let (rest, e, bound, full) = split_at n rows in
    (rest, ap (λ l. r ∷ l) e, omega (arith, bound), λ h. ap suc (full h))

module _ (codec : Codec) where
  -- The groups are decoded from these rows, one from each, in their order.
  abbrev pub AreDecoded : List GroupRow → List AlertGroup → Type 0
  AreDecoded [] [] = Unit
  AreDecoded (r ∷ rows) (g ∷ groups) = (codec.unmarshal r.payload ≡ some g) × AreDecoded rows groups
  AreDecoded _ _ = ⊥

  decode_rows-AreDecoded :
      (rows : List GroupRow) (groups : List AlertGroup)
      → decode_rows codec rows ≡ ok groups
      → AreDecoded rows groups
  unfolding decode_rows
  decode_rows-AreDecoded [] groups h =
      let same : ◌≡◌ {A = List AlertGroup} [] groups = cc in subst (AreDecoded []) same tt
  decode_rows-AreDecoded (r ∷ rows) groups h =
      bind_elim (or_fail (unmarshal_failed r.group_key) (codec.unmarshal r.payload)) _
        (λ group parsed. bind_elim (decode_rows codec rows) _ λ later later_ok done.
          let same : group ∷ later ≡ groups = ground arith in
          subst (AreDecoded (r ∷ rows)) same
            (or_fail-eq-ok _ _ group parsed, decode_rows-AreDecoded rows later later_ok))
        h

  -- In whatever order the database finds the rows before it sorts them, a `GetPending` that returns nil hands
  -- out the groups of the oldest pending rows, oldest first: every
  -- pending row is among those handed out or those left, no row that is left is older than one that is
  -- handed out, and rows are left only if as many groups are handed out as the limit says.
  pub get_pending_oldest :
      (found : List GroupRow → List GroupRow) (query_fails rows_fail : Bool) (limit : ℕ)
      (t : Tables) (groups : List AlertGroup)
      → Reorders found
      → get_pending codec found query_fails rows_fail limit t ≡ ok groups
      → (handed_out : List GroupRow) × (left : List GroupRow) × Permᴰ
          (pending_rows t.groups)
          (handed_out ++ left)
        × AreDecoded handed_out groups
        × IsOldestFirst handed_out
        × All (λ r. IsNotYounger r left) handed_out
        × (length handed_out ≤ limit)
        × (left ≢ [] → length handed_out ≡ limit)
  unfolding get_pending
  get_pending_oldest found query_fails rows_fail limit t groups order =
      bind_elim (fail_if query_fails query_failed) _ λ _ _.
        bind_elim (decode_rows codec (take limit (oldest_first (found (pending_rows t.groups))))) _
          λ decoded_rows decoded_ok. bind_elim (fail_if rows_fail scan_failed) _ λ _ _ done.
            let rows = oldest_first (found (pending_rows t.groups)) in
            let (left, e, bound, full) = split_at limit rows in
            let (oldest, before) = IsOldestFirst-append (take limit rows) left (
              subst IsOldestFirst e (oldest_first-IsOldestFirst (found (pending_rows t.groups)))) in
            let same : decoded_rows ≡ groups = ground arith in
            (
              take limit rows,
              left,
              subst (Permᴰ (pending_rows t.groups)) e
                  (ordered-Permᴰ found (pending_rows t.groups) order),
              subst (AreDecoded (take limit rows)) same
                  (decode_rows-AreDecoded (take limit rows) decoded_rows decoded_ok),
              oldest,
              before,
              bound,
              full,
            )
