-- ===== src/Storage/Pending.antt =====
-- internal/storage/sqlite/store.go: `GetPending`.
use alertmanager_webhook_rel.Base.{
  All, Bool, List, [], ap, arith, bind_elim, fail_if, if◌then◌else◌, length, none, ok, refl, some,
  subst, suc, sym, take, text_eq_iff, zero, ℕ, ◌∷◌, ◌≡◌, ◌≢◌, ◌≤◌, ◌⊎◌,
}
use alertmanager_webhook_rel.Alerts.{AlertGroup}
use alertmanager_webhook_rel.Storage.{
  Codec, get_pending, decode_rows, or_fail, query_failed, scan_failed, unmarshal_failed,
}
use alertmanager_webhook_rel.Storage.Rows.{
  GroupRow, NotificationStatus, Tables, find_key, pending, pending_rows, sent, is_pending,
  oldest_first,
}
use alertmanager_webhook_rel.Storage.Laws.{KeysAreUnique}
use alertmanager_webhook_rel.Storage.Sorting.{ordered-Permᴰ}
use alertmanager_webhook_rel.Storage.Ordering.{Reorders, All-Permᴰ, length-Permᴰ}
use alertmanager_webhook_rel.Storage.Calls.{or_fail-eq-ok}

-- `m` is the smaller of the two.
abbrev pub IsMin : ℕ → ℕ → ℕ → Type 0
IsMin m a b = (m ≤ a) × (m ≤ b) × ((m ≡ a) ⊎ (m ≡ b))

length-take : (n : ℕ) (rows : List GroupRow) → IsMin (length (take n rows)) n (length rows)
length-take zero rows = ground arith
length-take (suc n) [] = ground arith
length-take (suc n) (r ∷ rows) = let rest = length-take n rows in ground arith

take-All : (P : GroupRow → Type 0) (n : ℕ) (rows : List GroupRow) → All P rows → All P (take n rows)
take-All P zero rows h = tt
take-All P (suc n) [] h = tt
take-All P (suc n) (r ∷ rows) h = (h.0, take-All P n rows h.1)

-- The row is in the table, and pending.
abbrev pub IsPendingIn : List GroupRow → GroupRow → Type 0
IsPendingIn rows row =
    (find_key row.group_key rows ≡ some row) × (row.notification_status ≡ pending)

later-IsPendingIn :
    (row : GroupRow) (rows others : List GroupRow)
    → find_key row.group_key rows ≡ none
    → All (IsPendingIn rows) others
    → All (IsPendingIn (row ∷ rows)) others
unfolding find_key
later-IsPendingIn row rows [] absent h = tt
later-IsPendingIn row rows (r ∷ others) absent h =
    let rest = later-IsPendingIn row rows others absent h.1 in
    let differs : row.group_key ≢ r.group_key =
      λ e. let gone = subst (λ k. find_key k rows ≡ none) e absent in ground arith in
    ((ground (arith, text_eq_iff row.group_key r.group_key), h.0.1), rest)

cons-IsPendingIn :
    (row : GroupRow) (rows : List GroupRow)
    → find_key row.group_key rows ≡ none
    → All (IsPendingIn rows) (pending_rows rows)
    → (status : NotificationStatus) → row.notification_status ≡ status
    → All (IsPendingIn (row ∷ rows)) (pending_rows (row ∷ rows))
unfolding pending_rows find_key
cons-IsPendingIn row rows absent h pending e =
    let rest = later-IsPendingIn row rows (pending_rows rows) absent h in
    let found : find_key row.group_key (row ∷ rows) ≡ some row =
      ground (arith, text_eq_iff row.group_key row.group_key) in
    subst
      (λ b.
        All (IsPendingIn (row ∷ rows)) (if b then row ∷ pending_rows rows else pending_rows rows))
      (sym (ap is_pending e)) ((found, e), rest)
cons-IsPendingIn row rows absent h sent e =
    subst
      (λ b.
        All (IsPendingIn (row ∷ rows)) (if b then row ∷ pending_rows rows else pending_rows rows))
      (sym (ap is_pending e)) (later-IsPendingIn row rows (pending_rows rows) absent h)

pending_rows-IsPendingIn :
    (rows : List GroupRow) → KeysAreUnique rows → All (IsPendingIn rows) (pending_rows rows)
unfolding pending_rows
pending_rows-IsPendingIn [] v = tt
pending_rows-IsPendingIn (r ∷ rows) v =
    cons-IsPendingIn r rows v.0 (pending_rows-IsPendingIn rows v.1) r.notification_status refl

module _ (codec : Codec) where
  -- The group is decoded from a row of the table that is pending.
  abbrev pub IsFromPending : List GroupRow → AlertGroup → Type 0
  IsFromPending rows group =
      (row : GroupRow) × IsPendingIn rows row × (codec.unmarshal row.payload ≡ some group)

  decode_rows-eq-ok :
      (table rows : List GroupRow) (groups : List AlertGroup)
      → decode_rows codec rows ≡ ok groups
      → All (IsPendingIn table) rows
      → (length groups ≡ length rows) × All (IsFromPending table) groups
  unfolding decode_rows
  decode_rows-eq-ok table [] groups h v = ground arith
  decode_rows-eq-ok table (r ∷ rows) groups h v =
      bind_elim (or_fail (unmarshal_failed r.group_key) (codec.unmarshal r.payload)) _
        (λ group parsed. bind_elim (decode_rows codec rows) _ λ later later_ok done.
          let (e, all) = decode_rows-eq-ok table rows later later_ok v.1 in
          let same : group ∷ later ≡ groups = ground arith in
          subst (λ gs. (length gs ≡ suc (length rows)) × All (IsFromPending table) gs) same
            (ap suc e, ((r, v.0, or_fail-eq-ok _ _ group parsed), all)))
        h

  -- A `GetPending` that returns nil returns as many groups as there are pending rows, up to the
  -- limit, and each is decoded from a row that is in the table and pending.
  pub get_pending_sound :
      (found : List GroupRow → List GroupRow) (query_fails rows_fail : Bool) (limit : ℕ)
      (t : Tables) (groups : List AlertGroup)
      → Reorders found
      → KeysAreUnique t.groups
      → get_pending codec found query_fails rows_fail limit t ≡ ok groups
      → IsMin (length groups) limit (length (pending_rows t.groups))
        × All (IsFromPending t.groups) groups
  unfolding get_pending
  get_pending_sound found query_fails rows_fail limit t groups order v =
      bind_elim (fail_if query_fails query_failed) _ λ _ _.
        bind_elim (decode_rows codec (take limit (oldest_first (found (pending_rows t.groups))))) _
          λ decoded_rows decoded_ok. bind_elim (fail_if rows_fail scan_failed) _ λ _ _ done.
            let rows = pending_rows t.groups in
            let (e, all) =
              decode_rows-eq-ok t.groups (take limit (oldest_first (found rows))) decoded_rows
                decoded_ok
                (take-All _ limit _ (
                  All-Permᴰ _ (ordered-Permᴰ found rows order)
                    (pending_rows-IsPendingIn t.groups v))) in
            let same : decoded_rows ≡ groups = ground arith in
            let count = length-take limit (oldest_first (found rows)) in
            let all_rows = length-Permᴰ (ordered-Permᴰ found rows order) in
            subst (λ gs. IsMin (length gs) limit (length rows) × All (IsFromPending t.groups) gs)
              same (ground arith, all)
