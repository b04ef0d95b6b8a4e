-- ===== src/Storage/Delivery.antt =====
-- internal/storage/sqlite/store.go: from `Save` to `GetPending`.
use alertmanager_webhook_rel.Base.{
  Bool-cases, List, Option, Text, [], ap, arith, bind_elim, false, inl, inr, length, ok, refl, some,
  subst, suc, sym, take, text_eq, true, zero, ℕ, ◌∙◌, ◌∷◌, ◌≡◌, ◌≤◌,
}
use alertmanager_webhook_rel.Alerts.{AlertGroup}
use alertmanager_webhook_rel.Storage.{
  Codec, get_pending, save, SaveCall, decode_rows, or_fail, unmarshal_failed,
}
use alertmanager_webhook_rel.Storage.Rows.{
  GroupRow, Tables, find_key, is_pending, pending, pending_rows, oldest_first,
}
use alertmanager_webhook_rel.Storage.Sorting.{ordered-Permᴰ}
use alertmanager_webhook_rel.Storage.Ordering.{Reorders, Has, Has-Permᴰ, length-Permᴰ}
use alertmanager_webhook_rel.Storage.Calls.{save_atomic, or_fail-eq-ok}

take_all : (n : ℕ) (rows : List GroupRow) → length rows ≤ n → take n rows ≡ rows
take_all zero [] h = refl
take_all zero (r ∷ rows) h = absurd (omega (arith, h))
take_all (suc n) [] h = refl
take_all (suc n) (r ∷ rows) h = ap (λ xs. r ∷ xs) (take_all n rows (omega (arith, h)))

Has-pending_rows :
    (key : Text) (rows : List GroupRow) (row : GroupRow)
    → find_key key rows ≡ some row
    → row.notification_status ≡ pending
    → Has row (pending_rows rows)
unfolding find_key pending_rows
Has-pending_rows key [] row found h = cc
Has-pending_rows key (r ∷ rows) row found h = elim (Bool-cases (text_eq r.group_key key)) [
  | inl same ↦
      let e : row ≡ r = ground arith in
      let waits : is_pending r.notification_status ≡ true =
        ap (λ (x : GroupRow). is_pending x.notification_status) (sym e) ∙ ap is_pending h in
      rw waits (inl e)
  | inr differs ↦
      let rest = Has-pending_rows key rows row (ground arith) h in
      elim (Bool-cases (is_pending r.notification_status)) [
        | inl waits ↦ rw waits (inr rest)
        | inr done ↦ rw done rest
      ]
]

some_eq : {a b : AlertGroup} → ◌≡◌ {A = Option AlertGroup} (some a) (some b) → a ≡ b
some_eq h = cc

module _ (codec : Codec) where
  Has-decode_rows :
      (row : GroupRow) (group : AlertGroup) (rows : List GroupRow) (groups : List AlertGroup)
      → codec.unmarshal row.payload ≡ some group
      → decode_rows codec rows ≡ ok groups
      → Has row rows
      → Has group groups
  unfolding decode_rows
  Has-decode_rows row group [] groups parsed h there = absurd there
  Has-decode_rows row group (r ∷ rows) groups parsed h there =
      bind_elim (or_fail (unmarshal_failed r.group_key) (codec.unmarshal r.payload)) _
        (λ first first_ok. bind_elim (decode_rows codec rows) _ λ later later_ok done.
          let same : first ∷ later ≡ groups = ground arith in
          subst (Has group) same (elim there [
            | inl e ↦
                let again : some group ≡ some first =
                  sym parsed
                  ∙ ap (λ (x : GroupRow). codec.unmarshal x.payload) e
                  ∙ or_fail-eq-ok _ _ first first_ok in
                inl (some_eq again)
            | inr deeper ↦ inr (Has-decode_rows row group rows later parsed later_ok deeper)
          ]))
        h

  -- In whatever order the database finds the rows before it sorts them: where the JSON decoder reads
  -- back what the encoder wrote of a group, a group whose `Save`
  -- returned nil is among the groups that the next `GetPending` returns, if that returns no error and
  -- no more rows are pending than its limit.
  pub get_pending-save :
      (found : List GroupRow → List GroupRow) (limit : ℕ) (call : SaveCall) (group : AlertGroup)
      (t : Tables) (groups : List AlertGroup)
      → Reorders found
      → ((json : Text) → codec.marshal group ≡ some json → codec.unmarshal json ≡ some group)
      → (save codec call group t).0 ≡ ok tt
      → length (pending_rows (save codec call group t).1.groups) ≤ limit
      → get_pending codec found false false limit (save codec call group t).1 ≡ ok groups
      → Has group groups
  unfolding get_pending
  get_pending-save found limit call group t groups order reads_back h fits =
      elim (save_atomic codec call group t) [
        | inr (e, failed, _) ↦ absurd (ground arith)
        | inl (_, saved) ↦
            let after = (save codec call group t).1 in
            let rows = pending_rows after.groups in
            let u = saved.upserted in
            let there = Has-Permᴰ u.row (ordered-Permᴰ found rows order) (
              Has-pending_rows group.group_key after.groups u.row u.found
                u.holds.notification_status) in
            let all_rows =
              take_all limit (oldest_first (found rows))
                (omega (arith, length-Permᴰ (ordered-Permᴰ found rows order), fits)) in
            let parsed =
              ap codec.unmarshal u.holds.payload ∙ reads_back saved.json saved.marshalled in
            bind_elim (decode_rows codec (take limit (oldest_first (found rows)))) _
              λ decoded_rows decoded_ok done.
                let same : decoded_rows ≡ groups = ground arith in
                subst (Has group) same (
                  Has-decode_rows u.row group (take limit (oldest_first (found rows))) decoded_rows
                    parsed decoded_ok (subst (Has u.row) (sym all_rows) there))
      ]
