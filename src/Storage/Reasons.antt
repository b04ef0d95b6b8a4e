-- ===== src/Storage/Reasons.antt =====
-- internal/storage/sqlite/store.go: when `Save` returns an error.
use alertmanager_webhook_rel.Base.{
  Bool-cases, List, Option, Option-cases, Result-cases, Text, [], arith, bind_err_elim, err,
  fail_if, fail_if_err, inl, inr, none, ok, refl, some, subst, suc, text_eq, text_eq_iff, true, ℕ,
  ◌++◌, ◌<◌, ◌||◌, ◌∷◌, ◌≡◌, ◌⊎◌,
}
use alertmanager_webhook_rel.Alerts.{AlertGroup, Alert}
use alertmanager_webhook_rel.Storage.{
  Codec, SaveCall, SaveStep, StoreError, begin_tx, commit_tx, delete_old, failed_at, insert_alert,
  insert_alerts, marshal_failed, new_alert_row, or_fail, prepare_insert, save, save_tx, upsert,
  upsert_group,
}
use alertmanager_webhook_rel.Storage.Rows.{
  GroupRow, AlertRow, Tables, delete_group, find_key, has_alert_id, has_id,
}
use alertmanager_webhook_rel.Storage.AlertRows.{has_alert_id-append, has_alert_id-delete_group}

or_fail_err {ℓ} :
    {A : Type ℓ} (why : StoreError) (o : Option A) (e : StoreError)
    → or_fail why o ≡ err e
    → (o ≡ none) × (why ≡ e)
or_fail_err why none e h = (refl, cc)
or_fail_err why (some a) e h = absurd (cc)

upsert-none :
    (id : Text) (now : ℕ) (group : AlertGroup) (json : Text) (rows : List GroupRow)
    → upsert id now group json rows ≡ none
    → (find_key group.group_key rows ≡ none) × (has_id id rows ≡ true)
unfolding upsert
upsert-none id now group json rows h = elim (Option-cases (find_key group.group_key rows)) [
  | inl absent ↦ elim (Bool-cases (has_id id rows)) [
    | inl taken ↦ (absent, taken)
    | inr fresh ↦ absurd (ground arith)
  ]
  | inr (row, found) ↦ absurd (ground arith)
]

module _ (codec : Codec) (call : SaveCall) (group : AlertGroup) (t : Tables) where
  -- The identifier drawn for the alert with this index is taken by a row, or was drawn for an alert before.
  abbrev pub IsTaken : ℕ → Type 0
  IsTaken i =
      (has_alert_id (call.random_id (suc i)) t.alerts ≡ true)
      ⊎ ((j : ℕ) × (j < i) × (call.random_id (suc j) ≡ call.random_id (suc i)))

  -- Why a step fails: the database does, or an identifier is taken.
  abbrev pub Fails : SaveStep → Type 0
  Fails upsert_group =
      (call.fails upsert_group ≡ true)
      ⊎ ((find_key group.group_key t.groups ≡ none) × (has_id (call.random_id 0) t.groups ≡ true))
  Fails (insert_alert i) = (call.fails (insert_alert i) ≡ true) ⊎ IsTaken i
  Fails s = call.fails s ≡ true

  abbrev pub HasReason : StoreError → Type 0
  HasReason marshal_failed = codec.marshal group ≡ none
  HasReason (failed_at s) = Fails s
  HasReason _ = ⊥

  -- The rows are from the table, or were inserted for an alert before this index.
  abbrev AreKnown : ℕ → List AlertRow → Type 0
  AreKnown i rows =
      (id : Text)
      → has_alert_id id rows ≡ true
      → (has_alert_id id t.alerts ≡ true) ⊎ ((j : ℕ) × (j < i) × (call.random_id (suc j) ≡ id))

  later-AreKnown :
      (group_id : Text) (a : Alert) (i : ℕ) (rows : List AlertRow)
      → AreKnown i rows
      → AreKnown (suc i) (rows ++ new_alert_row codec (call.random_id (suc i)) group_id a ∷ [])
  unfolding new_alert_row
  later-AreKnown group_id a i rows known id h =
      let row = new_alert_row codec (call.random_id (suc i)) group_id a in
      elim (Bool-cases (has_alert_id id rows)) [
        | inl there ↦ elim (known id there) [
          | inl old ↦ inl old
          | inr (j, before, same) ↦ inr (j, omega (arith, before), same)
        ]
        | inr absent ↦
            let e = has_alert_id-append id rows row in
            let hit : text_eq row.id id ≡ true = ground arith in
            inr (i, omega arith, (text_eq_iff row.id id).0 hit)
      ]

  deleted-AreKnown : (group_id : Text) → AreKnown 0 (delete_group group_id t.alerts)
  deleted-AreKnown group_id id h = elim (Bool-cases (has_alert_id id t.alerts)) [
    | inl there ↦ inl there
    | inr absent ↦ absurd (let gone = has_alert_id-delete_group id group_id t.alerts absent in cc)
  ]

  insert_alerts-HasReason :
      (group_id : Text) (alerts : List Alert) (i : ℕ) (rows : List AlertRow) (e : StoreError)
      → AreKnown i rows
      → insert_alerts codec call group_id alerts i rows ≡ err e
      → HasReason e
  unfolding insert_alerts
  insert_alerts-HasReason group_id [] i rows e known = λ h. absurd (cc)
  insert_alerts-HasReason group_id (a ∷ alerts) i rows e known =
      let taken = has_alert_id (call.random_id (suc i)) rows in
      bind_err_elim (fail_if (call.fails (insert_alert i) || taken) (failed_at (insert_alert i))) _
        (λ failed.
          let (b, same) = fail_if_err _ _ e failed in
          subst HasReason same (elim (Bool-cases (call.fails (insert_alert i))) [
            | inl fails ↦ inl fails
            | inr works ↦
                let there : taken ≡ true = ground arith in
                inr (known (call.random_id (suc i)) there)
          ]))
        (λ _ _ later.
          insert_alerts-HasReason group_id alerts (suc i) _ e
            (later-AreKnown group_id a i rows known) later)

  or_fail-HasReason :
      (e : StoreError) → or_fail marshal_failed (codec.marshal group) ≡ err e → HasReason e
  or_fail-HasReason e h =
      let (refused, same) = or_fail_err marshal_failed (codec.marshal group) e h in
      subst HasReason same refused

  upsert-HasReason :
      (json : Text) (e : StoreError)
      → or_fail (failed_at upsert_group) (upsert (call.random_id 0) call.now group json t.groups)
        ≡ err e
      → HasReason e
  upsert-HasReason json e h =
      let (refused, same) = or_fail_err (failed_at upsert_group) _ e h in
      subst HasReason same
        (inr (upsert-none (call.random_id 0) call.now group json t.groups refused))

  -- A step fails where the database does.
  fail_if-HasReason :
      (s : SaveStep) (e : StoreError)
      → (call.fails s ≡ true → Fails s)
      → fail_if (call.fails s) (failed_at s) ≡ err e
      → HasReason e
  fail_if-HasReason s e why h =
      let (fails, same) = fail_if_err (call.fails s) (failed_at s) e h in
      subst HasReason same (why fails)

  save_tx-HasReason : (e : StoreError) → save_tx codec call group t ≡ err e → HasReason e
  unfolding save_tx
  save_tx-HasReason e =
      bind_err_elim (or_fail marshal_failed (codec.marshal group)) _ (or_fail-HasReason e) λ json _.
        bind_err_elim (fail_if (call.fails begin_tx) (failed_at begin_tx)) _
          (fail_if-HasReason begin_tx e (λ h. h))
          λ _ _.
            bind_err_elim (fail_if (call.fails upsert_group) (failed_at upsert_group)) _
              (fail_if-HasReason upsert_group e (λ h. inl h))
              λ _ _.
                bind_err_elim
                  (or_fail (failed_at upsert_group)
                    (upsert (call.random_id 0) call.now group json t.groups))
                  _ (upsert-HasReason json e)
                  λ stored _.
                    bind_err_elim (fail_if (call.fails delete_old) (failed_at delete_old)) _
                      (fail_if-HasReason delete_old e (λ h. h))
                      λ _ _.
                        bind_err_elim
                          (fail_if (call.fails prepare_insert) (failed_at prepare_insert)) _
                          (fail_if-HasReason prepare_insert e (λ h. h))
                          λ _ _.
                            bind_err_elim
                              (insert_alerts codec call stored.0 group.alerts 0
                                (delete_group stored.0 t.alerts))
                              _
                              (insert_alerts-HasReason stored.0 group.alerts 0 _ e
                                (deleted-AreKnown stored.0))
                              λ rows _.
                                bind_err_elim (fail_if (call.fails commit_tx) (failed_at commit_tx))
                                  _ (fail_if-HasReason commit_tx e (λ h. h)) λ _ _ h. absurd (cc)

  -- `Save` returns nil, or an error for a reason: the payload cannot be encoded, or the database fails the
  -- step that the error names, or the identifier drawn in that step is taken: for a new group by the row of another
  -- group, for an alert by the row of an alert that was there before the call or by an alert before
  -- it in the payload.
  pub save-HasReason :
      ((save codec call group t).0 ≡ ok tt)
      ⊎ ((e : StoreError) × ((save codec call group t).0 ≡ err e) × HasReason e)
  unfolding save
  save-HasReason = elim (Result-cases (save_tx codec call group t)) [
    | inl (after, succeeded) ↦ inl (rw (succeeded, save) refl)
    | inr (e, failed) ↦ inr (e, rw (failed, save) refl, save_tx-HasReason e failed)
  ]
