-- ===== src/Storage/Calls.antt =====
-- internal/storage/sqlite/store.go: what each call of the store does, and what any sequence of calls
-- keeps.
use alertmanager_webhook_rel.Base.{
  Option, Result, Result-cases, Text, arith, bind_elim, err, fail_if, inl, inr, none, ok, refl,
  some, subst, ◌++◌, ◌≡◌, ◌⊎◌,
}
use alertmanager_webhook_rel.Alerts.{AlertGroup}
use alertmanager_webhook_rel.Storage.{
  Codec, SaveCall, StoreError, begin_tx, commit_tx, delete_old, failed_at, insert_alerts,
  marshal_failed, or_fail, prepare_insert, save, save_tx, upsert, upsert_group,
}
use alertmanager_webhook_rel.Storage.Rows.{Tables, delete_group}
use alertmanager_webhook_rel.Storage.Laws.{AlertIdsAreUnique}
use alertmanager_webhook_rel.Storage.AlertRows.{
  rows_of, delete_group-AlertIdsAreUnique, insert_alerts-eq-ok,
}
use alertmanager_webhook_rel.Storage.Upsert.{Upserted, upsert-Upserted}

pub or_fail-eq-ok {ℓ} :
    {A : Type ℓ} (e : StoreError) (o : Option A) (a : A) → or_fail e o ≡ ok a → o ≡ some a
or_fail-eq-ok e none a h = cc
or_fail-eq-ok e (some b) a h = ground arith

module _ (codec : Codec) where
  -- What a `Save` that returns nil leaves: the group's row, and its alerts in place of the old ones.
  pub record Saved (call : SaveCall) (group : AlertGroup) (t after : Tables) : Type 0 where
    pub json : Text
    pub marshalled : codec.marshal group ≡ some json
    pub group_id : Text
    pub upserted : Upserted (call.random_id 0) call.now group json t.groups group_id after.groups
    pub alert_rows :
        after.alerts ≡ delete_group group_id t.alerts ++ rows_of codec call group_id group.alerts 0
    pub health : after.health_check ≡ t.health_check
    pub alert_ids : AlertIdsAreUnique t.alerts → AlertIdsAreUnique after.alerts

  tables_eq : {a b : Tables} → ◌≡◌ {A = Result StoreError Tables} (ok a) (ok b) → a ≡ b
  tables_eq h = cc

  save_tx-Saved :
      (call : SaveCall) (group : AlertGroup) (t after : Tables)
      → save_tx codec call group t ≡ ok after
      → Saved call group t after
  unfolding save_tx
  save_tx-Saved call group t after =
      bind_elim (or_fail marshal_failed (codec.marshal group)) _ λ json marshalled.
        bind_elim (fail_if (call.fails begin_tx) (failed_at begin_tx)) _ λ _ _.
          bind_elim (fail_if (call.fails upsert_group) (failed_at upsert_group)) _ λ _ _.
            bind_elim
              (or_fail (failed_at upsert_group)
                (upsert (call.random_id 0) call.now group json t.groups))
              _
              λ stored upserted.
                bind_elim (fail_if (call.fails delete_old) (failed_at delete_old)) _ λ _ _.
                  bind_elim (fail_if (call.fails prepare_insert) (failed_at prepare_insert)) _
                    λ _ _.
                      bind_elim
                        (insert_alerts codec call stored.0 group.alerts 0
                          (delete_group stored.0 t.alerts))
                        _
                        λ rows read_rows.
                          bind_elim (fail_if (call.fails commit_tx) (failed_at commit_tx)) _
                            λ _ _ done.
                              let (e, unique) =
                                insert_alerts-eq-ok codec call stored.0 group.alerts 0 _ rows
                                  read_rows in
                              subst (Saved call group t) (tables_eq done) (record {
                                json = json;
                                marshalled = or_fail-eq-ok _ _ json marshalled;
                                group_id = stored.0;
                                upserted =
                                    upsert-Upserted _ _ group json t.groups stored.0 stored.1
                                      (or_fail-eq-ok _ _ stored upserted);
                                alert_rows = e;
                                health = refl;
                                alert_ids = λ v. unique (delete_group-AlertIdsAreUnique _ _ v);
                              })

  -- `Save` either returns nil, and then the row of the group's key holds this payload and is
  -- pending, the rows of all other keys are as before, and the alerts of the group's row are
  -- exactly the payload's; or it returns an error, and then nothing has changed.
  pub save_atomic :
      (call : SaveCall) (group : AlertGroup) (t : Tables)
      → (((save codec call group t).0 ≡ ok tt) × Saved call group t (save codec call group t).1)
        ⊎ ((e : StoreError) × ((save codec call group t).0 ≡ err e)
            × ((save codec call group t).1 ≡ t))
  unfolding save
  save_atomic call group t = elim (Result-cases (save_tx codec call group t)) [
    | inl (after, done) ↦
        inl (rw (done, save) refl, rw (done, save) (save_tx-Saved call group t after done))
    | inr (e, failed) ↦ inr (e, rw (failed, save) refl, rw (failed, save) refl)
  ]
