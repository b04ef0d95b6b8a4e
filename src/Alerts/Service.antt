-- ===== src/Alerts/Service.antt =====
-- internal/alerts/service.go and store.go: validation, then persistence through an interface.
use alertmanager_webhook_rel.Base.{Option, Result, err, ok, ℤ}
use alertmanager_webhook_rel.Alerts.{AlertGroup}
use alertmanager_webhook_rel.Alerts.Validation.{PayloadError, Sentinel, validate_payload}

-- The part of `alerts.Store` that the service calls, over the store's own state and errors.
-- `wraps` says which payload sentinel an error's chain holds, if any.
pub record Saver (S E : Type 0) : Type 0 where
  pub save : AlertGroup → S → Result E (Unit {0}) × S
  pub wraps : E → Option Sentinel

pub data ReceiveError (E : Type 0) : Type 0 where
  rejected : PayloadError → ReceiveError E
  save_failed : E → ReceiveError E

module _ {S E : Type 0} (store : Saver S E) where
  after_save : Result E (Unit {0}) × S → Result (ReceiveError E) (Unit {0}) × S
  after_save (ok tt, s) = (ok tt, s)
  after_save (err e, s) = (err (save_failed e), s)

  unfoldable pub receive : ℤ → AlertGroup → S → Result (ReceiveError E) (Unit {0}) × S
  unfolding after_save
  receive max_alerts group s = elim (validate_payload group max_alerts) [
    | err e ↦ (err (rejected e), s)
    | ok _ ↦ after_save (store.save group s)
  ]
