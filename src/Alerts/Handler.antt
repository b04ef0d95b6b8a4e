-- ===== src/Alerts/Handler.antt =====
-- internal/alerts/handler.go: the webhook endpoint. What `http.MaxBytesReader` and the JSON decoder
-- make of the request body is an argument; bodies are kept as the values that they are encoded from.
pub mod Outcomes
use alertmanager_webhook_rel.Base.{
  Option, Result, Text, err, has_prefix, if◌then◌else◌, none, ok, some, str, ℕ, ℤ,
}
use alertmanager_webhook_rel.Alerts.{AlertGroup}
use alertmanager_webhook_rel.Alerts.Validation.{Sentinel, sentinel}
use alertmanager_webhook_rel.Alerts.Service.{Saver, ReceiveError, rejected, save_failed, receive}

-- The result of `json.NewDecoder(r.Body).Decode(&group)` over the limited body.
pub data Decoded : Type 0 where
  decoded : AlertGroup → Decoded
  body_too_large bad_json : Decoded

-- The message that `writeError` encodes.
pub data Message (E : Type 0) : Type 0 where
  unsupported_media too_large invalid_json internal : Message E
  of_error : ReceiveError E → Message E

pub data Body (E : Type 0) : Type 0 where
  status_ok : Body E
  error_body : Message E → Body E

-- Both writers set Content-Type to application/json, so the response carries code and body.
pub record Response (E : Type 0) : Type 0 where
  pub code : ℕ
  pub body : Body E

unfoldable pub write_error : {E : Type 0} → ℕ → Message E → Response E
write_error code message = record { code = code; body = error_body message }

module _ {S E : Type 0} (store : Saver S E) where
  -- The sentinel that `errors.Is` finds in the error of `Receive`.
  unfoldable pub wrapped : ReceiveError E → Option Sentinel
  wrapped (rejected e) = some (sentinel e)
  wrapped (save_failed e) = store.wraps e

  -- The `switch` on the error of `Receive`.
  unfoldable pub respond_error : ReceiveError E → Response E
  respond_error e = elim (wrapped e) [
    | some s ↦ elim s [
      | Sentinel.invalid_payload ↦ write_error 400 (of_error e)
      | Sentinel.payload_too_large ↦ write_error 413 (of_error e)
    ]
    | none ↦ write_error 500 internal
  ]

  respond : Result (ReceiveError E) (Unit {0}) × S → Response E × S
  respond (ok _, s) = (record { code = 200; body = status_ok }, s)
  respond (err e, s) = (respond_error e, s)

  handle_decoded : ℤ → Decoded → S → Response E × S
  handle_decoded max_alerts body_too_large s = (write_error 413 too_large, s)
  handle_decoded max_alerts bad_json s = (write_error 400 invalid_json, s)
  handle_decoded max_alerts (decoded group) s = respond (receive store max_alerts group s)

  unfoldable pub handle_webhook : ℤ → Text → Decoded → S → Response E × S
  unfolding handle_decoded respond respond_error wrapped write_error
  handle_webhook max_alerts content_type body s =
      if has_prefix content_type (str "application/json")
      then handle_decoded max_alerts body s
      else (write_error 415 unsupported_media, s)
