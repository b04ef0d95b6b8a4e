-- ===== src/Alerts/Validation/Blame.antt =====
-- internal/alerts/validation.go: which sentinel error a rejected payload gets.
use alertmanager_webhook_rel.Base.{
  All, Dict, List, [], arith, err, str, suc, text_eq_iff, ℕ, ℤ, ◌∷◌, ◌≡◌,
}
use alertmanager_webhook_rel.Alerts.{Alert, AlertGroup, status_firing, status_resolved}
use alertmanager_webhook_rel.Alerts.Validation.{
  Field, PayloadError, Sentinel, sentinel, validate_string_length, validate_map_lengths,
  validate_alert, validate_alerts, validate_payload,
}
use alertmanager_webhook_rel.Alerts.Validation.Spec.{
  IsSmall, IsComplete, IsBounded, IsWellFormed, IsWithinLimits,
}

map_lengths_blame :
    (field : Field) (m : Dict) (e : PayloadError)
    → validate_map_lengths field m ≡ err e
    → (sentinel e ≡ Sentinel.payload_too_large) × ¬ IsSmall m
unfolding validate_map_lengths sentinel
map_lengths_blame field [] e h = ground arith
map_lengths_blame field ((k, v) ∷ m) e h = ground (arith, map_lengths_blame field m e)

alert_blame_form :
    (alert : Alert) (i : ℕ) (e : PayloadError)
    → validate_alert alert i ≡ err e
    → sentinel e ≡ Sentinel.invalid_payload
    → ¬ IsComplete alert
unfolding validate_alert validate_string_length sentinel
alert_blame_form alert i e h k c = ground (
  arith,
  text_eq_iff alert.status status_firing,
  text_eq_iff alert.status status_resolved,
  map_lengths_blame (Field.labels i) alert.labels e,
  map_lengths_blame (Field.annotations i) alert.annotations e,
)

alert_blame_limits :
    (alert : Alert) (i : ℕ) (e : PayloadError)
    → validate_alert alert i ≡ err e
    → sentinel e ≡ Sentinel.payload_too_large
    → ¬ IsBounded alert
unfolding validate_alert validate_string_length sentinel
alert_blame_limits alert i e h k c = ground (
  arith,
  map_lengths_blame (Field.labels i) alert.labels e,
  map_lengths_blame (Field.annotations i) alert.annotations e,
)

alerts_blame_form :
    (alerts : List Alert) (i : ℕ) (e : PayloadError)
    → validate_alerts alerts i ≡ err e
    → sentinel e ≡ Sentinel.invalid_payload
    → ¬ All IsComplete alerts
unfolding validate_alerts
alerts_blame_form [] i e h k c = ground arith
alerts_blame_form (alert ∷ alerts) i e h k c =
    ground (arith, alert_blame_form alert i e, alerts_blame_form alerts (suc i) e)

alerts_blame_limits :
    (alerts : List Alert) (i : ℕ) (e : PayloadError)
    → validate_alerts alerts i ≡ err e
    → sentinel e ≡ Sentinel.payload_too_large
    → ¬ All IsBounded alerts
unfolding validate_alerts
alerts_blame_limits [] i e h k c = ground arith
alerts_blame_limits (alert ∷ alerts) i e h k c =
    ground (arith, alert_blame_limits alert i e, alerts_blame_limits alerts (suc i) e)

blame_form :
    (group : AlertGroup) (max_alerts : ℤ) (e : PayloadError)
    → validate_payload group max_alerts ≡ err e
    → sentinel e ≡ Sentinel.invalid_payload
    → ¬ IsWellFormed group
unfolding validate_payload validate_string_length sentinel
blame_form group max_alerts e h k c = ground (
  arith,
  text_eq_iff group.status status_firing,
  text_eq_iff group.status status_resolved,
  text_eq_iff group.version (str "4"),
  alerts_blame_form group.alerts 0 e,
)

blame_limits :
    (group : AlertGroup) (max_alerts : ℤ) (e : PayloadError)
    → validate_payload group max_alerts ≡ err e
    → sentinel e ≡ Sentinel.payload_too_large
    → ¬ IsWithinLimits group max_alerts
unfolding validate_payload validate_string_length sentinel
blame_limits group max_alerts e h k c = ground (arith, alerts_blame_limits group.alerts 0 e)

-- An error of `ValidatePayload` that wraps ErrInvalidPayload means that the payload is not well
-- formed, and one that wraps ErrPayloadTooLarge that it exceeds a limit.
pub validate_payload_blame :
    (group : AlertGroup) (max_alerts : ℤ) (e : PayloadError)
    → validate_payload group max_alerts ≡ err e
    → (sentinel e ≡ Sentinel.invalid_payload → ¬ IsWellFormed group)
      × (sentinel e ≡ Sentinel.payload_too_large → ¬ IsWithinLimits group max_alerts)
validate_payload_blame group max_alerts e h =
    (blame_form group max_alerts e h, blame_limits group max_alerts e h)
