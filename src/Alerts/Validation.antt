-- ===== src/Alerts/Validation.antt =====
-- internal/alerts/validation.go: the checks on a received payload, in the order of the source.
pub mod Spec
pub mod Blame
use alertmanager_webhook_rel.Base.{
  Bool, Dict, List, Result, Text, [], at, fail_if, is_empty, length, ltb, ltz, not, ok, pos, str,
  suc, text_eq, ℕ, ℤ, ◌&&◌, ◌==◌, ◌∷◌, ◌>>=◌, ◌>>◌,
}
use alertmanager_webhook_rel.Alerts.{Alert, AlertGroup, status_firing, status_resolved}

abbrev pub max_string_length : ℕ
max_string_length = 4096

-- The sentinel that an error wraps, as `errors.Is` finds it.
pub data Sentinel : Type 0 where
  invalid_payload payload_too_large : Sentinel

-- The first argument of `validateStringLength` and `validateMapLengths`; an index is the alert's.
pub data Field : Type 0 where
  group_key receiver external_url : Field
  fingerprint generator_url labels annotations : ℕ → Field

-- One constructor for each `fmt.Errorf`, with what the message shows.
pub data PayloadError : Type 0 where
  group_key_unset receiver_unset status_unset alerts_empty : PayloadError
  status_invalid version_unsupported : Text → PayloadError
  too_many_alerts : ℕ → ℤ → PayloadError
  fingerprint_unset alert_status_unset alertname_unset : ℕ → PayloadError
  alert_status_invalid : ℕ → Text → PayloadError
  too_long key_too_long : Field → ℕ → PayloadError
  value_too_long : Field → Text → ℕ → PayloadError

unfoldable pub sentinel : PayloadError → Sentinel
sentinel (too_many_alerts _ _) = Sentinel.payload_too_large
sentinel (too_long _ _) = Sentinel.payload_too_large
sentinel (key_too_long _ _) = Sentinel.payload_too_large
sentinel (value_too_long _ _ _) = Sentinel.payload_too_large
sentinel _ = Sentinel.invalid_payload

abbrev pub Check : Type 0
Check = Result PayloadError (Unit {0})

abbrev is_oversized : Text → Bool
is_oversized s = ltb max_string_length (length s)

-- `s != StatusFiring && s != StatusResolved`
abbrev pub is_unknown_status : Text → Bool
is_unknown_status s = not (text_eq s status_firing) && not (text_eq s status_resolved)

unfoldable pub validate_string_length : Field → Text → Check
validate_string_length field value = fail_if (is_oversized value) (too_long field (length value))

unfoldable pub validate_map_lengths : Field → Dict → Check
validate_map_lengths field [] = ok tt
validate_map_lengths field ((k, v) ∷ m) = do
  fail_if (is_oversized k) (key_too_long field (length k))
  fail_if (is_oversized v) (value_too_long field k (length v))
  validate_map_lengths field m

unfoldable pub validate_alert : Alert → ℕ → Check
validate_alert alert index = do
  fail_if (is_empty alert.fingerprint) (fingerprint_unset index)
  fail_if (is_empty alert.status) (alert_status_unset index)
  fail_if (is_unknown_status alert.status) (alert_status_invalid index alert.status)
  fail_if (is_empty (at alert.labels (str "alertname"))) (alertname_unset index)
  validate_string_length (fingerprint index) alert.fingerprint
  validate_string_length (generator_url index) alert.generator_url
  validate_map_lengths (labels index) alert.labels
  validate_map_lengths (annotations index) alert.annotations

-- The loop over `group.Alerts`, from the alert with the given index on.
unfoldable pub validate_alerts : List Alert → ℕ → Check
validate_alerts [] i = ok tt
validate_alerts (alert ∷ alerts) i = do validate_alert alert i; validate_alerts alerts (suc i)

unfoldable pub validate_payload : AlertGroup → ℤ → Check
validate_payload group max_alerts = do
  fail_if (is_empty group.group_key) group_key_unset
  fail_if (is_empty group.receiver) receiver_unset
  fail_if (is_empty group.status) status_unset
  fail_if (is_unknown_status group.status) (status_invalid group.status)
  validate_string_length group_key group.group_key
  validate_string_length receiver group.receiver
  validate_string_length external_url group.external_url
  fail_if (not (text_eq group.version (str "4"))) (version_unsupported group.version)
  fail_if (length group.alerts == 0) alerts_empty
  fail_if (ltz max_alerts (pos (length group.alerts)))
      (too_many_alerts (length group.alerts) max_alerts)
  validate_alerts group.alerts 0
