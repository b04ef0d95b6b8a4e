-- ===== src/Alerts/Validation/Spec.antt =====
-- internal/alerts/validation.go: which payloads `ValidatePayload` accepts.
use alertmanager_webhook_rel.Base.{
  All, Dict, List, Text, [], arith, at, length, ok, pos, str, suc, text_eq_iff, ℕ, ℤ, ◌↔◌, ◌∷◌, ◌≡◌,
  ◌≢◌, ◌≤ℤ◌, ◌≤◌, ◌⊎◌,
}
use alertmanager_webhook_rel.Alerts.{Alert, AlertGroup, status_firing, status_resolved}
use alertmanager_webhook_rel.Alerts.Validation.{
  Field, max_string_length, validate_string_length, validate_map_lengths, validate_alert,
  validate_alerts, validate_payload,
}

abbrev pub IsShort : Text → Type 0
IsShort s = length s ≤ max_string_length

abbrev pub IsKnown : Text → Type 0
IsKnown s = (s ≡ status_firing) ⊎ (s ≡ status_resolved)

abbrev pub IsSmall : Dict → Type 0
IsSmall m = All (λ e. IsShort e.0 × IsShort e.1) m

-- An alert with an identity, a status and a name.
pub record IsComplete (alert : Alert) : Type 0 where
  pub identified : alert.fingerprint ≢ []
  pub known : IsKnown alert.status
  pub named : at alert.labels (str "alertname") ≢ []

-- An alert with no oversized text.
pub record IsBounded (alert : Alert) : Type 0 where
  pub short_fingerprint : IsShort alert.fingerprint
  pub short_url : IsShort alert.generator_url
  pub small_labels : IsSmall alert.labels
  pub small_annotations : IsSmall alert.annotations

-- The payload has the form that the relay takes.
pub record IsWellFormed (group : AlertGroup) : Type 0 where
  pub keyed : group.group_key ≢ []
  pub addressed : group.receiver ≢ []
  pub known : IsKnown group.status
  pub version_4 : group.version ≡ str "4"
  pub filled : group.alerts ≢ []
  pub complete : All IsComplete group.alerts

-- The payload keeps the limits on sizes.
pub record IsWithinLimits (group : AlertGroup) (max_alerts : ℤ) : Type 0 where
  pub short_key : IsShort group.group_key
  pub short_receiver : IsShort group.receiver
  pub short_url : IsShort group.external_url
  pub few : pos (length group.alerts) ≤ℤ max_alerts
  pub bounded : All IsBounded group.alerts

pub map_lengths_iff :
    (field : Field) (m : Dict) → (validate_map_lengths field m ≡ ok tt) ↔ IsSmall m
unfolding validate_map_lengths
map_lengths_iff field [] = ground arith
map_lengths_iff field ((k, v) ∷ m) = ground (arith, map_lengths_iff field m)

alert_iff :
    (alert : Alert) (i : ℕ)
    → (validate_alert alert i ≡ ok tt) ↔ (IsComplete alert × IsBounded alert)
unfolding validate_alert validate_string_length
alert_iff alert i = ground (
  arith,
  text_eq_iff alert.status status_firing,
  text_eq_iff alert.status status_resolved,
  map_lengths_iff (Field.labels i) alert.labels,
  map_lengths_iff (Field.annotations i) alert.annotations,
)

alerts_iff :
    (alerts : List Alert) (i : ℕ)
    → (validate_alerts alerts i ≡ ok tt) ↔ (All IsComplete alerts × All IsBounded alerts)
unfolding validate_alerts
alerts_iff [] i = ground arith
alerts_iff (alert ∷ alerts) i = ground (arith, alert_iff alert i, alerts_iff alerts (suc i))

-- `ValidatePayload` returns nil exactly on the payloads that are well formed and within the limits.
pub validate_payload_iff :
    (group : AlertGroup) (max_alerts : ℤ)
    → (validate_payload group max_alerts ≡ ok tt)
      ↔ (IsWellFormed group × IsWithinLimits group max_alerts)
unfolding validate_payload validate_string_length
validate_payload_iff group max_alerts = ground (
  arith,
  text_eq_iff group.status status_firing,
  text_eq_iff group.status status_resolved,
  text_eq_iff group.version (str "4"),
  alerts_iff group.alerts 0,
)
