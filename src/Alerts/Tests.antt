-- ===== src/Alerts/Tests.antt =====
-- internal/alerts: tests on one payload, and instances of the theorems.
use alertmanager_webhook_rel.Base.{
  List, [], at, err, if◌then◌else◌, length, none, ok, pos, refl, str, text_eq, ℕ, ◌==◌, ◌↔◌, ◌∷◌,
  ◌≡◌,
}
use alertmanager_webhook_rel.Alerts.{AlertGroup}
use alertmanager_webhook_rel.Alerts.Samples.{sample}
use alertmanager_webhook_rel.Alerts.Validation.{
  Sentinel, sentinel, validate_payload, too_many_alerts, validate_alert, validate_alerts,
  validate_map_lengths, validate_string_length, version_unsupported,
}
use alertmanager_webhook_rel.Alerts.Validation.Spec.{
  validate_payload_iff, IsWellFormed, IsWithinLimits,
}
use alertmanager_webhook_rel.Alerts.Validation.Blame.{validate_payload_blame}
use alertmanager_webhook_rel.Alerts.Service.{Saver}
use alertmanager_webhook_rel.Alerts.Handler.{decoded, handle_webhook}
use alertmanager_webhook_rel.Alerts.Handler.Outcomes.{handle_webhook_ok_iff, Holds, IsJson}

abbrev old_version : AlertGroup
old_version = record sample { version = str "3" }

-- A store that keeps what it is given, and fails on a full list.
abbrev memory : Saver (List AlertGroup) ℕ
memory = record {
  save = λ g s. if length s == 0 then (ok tt, g ∷ s) else (err 28, s);
  wraps = λ e. none;
}

accepted : validate_payload sample (pos 100) ≡ ok tt
unfolding validate_payload validate_alerts validate_alert validate_string_length
    validate_map_lengths text_eq at
accepted = refl

too_many : validate_payload sample (pos 0) ≡ err (too_many_alerts 1 (pos 0))
unfolding validate_payload validate_string_length text_eq
too_many = refl

refused : validate_payload old_version (pos 100) ≡ err (version_unsupported (str "3"))
unfolding validate_payload validate_string_length text_eq
refused = refl

validate_payload_iff_example :
    (validate_payload sample (pos 100) ≡ ok tt)
    ↔ (IsWellFormed sample × IsWithinLimits sample (pos 100))
validate_payload_iff_example = validate_payload_iff sample (pos 100)

validate_payload_blame_example :
    (sentinel (version_unsupported (str "3")) ≡ Sentinel.invalid_payload
      → ¬ IsWellFormed old_version)
    × (sentinel (version_unsupported (str "3")) ≡ Sentinel.payload_too_large
        → ¬ IsWithinLimits old_version (pos 100))
validate_payload_blame_example =
    validate_payload_blame old_version (pos 100) (version_unsupported (str "3")) refused

handle_webhook_ok_iff_example :
    ((handle_webhook memory (pos 100) (str "application/json") (decoded sample) []).0.code ≡ 200)
    ↔ (IsJson (str "application/json") × Holds memory (pos 100) (decoded sample) [])
handle_webhook_ok_iff_example =
    handle_webhook_ok_iff memory (pos 100) (str "application/json") (decoded sample) []
