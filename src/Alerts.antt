-- ===== src/Alerts.antt =====
-- internal/alerts/model.go: the Alertmanager webhook v4 payload.
pub mod Validation
pub mod Service
pub mod Handler
pub mod Samples
mod Tests
use alertmanager_webhook_rel.Base.{Dict, List, Text, str, ℤ}

abbrev pub status_firing : Text
status_firing = str "firing"

abbrev pub status_resolved : Text
status_resolved = str "resolved"

-- `time.Time`, by its distance in nanoseconds from the zero time; the program reads it in UTC only.
abbrev pub Instant : Type 0
Instant = ℤ

pub record Alert : Type 0 where
  pub status : Text
  pub labels : Dict
  pub annotations : Dict
  pub starts_at : Instant
  pub ends_at : Instant
  pub generator_url : Text
  pub fingerprint : Text

pub record AlertGroup : Type 0 where
  pub receiver : Text
  pub status : Text
  pub alerts : List Alert
  pub group_labels : Dict
  pub common_labels : Dict
  pub common_annotations : Dict
  pub external_url : Text
  pub version : Text
  pub group_key : Text
  pub truncated_alerts : ℤ
