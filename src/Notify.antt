-- ===== src/Notify.antt =====
-- internal/notify/model.go, result.go: what the dispatcher, its queues and its workers pass around.
pub mod Queue
pub mod State
pub mod Worker
pub mod Dispatcher
mod Tests
use alertmanager_webhook_rel.Base.{Dict, List, Option, Text, length, ℕ, ℤ}
use alertmanager_webhook_rel.Alerts.{Alert, AlertGroup, Instant}

pub record Notification : Type 0 where
  pub group_key : Text
  pub status : Text
  pub receiver : Text
  pub alerts : List Alert
  pub group_labels : Dict
  pub common_labels : Dict
  pub common_annotations : Dict
  pub external_url : Text
  pub alerts_count : ℕ
  pub truncated_alerts : ℤ
  pub created_at : Instant

-- `now` is what `time.Now()` returns.
unfoldable pub new_notification : Instant → AlertGroup → Notification
new_notification now group = record {
  group_key = group.group_key;
  status = group.status;
  receiver = group.receiver;
  alerts = group.alerts;
  group_labels = group.group_labels;
  common_labels = group.common_labels;
  common_annotations = group.common_annotations;
  external_url = group.external_url;
  alerts_count = length group.alerts;
  truncated_alerts = group.truncated_alerts;
  created_at = now;
}

-- `err` is the error's message, or none for nil.
pub record SendResult : Type 0 where
  pub group_key : Text
  pub channel : Text
  pub err : Option Text
