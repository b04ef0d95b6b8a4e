-- ===== src/Alerts/Samples.antt =====
-- internal/alerts: a payload for tests.
use alertmanager_webhook_rel.Base.{[], pos, str, ◌∷◌}
use alertmanager_webhook_rel.Alerts.{Alert, AlertGroup}

abbrev pub disk_full : Alert
disk_full = record {
  status = str "firing";
  labels = (str "alertname", str "DiskFull") ∷ (str "pod", str "db-0") ∷ [];
  annotations = [];
  starts_at = pos 1;
  ends_at = pos 0;
  generator_url = [];
  fingerprint = str "a1";
}

abbrev pub sample : AlertGroup
sample = record {
  receiver = str "relay";
  status = str "firing";
  alerts = disk_full ∷ [];
  group_labels = [];
  common_labels = [];
  common_annotations = [];
  external_url = [];
  version = str "4";
  group_key = str "g1";
  truncated_alerts = pos 0;
}
