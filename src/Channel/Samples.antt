-- ===== src/Channel/Samples.antt =====
-- internal/channel: a notification for the tests of both channels, and the same with its labels
-- visited in another order.
use mathlib.Core.List.Perm
use alertmanager_webhook_rel.Base.{Perm, Text, [], has_key, pos, refl, str, text_eq, ◌∷◌}
use alertmanager_webhook_rel.Alerts.{Alert, Instant}
use alertmanager_webhook_rel.Notify.{Notification}
use alertmanager_webhook_rel.Channel.Reorder.{SameContent}

abbrev pub disk_alert : Alert
disk_alert = record {
  status = str "firing";
  labels = (str "alertname", str "Disk") ∷ (str "zone", str "a") ∷ (str "pod", str "db") ∷ [];
  annotations = (str "summary", str "full") ∷ [];
  starts_at = pos 1;
  ends_at = pos 0;
  generator_url = [];
  fingerprint = str "a1";
}

abbrev pub note_of : Alert → Notification
note_of a = record {
  group_key = str "g1";
  status = str "firing";
  receiver = str "relay";
  alerts = a ∷ [];
  group_labels = [];
  common_labels = (str "alertname", str "Disk") ∷ [];
  common_annotations = [];
  external_url = [];
  alerts_count = 1;
  truncated_alerts = pos 12;
  created_at = pos 7;
}

abbrev pub noon : Instant → Text
noon t = str "noon"

-- The labels visited in another order.
abbrev pub visited_alert : Alert
visited_alert = record disk_alert {
  labels = (str "alertname", str "Disk") ∷ (str "pod", str "db") ∷ (str "zone", str "a") ∷ [];
}

visited_labels : Perm disk_alert.labels visited_alert.labels
visited_labels = Perm.cons _ (Perm.swap _ _ [])

pub same_maps : SameContent (note_of disk_alert) (note_of visited_alert)
unfolding has_key text_eq
same_maps = record {
  status = refl;
  receiver = refl;
  alerts = (
    record {
      status = refl;
      labels = (visited_labels, (refl, (refl, (refl, tt))));
      annotations = (Perm.rfl, (refl, tt));
      starts_at = refl;
      ends_at = refl;
      generator_url = refl;
    },
    tt,
  );
  common_labels = (Perm.rfl, (refl, tt));
  external_url = refl;
  alerts_count = refl;
  truncated_alerts = refl;
}
