-- ===== src/Channel/Pachca/Format.antt =====
-- internal/channel/pachca/formatter.go. A function that writes to the builder is here the text that
-- it writes. A time's text is an argument.
pub mod Order
use alertmanager_webhook_rel.Base.{
  Dict, List, Option, Text, [], at, decimal, filter_map, if◌then◌else◌, ltz, none, pos, pos_part,
  some, sort_by, str, suc, text_eq, text_leb, ℕ, ℤ, ◌&&◌, ◌++◌, ◌+◌, ◌==◌, ◌∷◌,
}
use alertmanager_webhook_rel.Alerts.{Alert, Instant}
use alertmanager_webhook_rel.Config.Checks.{is_one_of}
use alertmanager_webhook_rel.Notify.{Notification}
use alertmanager_webhook_rel.Channel.{
  kept_keys, is_resolved, is_set, title_count, title_label, to_upper,
}

abbrev pub priority_labels : List Text
priority_labels =
    str "namespace"
    ∷ str "exported_namespace"
    ∷ str "pod"
    ∷ str "exported_pod"
    ∷ str "container"
    ∷ str "exported_container"
    ∷ str "deployment"
    ∷ str "statefulset"
    ∷ str "daemonset"
    ∷ str "replicaset"
    ∷ []

abbrev pub nl : Text
nl = 10 ∷ []

-- The characters outside ASCII, in UTF-8.
abbrev fire : Text
fire = 0xf0 ∷ 0x9f ∷ 0x94 ∷ 0xa5 ∷ []

abbrev check_mark : Text
check_mark = 0xe2 ∷ 0x9c ∷ 0x85 ∷ []

abbrev diamond : Text
diamond = 0xf0 ∷ 0x9f ∷ 0x94 ∷ 0xb9 ∷ []

abbrev em_dash : Text
em_dash = 0xe2 ∷ 0x80 ∷ 0x94 ∷ []

abbrev warning_sign : Text
warning_sign = 0xe2 ∷ 0x9a ∷ 0xa0 ∷ 0xef ∷ 0xb8 ∷ 0x8f ∷ []

-- A line that is written if its value is not empty.
unfoldable pub line_if : Text → Text → Text
line_if label [] = []
line_if label (b ∷ v) = label ++ (b ∷ v) ++ nl

unfoldable pub severity_text : Text → Text
severity_text [] = []
severity_text (b ∷ s) = str " (" ++ (b ∷ s) ++ str ")"

unfoldable pub write_header : Notification → Text
write_header n =
    str "**"
    ++ (if is_resolved n.status then check_mark else fire)
    ++ str " ["
    ++ title_label n.status
    ++ str ":"
    ++ decimal (title_count n)
    ++ str "] "
    ++ at n.common_labels (str "alertname")
    ++ severity_text (at n.common_labels (str "severity"))
    ++ str "**"
    ++ nl

unfoldable pub write_alertmanager_url : Text → Text
write_alertmanager_url [] = []
write_alertmanager_url (b ∷ url) = nl ++ str "Alertmanager: " ++ (b ∷ url) ++ nl

-- `delete(keys, k)`
abbrev unless : Text → Text → Option Text
unless k j = if text_eq j k then none else some j

unfoldable pub delete_key : Text → List Text → List Text
delete_key k keys = filter_map (unless k) keys

-- The loop over the priority labels: what it writes, and the keys that it leaves.
unfoldable pub write_priority : List Text → List Text → Dict → Text × List Text
write_priority [] keys labels = ([], keys)
write_priority (k ∷ ks) keys labels =
    let deleted = write_priority ks (delete_key k keys) labels in
    let skipped = write_priority ks keys labels in
    if is_one_of k keys
    then (str "**" ++ k ++ str ":** " ++ at labels k ++ nl ++ deleted.0, deleted.1)
    else skipped

-- The loop over the remaining labels.
unfoldable pub write_rest : List Text → Dict → Text
write_rest [] labels = []
write_rest (k ∷ ks) labels = k ++ str ": " ++ at labels k ++ nl ++ write_rest ks labels

-- The labels with these keys.
unfoldable pub write_keys : List Text → Dict → Text
write_keys [] labels = []
write_keys (k ∷ ks) labels =
    let first = write_priority priority_labels (k ∷ ks) labels in
    nl ++ str "Labels:" ++ nl ++ first.0 ++ write_rest (sort_by text_leb first.1) labels

unfoldable pub write_labels : Dict → Text
write_labels labels = write_keys (kept_keys labels) labels

module _ (format_time : Instant → Text) where
  unfoldable pub write_alert : ℕ → Alert → Text
  write_alert num a =
      diamond
      ++ str " Alert "
      ++ decimal num
      ++ str " "
      ++ em_dash
      ++ str " "
      ++ to_upper a.status
      ++ (if is_resolved a.status then str " " ++ check_mark ++ nl else nl)
      ++ line_if (str "Summary: ") (at a.annotations (str "summary"))
      ++ line_if (str "Description: ") (at a.annotations (str "description"))
      ++ str "Started: "
      ++ format_time a.starts_at
      ++ nl
      ++ (if is_resolved a.status && is_set a.ends_at
          then str "Ended: " ++ format_time a.ends_at ++ nl
          else [])
      ++ write_labels a.labels
      ++ line_if (str "Source: ") a.generator_url

  -- The loop over the alerts, from the one with this index on.
  unfoldable pub write_alerts : ℕ → List Alert → Text
  write_alerts i [] = []
  write_alerts i (a ∷ alerts) =
      (if i == 0 then [] else nl) ++ write_alert (i + 1) a ++ write_alerts (suc i) alerts

  unfoldable pub write_body : List Alert → Text
  write_body [] = []
  write_body (a ∷ alerts) = nl ++ str "---" ++ nl ++ write_alerts 0 (a ∷ alerts) ++ str "---" ++ nl

  unfoldable pub write_truncated : ℤ → Text
  write_truncated t =
      if ltz (pos 0) t
      then warning_sign ++ str " +" ++ decimal (pos_part t) ++ str " alerts truncated" ++ nl
      else []

  unfoldable pub format_notification : Notification → Text
  format_notification n =
      write_header n
      ++ write_alertmanager_url n.external_url
      ++ write_body n.alerts
      ++ write_truncated n.truncated_alerts
