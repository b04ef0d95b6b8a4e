-- ===== src/Channel/Email/Format.antt =====
-- internal/channel/email/formatter.go. A function that writes to the builder is here the text that
-- it writes. A time's text is an argument.
use alertmanager_webhook_rel.Base.{
  Bool, Dict, List, Option, Text, [], at, decimal, filter_map, if◌then◌else◌, ltz, none, pos,
  pos_part, some, sort_by, str, suc, text_eq, text_leb, ℕ, ℤ, ◌&&◌, ◌++◌, ◌+◌, ◌==◌, ◌∷◌,
}
use alertmanager_webhook_rel.Alerts.{Alert, Instant, status_firing, status_resolved}
use alertmanager_webhook_rel.Notify.{Notification}
use alertmanager_webhook_rel.Config.Checks.{is_one_of}
use alertmanager_webhook_rel.Channel.{
  filtered_labels, is_resolved, is_set, count_by_status, title_label, to_upper,
}
use alertmanager_webhook_rel.Channel.Email.Html.{escape_string}

-- The characters outside ASCII, in UTF-8.
abbrev pub fire : Text
fire = 0xf0 ∷ 0x9f ∷ 0x94 ∷ 0xa5 ∷ []

abbrev check_mark : Text
check_mark = 0xe2 ∷ 0x9c ∷ 0x85 ∷ []

abbrev red_circle : Text
red_circle = 0xf0 ∷ 0x9f ∷ 0x94 ∷ 0xb4 ∷ []

abbrev green_circle : Text
green_circle = 0xf0 ∷ 0x9f ∷ 0x9f ∷ 0xa2 ∷ []

abbrev em_dash : Text
em_dash = 0xe2 ∷ 0x80 ∷ 0x94 ∷ []

abbrev warning_sign : Text
warning_sign = 0xe2 ∷ 0x9a ∷ 0xa0 ∷ 0xef ∷ 0xb8 ∷ 0x8f ∷ []

unfoldable pub receiver_text : Text → Text
receiver_text [] = []
receiver_text (b ∷ s) = str " (" ++ (b ∷ s) ++ str ")"

-- The count in the subject.
unfoldable pub subject_count : Notification → ℕ
subject_count n =
    if is_resolved n.status
    then count_by_status n.alerts status_resolved
    else count_by_status n.alerts status_firing

unfoldable pub format_subject : Notification → Text → Text
unfolding receiver_text
format_subject n prefix =
    prefix
    ++ str " ["
    ++ title_label n.status
    ++ str ":"
    ++ decimal (subject_count n)
    ++ str "] "
    ++ at n.common_labels (str "alertname")
    ++ receiver_text n.receiver

-- A label that is not filtered.
abbrev pub kept_pair : Text × Text → Option (Text × Text)
kept_pair (k, v) = if is_one_of k filtered_labels then none else some (k, v)

-- Pairs by their keys. A map's keys are distinct, so that the values are never compared.
abbrev pub pair_leb : Text × Text → Text × Text → Bool
pair_leb (j, v) (k, w) = if text_eq j k then text_leb v w else text_leb j k

unfoldable pub filter_labels : Dict → Dict
filter_labels labels = sort_by pair_leb (filter_map kept_pair labels)

unfoldable pub write_pair : Text × Text → Text
write_pair (k, v) = str "<code>" ++ escape_string k ++ str "=" ++ escape_string v ++ str "</code>"

-- `strings.Join` of the pairs, with spaces.
unfoldable pub join_pairs : Dict → Text
join_pairs [] = []
join_pairs (p ∷ []) = write_pair p
join_pairs (p ∷ q ∷ pairs) = write_pair p ++ str " " ++ join_pairs (q ∷ pairs)

unfoldable pub write_pairs : Dict → Text
write_pairs [] = []
write_pairs (p ∷ pairs) =
    str "<div style=\"margin-bottom:4px;font-size:13px;\">Labels: "
    ++ join_pairs (p ∷ pairs)
    ++ str "</div>"

unfoldable pub write_labels_html : Dict → Text
write_labels_html labels = write_pairs (filter_labels labels)

-- A text between two pieces of markup, if there is one.
unfoldable pub between_if : Text → Text → Text → Text
between_if before [] behind = []
between_if before (b ∷ s) behind = before ++ escape_string (b ∷ s) ++ behind

abbrev time_style : Text
time_style = str "<div style=\"margin-bottom:4px;color:#6c757d;font-size:13px;\">"

unfoldable pub write_link : Text → Text
write_link [] = []
write_link (b ∷ url) =
    str "<div style=\"padding:8px 20px;background:#f8f9fa;border-bottom:1px solid #e9ecef;"
    ++ str "font-size:13px;\">Alertmanager: <a href=\""
    ++ escape_string (b ∷ url)
    ++ str "\">"
    ++ escape_string (b ∷ url)
    ++ str "</a></div>"

unfoldable pub write_severity : Text → Text
write_severity severity =
    between_if (str " <span style=\"font-weight:normal;opacity:0.8;\">(") severity (str ")</span>")

unfoldable pub write_summary : Text → Text
write_summary v =
    between_if (str "<div style=\"margin-bottom:4px;\"><strong>Summary:</strong> ") v (str "</div>")

unfoldable pub write_description : Text → Text
write_description v =
    between_if (str "<div style=\"margin-bottom:4px;\"><strong>Description:</strong> ") v
      (str "</div>")

-- The source tests the escaped severity, which is empty as the severity is.
unfoldable pub write_banner : Notification → Text
write_banner n =
    str "<div style=\"background:"
    ++ (if is_resolved n.status then str "#27ae60" else str "#e74c3c")
    ++ str ";color:#fff;padding:16px 20px;font-size:18px;font-weight:bold;\">"
    ++ (if is_resolved n.status then check_mark else fire)
    ++ str " ["
    ++ title_label n.status
    ++ str ":"
    ++ decimal n.alerts_count
    ++ str "] "
    ++ escape_string (at n.common_labels (str "alertname"))
    ++ write_severity (at n.common_labels (str "severity"))
    ++ str "</div>"

unfoldable pub write_truncated_html : ℤ → Text
write_truncated_html t =
    if ltz (pos 0) t
    then str "<div style=\"padding:12px 20px;background:#fff3cd;color:#856404;font-size:13px;\">"
      ++ warning_sign
      ++ str " +"
      ++ decimal (pos_part t)
      ++ str " alerts truncated</div>"
    else []

unfoldable pub write_status_line : ℕ → Alert → Text
write_status_line num a =
    str "<div style=\"margin-bottom:8px;font-weight:bold;font-size:15px;\">"
    ++ (if is_resolved a.status then green_circle else red_circle)
    ++ str " Alert "
    ++ decimal num
    ++ str " "
    ++ em_dash
    ++ str " "
    ++ to_upper a.status
    ++ str "</div>"

unfoldable pub write_annotations : Dict → Text
write_annotations annotations =
    write_summary (at annotations (str "summary"))
    ++ write_description (at annotations (str "description"))

unfoldable pub write_source : Text → Text
write_source url =
    between_if (str "<div style=\"margin-top:4px;font-size:13px;\"><a href=\"") url
      (str "\">Source</a></div>")

module _ (format_time : Instant → Text) where
  unfoldable pub write_ended : Alert → Text
  write_ended a =
      if is_resolved a.status && is_set a.ends_at
      then time_style ++ str "Ended: " ++ format_time a.ends_at ++ str "</div>"
      else []

  unfoldable pub write_started : Alert → Text
  write_started a = time_style ++ str "Started: " ++ format_time a.starts_at ++ str "</div>"

  unfoldable pub write_alert_html : ℕ → Alert → Text
  write_alert_html num a =
      write_status_line num a
      ++ write_annotations a.annotations
      ++ write_started a
      ++ write_ended a
      ++ write_labels_html a.labels
      ++ write_source a.generator_url

  -- The loop over the alerts, from the one with this index on.
  unfoldable pub write_alerts_html : ℕ → List Alert → Text
  write_alerts_html i [] = []
  write_alerts_html i (a ∷ alerts) =
      (if i == 0
        then []
        else str "<hr style=\"border:none;border-top:1px solid #e9ecef;margin:16px 0;\">")
      ++ write_alert_html (i + 1) a
      ++ write_alerts_html (suc i) alerts

  unfoldable pub format_body_default : Notification → Text
  format_body_default n =
      str "<!DOCTYPE html><html><head><meta charset=\"UTF-8\"></head>"
      ++ str
          "<body style=\"font-family:Arial,sans-serif;margin:0;padding:20px;background:#f5f5f5;\">"
      ++ str "<div style=\"max-width:600px;margin:0 auto;background:#fff;border-radius:8px;"
      ++ str "overflow:hidden;\">"
      ++ write_banner n
      ++ write_link n.external_url
      ++ str "<div style=\"padding:20px;\">"
      ++ write_alerts_html 0 n.alerts
      ++ str "</div>"
      ++ write_truncated_html n.truncated_alerts
      ++ str "</div></body></html>"
