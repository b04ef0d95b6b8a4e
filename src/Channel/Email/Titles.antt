-- ===== src/Channel/Email/Titles.antt =====
-- internal/channel/email/formatter.go: the counts in a mail's subject and in its banner.
use alertmanager_webhook_rel.Base.{
  List, Text, [], append_assoc, arith, at, decimal, length, refl, str, text_eq, text_eq_iff, ℕ,
  ◌++◌, ◌<◌, ◌∷◌, ◌≡◌, ◌≢◌, ◌≤◌, ◌⊎◌,
}
use alertmanager_webhook_rel.Alerts.{Alert, AlertGroup, Instant, status_firing}
use alertmanager_webhook_rel.Notify.{Notification, new_notification}
use alertmanager_webhook_rel.Channel.{count_by_status, title_label}
use alertmanager_webhook_rel.Channel.Email.Html.{escape_string}
use alertmanager_webhook_rel.Channel.Email.Format.{
  write_severity, write_link, write_alerts_html, write_truncated_html, receiver_text, fire,
  format_body_default, format_subject, subject_count, write_banner,
}

-- Some alert does not have this status.
abbrev pub HasOther : Text → List Alert → Type 0
HasOther status [] = ⊥
HasOther status (a ∷ alerts) = (a.status ≢ status) ⊎ HasOther status alerts

count_le : (alerts : List Alert) (status : Text) → count_by_status alerts status ≤ length alerts
unfolding count_by_status
count_le [] status = omega arith
count_le (a ∷ alerts) status = ground (arith, count_le alerts status)

count_lt :
    (alerts : List Alert) (status : Text)
    → HasOther status alerts
    → count_by_status alerts status < length alerts
unfolding count_by_status
count_lt [] status h = absurd h
count_lt (a ∷ alerts) status h =
    ground (arith, count_le alerts status, count_lt alerts status, text_eq_iff a.status status)

-- The text up to the title of the banner of a firing group.
abbrev banner_start : Text
banner_start =
    str "<!DOCTYPE html><html><head><meta charset=\"UTF-8\"></head>"
    ++ str "<body style=\"font-family:Arial,sans-serif;margin:0;padding:20px;background:#f5f5f5;\">"
    ++ str "<div style=\"max-width:600px;margin:0 auto;background:#fff;border-radius:8px;"
    ++ str "overflow:hidden;\">"
    ++ str "<div style=\"background:#e74c3c;color:#fff;padding:16px 20px;"
    ++ str "font-size:18px;font-weight:bold;\">"
    ++ fire

-- Behind its front, the text goes on with this count under the label FIRING.
abbrev pub ShowsFiring : Text → ℕ → Text → Type 0
ShowsFiring front count text =
    (behind : Text) × (text ≡ front ++ (str " [FIRING:" ++ (decimal count ++ (str "] " ++ behind))))

abbrev pub CountsDiffer : Text → Text → Text → Type 0
CountsDiffer prefix subject body =
    (k : ℕ) × (m : ℕ) × (k < m) × ShowsFiring prefix k subject × ShowsFiring banner_start m body

subject-ShowsFiring :
    (n : Notification) (prefix : Text)
    → n.status ≡ status_firing
    → ShowsFiring prefix (count_by_status n.alerts status_firing) (format_subject n prefix)
unfolding format_subject subject_count title_label text_eq
subject-ShowsFiring n prefix e =
    rw e (at n.common_labels (str "alertname") ++ receiver_text n.receiver, simp append_assoc refl)

body-ShowsFiring :
    (format_time : Instant → Text) (n : Notification)
    → n.status ≡ status_firing
    → ShowsFiring banner_start n.alerts_count (format_body_default format_time n)
unfolding format_body_default write_banner title_label text_eq
body-ShowsFiring format_time n e = rw e (
  escape_string (at n.common_labels (str "alertname"))
      ++ write_severity (at n.common_labels (str "severity"))
      ++ str "</div>"
      ++ write_link n.external_url
      ++ str "<div style=\"padding:20px;\">"
      ++ write_alerts_html format_time 0 n.alerts
      ++ str "</div>"
      ++ write_truncated_html n.truncated_alerts
      ++ str "</div></body></html>",
  simp append_assoc refl,
)

-- In a mail about a firing group in which some alert is not firing, the title of the subject and the
-- title of the banner of the fallback body show different counts under the same label FIRING: that of the
-- subject is smaller.
pub title_count_lt :
    (format_time : Instant → Text) (prefix : Text) (now : Instant) (group : AlertGroup)
    → group.status ≡ status_firing
    → HasOther status_firing group.alerts
    → let n = new_notification now group in
      CountsDiffer prefix (format_subject n prefix) (format_body_default format_time n)
unfolding new_notification
title_count_lt format_time prefix now group e h =
    let n = new_notification now group in
    (
      count_by_status group.alerts status_firing,
      length group.alerts,
      count_lt group.alerts status_firing h,
      subject-ShowsFiring n prefix e,
      body-ShowsFiring format_time n e,
    )
