-- ===== src/Channel/Email/Order.antt =====
-- internal/channel/email/formatter.go: subject and body do not depend on the order in which Go visits
-- the maps of labels and annotations.
use mathlib.Core.List.Perm
use alertmanager_webhook_rel.Base.{
  Dict, IsTotal, List, Perm, Text, [], ap, arith, filter_map, refl, sort_by_perm, str, suc,
  text_eq_iff, text_leb-IsTotal, ℕ, ◌+◌, ◌∷◌, ◌≡◌,
}
use alertmanager_webhook_rel.Alerts.{Alert, Instant}
use alertmanager_webhook_rel.Notify.{Notification}
use alertmanager_webhook_rel.Channel.Reorder.{
  SameMap, SameAlert, SameAlerts, SameContent, at_same, title_count_same,
}
use alertmanager_webhook_rel.Dialogue.{Answers}
use alertmanager_webhook_rel.Channel.Email.Sender.{send_mail, EmailChannel, Command}
use alertmanager_webhook_rel.Channel.{title_count}
use alertmanager_webhook_rel.Channel.Email.Format.{
  subject_count, filter_labels, format_body_default, format_subject, kept_pair, pair_leb,
  write_alert_html, write_alerts_html, write_annotations, write_banner, write_ended,
  write_labels_html, write_pairs, write_started, write_status_line,
}

pair_leb-IsTotal : IsTotal pair_leb
pair_leb-IsTotal = record {
  either = λ (j, v) (k, w) h. ground (
    arith,
    text_eq_iff j k,
    text_eq_iff k j,
    text_leb-IsTotal.either j k,
    text_leb-IsTotal.either v w,
  );
  both_ways = λ (j, v) (k, w) h h'. ground (
    arith,
    text_eq_iff j k,
    text_eq_iff k j,
    text_leb-IsTotal.both_ways j k,
    text_leb-IsTotal.both_ways v w,
  );
  chains = λ (i, u) (j, v) (k, w) h h'. ground (
    arith,
    text_eq_iff i j,
    text_eq_iff j k,
    text_eq_iff i k,
    text_leb-IsTotal.chains i j k,
    text_leb-IsTotal.chains u v w,
    text_leb-IsTotal.both_ways i j,
  );
}

pair_set : IsSet (Text × Text)
pair_set = hlevel

filter_labels_same : (l m : Dict) → Perm l m → filter_labels l ≡ filter_labels m
unfolding filter_labels
filter_labels_same l m p =
    sort_by_perm pair_leb pair_leb-IsTotal pair_set (filter_map kept_pair l)
      (filter_map kept_pair m) (Perm.filter_map kept_pair p)

write_labels_html_same : (l m : Dict) → SameMap l m → write_labels_html l ≡ write_labels_html m
unfolding write_labels_html
write_labels_html_same l m s = ap write_pairs (filter_labels_same l m s.0)

write_annotations_same : (l m : Dict) → SameMap l m → write_annotations l ≡ write_annotations m
unfolding write_annotations
write_annotations_same l m s =
    let summary = at_same l m (str "summary") s in
    let description = at_same l m (str "description") s in cc

write_banner_same : (n m : Notification) → SameContent n m → write_banner n ≡ write_banner m
unfolding write_banner
write_banner_same n m s =
    let status = s.status in
    let count = s.alerts_count in
    let name = at_same n.common_labels m.common_labels (str "alertname") s.common_labels in
    let severity = at_same n.common_labels m.common_labels (str "severity") s.common_labels in cc

subject_count_same : (n m : Notification) → SameContent n m → subject_count n ≡ subject_count m
unfolding subject_count title_count
subject_count_same n m s = title_count_same n m s

format_subject_same :
    (n m : Notification) (prefix : Text)
    → SameContent n m
    → format_subject n prefix ≡ format_subject m prefix
unfolding format_subject
format_subject_same n m prefix s =
    let status = s.status in
    let count = subject_count_same n m s in
    let name = at_same n.common_labels m.common_labels (str "alertname") s.common_labels in
    let receiver = s.receiver in cc

module _ (format_time : Instant → Text) where
  write_alert_html_same :
      (num : ℕ) (a b : Alert)
      → SameAlert a b
      → write_alert_html format_time num a ≡ write_alert_html format_time num b
  unfolding write_alert_html write_status_line write_started write_ended
  write_alert_html_same num a b s =
      let status = s.status in
      let starts = s.starts_at in
      let ends = s.ends_at in
      let url = s.generator_url in
      let labels = write_labels_html_same a.labels b.labels s.labels in
      let annotations = write_annotations_same a.annotations b.annotations s.annotations in cc

  write_alerts_html_same :
      (i : ℕ) (xs ys : List Alert)
      → SameAlerts xs ys
      → write_alerts_html format_time i xs ≡ write_alerts_html format_time i ys
  unfolding write_alerts_html
  write_alerts_html_same i [] [] s = refl
  write_alerts_html_same i (a ∷ xs) (b ∷ ys) s =
      let first = write_alert_html_same (i + 1) a b s.0 in
      let rest = write_alerts_html_same (suc i) xs ys s.1 in cc
  write_alerts_html_same i [] (b ∷ ys) s = absurd s
  write_alerts_html_same i (a ∷ xs) [] s = absurd s

  format_body_default_same :
      (n m : Notification)
      → SameContent n m
      → format_body_default format_time n ≡ format_body_default format_time m
  unfolding format_body_default
  format_body_default_same n m s =
      let banner = write_banner_same n m s in
      let url = s.external_url in
      let body = write_alerts_html_same 0 n.alerts m.alerts s.alerts in
      let truncated = s.truncated_alerts in cc

  -- The whole SMTP dialogue about a notification, with its subject and its fallback body, is the same
  -- in whatever order Go visits the maps of labels and annotations.
  pub send_mail_same :
      (answers : Answers Command) (date random : Text) (ch : EmailChannel) (n m : Notification)
      → SameContent n m
      → send_mail answers (format_body_default format_time) date random ch n
        ≡ send_mail answers (format_body_default format_time) date random ch m
  unfolding send_mail
  send_mail_same answers date random ch n m s =
      let subject = format_subject_same n m ch.subject_prefix s in
      let body = format_body_default_same n m s in cc
