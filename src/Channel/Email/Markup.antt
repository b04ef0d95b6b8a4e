-- ===== src/Channel/Email/Markup.antt =====
-- internal/channel/email/formatter.go: nothing in a notification can add markup to the mail.
use alertmanager_webhook_rel.Base.{
  All, Bool-cases, Dict, List, Text, [], append_assoc, arith, at, decimal, decimal-All, inl, inr,
  ltz, ok, pos, pos_part, refl, str, suc, ℕ, ℤ, ◌&&◌, ◌++◌, ◌+◌, ◌==◌, ◌∷◌, ◌≡◌,
}
use alertmanager_webhook_rel.Alerts.{Alert, Instant, AlertGroup}
use alertmanager_webhook_rel.Alerts.Validation.{validate_payload}
use alertmanager_webhook_rel.Alerts.Validation.Spec.{IsKnown, validate_payload_iff, IsComplete}
use alertmanager_webhook_rel.Notify.{Notification, new_notification}
use alertmanager_webhook_rel.Channel.{to_upper, is_resolved, is_set, title_label}
use alertmanager_webhook_rel.Channel.Email.Html.{
  IsForContent, IsInert, Leads, Place, digits-IsInert, in_quotes, in_text, read_escaped, read_html,
  read_html-append, read_inert,
}
use alertmanager_webhook_rel.Channel.Email.Format.{
  write_pair, between_if, filter_labels, format_body_default, join_pairs, write_alert_html,
  write_alerts_html, write_banner, write_ended, write_labels_html, write_link, write_pairs,
  write_truncated_html, write_annotations, write_source, write_started, write_status_line,
  write_description, write_severity, write_summary,
}

-- The text leads from content to content: every tag in it is closed.
abbrev pub IsContent : Text → Type 0
IsContent s = Leads in_text s in_text

content : (s : Text) → IsContent s → (t : Text) → read_html in_text (s ++ t) ≡ read_html in_text t
content s h t = read_html-append in_text in_text s h t

write_pair-IsContent : (p : Text × Text) → IsContent (write_pair p)
unfolding write_pair read_html
write_pair-IsContent (k, v) =
    simp (append_assoc, read_escaped in_text tt k, read_escaped in_text tt v)

join_pairs-IsContent : (pairs : Dict) → IsContent (join_pairs pairs)
unfolding join_pairs read_html
join_pairs-IsContent [] = refl
join_pairs-IsContent (p ∷ []) = write_pair-IsContent p
join_pairs-IsContent (p ∷ q ∷ pairs) =
    simp (append_assoc, content (write_pair p) (write_pair-IsContent p))
      (join_pairs-IsContent (q ∷ pairs))

write_pairs-IsContent : (pairs : Dict) → IsContent (write_pairs pairs)
unfolding write_pairs read_html
write_pairs-IsContent [] = refl
write_pairs-IsContent (p ∷ pairs) =
    simp (append_assoc, content (join_pairs (p ∷ pairs)) (join_pairs-IsContent (p ∷ pairs)))

write_labels_html-IsContent : (labels : Dict) → IsContent (write_labels_html labels)
unfolding write_labels_html
write_labels_html-IsContent labels = write_pairs-IsContent (filter_labels labels)

between_if-IsContent :
    (p : Place) (before s behind : Text)
    → IsForContent p
    → Leads in_text before p
    → Leads p behind in_text
    → IsContent (between_if before s behind)
unfolding between_if read_html
between_if-IsContent p before [] behind c h k = refl
between_if-IsContent p before (b ∷ s) behind c h k =
    simp (append_assoc, read_html-append in_text p before h, read_escaped p c (b ∷ s)) k

write_link-IsContent : (url : Text) → IsContent (write_link url)
unfolding write_link read_html
write_link-IsContent [] = refl
write_link-IsContent (b ∷ url) =
    simp (append_assoc, read_escaped in_quotes tt (b ∷ url), read_escaped in_text tt (b ∷ url))

write_severity-IsContent : (s : Text) → IsContent (write_severity s)
unfolding write_severity read_html
write_severity-IsContent s =
    between_if-IsContent in_text (str " <span style=\"font-weight:normal;opacity:0.8;\">(") s
      (str ")</span>") tt refl refl

write_summary-IsContent : (s : Text) → IsContent (write_summary s)
unfolding write_summary read_html
write_summary-IsContent s =
    between_if-IsContent in_text
      (str "<div style=\"margin-bottom:4px;\"><strong>Summary:</strong> ") s (str "</div>") tt refl
      refl

write_description-IsContent : (s : Text) → IsContent (write_description s)
unfolding write_description read_html
write_description-IsContent s =
    between_if-IsContent in_text
      (str "<div style=\"margin-bottom:4px;\"><strong>Description:</strong> ") s (str "</div>") tt
      refl refl

write_banner-IsContent : (n : Notification) → IsContent (write_banner n)
unfolding write_banner read_html title_label
write_banner-IsContent n =
    let count = read_inert in_text tt (decimal n.alerts_count) (digits-IsInert _ (decimal-All _)) in
    let name = read_escaped in_text tt (at n.common_labels (str "alertname")) in
    let severity =
      content (write_severity (at n.common_labels (str "severity"))) (write_severity-IsContent _) in
    elim (Bool-cases (is_resolved n.status)) [
      | inl resolved ↦ simp (resolved, append_assoc, count, name, severity)
      | inr firing ↦ simp (firing, append_assoc, count, name, severity)
    ]

write_truncated_html-IsContent : (t : ℤ) → IsContent (write_truncated_html t)
unfolding write_truncated_html read_html
write_truncated_html-IsContent t =
    let count = read_inert in_text tt (decimal (pos_part t)) (digits-IsInert _ (decimal-All _)) in
    elim (Bool-cases (ltz (pos 0) t)) [
      | inl some_cut ↦ simp (some_cut, append_assoc, count)
      | inr none_cut ↦ simp none_cut
    ]

-- The status is one of those that validation lets through.
abbrev pub HasKnownStatus : Alert → Type 0
HasKnownStatus a = IsKnown a.status

known_status-IsInert : (a : Alert) → HasKnownStatus a → IsInert (to_upper a.status)
unfolding to_upper
known_status-IsInert a (inl e) = rw e (ground arith)
known_status-IsInert a (inr e) = rw e (ground arith)

write_status_line-IsContent :
    (num : ℕ) (a : Alert) → HasKnownStatus a → IsContent (write_status_line num a)
unfolding write_status_line read_html
write_status_line-IsContent num a known =
    let count = read_inert in_text tt (decimal num) (digits-IsInert _ (decimal-All _)) in
    let status = read_inert in_text tt (to_upper a.status) (known_status-IsInert a known) in
    elim (Bool-cases (is_resolved a.status)) [
      | inl resolved ↦ simp (resolved, append_assoc, count, status)
      | inr firing ↦ simp (firing, append_assoc, count, status)
    ]

write_annotations-IsContent : (annotations : Dict) → IsContent (write_annotations annotations)
unfolding write_annotations
write_annotations-IsContent annotations =
    simp (content _ (write_summary-IsContent (at annotations (str "summary"))))
      (write_description-IsContent (at annotations (str "description")))

write_source-IsContent : (url : Text) → IsContent (write_source url)
unfolding write_source read_html
write_source-IsContent url =
    between_if-IsContent in_quotes (str "<div style=\"margin-top:4px;font-size:13px;\"><a href=\"")
      url (str "\">Source</a></div>") tt refl refl

module _ (format_time : Instant → Text) (inert_time : (t : Instant) → IsInert (format_time t)) where
  time : (t : Instant) (s : Text) → read_html in_text (format_time t ++ s) ≡ read_html in_text s
  time t s = read_inert in_text tt (format_time t) (inert_time t) s

  write_ended-IsContent : (a : Alert) → IsContent (write_ended format_time a)
  unfolding write_ended read_html
  write_ended-IsContent a = elim (Bool-cases (is_resolved a.status && is_set a.ends_at)) [
    | inl ended ↦ simp (ended, append_assoc, time a.ends_at)
    | inr runs ↦ simp runs
  ]

  write_started-IsContent : (a : Alert) → IsContent (write_started format_time a)
  unfolding write_started read_html
  write_started-IsContent a = simp (time a.starts_at)

  write_alert_html-IsContent :
      (num : ℕ) (a : Alert) → HasKnownStatus a → IsContent (write_alert_html format_time num a)
  unfolding write_alert_html
  write_alert_html-IsContent num a known =
      simp
        (
          append_assoc,
          content _ (write_status_line-IsContent num a known),
          content _ (write_annotations-IsContent a.annotations),
          content _ (write_started-IsContent a),
          content _ (write_ended-IsContent a),
          content _ (write_labels_html-IsContent a.labels),
        )
        (write_source-IsContent a.generator_url)

  write_alerts_html-IsContent :
      (i : ℕ) (alerts : List Alert)
      → All HasKnownStatus alerts
      → IsContent (write_alerts_html format_time i alerts)
  unfolding write_alerts_html read_html
  write_alerts_html-IsContent i [] known = refl
  write_alerts_html-IsContent i (a ∷ alerts) known =
      let first =
        content (write_alert_html format_time (i + 1) a)
          (write_alert_html-IsContent (i + 1) a known.0) in
      let rest = write_alerts_html-IsContent (suc i) alerts known.1 in
      elim (Bool-cases (i == 0)) [
        | inl at_first ↦ simp (at_first, append_assoc, first) rest
        | inr later ↦ simp (later, append_assoc, first) rest
      ]

  -- In the fallback body of any notification whose alerts have a status that validation lets through,
  -- every tag and every quotation is closed by the formatter's own markup: no text of the payload
  -- opens or closes one.
  pub format_body_default-IsContent :
      (n : Notification)
      → All HasKnownStatus n.alerts
      → IsContent (format_body_default format_time n)
  unfolding format_body_default read_html
  format_body_default-IsContent n known =
      let banner = content (write_banner n) (write_banner-IsContent n) in
      let link = content (write_link n.external_url) (write_link-IsContent n.external_url) in
      let alerts =
        content (write_alerts_html format_time 0 n.alerts)
          (write_alerts_html-IsContent 0 n.alerts known) in
      let truncated =
        content (write_truncated_html n.truncated_alerts)
          (write_truncated_html-IsContent n.truncated_alerts) in
      simp (append_assoc, banner, link, alerts, truncated)

  known_statuses : (alerts : List Alert) → All IsComplete alerts → All HasKnownStatus alerts
  known_statuses [] h = tt
  known_statuses (a ∷ alerts) h = (h.0.known, known_statuses alerts h.1)

  -- In the fallback body of the mail about any payload that `ValidatePayload` accepts, every tag and
  -- every quotation is closed by the formatter's own markup: no text of the payload opens or closes
  -- one. The text of a time is relied on to hold no angle bracket and no quotation mark.
  pub validated_body-IsContent :
      (now : Instant) (group : AlertGroup) (max_alerts : ℤ)
      → validate_payload group max_alerts ≡ ok tt
      → IsContent (format_body_default format_time (new_notification now group))
  unfolding new_notification
  validated_body-IsContent now group max_alerts h =
      let accepted = (validate_payload_iff group max_alerts).0 h in
      format_body_default-IsContent (new_notification now group)
        (known_statuses group.alerts accepted.0.complete)
