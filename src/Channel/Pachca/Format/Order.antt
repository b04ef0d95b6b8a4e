-- ===== src/Channel/Pachca/Format/Order.antt =====
-- internal/channel/pachca/formatter.go: the message does not depend on the order in which Go visits
-- the maps of labels and annotations.
use mathlib.Core.List.Perm
use alertmanager_webhook_rel.Base.{
  Bool-cases, Dict, List, Perm, Text, Text_set, [], ap, inl, inr, refl, sort_by, sort_by_perm, str,
  suc, text_leb, text_leb-IsTotal, ℕ, ◌++◌, ◌+◌, ◌∷◌, ◌≡◌,
}
use alertmanager_webhook_rel.Alerts.{Alert, Instant}
use alertmanager_webhook_rel.Config.Checks.{is_one_of}
use alertmanager_webhook_rel.Notify.{Notification}
use alertmanager_webhook_rel.Channel.{kept_keys}
use alertmanager_webhook_rel.Channel.Content.{IsOfContent, lift-IsOfContent}
use alertmanager_webhook_rel.Channel.Reorder.{
  SameMap, SameAlert, SameAlerts, SameContent, at_same, is_one_of_perm, kept_keys_perm,
  title_count_same,
}
use alertmanager_webhook_rel.Channel.Pachca.Format.{
  write_labels, delete_key, format_notification, nl, priority_labels, unless, write_alert,
  write_alerts, write_body, write_header, write_keys, write_priority, write_rest,
}

delete_key_perm : (k : Text) (l m : List Text) → Perm l m → Perm (delete_key k l) (delete_key k m)
unfolding delete_key
delete_key_perm k l m p = Perm.filter_map (unless k) p

-- The same text, and the same keys left.
abbrev SameRest : Text × List Text → Text × List Text → Type 0
SameRest a b = (a.0 ≡ b.0) × Perm a.1 b.1

write_priority_same :
    (ks keys keys' : List Text) (labels labels' : Dict)
    → Perm keys keys'
    → SameMap labels labels'
    → SameRest (write_priority ks keys labels) (write_priority ks keys' labels')
unfolding write_priority
write_priority_same [] keys keys' labels labels' p s = (refl, p)
write_priority_same (k ∷ ks) keys keys' labels labels' p s =
    let there = is_one_of_perm keys keys' k p in
    let value = at_same labels labels' k s in
    elim (Bool-cases (is_one_of k keys')) [
      | inl found ↦
          let rest =
            write_priority_same ks (delete_key k keys) (delete_key k keys') labels labels'
              (delete_key_perm k keys keys' p) s in
          let line = ap (λ v. str "**" ++ k ++ str ":** " ++ v ++ nl) value in
          simp (there, found) (cc, rest.1)
      | inr missing ↦ simp (there, missing) (write_priority_same ks keys keys' labels labels' p s)
    ]

write_rest_same :
    (ks : List Text) (labels labels' : Dict)
    → SameMap labels labels'
    → write_rest ks labels ≡ write_rest ks labels'
unfolding write_rest
write_rest_same [] labels labels' s = refl
write_rest_same (k ∷ ks) labels labels' s =
    simp (at_same labels labels' k s, write_rest_same ks labels labels' s)

write_keys_same :
    (keys keys' : List Text) (labels labels' : Dict)
    → Perm keys keys'
    → SameMap labels labels'
    → write_keys keys labels ≡ write_keys keys' labels'
unfolding write_keys
write_keys_same [] [] labels labels' p s = refl
write_keys_same [] (k ∷ ks) labels labels' p s = let e = Perm.nil-eq p in cc
write_keys_same (k ∷ ks) [] labels labels' p s = let e = Perm.eq-nil p in cc
write_keys_same (k ∷ ks) (j ∷ js) labels labels' p s =
    let first = write_priority_same priority_labels (k ∷ ks) (j ∷ js) labels labels' p s in
    let sorted = sort_by_perm text_leb text_leb-IsTotal Text_set _ _ first.1 in
    let rest =
      write_rest_same (sort_by text_leb (write_priority priority_labels (k ∷ ks) labels).1) labels
        labels' s in
    cc

write_labels_same :
    (labels labels' : Dict) → SameMap labels labels' → write_labels labels ≡ write_labels labels'
unfolding write_labels
write_labels_same labels labels' s =
    write_keys_same (kept_keys labels) (kept_keys labels') labels labels'
      (kept_keys_perm labels labels' s.0) s

write_header_same : (n m : Notification) → SameContent n m → write_header n ≡ write_header m
unfolding write_header
write_header_same n m s =
    let status = s.status in
    let count = title_count_same n m s in
    let name = at_same n.common_labels m.common_labels (str "alertname") s.common_labels in
    let severity = at_same n.common_labels m.common_labels (str "severity") s.common_labels in cc

module _ (format_time : Instant → Text) where
  write_alert_same :
      (num : ℕ) (a b : Alert)
      → SameAlert a b
      → write_alert format_time num a ≡ write_alert format_time num b
  unfolding write_alert
  write_alert_same num a b s =
      let status = s.status in
      let starts = s.starts_at in
      let ends = s.ends_at in
      let url = s.generator_url in
      let labels = write_labels_same a.labels b.labels s.labels in
      let summary = at_same a.annotations b.annotations (str "summary") s.annotations in
      let description = at_same a.annotations b.annotations (str "description") s.annotations in cc

  write_alerts_same :
      (i : ℕ) (xs ys : List Alert)
      → SameAlerts xs ys
      → write_alerts format_time i xs ≡ write_alerts format_time i ys
  unfolding write_alerts
  write_alerts_same i [] [] s = refl
  write_alerts_same i (a ∷ xs) (b ∷ ys) s =
      let first = write_alert_same (i + 1) a b s.0 in
      let rest = write_alerts_same (suc i) xs ys s.1 in cc
  write_alerts_same i [] (b ∷ ys) s = absurd s
  write_alerts_same i (a ∷ xs) [] s = absurd s

  write_body_same :
      (xs ys : List Alert)
      → SameAlerts xs ys
      → write_body format_time xs ≡ write_body format_time ys
  unfolding write_body
  write_body_same [] [] s = refl
  write_body_same (a ∷ xs) (b ∷ ys) s = let e = write_alerts_same 0 (a ∷ xs) (b ∷ ys) s in cc
  write_body_same [] (b ∷ ys) s = absurd s
  write_body_same (a ∷ xs) [] s = absurd s

  -- The Pachca message of a notification is the same in whatever order Go visits its maps.
  pub format_notification_same :
      (n m : Notification)
      → SameContent n m
      → format_notification format_time n ≡ format_notification format_time m
  unfolding format_notification
  format_notification_same n m s =
      let header = write_header_same n m s in
      let url = s.external_url in
      let body = write_body_same n.alerts m.alerts s.alerts in
      let truncated = s.truncated_alerts in cc

  -- The Pachca message is a function of the content of a notification: there is exactly one function that
  -- gives each notification's message from its content, in which all orders of a map's entries are one.
  pub format_notification-IsOfContent : IsOfContent (format_notification format_time)
  format_notification-IsOfContent =
      lift-IsOfContent (format_notification format_time) format_notification_same
