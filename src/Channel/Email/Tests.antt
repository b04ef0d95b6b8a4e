-- ===== src/Channel/Email/Tests.antt =====
-- internal/channel/email: tests on one notification and one dialogue, and instances of the theorems.
use alertmanager_webhook_rel.Base.{
  Text, [], arith, at, decimal, false, inl, none, ok, pos, refl, some, str, text_eq, ◌++◌, ◌∷◌, ◌≡◌,
}
use alertmanager_webhook_rel.Alerts.{Alert, AlertGroup, Instant}
use alertmanager_webhook_rel.Alerts.Validation.{
  validate_payload, validate_alert, validate_alerts, validate_map_lengths, validate_string_length,
}
use alertmanager_webhook_rel.Notify.{new_notification}
use alertmanager_webhook_rel.Channel.{count_by_status, title_label, to_upper}
use alertmanager_webhook_rel.Channel.Samples.{noon, disk_alert, note_of, visited_alert, same_maps}
use alertmanager_webhook_rel.Channel.Email.Html.{IsInert}
use alertmanager_webhook_rel.Channel.Email.Format.{
  format_subject, format_body_default, receiver_text, subject_count,
}
use alertmanager_webhook_rel.Channel.Email.Markup.{validated_body-IsContent, IsContent}
use alertmanager_webhook_rel.Channel.Email.Order.{send_mail_same}
use alertmanager_webhook_rel.Channel.Email.Titles.{title_count_lt, HasOther, CountsDiffer}
use alertmanager_webhook_rel.Channel.Email.Message.{build_message}
use alertmanager_webhook_rel.Channel.Email.Message.Headers.{
  read_mail-build_message, read_mail, IsOneLine, IsRead,
}
use alertmanager_webhook_rel.Dialogue.{Answers, perform, after_answer}
use alertmanager_webhook_rel.Channel.Email.Sender.{
  send, Sender, address, after_dial, auth, auth_commands, dial, dial_command, hang_up, script,
  start_tls, start_tls_commands, EmailChannel, send_mail, Command,
}
use alertmanager_webhook_rel.Channel.Email.Sender.Outcome.{send-Outcome, Outcome}
use alertmanager_webhook_rel.Channel.Email.Sender.Transaction.{follow, nothing_yet, transaction}
use alertmanager_webhook_rel.Channel.Email.Sender.Secrets.{send-IsProtected, IsProtected}

titled : format_subject (note_of disk_alert) (str "[prod]") ≡ str "[prod] [FIRING:1] Disk (relay)"
unfolding format_subject receiver_text title_label subject_count count_by_status decimal to_upper at
    text_eq
titled = refl

noon-IsInert : (t : Instant) → IsInert (noon t)
noon-IsInert t = ground arith

-- A label that tries to close its element, and an alert that is over.
abbrev hostile : Alert
hostile = record disk_alert {
  labels = (str "alertname", str "Disk") ∷ (str "pod", str "</code><script>") ∷ [];
}

abbrev over : Alert
over = record disk_alert { status = str "resolved" }

abbrev mixed : AlertGroup
mixed = record {
  receiver = str "relay";
  status = str "firing";
  alerts = hostile ∷ over ∷ [];
  group_labels = [];
  common_labels = [];
  common_annotations = [];
  external_url = str "http://am/\"";
  version = str "4";
  group_key = str "g1";
  truncated_alerts = pos 3;
}

mixed_accepted : validate_payload mixed (pos 100) ≡ ok tt
unfolding validate_payload validate_alerts validate_alert validate_string_length
    validate_map_lengths text_eq at
mixed_accepted = refl

validated_body-IsContent_example :
    IsContent (format_body_default noon (new_notification (pos 7) mixed))
validated_body-IsContent_example =
    validated_body-IsContent noon noon-IsInert (pos 7) mixed (pos 100) mixed_accepted

some_over : HasOther (str "firing") mixed.alerts
some_over = ground arith

title_count_lt_example :
    let n = new_notification (pos 7) mixed in
    CountsDiffer (str "[prod]") (format_subject n (str "[prod]")) (format_body_default noon n)
title_count_lt_example = title_count_lt noon (str "[prod]") (pos 7) mixed refl some_over

abbrev random_bytes : Text
random_bytes = 0 ∷ 0xab ∷ []

-- A subject that tries to add a recipient.
abbrev injected : Text
injected = str "Disk" ++ (13 ∷ 10 ∷ str "Bcc: eve@x")

from-IsOneLine : IsOneLine (str "relay@corp.io")
from-IsOneLine = ground arith

read_mail-build_message_example :
    let from = str "relay@corp.io" in
    let to = str "ops@corp.io" ∷ [] in
    IsRead
      (str "today")
      random_bytes
      from
      to
      injected
      (str "<p>hi</p>")
      (read_mail 8 (build_message (str "today") random_bytes from to injected (str "<p>hi</p>")))
read_mail-build_message_example =
    read_mail-build_message (str "today") random_bytes (str "relay@corp.io")
      (str "ops@corp.io" ∷ []) injected (str "<p>hi</p>") (ground arith) (ground arith)
      (ground arith)

abbrev mailer : Sender
mailer = record {
  host = str "smtp.corp.io";
  port = 587;
  from = str "relay@corp.io";
  username = str "relay";
  password = str "secret";
  tls_mode = str "starttls";
}

-- The server refuses the credentials.
abbrev refusing : Answers Command
refusing done (auth _ _ _) = some (str "535")
refusing done _ = none

dialogue : send refusing mailer (str "ops@corp.io" ∷ []) (str "hi") ≡ (
  some (auth (str "relay") (str "secret") (str "smtp.corp.io"), str "535"),
  dial (str "smtp.corp.io:587")
      ∷ start_tls (str "smtp.corp.io")
      ∷ auth (str "relay") (str "secret") (str "smtp.corp.io")
      ∷ hang_up
      ∷ [],
)
unfolding send after_dial dial_command script start_tls_commands auth_commands perform after_answer
    address decimal text_eq
dialogue = refl

send-Outcome_example :
    let to = str "ops@corp.io" ∷ [] in
    (follow nothing_yet (dial_command mailer ∷ script mailer to (str "hi"))
      ≡ some (transaction mailer to (str "hi")))
    × Outcome refusing
        (dial_command mailer)
        (script mailer to (str "hi"))
        (send refusing mailer to (str "hi"))
send-Outcome_example = send-Outcome refusing mailer (str "ops@corp.io" ∷ []) (str "hi")

send-IsProtected_example :
    IsProtected refusing [] false (send refusing mailer (str "ops@corp.io" ∷ []) (str "hi")).1
send-IsProtected_example =
    send-IsProtected refusing mailer (str "ops@corp.io" ∷ []) (str "hi") (inl refl)

abbrev mail_channel : EmailChannel
mail_channel = record {
  sender = mailer;
  to = str "ops@corp.io" ∷ [];
  subject_prefix = str "[prod]";
}

send_mail_same_example :
    send_mail refusing
      (format_body_default noon)
      (str "today")
      random_bytes
      mail_channel
      (note_of disk_alert)
    ≡ send_mail refusing
        (format_body_default noon)
        (str "today")
        random_bytes
        mail_channel
        (note_of visited_alert)
send_mail_same_example =
    send_mail_same noon refusing (str "today") random_bytes mail_channel (note_of disk_alert)
      (note_of visited_alert) same_maps
