-- ===== src/Channel/Pachca/Tests.antt =====
-- internal/channel/pachca: tests on one notification, and instances of the theorems.
use alertmanager_webhook_rel.Base.{
  Text, [], at, decimal, err, filter_map, insert, ok, pos, refl, some, str, text_eq, text_leb, true,
  ◌++◌, ◌↔◌, ◌∷◌, ◌≡◌,
}
use alertmanager_webhook_rel.Channel.{
  kept_keys, count_by_status, title_count, title_label, to_upper,
}
use alertmanager_webhook_rel.Config.Checks.{is_one_of}
use alertmanager_webhook_rel.Channel.Samples.{noon, disk_alert, note_of, same_maps, visited_alert}
use alertmanager_webhook_rel.Channel.Pachca.Format.Order.{
  format_notification_same, format_notification-IsOfContent,
}
use alertmanager_webhook_rel.Channel.Content.{IsOfContent}
use alertmanager_webhook_rel.Channel.Pachca.Client.{
  api_error, send_message, Client, Http, reply, judge, request_of,
}
use alertmanager_webhook_rel.Channel.Pachca.Sending.{send_message_ok_iff, IsSuccess}
use alertmanager_webhook_rel.Channel.Pachca.Format.{
  format_notification, delete_key, line_if, nl, severity_text, write_alert, write_alertmanager_url,
  write_alerts, write_body, write_header, write_keys, write_labels, write_priority, write_rest,
  write_truncated,
}

written : format_notification noon (note_of disk_alert) ≡ (
    str "**"
    ++ (0xf0 ∷ 0x9f ∷ 0x94 ∷ 0xa5 ∷ [])
    ++ str " [FIRING:1] Disk**"
    ++ nl
    ++ nl
    ++ str "---"
    ++ nl
    ++ (0xf0 ∷ 0x9f ∷ 0x94 ∷ 0xb9 ∷ [])
    ++ str " Alert 1 "
    ++ (0xe2 ∷ 0x80 ∷ 0x94 ∷ [])
    ++ str " FIRING"
    ++ nl
    ++ str "Summary: full"
    ++ nl
    ++ str "Started: noon"
    ++ nl
    ++ nl
    ++ str "Labels:"
    ++ nl
    ++ str "**pod:** db"
    ++ nl
    ++ str "zone: a"
    ++ nl
    ++ str "---"
    ++ nl
    ++ (0xe2 ∷ 0x9a ∷ 0xa0 ∷ 0xef ∷ 0xb8 ∷ 0x8f ∷ [])
    ++ str " +12 alerts truncated"
    ++ nl)
unfolding format_notification write_header write_alertmanager_url write_body write_alerts
    write_alert write_labels write_keys write_priority write_rest delete_key kept_keys filter_map
    line_if write_truncated severity_text title_label title_count count_by_status decimal to_upper
    at text_eq is_one_of insert text_leb
written = refl

visited_otherwise :
    format_notification noon (note_of disk_alert) ≡ format_notification noon (note_of visited_alert)
visited_otherwise =
    format_notification_same noon (note_of disk_alert) (note_of visited_alert) same_maps

format_notification-IsOfContent_example : IsOfContent (format_notification noon)
format_notification-IsOfContent_example = format_notification-IsOfContent noon

abbrev http : Http
http = record { marshal = λ m. some m.content; takes_url = λ u. true }

abbrev relay_client : Client
relay_client = record { base_url = str "https://api.pachca.com"; token = str "t0k" }

send_message_ok_iff_example :
    (send_message http relay_client (pos 5) (str "hi") (λ r. reply 201 []) ≡ ok tt)
    ↔ ((body : Text) × (some (str "hi") ≡ some body) × (true ≡ true) × IsSuccess (reply 201 []))
send_message_ok_iff_example =
    send_message_ok_iff http relay_client (pos 5) (str "hi") (λ r. reply 201 [])

overloaded :
    send_message http relay_client (pos 5) (str "hi") (λ r. reply 503 (str "busy"))
    ≡ err (api_error 503 (str "busy"))
unfolding send_message request_of judge
overloaded = refl
