-- ===== src/Relay/Tests.antt =====
-- main.go: one alert group from the request to its delivery, and an instance of the theorem.
use alertmanager_webhook_rel.Base.{
  All, List, Text, [], arith, at, false, has_prefix, none, pos, refl, some, str, text_eq, true, ◌∷◌,
  ◌≡◌, ◌⊎◌,
}
use alertmanager_webhook_rel.Alerts.{AlertGroup}
use alertmanager_webhook_rel.Alerts.Samples.{sample}
use alertmanager_webhook_rel.Alerts.Handler.{handle_webhook, decoded}
use alertmanager_webhook_rel.Alerts.Service.{receive}
use alertmanager_webhook_rel.Alerts.Validation.{
  validate_payload, validate_string_length, validate_alerts, validate_alert, validate_map_lengths,
}
use alertmanager_webhook_rel.Notify.Queue.{on_buffer}
use alertmanager_webhook_rel.Notify.Dispatcher.{advance, begin, offer, work, Action}
use alertmanager_webhook_rel.Storage.{
  save, save_tx, upsert, insert_alerts, get_pending, decode_rows, new_group_row, new_alert_row,
  ends_at_of,
}
use alertmanager_webhook_rel.Storage.Rows.{
  pending_rows, GroupRow, find_key, pending, has_id, has_alert_id, delete_group, insert_row,
  oldest_first,
}
use alertmanager_webhook_rel.Storage.History.{empty_tables}
use alertmanager_webhook_rel.Storage.Samples.{sample_codec, at_time, as_stored}
use alertmanager_webhook_rel.Middleware.{
  header, chunk, served, chain, handler_of, logging, recovery, recovered, flushed_unless_panic,
  perform_all, perform, write, write_header, flush_header,
}
use alertmanager_webhook_rel.Health.{handle_pre_stop, writes_json}
use alertmanager_webhook_rel.Relay.Sent.{IsSentAfter}
use alertmanager_webhook_rel.Relay.Delivered.{poll-IsSentAfter, as_moves}
use alertmanager_webhook_rel.Notify.State.{polling, start, new_lane}
use alertmanager_webhook_rel.Notify.Dispatcher.Cycle.{IsSmooth}
use alertmanager_webhook_rel.Notify.Dispatcher
use alertmanager_webhook_rel.Relay.Http.{
  Texts, gets_ready, gets_pre_stop, respond_to, handle_request,
}
use alertmanager_webhook_rel.Relay.Ready.{respond_to-Reports, Reports, IsWritable, IsRunning}
use alertmanager_webhook_rel.Relay.{
  groups_of, Relay, Event, run, step, answer, start_relay, moves, polls, request,
}
use alertmanager_webhook_rel.Relay.Kept.{acknowledged_is_kept, IsDeliveredIn}

abbrev fresh : Relay
fresh = start_relay (str "pachca" ∷ []) 5 10 empty_tables

abbrev json : Text
json = str "application/json"

-- A poll, and the delivery to the only channel.
abbrev delivery : List Event
delivery =
    polls (λ rows. rows) false false
    ∷ moves (begin (pos 7)) false
    ∷ moves (offer false on_buffer) false
    ∷ moves advance false
    ∷ moves (work 0 on_buffer none) false
    ∷ moves (work 0 on_buffer none) false
    ∷ moves (work 0 on_buffer none) false
    ∷ moves advance false
    ∷ moves advance false
    ∷ []

acknowledged : (answer sample_codec (pos 100) (at_time 5) json (decoded sample) fresh).0.code ≡ 200
unfolding answer handle_webhook receive validate_payload save has_prefix text_eq
    validate_string_length validate_alerts validate_alert at validate_map_lengths save_tx upsert
    find_key has_id insert_alerts has_alert_id delete_group
acknowledged = refl

acknowledged_is_kept_example :
    let s = step sample_codec (pos 100) 5 fresh (request (at_time 5) json (decoded sample)) in
    (group : AlertGroup) × (decoded sample ≡ decoded group)
    × (row : GroupRow) × (find_key group.group_key
          (run sample_codec (pos 100) 5 s delivery).tables.groups
        ≡ some row)
    × ((row.notification_status ≡ pending)
        ⊎ IsDeliveredIn sample_codec (pos 100) 5 group.group_key s delivery)
unfolding run
acknowledged_is_kept_example =
    acknowledged_is_kept sample_codec (pos 100) 5 (str "pachca" ∷ []) 10 empty_tables [] delivery
      (at_time 5) json (decoded sample) acknowledged

abbrev texts : Texts
texts = record {
  of_error = λ e. str "store";
  error_json = λ m. str "error";
  checks_json = λ failed. str "{...}";
}

respond_to-Reports_example :
    Reports texts.checks_json
      (IsWritable true fresh.tables)
      (IsRunning fresh)
      (respond_to texts sample_codec (pos 100) (pos 5) 15 (gets_ready true 7) fresh).0.0.out
respond_to-Reports_example = respond_to-Reports texts sample_codec (pos 100) (pos 5) 15 true 7 fresh

-- The end of a pod is answered, and changes nothing.
pre_stopped :
    let (response, tables) =
      respond_to texts sample_codec (pos 100) (pos 5) 15 gets_pre_stop fresh in
    (response.0.out ≡ header 200 ∷ chunk (str "{\"status\":\"ok\"}") ∷ []) × (tables ≡ fresh.tables)
unfolding respond_to handle_request handle_pre_stop writes_json served chain handler_of logging
    recovery recovered flushed_unless_panic perform_all perform write write_header flush_header
pre_stopped = (refl, refl)

-- A request, and then a poll.
abbrev so_far : List Event
so_far = request (at_time 5) json (decoded sample) ∷ polls as_stored false false ∷ []

handed_out : (run sample_codec (pos 100) 5 fresh so_far).dispatcher.phase ≡ polling (sample ∷ [])
unfolding run step answer handle_webhook receive validate_payload validate_alerts validate_alert
    validate_string_length validate_map_lengths text_eq at has_prefix save save_tx upsert find_key
    has_id insert_alerts has_alert_id delete_group groups_of get_pending decode_rows pending_rows
    oldest_first insert_row new_group_row new_alert_row ends_at_of Dispatcher.step start new_lane
handed_out = refl

poll-IsSentAfter_example :
    let r = run sample_codec (pos 100) 5 fresh so_far in
    (later : List Action) × All (IsSmooth (pos 7)) later
    × (let t = run sample_codec (pos 100) 5 r (as_moves later) in
        (t.dispatcher.phase ≡ polling []) × All (IsSentAfter r.tables t.tables) (sample ∷ []))
poll-IsSentAfter_example =
    poll-IsSentAfter sample_codec (pos 100) 5 (str "pachca") [] 10 empty_tables so_far (pos 7)
      (sample ∷ []) (omega arith) (omega arith) handed_out
