-- ===== src/Notify/Tests.antt =====
-- internal/notify: tests on short schedules, and instances of the theorems.
use alertmanager_webhook_rel.Base.{
  All, Bool, List, Option, Text, [], arith, false, length, none, pos, refl, some, str, text_eq,
  true, ℕ, ◌++◌, ◌<◌, ◌∷◌, ◌≡◌, ◌≤◌, ◌⊎◌,
}
use alertmanager_webhook_rel.Alerts.{AlertGroup}
use alertmanager_webhook_rel.Notify.{Notification, SendResult, new_notification}
use alertmanager_webhook_rel.Notify.Queue.{on_buffer, enqueue, new_queue, on_ctx, try_receive}
use alertmanager_webhook_rel.Notify.Queue.Fifo.{
  run_fifo, opened, Call, run as run_calls, closes, enqueues, reads,
}
use alertmanager_webhook_rel.Notify.State.{start}
use alertmanager_webhook_rel.Notify.Dispatcher.{
  Action, step, run, advance, begin, cancel, close_queue, offer, tick, work,
}
use alertmanager_webhook_rel.Notify.Dispatcher.Invariant.{Inv}
use alertmanager_webhook_rel.Notify.Dispatcher.Reach.{run-start-Inv}
use alertmanager_webhook_rel.Notify.Dispatcher.Marking.{marks_only_delivered, Delivers}
use alertmanager_webhook_rel.Notify.Dispatcher.Drains.{
  chosen_keys, EndsMarking, cancelled-EndsMarking,
}
use alertmanager_webhook_rel.Notify.Dispatcher.Stops.{Stops, shutdown-Stops}
use alertmanager_webhook_rel.Notify.Dispatcher.Bounds.{
  results_have_room, IsAtRest, shutdown-IsAtRest,
}
use alertmanager_webhook_rel.Notify.Dispatcher.Ends.{collection_ends, Finishes}
use alertmanager_webhook_rel.Notify.Dispatcher.Partial.{partial_fan_out_marks, interrupted}

abbrev group : AlertGroup
group = record {
  receiver = str "relay";
  status = str "firing";
  alerts = [];
  group_labels = [];
  common_labels = [];
  common_annotations = [];
  external_url = [];
  version = str "4";
  group_key = str "g1";
  truncated_alerts = pos 0;
}

abbrev note : Notification
note = record {
  group_key = str "g1";
  status = str "firing";
  receiver = str "relay";
  alerts = [];
  group_labels = [];
  common_labels = [];
  common_annotations = [];
  external_url = [];
  alerts_count = 0;
  truncated_alerts = pos 0;
  created_at = pos 7;
}

abbrev names : List Text
names = str "pachca" ∷ str "email" ∷ []

abbrev other : AlertGroup
other = record group { group_key = str "g2" }

-- Both channels take the group; the second one fails or not.
abbrev to_the_end : Option Text → List Action
to_the_end outcome =
    tick (some (group ∷ []))
    ∷ begin (pos 7)
    ∷ offer false on_buffer
    ∷ offer false on_buffer
    ∷ advance
    ∷ work 0 on_buffer none
    ∷ work 0 on_buffer none
    ∷ work 1 on_buffer none
    ∷ work 1 on_buffer outcome
    ∷ work 0 on_buffer none
    ∷ work 1 on_buffer none
    ∷ advance
    ∷ advance
    ∷ []

abbrev reporting_now : List Action
reporting_now =
    tick (some (group ∷ []))
    ∷ begin (pos 7)
    ∷ offer false on_buffer
    ∷ work 0 on_buffer none
    ∷ work 0 on_buffer none
    ∷ []

abbrev reported : List Action
reported = reporting_now ++ offer true on_ctx ∷ advance ∷ work 0 on_buffer none ∷ []

abbrev result : SendResult
result = record { group_key = str "g1"; channel = str "pachca"; err = none }

both_delivered : (step (run (start names 5 10) (to_the_end none)) advance).marked ≡ str "g1" ∷ []
unfolding run step start new_queue enqueue try_receive new_notification
both_delivered = refl

one_failed : (step (run (start names 5 10) (to_the_end (some []))) advance).marked ≡ []
unfolding run step start new_queue enqueue try_receive new_notification
one_failed = refl

abbrev calls : List (Call ℕ)
calls = enqueues false 3 on_buffer ∷ enqueues false 4 on_buffer ∷ reads ∷ closes ∷ []

run_fifo_example :
    let a = run_calls (opened (str "email") 1) calls in
    (a.accepted ≡ a.taken ++ a.queue.ch) × (length a.queue.ch ≤ a.queue.size)
run_fifo_example = run_fifo (str "email") 1 calls

run-start-Inv_example : Inv (run (start names 5 10) (to_the_end none))
run-start-Inv_example = run-start-Inv names 5 10 (to_the_end none)

marks_only_delivered_example :
    let s = run (start names 5 10) (to_the_end none) in
    ((step s advance).marked ≡ s.marked)
    ⊎ ((n : Notification) × ((step s advance).marked ≡ s.marked ++ n.group_key ∷ []) × Delivers s n)
marks_only_delivered_example = marks_only_delivered names 5 10 (to_the_end none) advance

results_have_room_example :
    let s = run (start names 5 10) reporting_now in length s.results < s.capacity
unfolding run step start new_queue enqueue try_receive new_notification
results_have_room_example =
    results_have_room names 5 10 reporting_now 0 _ result (omega arith) refl refl

shutdown-IsAtRest_example :
    let s = run (start names 5 10) (cancel ∷ advance ∷ close_queue 1 ∷ []) in
    All IsAtRest s.lanes × (s.results ≡ [])
unfolding run step start new_queue
shutdown-IsAtRest_example = shutdown-IsAtRest names 5 10 (cancel ∷ advance ∷ close_queue 1 ∷ []) tt

partial_fan_out_marks_example :
    let s = run (start names 5 10) (interrupted group (pos 7)) in
    (s.marked ≡ str "g1" ∷ []) × (s.round ≡ record { accepted = 1; delivered = 1; failed = 0 })
partial_fan_out_marks_example = partial_fan_out_marks (str "pachca") (str "email") 5 9 group (pos 7)

-- Both queues have the notification, and one worker is about to report.
abbrev collecting_two : List Action
collecting_two =
    tick (some (group ∷ []))
    ∷ begin (pos 7)
    ∷ offer false on_buffer
    ∷ offer false on_buffer
    ∷ advance
    ∷ work 1 on_buffer none
    ∷ work 1 on_buffer (some [])
    ∷ []

collection_ends_example : Finishes (λ i. some []) (run (start names 5 10) collecting_two) []
unfolding run step start new_queue enqueue try_receive new_notification
collection_ends_example =
    collection_ends names 5 10 (omega arith) (λ i. some []) note [] collecting_two 2 true refl

-- A round is over, and the context is cancelled.
abbrev after_a_round : List Action
after_a_round = to_the_end none ++ (advance ∷ begin (pos 8) ∷ cancel ∷ [])

shutdown-Stops_example : Stops (run (start names 5 10) after_a_round)
unfolding run step start new_queue enqueue try_receive new_notification
shutdown-Stops_example = shutdown-Stops names 5 10 after_a_round refl refl

-- The context is cancelled when a poll has handed out two groups.
abbrev cancelled_early : List Action
cancelled_early = tick (some (group ∷ other ∷ [])) ∷ cancel ∷ []

-- Of the two groups the first is delivered.
abbrev first_only : AlertGroup → Bool
first_only g = text_eq g.group_key (str "g1")

cancelled-EndsMarking_example :
    EndsMarking
      (pos 9)
      (run (start names 5 10) cancelled_early)
      (chosen_keys first_only (group ∷ other ∷ []))
unfolding run step start
cancelled-EndsMarking_example =
    cancelled-EndsMarking (str "pachca") (str "email" ∷ []) 5 10 (omega arith) (omega arith) (pos 9)
      first_only (group ∷ other ∷ []) cancelled_early refl refl
