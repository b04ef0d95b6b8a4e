-- ===== src/Notify/Dispatcher/Partial.antt =====
-- internal/notify/dispatcher.go: a queue that refuses a notification does not keep its group pending.
use alertmanager_webhook_rel.Base.{List, Text, [], arith, false, none, some, suc, true, ℕ, ◌∷◌, ◌≡◌}
use alertmanager_webhook_rel.Alerts.{AlertGroup, Instant}
use alertmanager_webhook_rel.Notify.{new_notification}
use alertmanager_webhook_rel.Notify.Queue.{enqueue, try_receive, new_queue, on_buffer, on_ctx}
use alertmanager_webhook_rel.Notify.State.{start}
use alertmanager_webhook_rel.Notify.Dispatcher.{
  step, run, Action, advance, begin, cancel, offer, tick, work,
}

-- Two channels and one pending group. The first queue takes the notification, then the dispatcher's
-- context is cancelled and the second `Enqueue` gives up; the first channel delivers.
abbrev pub interrupted : AlertGroup → Instant → List Action
interrupted g now =
    tick (some (g ∷ []))
    ∷ begin now
    ∷ offer false on_buffer
    ∷ cancel
    ∷ offer true on_ctx
    ∷ advance
    ∷ work 0 on_buffer none
    ∷ work 0 on_buffer none
    ∷ work 0 on_buffer none
    ∷ advance
    ∷ advance
    ∷ []

-- With any two channels, any pending group and any room in the queues, a schedule in which shutdown
-- starts during the fan-out marks the group as sent, although only one of the two queues accepted
-- the notification: the other channel never gets it.
pub partial_fan_out_marks :
    (a b : Text) (batch size : ℕ) (g : AlertGroup) (now : Instant)
    → let s = run (start (a ∷ b ∷ []) batch (suc size)) (interrupted g now) in
      (s.marked ≡ g.group_key ∷ []) × (s.round ≡ record { accepted = 1; delivered = 1; failed = 0 })
unfolding run step start new_queue enqueue try_receive new_notification
partial_fan_out_marks a b batch size g now = ground arith
