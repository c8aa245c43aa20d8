-- ===== src/Telegram/Requeue.antt =====
-- Failed deliveries go back to the queue (apps/telegram/services.py, `requeue_failed_deliveries`).
use quota_radar.Prelude.{
  ℕ, Bool, ◌&&◌, is_some, none, List, ltb, ◌==◌, holds, length, contains, unique, if◌then◌else◌,
}
use quota_radar.Table.{find, at_pk}
use quota_radar.Table.Order.{select, order_by}
use quota_radar.Action.{pure, gets, ◌>>=◌, ◌>>◌}
use quota_radar.Models.Telegram.{Delivery, DeliveryStatus, is_failed, is_pending}
use quota_radar.Models.World.{
  World, Do, Message, MonitoringComponent, MonitoringEventStatus, record_monitoring_event,
}
use quota_radar.Advertising.Queries.{change_deliveries, source_of, target_row}
use quota_radar.Dispatch.{Broker, delay, Verdict, each, DispatchResult, summary}

abbrev pub reset_row : Delivery → Delivery
reset_row d = record d {
  status = DeliveryStatus.pending;
  telegram_message_id = "";
  attempts = 0;
  last_attempt_at = none;
  next_attempt_at = none;
  sent_at = none;
  last_error = "";
}

-- `previous_state`, written back if no worker has touched the delivery meanwhile
abbrev pub returned_row : Delivery → Delivery → Delivery
returned_row previous d =
    if is_pending d.status && d.attempts == 0
    then record d {
      status = previous.status;
      telegram_message_id = previous.telegram_message_id;
      attempts = previous.attempts;
      last_attempt_at = previous.last_attempt_at;
      next_attempt_at = previous.next_attempt_at;
      sent_at = previous.sent_at;
      last_error = previous.last_error;
    }
    else d

-- The rows that `select_related` joins are there.
abbrev pub joined : World → Delivery → Bool
joined w d = is_some (source_of d w) && is_some (target_row d.target w)

abbrev pub by_key : ℕ × Delivery → ℕ × Delivery → Bool
by_key (k, d) (j, e) = ltb k j

abbrev pub failed_of : List ℕ → World → List (ℕ × Delivery)
failed_of ids w =
    order_by by_key
      (select (λ k d. contains ids k && (is_failed d.status && joined w d)) w.deliveries.rows)

module _ (broker : Broker) where
  unfoldable pub hand_over_delivery : ℕ × Delivery → Do Verdict
  hand_over_delivery (pk, d) = do
    accepted ← delay broker (Message.deliver_analysis d.analysis d.target)
    if accepted then pure Verdict.queued else do
      change_deliveries (at_pk pk (returned_row d))
      source ← gets (source_of d)
      record_monitoring_event MonitoringComponent.telegram MonitoringEventStatus.error source
          broker.error_type
      pure Verdict.dispatch_failed

  unfoldable pub requeue_delivery : ℕ × Delivery → Do Verdict
  requeue_delivery (pk, d) = do
    claimed ←
        gets (λ w. holds (λ (row : Delivery). is_failed row.status) (find pk w.deliveries.rows))
    if claimed
        then (change_deliveries (at_pk pk reset_row) >> hand_over_delivery (pk, d))
        else pure Verdict.skipped

  unfoldable pub requeue_failed_deliveries : List ℕ → Do DispatchResult
  requeue_failed_deliveries delivery_ids = do
    let requested_ids = unique delivery_ids
    deliveries ← gets (failed_of requested_ids)
    tally ← each deliveries requeue_delivery
    pure (summary (length requested_ids) (length deliveries) tally)
