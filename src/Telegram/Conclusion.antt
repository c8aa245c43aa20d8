-- ===== src/Telegram/Conclusion.antt =====
-- What a delivery becomes by Telegram's answer (apps/telegram/tasks.py, task_support.py).
use quota_radar.Prelude.{ℕ, String, ◌&&◌, Option, ◌∷◌, ltb, if◌then◌else◌}
use quota_radar.Action.{Exn, pure, raise, gets, modify, ◌>>=◌, ◌>>◌}
use quota_radar.Models.Telegram.{is_private_chat}
use quota_radar.Models.World.{World, Do, Message, MonitoringEventStatus}
use quota_radar.Advertising.Sending.{has_advertising, mark_uncertain}
use quota_radar.Telegram.Retry.{delivery_countdown}
use quota_radar.Telegram.State.{
  mark_sent, mark_failed, mark_retry_scheduled, mark_permanent_chat_failure,
}
use quota_radar.Telegram.Loading.{journal, fault, Answer, Run, Outcome, Loaded}

abbrev pub republish : Loaded → World → World
republish d w = record w {
  messages = Message.deliver_analysis d.row.analysis d.row.target ∷ w.messages;
}

-- `raise task.retry(...)` publishes the task again, and raises `Retry`.
unfoldable pub schedule_retry : Run → Loaded → String → Option ℕ → Do Outcome
schedule_retry run d error retry_after = do
  let countdown = delivery_countdown retry_after run.retries
  mark_retry_scheduled run.later d.id error countdown
  fault "TelegramTemporaryError" d
  modify (republish d)
  raise (Exn.retry countdown)

unfoldable pub fail_with : Loaded → String → String → Do Outcome
fail_with d error error_type = do mark_failed d.id error; fault error_type d; pure Outcome.failed

-- `_retry_or_fail`
unfoldable pub retry_or_fail : Run → Loaded → String → Option ℕ → Do Outcome
retry_or_fail run d error retry_after = do
  config ← gets (λ w. w.configuration)
  if ltb run.retries config.retry_count
      then schedule_retry run d error retry_after
      else fail_with d error "TelegramTemporaryError"

abbrev pub unknown_result : String
unknown_result = "Результат отправки неизвестен. Проверьте канал перед повтором."

abbrev pub not_acknowledged : String
not_acknowledged = "Telegram не подтвердил отправку. Проверьте канал."

unfoldable pub give_up_as_uncertain : Loaded → String → Do Outcome
give_up_as_uncertain d error = mark_uncertain d.id error >> pure Outcome.uncertain

-- The `except` clauses and the code after them, by what the send gave.
unfoldable pub conclude : Run → Loaded → Answer → Do Outcome
conclude run d (Answer.message_id id) = do
  mark_sent run.later d.id id
  journal MonitoringEventStatus.success "" d
  pure Outcome.sent
conclude run d (Answer.temporary error retry_after delivery_uncertain) = do
  advertised ← gets (has_advertising d.id)
  if advertised && delivery_uncertain
      then give_up_as_uncertain d unknown_result
      else retry_or_fail run d error retry_after
conclude run d (Answer.permanent_chat error) = do
  mark_permanent_chat_failure d.id error
  if is_private_chat d.target
      then pure Outcome.failed
      else (fault "TelegramPermanentChatError" d >> pure Outcome.failed)
conclude run d (Answer.response error) = do
  advertised ← gets (has_advertising d.id)
  if advertised
      then give_up_as_uncertain d not_acknowledged
      else fail_with d error "TelegramResponseError"
conclude run d (Answer.authentication error) = fail_with d error "TelegramAuthenticationError"
conclude run d (Answer.configuration error) = fail_with d error "TelegramConfigurationError"
