-- ===== src/Telegram/Task.antt =====
-- The task `telegram.deliver_analysis` (apps/telegram/tasks.py).
use quota_radar.Prelude.{
  ℕ, String, Bool, ◌||◌, not, Option, none, some, List, ◌∷◌, ltb, holds, nonempty, if◌then◌else◌,
}
use quota_radar.Json.{Json}
use quota_radar.Action.{Exn, pure, raise, gets, attempt, modify, ◌>>=◌, ◌>>◌}
use quota_radar.Models.Sources.{is_quota}
use quota_radar.Models.Telegram.{
  Delivery, Entity, is_sent, is_uncertain, is_failed, is_private_chat,
}
use quota_radar.Models.World.{World, Do, SendRequest}
use quota_radar.Advertising.Formatting.{Rendered}
use quota_radar.Advertising.Queries.{lift}
use quota_radar.Advertising.Reservation.{prepare_delivery}
use quota_radar.Advertising.Sending.{begin_send, unconfirmed_send}
use quota_radar.Telegram.Freshness.{stale}
use quota_radar.Telegram.State.{increment_attempts, mark_failed}
use quota_radar.Telegram.Formatting.{TimeZones, format_delivery_message}
use quota_radar.Telegram.Loading.{load_delivery, fault, Answer, Run, Outcome, Loaded}
use quota_radar.Telegram.Conclusion.{conclude}

abbrev pub request_of : Loaded → String × List Entity → SendRequest
request_of d (text, entities) = record {
  delivery = d.id;
  chat_id = d.target.telegram_chat_id;
  text = text;
  entities = entities;
}

abbrev pub post_request : SendRequest → World → World
post_request r w = record w { requests = r ∷ w.requests }

-- The `with TelegramBotApiClient()` block: a client that cannot be built sends nothing, and `none`
-- says that the placement could not be claimed.
unfoldable pub send_with : Run → Loaded → String × List Entity → Option String → Do (Option Answer)
send_with run d content (some error) = pure (some (Answer.configuration error))
send_with run d content none = do
  claimed ← begin_send d.id
  if claimed
      then (modify (post_request (request_of d content)) >> pure (some run.answer))
      else pure none

unfoldable pub send : Run → Loaded → String × List Entity → Do (Option Answer)
send run d content = send_with run d content run.client

abbrev pub finish : Run → Loaded → Option Answer → Do Outcome
finish run d none = pure Outcome.uncertain
finish run d (some answer) = conclude run d answer

unfoldable pub attempt_delivery : Run → Loaded → String × List Entity → Do Outcome
attempt_delivery run d content = do
  increment_attempts run.now d.id
  answer ← send run d content
  finish run d answer

-- The target is disabled, or carries another feed.
abbrev pub undeliverable : Loaded → Bool
undeliverable d = not d.target.enabled || not (is_quota d.target.feed)

-- `next_attempt_at and next_attempt_at > now`
abbrev pub waits : ℕ → Delivery → Bool
waits now d = holds (ltb now) d.next_attempt_at

unfoldable pub reject_disabled : Loaded → Do Outcome
reject_disabled d = do
  mark_failed d.id "Delivery target is disabled."
  if is_private_chat d.target
      then pure Outcome.disabled
      else (fault "DeliveryTargetDisabled" d >> pure Outcome.disabled)

unfoldable pub reject_stale : Loaded → Do Outcome
reject_stale d = do
  mark_failed d.id "Событие старше 30 минут."
  fault "DeliveryStale" d
  pure Outcome.stale_event

-- `except (DeliveryMessageError, ValueError)`, with the exception's class and text
abbrev pub unprepared : Loaded → Exn → Do (Option (String × List Entity))
unprepared d (Exn.value_error error) = mark_failed d.id error >> fault "ValueError" d >> pure none
unprepared d (Exn.delivery_message_error error) =
    mark_failed d.id error >> fault "DeliveryMessageError" d >> pure none
unprepared d e = raise e

module _ (render_markup : String → Json → Rendered) (zones : TimeZones) where
  -- `delivery.rendered_text or format_delivery_message(delivery.analysis)`
  unfoldable pub message_text : Loaded → Do String
  message_text d = if nonempty d.row.rendered_text then pure d.row.rendered_text else do
    config ← gets (λ w. w.configuration)
    lift (format_delivery_message zones config.telegram_message_timezone d.analysis d.post)

  unfoldable pub prepare : Loaded → Do (Option (String × List Entity))
  prepare d =
      attempt
        (message_text d >>= prepare_delivery render_markup d.id >>= λ content. pure (some content))
        (unprepared d)

  unfoldable pub deliver_prepared : Run → Loaded → Option (String × List Entity) → Do Outcome
  deliver_prepared run d none = pure Outcome.failed
  deliver_prepared run d (some content) = attempt_delivery run d content

  -- After the delivery's own status: the due time, the target and the age of the post.
  unfoldable pub deliver_pending : Run → Loaded → Do Outcome
  deliver_pending run d =
      if waits run.now d.row
      then pure Outcome.retry_scheduled
      else if undeliverable d
      then reject_disabled d
      else if stale d.post.published_at run.now
      then reject_stale d
      else (prepare d >>= deliver_prepared run d)

  unfoldable pub deliver_unsent : Run → Loaded → Do Outcome
  deliver_unsent run d = do
    unconfirmed ← unconfirmed_send d.id
    if unconfirmed
        then pure Outcome.uncertain
        else if is_failed d.row.status
        then pure Outcome.permanently_failed
        else deliver_pending run d

  -- `_deliver_locked`
  unfoldable pub deliver_locked : Run → Loaded → Do Outcome
  deliver_locked run d =
      if is_sent d.row.status
      then pure Outcome.already_sent
      else if is_uncertain d.row.status
      then pure Outcome.uncertain
      else deliver_unsent run d

  unfoldable pub deliver_found : Run → Option Loaded → Do Outcome
  deliver_found run none = pure Outcome.missing
  deliver_found run (some d) = deliver_locked run d

  unfoldable pub deliver_existing : Run → ℕ → ℕ → Option Loaded → Do Outcome
  deliver_existing run analysis target none = pure Outcome.missing
  deliver_existing run analysis target (some d) =
      if run.acquired
      then gets (load_delivery analysis target) >>= deliver_found run
      else pure Outcome.locked

  -- The task: the delivery is loaded, and loaded again once the lock is held.
  unfoldable pub deliver_analysis : Run → ℕ → ℕ → Do Outcome
  deliver_analysis run analysis target =
      gets (load_delivery analysis target) >>= deliver_existing run analysis target
