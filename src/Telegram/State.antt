-- ===== src/Telegram/State.antt =====
-- Transactional state changes for Telegram deliveries (apps/telegram/delivery_state.py).
use quota_radar.Prelude.{ℕ, ◌+◌, String, false, none, some, if◌then◌else◌}
use quota_radar.Table.{at_pk}
use quota_radar.Action.{pure, found, atomic, ◌>>=◌, ◌>>◌}
use quota_radar.Models.Telegram.{
  DeliveryTarget, Delivery, DeliveryStatus, is_pending, is_sent, is_private_chat,
}
use quota_radar.Models.World.{Do}
use quota_radar.Advertising.Queries.{
  delivery_row, target_row, lock_target, change_deliveries, change_targets,
}
use quota_radar.Advertising.Sending.{release, retry_reserved, confirm_placement}

abbrev pub attempted : ℕ → Delivery → Delivery
attempted now d =
    if is_pending d.status
    then record d { attempts = d.attempts + 1; last_attempt_at = some now; next_attempt_at = none }
    else d

unfoldable pub increment_attempts : ℕ → ℕ → Do (Unit {0})
increment_attempts now id =
    atomic (found (delivery_row id) >> change_deliveries (at_pk id (attempted now)))

-- `exclude(status=SENT).update(...)`
abbrev pub sent_row : ℕ → String → Delivery → Delivery
sent_row now message_id d = if is_sent d.status then d else record d {
  status = DeliveryStatus.sent;
  telegram_message_id = message_id;
  sent_at = some now;
  next_attempt_at = none;
  last_error = "";
}

unfoldable pub mark_sent : ℕ → ℕ → String → Do (Unit {0})
mark_sent now id message_id = atomic do
  lock_target id
  change_deliveries (at_pk id (sent_row now message_id))
  confirm_placement now id

abbrev pub retry_row : ℕ → String → ℕ → Delivery → Delivery
retry_row now error countdown d =
    if is_pending d.status
    then record d { last_error = error; next_attempt_at = some (now + countdown) }
    else d

unfoldable pub mark_retry_scheduled : ℕ → ℕ → String → ℕ → Do (Unit {0})
mark_retry_scheduled now id error countdown =
    retry_reserved id >> change_deliveries (at_pk id (retry_row now error countdown))

abbrev pub failed_row : String → Delivery → Delivery
failed_row error d =
    if is_sent d.status
    then d
    else record d { status = DeliveryStatus.failed; last_error = error; next_attempt_at = none }

unfoldable pub mark_failed : ℕ → String → Do (Unit {0})
mark_failed id error =
    atomic do lock_target id; change_deliveries (at_pk id (failed_row error)); release id

abbrev pub switched_off : DeliveryTarget → DeliveryTarget
switched_off t = record t { enabled = false }

-- A private chat that rejects the bot is unsubscribed.
unfoldable pub mark_permanent_chat_failure : ℕ → String → Do (Unit {0})
mark_permanent_chat_failure id error = atomic do
  lock_target id
  d ← found (delivery_row id)
  target ← found (target_row d.target)
  if is_sent d.status then pure tt else do
    change_deliveries (at_pk id (failed_row error))
    release id
    if is_private_chat target then change_targets (at_pk d.target switched_off) else pure tt
