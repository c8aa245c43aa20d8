-- ===== src/Telegram/Subscriptions.antt =====
-- Private-chat subscriptions (apps/telegram/subscriptions.py) and the validation of a target
-- (apps/telegram/models.py).
use quota_radar.Prelude.{
  ℕ, String, Bool, true, false, ◌&&◌, not, is_some, Option, none, some, str_eq, nonempty,
  if◌then◌else◌,
}
use quota_radar.Text.{strip}
use quota_radar.Table.{first, create, at_pk}
use quota_radar.Action.{Exn, pure, raise, gets, atomic, modify, ◌>>=◌, ◌>>◌}
use quota_radar.Models.Sources.{Feed, is_quota}
use quota_radar.Models.Telegram.{DeliveryTarget, DeliveryTargetType, is_private, is_private_chat}
use quota_radar.Models.World.{World, Do}
use quota_radar.Advertising.Queries.{change_targets}

pub record SubscriptionResult : Type 0 where
  pub enabled : Bool
  pub changed : Bool

abbrev pub result : Bool → Bool → SubscriptionResult
result enabled changed = record { enabled = enabled; changed = changed }

abbrev pub for_chat : String → DeliveryTarget → Bool
for_chat chat_id t = str_eq t.telegram_chat_id chat_id

abbrev pub private_for_chat : String → DeliveryTarget → Bool
private_for_chat chat_id t = for_chat chat_id t && is_private_chat t

abbrev pub enabled_for_chat : String → DeliveryTarget → Bool
enabled_for_chat chat_id t = private_for_chat chat_id t && t.enabled

abbrev pub private_target : String → DeliveryTarget
private_target chat_id = record {
  target_type = DeliveryTargetType.private_chat;
  telegram_chat_id = chat_id;
  enabled = true;
  feed = Feed.quota;
}

abbrev pub with_enabled : Bool → DeliveryTarget → DeliveryTarget
with_enabled b t = record t { enabled = b }

unfoldable pub get_private_chat_status : String → World → SubscriptionResult
get_private_chat_status chat_id w =
    result (is_some (first (enabled_for_chat chat_id) w.targets.rows)) false

-- `str.isdigit`, by the tables of Unicode, and the two regular expressions of a channel's chat ID.
module _ (is_digits is_channel_id : String → Bool) where
  -- `DeliveryTarget.clean`: the target with its chat ID stripped, if it is valid.
  unfoldable pub clean : DeliveryTarget → Option DeliveryTarget
  clean t =
      let chat_id = strip t.telegram_chat_id in
      let cleaned : DeliveryTarget = record t { telegram_chat_id = chat_id } in
      if not (nonempty chat_id)
      then none
      else if is_private t.target_type
      then (if is_quota t.feed && is_digits chat_id then some cleaned else none)
      else if is_channel_id chat_id
      then some cleaned
      else none

  -- `save` validates first; the chat ID is unique.
  unfoldable pub insert_target : Option DeliveryTarget → Do (Unit {0})
  insert_target none = raise (Exn.validation_error "telegram_chat_id")
  insert_target (some t) = do
    taken ← gets (λ w. is_some (first (for_chat t.telegram_chat_id) w.targets.rows))
    if taken
        then raise (Exn.validation_error "telegram_chat_id")
        else modify (λ w. record w { targets = create t w.targets })

  unfoldable pub save_enabled : ℕ → Bool → Option DeliveryTarget → Do (Unit {0})
  save_enabled pk b none = raise (Exn.validation_error "telegram_chat_id")
  save_enabled pk b (some t) = change_targets (at_pk pk (with_enabled b))

  unfoldable pub enable_found : String → Option (ℕ × DeliveryTarget) → Do SubscriptionResult
  enable_found chat_id none =
      insert_target (clean (private_target chat_id)) >> pure (result true true)
  enable_found chat_id (some (pk, t)) =
      if not (is_private_chat t)
      then raise (
          Exn.subscription_conflict
            "Telegram chat ID is already registered as another target type.")
      else if t.enabled
      then pure (result true false)
      else (save_enabled pk true (clean t) >> pure (result true true))

  unfoldable pub enable_private_chat : String → Do SubscriptionResult
  enable_private_chat chat_id =
      atomic
        do target ← gets (λ w. first (for_chat chat_id) w.targets.rows); enable_found chat_id target

  unfoldable pub disable_found : Option (ℕ × DeliveryTarget) → Do SubscriptionResult
  disable_found none = pure (result false false)
  disable_found (some (pk, t)) =
      if not t.enabled
      then pure (result false false)
      else (save_enabled pk false (clean t) >> pure (result false true))

  unfoldable pub disable_private_chat : String → Do SubscriptionResult
  disable_private_chat chat_id =
      atomic do
        target ← gets (λ w. first (private_for_chat chat_id) w.targets.rows)
        disable_found target
