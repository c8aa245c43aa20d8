-- ===== src/Models/Telegram.antt =====
-- apps/telegram/models.py
use quota_radar.Prelude.{ℕ, String, Bool, true, false, Option, List}
use quota_radar.Models.Sources.{Feed}

pub data DeliveryTargetType : Type 0 where
  channel private_chat : DeliveryTargetType

abbrev pub is_private : DeliveryTargetType → Bool
is_private DeliveryTargetType.private_chat = true
is_private DeliveryTargetType.channel = false

pub data DeliveryStatus : Type 0 where
  pending sent failed uncertain : DeliveryStatus

abbrev pub is_pending : DeliveryStatus → Bool
is_pending DeliveryStatus.pending = true
is_pending _ = false

abbrev pub is_sent : DeliveryStatus → Bool
is_sent DeliveryStatus.sent = true
is_sent _ = false

abbrev pub is_failed : DeliveryStatus → Bool
is_failed DeliveryStatus.failed = true
is_failed _ = false

abbrev pub is_uncertain : DeliveryStatus → Bool
is_uncertain DeliveryStatus.uncertain = true
is_uncertain _ = false

pub record DeliveryTarget : Type 0 where
  pub target_type : DeliveryTargetType
  pub telegram_chat_id : String
  pub enabled : Bool
  pub feed : Feed

-- `DeliveryTarget.is_private_chat`
abbrev pub is_private_chat : DeliveryTarget → Bool
is_private_chat t = is_private t.target_type

-- A formatted span of a message in UTF-16 units; `extent` is its "length", and the other keys of
-- the dictionary are attributes.
pub record Entity : Type 0 where
  pub kind : String
  pub offset : ℕ
  pub extent : ℕ
  pub attributes : List (String × String)

pub record Delivery : Type 0 where
  pub analysis : ℕ
  pub target : ℕ
  pub status : DeliveryStatus
  pub telegram_message_id : String
  pub attempts : ℕ
  pub created_at : ℕ
  pub last_attempt_at : Option ℕ
  pub next_attempt_at : Option ℕ
  pub sent_at : Option ℕ
  pub last_error : String
  pub rendered_text : String
  pub message_entities : List Entity
