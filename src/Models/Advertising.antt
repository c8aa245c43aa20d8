-- ===== src/Models/Advertising.antt =====
-- apps/advertising/models.py
use quota_radar.Json.{Json}
use quota_radar.Prelude.{ℕ, String, Bool, true, false, Option}

pub data PlacementStatus : Type 0 where
  reserved sending uncertain sent released : PlacementStatus

-- `status in HELD_STATUSES`
abbrev pub is_held : PlacementStatus → Bool
is_held PlacementStatus.reserved = true
is_held PlacementStatus.sending = true
is_held PlacementStatus.uncertain = true
is_held _ = false

abbrev pub is_released : PlacementStatus → Bool
is_released PlacementStatus.released = true
is_released _ = false

-- A request went out, and its outcome is not known.
abbrev pub is_unconfirmed : PlacementStatus → Bool
is_unconfirmed PlacementStatus.sending = true
is_unconfirmed PlacementStatus.uncertain = true
is_unconfirmed _ = false

abbrev pub is_sending : PlacementStatus → Bool
is_sending PlacementStatus.sending = true
is_sending _ = false

abbrev pub is_published : PlacementStatus → Bool
is_published PlacementStatus.sent = true
is_published _ = false

pub record Campaign : Type 0 where
  pub target : ℕ
  pub body : String
  pub emoji_fallbacks : Json
  pub message : String
  pub link_label : String
  pub url : String
  pub total_posts : ℕ
  pub enabled : Bool

pub record Placement : Type 0 where
  pub campaign : ℕ
  pub delivery : ℕ
  pub status : PlacementStatus
  pub sent_at : Option ℕ
  pub resolution_note : String
  pub telegram_message_id : String
