-- ===== src/Advertising/Budget.antt =====
-- The room that quota alerts leave for advertising (apps/advertising/budget.py).
use quota_radar.Text.Utf16.{utf16_length}
use quota_radar.Prelude.{ℕ, ◌+◌, ◌-◌, max, String, Bool, ◌&&◌, not, [], ◌∷◌, if◌then◌else◌, holds}
use quota_radar.Json.{Json}
use quota_radar.Table.{Rows, find}
use quota_radar.Action.{Result, and_then, ok}
use quota_radar.Models.Telegram.{DeliveryTarget, is_private_chat}
use quota_radar.Models.Sources.{is_quota}
use quota_radar.Models.Advertising.{Campaign}
use quota_radar.Models.World.{World}
use quota_radar.Advertising.Formatting.{ad_separator, message_limit, Rendered, campaign_copy}

abbrev quota_channel : DeliveryTarget → Bool
quota_channel t = t.enabled && (is_quota t.feed && not (is_private_chat t))

-- `Campaign.objects.filter(enabled=True, target__...)`
abbrev pub is_active : World → Campaign → Bool
is_active w c = c.enabled && holds quota_channel (find c.target w.targets.rows)

module _ (render_markup : String → Json → Rendered) where
  -- `campaign.block_length + utf16_length(AD_SEPARATOR)`
  abbrev pub needed : Campaign → Result ℕ
  needed c =
      and_then (campaign_copy render_markup c)
        λ copy. ok (utf16_length copy.0 + utf16_length ad_separator)

  unfoldable pub reserve_of : World → Rows Campaign → Result ℕ
  reserve_of w [] = ok 0
  reserve_of w ((id, c) ∷ rs) =
      let rest = reserve_of w rs in
      if is_active w c then and_then (needed c) (λ n. and_then rest (λ m. ok (max n m))) else rest

  unfoldable pub quota_message_limit : World → Result ℕ
  quota_message_limit w =
      and_then (reserve_of w w.campaigns.rows) λ reserve. ok (message_limit - reserve)
