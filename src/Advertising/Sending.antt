-- ===== src/Advertising/Sending.antt =====
-- What becomes of a placement once its request may be on the network
-- (apps/advertising/services.py).
use quota_radar.Prelude.{
  ℕ, String, Bool, true, false, is_some, ◌&&◌, not, Option, none, some, leb, ltb, ◌==◌,
  if◌then◌else◌,
}
use quota_radar.Table.{count, at_pk}
use quota_radar.Action.{pure, gets, found, atomic, ◌>>=◌, ◌>>◌}
use quota_radar.Models.Telegram.{Delivery, DeliveryStatus, is_sent, is_uncertain}
use quota_radar.Models.Advertising.{
  Campaign, Placement, PlacementStatus, is_held, is_unconfirmed, is_sending, is_published,
}
use quota_radar.Models.World.{World, Do, MonitoringEventStatus}
use quota_radar.Advertising.Queries.{
  delivery_row, campaign_row, of_delivery, placement_of, change_deliveries, change_placements,
  change_campaigns, lock_target, with_status, set_status, report,
}

abbrev pub unsettled : Delivery → Bool
unsettled d = not (is_sent d.status) && not (is_uncertain d.status)

abbrev pub uncertain_row : String → Delivery → Delivery
uncertain_row error d =
    if unsettled d
    then record d { status = DeliveryStatus.uncertain; last_error = error; next_attempt_at = none }
    else d

abbrev pub if_held : ℕ → PlacementStatus → ℕ → Placement → Placement
if_held id s j p = if of_delivery id p && is_held p.status then with_status s p else p

-- The event is recorded only if the update found a row to change.
unfoldable pub mark_uncertain : ℕ → String → Do (Unit {0})
mark_uncertain id error = atomic do
  lock_target id
  change_placements (if_held id PlacementStatus.uncertain)
  d ← found (delivery_row id)
  change_deliveries (at_pk id (uncertain_row error))
  if unsettled d
      then report MonitoringEventStatus.error "AdvertisingDeliveryUncertain" d
      else pure tt

abbrev pub not_confirmed : String
not_confirmed = "Предыдущая попытка не подтверждена. Проверьте канал."

-- Claims the placement for one request.
unfoldable pub claim_by_status : ℕ → ℕ → PlacementStatus → Do Bool
claim_by_status id pk PlacementStatus.reserved = set_status pk PlacementStatus.sending >> pure true
claim_by_status id pk PlacementStatus.sending = mark_uncertain id not_confirmed >> pure false
claim_by_status id pk PlacementStatus.uncertain = mark_uncertain id not_confirmed >> pure false
claim_by_status id pk _ = pure false

unfoldable pub claim : ℕ → Option (ℕ × Placement) → Do Bool
claim id none = pure true
claim id (some (pk, p)) = claim_by_status id pk p.status

unfoldable pub begin_send : ℕ → Do Bool
begin_send id = atomic do lock_target id; placement ← gets (placement_of id); claim id placement

unfoldable pub has_advertising : ℕ → World → Bool
has_advertising id w = is_some (placement_of id w)

abbrev pub pending_request : ℕ → Placement → Bool
pending_request id p = of_delivery id p && is_unconfirmed p.status

unfoldable pub unconfirmed_send : ℕ → Do Bool
unconfirmed_send id = do
  open_requests ← gets (λ w. count (pending_request id) w.placements.rows)
  if ltb 0 open_requests then (mark_uncertain id not_confirmed >> pure true) else pure false

unfoldable pub release : ℕ → Do (Unit {0})
release id = change_placements (if_held id PlacementStatus.released)

abbrev pub if_sending : ℕ → ℕ → Placement → Placement
if_sending id j p =
    if of_delivery id p && is_sending p.status then with_status PlacementStatus.reserved p else p

unfoldable pub retry_reserved : ℕ → Do (Unit {0})
retry_reserved id = change_placements (if_sending id)

abbrev pub published : ℕ → Placement → Placement
published now p = record p { status = PlacementStatus.sent; sent_at = some now }

-- `campaign.sent_posts`
abbrev pub published_in : ℕ → Placement → Bool
published_in campaign p = p.campaign == campaign && is_published p.status

abbrev pub disabled : Campaign → Campaign
disabled c = record c { enabled = false }

unfoldable pub confirm : ℕ → Option (ℕ × Placement) → Do (Unit {0})
confirm now none = pure tt
confirm now (some (pk, p)) = if is_published p.status then pure tt else do
  change_placements (at_pk pk (published now))
  campaign ← found (campaign_row p.campaign)
  sent_posts ← gets (λ w. count (published_in p.campaign) w.placements.rows)
  if leb campaign.total_posts sent_posts
      then change_campaigns (at_pk p.campaign disabled)
      else pure tt

unfoldable pub confirm_placement : ℕ → ℕ → Do (Unit {0})
confirm_placement now id = gets (placement_of id) >>= confirm now
