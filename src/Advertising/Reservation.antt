-- ===== src/Advertising/Reservation.antt =====
-- A campaign's slot is reserved and the exact request is frozen before anything goes to the network
-- (apps/advertising/services.py, `prepare_delivery`).
use quota_radar.Prelude.{
  ℕ, String, Bool, ◌&&◌, not, Option, none, some, List, [], leb, ltb, ◌==◌, nonempty, if◌then◌else◌,
}
use quota_radar.Json.{Json}
use quota_radar.Text.{strip}
use quota_radar.Table.{find, first, create, at_pk}
use quota_radar.Action.{Exn, pure, raise, gets, found, atomic, modify, ◌>>=◌, ◌>>◌}
use quota_radar.Models.Sources.{is_quota}
use quota_radar.Models.Telegram.{DeliveryTarget, Delivery, Entity, is_private}
use quota_radar.Models.Advertising.{Campaign, Placement, PlacementStatus, is_released}
use quota_radar.Models.World.{World, Do}
use quota_radar.Advertising.Formatting.{Rendered, append_advertising}
use quota_radar.Advertising.Queries.{
  delivery_row, campaign_row, placement_of, occupied, change_deliveries, lock_target, set_status,
  lift,
}

-- A released placement takes a slot again, if the campaign has one left.
unfoldable pub take_slot : ℕ → ℕ → Do (Unit {0})
take_slot pk campaign_id = do
  campaign ← found (campaign_row campaign_id)
  used ← gets (occupied campaign_id)
  if leb campaign.total_posts used
      then raise
          (Exn.value_error "Для повтора рекламной доставки нет свободного размещения в кампании.")
      else set_status pk PlacementStatus.reserved

unfoldable pub reserve_again : Option (ℕ × Placement) → Do (Unit {0})
reserve_again none = pure tt
reserve_again (some (pk, p)) = if is_released p.status then take_slot pk p.campaign else pure tt

unfoldable pub reserve : ℕ → Do (Unit {0})
reserve id = gets (placement_of id) >>= reserve_again

abbrev pub new_placement : ℕ → ℕ → Placement
new_placement campaign delivery = record {
  campaign = campaign;
  delivery = delivery;
  status = PlacementStatus.reserved;
  sent_at = none;
  resolution_note = "";
  telegram_message_id = "";
}

-- A delivery has one placement at most (OneToOneField).
unfoldable pub insert_placement : ℕ → ℕ → Option (ℕ × Placement) → Do (Unit {0})
insert_placement campaign delivery (some _) = raise Exn.integrity_error
insert_placement campaign delivery none =
    modify (λ w. record w { placements = create (new_placement campaign delivery) w.placements })

unfoldable pub create_placement : ℕ → ℕ → Do (Unit {0})
create_placement campaign delivery =
    gets (placement_of delivery) >>= insert_placement campaign delivery

abbrev pub serves : ℕ → Campaign → Bool
serves target c = c.target == target && c.enabled

abbrev pub frozen : String → List Entity → Delivery → Delivery
frozen text entities d = record d { rendered_text = text; message_entities = entities }

abbrev pub source_url_of : ℕ → World → Option String
source_url_of analysis w = elim (find analysis w.analyses.rows) [
  | none ↦ none
  | some a ↦ elim (find a.source_post w.posts.rows) [
    | none ↦ none
    | some p ↦ some (strip p.source_url)
  ]
]

module _ (render_markup : String → Json → Rendered) where
  -- The campaign's block below the post, and the reservation of its slot.
  unfoldable pub advertise : ℕ → Delivery → String → ℕ × Campaign → Do (String × List Entity)
  advertise id d post (campaign_id, campaign) = do
    source_url ← found (source_url_of d.analysis)
    copy ← lift (append_advertising render_markup post campaign source_url)
    create_placement campaign_id id
    pure copy

  unfoldable pub offer : ℕ → Delivery → String → Option (ℕ × Campaign) → Do (String × List Entity)
  offer id d post none = pure (post, [])
  offer id d post (some (campaign_id, campaign)) = do
    used ← gets (occupied campaign_id)
    if ltb used campaign.total_posts
        then advertise id d post (campaign_id, campaign)
        else pure (post, [])

  unfoldable pub attach : ℕ → ℕ → DeliveryTarget → Delivery → String → Do (String × List Entity)
  attach id target_id target d post =
      if is_quota target.feed && not (is_private target.target_type)
      then gets (λ w. first (serves target_id) w.campaigns.rows) >>= offer id d post
      else pure (post, [])

  unfoldable pub freeze : ℕ → ℕ × DeliveryTarget → String → Do (String × List Entity)
  freeze id (target_id, target) post = do
    current ← found (delivery_row id)
    reserve id
    if nonempty current.rendered_text
        then pure (current.rendered_text, current.message_entities)
        else do
          (text, entities) ← attach id target_id target current post
          change_deliveries (at_pk id (frozen text entities))
          pure (text, entities)

  unfoldable pub prepare_delivery : ℕ → String → Do (String × List Entity)
  prepare_delivery id post = atomic (lock_target id >>= λ target. freeze id target post)
