-- ===== src/Advertising/Queries.antt =====
-- The rows that the advertising and delivery code reads, changes and locks.
use quota_radar.Prelude.{ℕ, String, Bool, ◌&&◌, not, Option, none, some, ◌==◌}
use quota_radar.Table.{find, first, count, change, at_pk}
use quota_radar.Action.{Result, ok, raised, pure, raise, found, modify, ◌>>=◌}
use quota_radar.Models.Telegram.{DeliveryTarget, Delivery}
use quota_radar.Models.Advertising.{Campaign, Placement, PlacementStatus, is_released}
use quota_radar.Models.World.{
  World, Do, MonitoringComponent, MonitoringEventStatus, record_monitoring_event,
}

unfoldable pub delivery_row : ℕ → World → Option Delivery
delivery_row id w = find id w.deliveries.rows

unfoldable pub target_row : ℕ → World → Option DeliveryTarget
target_row id w = find id w.targets.rows

unfoldable pub campaign_row : ℕ → World → Option Campaign
campaign_row id w = find id w.campaigns.rows

abbrev pub of_delivery : ℕ → Placement → Bool
of_delivery id p = p.delivery == id

-- `Placement.objects.filter(delivery_id=id).first()`
unfoldable pub placement_of : ℕ → World → Option (ℕ × Placement)
placement_of id w = first (of_delivery id) w.placements.rows

-- `campaign.placements.exclude(status=RELEASED)`
abbrev pub occupies : ℕ → Placement → Bool
occupies campaign p = p.campaign == campaign && not (is_released p.status)

unfoldable pub occupied : ℕ → World → ℕ
occupied campaign w = count (occupies campaign) w.placements.rows

unfoldable pub change_deliveries : (ℕ → Delivery → Delivery) → Do (Unit {0})
change_deliveries g = modify (λ w. record w { deliveries = change g w.deliveries })

unfoldable pub change_placements : (ℕ → Placement → Placement) → Do (Unit {0})
change_placements g = modify (λ w. record w { placements = change g w.placements })

unfoldable pub change_targets : (ℕ → DeliveryTarget → DeliveryTarget) → Do (Unit {0})
change_targets g = modify (λ w. record w { targets = change g w.targets })

unfoldable pub change_campaigns : (ℕ → Campaign → Campaign) → Do (Unit {0})
change_campaigns g = modify (λ w. record w { campaigns = change g w.campaigns })

-- The target's row lock serializes the holders; what it reads is the pair of keys and the row.
unfoldable pub lock_target : ℕ → Do (ℕ × DeliveryTarget)
lock_target id = do
  delivery ← found (delivery_row id)
  target ← found (target_row delivery.target)
  pure (delivery.target, target)

abbrev pub with_status : PlacementStatus → Placement → Placement
with_status s p = record p { status = s }

abbrev pub set_status : ℕ → PlacementStatus → Do (Unit {0})
set_status pk s = change_placements (at_pk pk (with_status s))

-- The key of `delivery.analysis.source_post.source`.
unfoldable pub source_of : Delivery → World → Option ℕ
source_of d w = elim (find d.analysis w.analyses.rows) [
  | none ↦ none
  | some a ↦ elim (find a.source_post w.posts.rows) [ none ↦ none | some p ↦ some p.source ]
]

abbrev pub report : MonitoringEventStatus → String → Delivery → Do (Unit {0})
report status error_type d = do
  source ← found (source_of d)
  record_monitoring_event MonitoringComponent.telegram status (some source) error_type

abbrev pub lift : {A : Type 0} → Result A → Do A
lift (ok a) = pure a
lift (raised e) = raise e
