-- ===== src/Telegram/Requests.antt =====
-- What is true of the requests on the network: kept by every operation but the one that sends.
use quota_radar.Prelude.{ℕ, String, ◌≡◌, refl, Option, none, some, List}
use quota_radar.Json.{Json}
use quota_radar.Action.{modify}
use quota_radar.Action.Keeps.{Keeps, Keeps-modify, keeps_rules}
use quota_radar.Models.Telegram.{Delivery, DeliveryTarget}
use quota_radar.Models.Advertising.{Placement, Campaign, PlacementStatus}
use quota_radar.Models.World.{
  World, SendRequest, record_monitoring_event, MonitoringComponent, MonitoringEventStatus,
}
use quota_radar.Advertising.Formatting.{Rendered}
use quota_radar.Advertising.Queries.{
  change_deliveries, change_placements, change_targets, change_campaigns,
}
use quota_radar.Advertising.Reservation.{
  take_slot, reserve_again, reserve, insert_placement, create_placement, advertise, offer, attach,
  freeze, prepare_delivery,
}
use quota_radar.Advertising.Sending.{claim, claim_by_status, begin_send, confirm, confirm_placement}
use quota_radar.Telegram.State.{mark_sent}
use quota_radar.Telegram.Conclusion.{republish}
use quota_radar.Telegram.Frame.{Frame, keeps-lift, keeps-lock_target, keeps-mark_uncertain}

-- A predicate of the requests alone.
pub record OfRequests (F : List SendRequest → Type 0) (w : World) : Type 0 where
  pub at : F w.requests

module _ {F : List SendRequest → Type 0} where
  elsewhere :
      (f : World → World)
      → ((w : World) → (f w).requests ≡ w.requests)
      → Keeps (OfRequests F) (modify f)
  elsewhere f e = Keeps-modify f (λ w h. record { at = rw (e w) h.at })

  on_deliveries : (g : ℕ → Delivery → Delivery) → Keeps (OfRequests F) (change_deliveries g)
  unfolding change_deliveries
  on_deliveries g = elsewhere _ (λ w. refl)

  on_placements : (g : ℕ → Placement → Placement) → Keeps (OfRequests F) (change_placements g)
  unfolding change_placements
  on_placements g = elsewhere _ (λ w. refl)

  on_targets : (g : ℕ → DeliveryTarget → DeliveryTarget) → Keeps (OfRequests F) (change_targets g)
  unfolding change_targets
  on_targets g = elsewhere _ (λ w. refl)

  on_campaigns : (g : ℕ → Campaign → Campaign) → Keeps (OfRequests F) (change_campaigns g)
  unfolding change_campaigns
  on_campaigns g = elsewhere _ (λ w. refl)

  on_events :
      (c : MonitoringComponent) (s : MonitoringEventStatus) (o : Option ℕ) (e : String)
      → Keeps (OfRequests F) (record_monitoring_event c s o e)
  unfolding record_monitoring_event
  on_events c s o e = elsewhere _ (λ w. refl)

  pub requests_frame : Frame (OfRequests F)
  requests_frame = record {
    uncertain = λ k e. on_deliveries _;
    failed = λ k e. on_deliveries _;
    attempted = λ k now. on_deliveries _;
    retried = λ k now e c. on_deliveries _;
    doubted = λ k. on_placements _;
    released = λ k. on_placements _;
    returned = λ k. on_placements _;
    unsubscribed = λ k. on_targets _;
    recorded = on_events;
    republished = λ l. elsewhere (republish l) (λ w. refl);
  }

ruleset silent = (
  keeps_rules, keeps-lock_target, keeps-lift, on_deliveries, on_placements, on_targets,
  on_campaigns, on_events,
)

module _ {F : List SendRequest → Type 0} where
  on_confirm : (now : ℕ) (o : Option (ℕ × Placement)) → Keeps (OfRequests F) (confirm now o)
  unfolding confirm
  on_confirm now none = search silent
  on_confirm now (some (pk, p)) = search silent depth 12

  pub on_mark_sent : (now k : ℕ) (m : String) → Keeps (OfRequests F) (mark_sent now k m)
  unfolding mark_sent confirm_placement
  on_mark_sent now k m = search (silent, on_confirm) depth 12

  on_claim_by_status :
      (k pk : ℕ) (st : PlacementStatus) → Keeps (OfRequests F) (claim_by_status k pk st)
  unfolding claim_by_status
  on_claim_by_status k pk PlacementStatus.sending =
      search (silent, keeps-mark_uncertain requests_frame)
  on_claim_by_status k pk PlacementStatus.uncertain =
      search (silent, keeps-mark_uncertain requests_frame)
  on_claim_by_status k pk _ = search silent

  on_claim : (k : ℕ) (o : Option (ℕ × Placement)) → Keeps (OfRequests F) (claim k o)
  unfolding claim
  on_claim k none = search silent
  on_claim k (some (pk, p)) = on_claim_by_status k pk p.status

  pub on_begin_send : (k : ℕ) → Keeps (OfRequests F) (begin_send k)
  unfolding begin_send
  on_begin_send k = search (silent, on_claim) depth 12

  on_reserve_again : (o : Option (ℕ × Placement)) → Keeps (OfRequests F) (reserve_again o)
  unfolding reserve_again take_slot
  on_reserve_again none = search silent
  on_reserve_again (some (pk, p)) = search silent depth 12

  on_reserve : (k : ℕ) → Keeps (OfRequests F) (reserve k)
  unfolding reserve
  on_reserve k = search (silent, on_reserve_again)

  on_insert : (c k : ℕ) (o : Option (ℕ × Placement)) → Keeps (OfRequests F) (insert_placement c k o)
  unfolding insert_placement
  on_insert c k none = elsewhere _ (λ w. refl)
  on_insert c k (some p) = search silent

  module _ (render_markup : String → Json → Rendered) where
    on_offer :
        (k : ℕ) (r : Delivery) (post : String) (o : Option (ℕ × Campaign))
        → Keeps (OfRequests F) (offer render_markup k r post o)
    unfolding offer advertise create_placement
    on_offer k r post none = search silent
    on_offer k r post (some (c, campaign)) = search (silent, on_insert) depth 20

    on_freeze :
        (k : ℕ) (t : ℕ × DeliveryTarget) (post : String)
        → Keeps (OfRequests F) (freeze render_markup k t post)
    unfolding freeze attach
    on_freeze k (t, target) post = search (silent, on_reserve, on_offer) depth 20

    pub on_prepare_delivery :
        (k : ℕ) (post : String) → Keeps (OfRequests F) (prepare_delivery render_markup k post)
    unfolding prepare_delivery
    on_prepare_delivery k post = search (silent, on_freeze) depth 12
