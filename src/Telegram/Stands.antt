-- ===== src/Telegram/Stands.antt =====
-- That one row of the deliveries stands: kept by every write elsewhere, and by every operation where
-- the row is sent.
use mathlib.Core.Option
use quota_radar.Prelude.{ℕ, String, ◌≡◌, refl, ap, ◌∙◌, Option, none, some, List, arith}
use quota_radar.Table.{at_pk, find-adjust, change}
use quota_radar.Action.{modify}
use quota_radar.Action.Keeps.{Keeps, Keeps-modify, keeps_rules}
use quota_radar.Models.Telegram.{Delivery, DeliveryStatus, DeliveryTarget, Entity}
use quota_radar.Models.World.{
  World, SendRequest, record_monitoring_event, MonitoringComponent, MonitoringEventStatus,
}
use quota_radar.Models.Advertising.{Placement, Campaign, PlacementStatus}
use quota_radar.Advertising.Queries.{
  delivery_row, change_deliveries, change_placements, change_targets, change_campaigns,
}
use quota_radar.Advertising.Sending.{
  uncertain_row, claim, claim_by_status, begin_send, confirm, confirm_placement,
}
use quota_radar.Telegram.State.{attempted, sent_row, failed_row, retry_row, mark_sent}
use quota_radar.Telegram.Loading.{Answer, Run, Loaded}
use quota_radar.Telegram.Conclusion.{republish}
use quota_radar.Telegram.Task.{post_request, send_with, send, finish, attempt_delivery}
use quota_radar.Telegram.Frame.{
  Frame, keeps-lift, keeps-lock_target, keeps-mark_uncertain, keeps-increment_attempts,
  keeps-conclude, keeps-deliver_locked,
}

-- The row with this key is this one.
pub record Stands (id : ℕ) (d : Delivery) (w : World) : Type 0 where
  pub at : delivery_row id w ≡ some d

module _ {id : ℕ} {d : Delivery} where
  pub Stands-deliveries :
      (g : ℕ → Delivery → Delivery) → g id d ≡ d → Keeps (Stands id d) (change_deliveries g)
  unfolding change_deliveries delivery_row change
  Stands-deliveries g e = Keeps-modify _ λ w h. record {
    at = find-adjust g id w.deliveries.rows ∙ ap (Option.map (g id)) h.at ∙ ap some e;
  }

  -- A write elsewhere, which leaves the table of deliveries alone.
  pub Stands-elsewhere :
      (f : World → World)
      → ((w : World) → (f w).deliveries ≡ w.deliveries)
      → Keeps (Stands id d) (modify f)
  unfolding delivery_row
  Stands-elsewhere f e = Keeps-modify f λ w h. record { at = rw (e w) h.at }

  pub Stands-placements :
      (g : ℕ → Placement → Placement) → Keeps (Stands id d) (change_placements g)
  unfolding change_placements
  Stands-placements g = Stands-elsewhere _ (λ w. refl)

  pub Stands-targets :
      (g : ℕ → DeliveryTarget → DeliveryTarget) → Keeps (Stands id d) (change_targets g)
  unfolding change_targets
  Stands-targets g = Stands-elsewhere _ (λ w. refl)

  pub Stands-campaigns : (g : ℕ → Campaign → Campaign) → Keeps (Stands id d) (change_campaigns g)
  unfolding change_campaigns
  Stands-campaigns g = Stands-elsewhere _ (λ w. refl)

  pub Stands-recorded :
      (c : MonitoringComponent) (s : MonitoringEventStatus) (o : Option ℕ) (e : String)
      → Keeps (Stands id d) (record_monitoring_event c s o e)
  unfolding record_monitoring_event
  Stands-recorded c s o e = Stands-elsewhere _ (λ w. refl)

pub ruleset writes = (
  keeps_rules, keeps-lock_target, keeps-lift, Stands-deliveries, Stands-placements, Stands-targets,
  Stands-campaigns, Stands-recorded,
)

module _ {id : ℕ} {d : Delivery} (sent : d.status ≡ DeliveryStatus.sent) where
  pub Stands-frame : Frame (Stands id d)
  Stands-frame = record {
    uncertain = λ k e. Stands-deliveries (at_pk k (uncertain_row e)) (ground arith);
    failed = λ k e. Stands-deliveries (at_pk k (failed_row e)) (ground arith);
    attempted = λ k now. Stands-deliveries (at_pk k (attempted now)) (ground arith);
    retried = λ k now e c. Stands-deliveries (at_pk k (retry_row now e c)) (ground arith);
    doubted = λ k. Stands-placements _;
    released = λ k. Stands-placements _;
    returned = λ k. Stands-placements _;
    unsubscribed = λ k. Stands-targets _;
    recorded = Stands-recorded;
    republished = λ l. Stands-elsewhere (republish l) (λ w. refl);
  }

  Stands-confirm : (now : ℕ) (o : Option (ℕ × Placement)) → Keeps (Stands id d) (confirm now o)
  unfolding confirm
  Stands-confirm now none = search writes
  Stands-confirm now (some (pk, p)) = search writes depth 12

  Stands-mark_sent : (now k : ℕ) (m : String) → Keeps (Stands id d) (mark_sent now k m)
  unfolding mark_sent confirm_placement
  Stands-mark_sent now k m =
      let fixed : at_pk k (sent_row now m) id d ≡ d = ground arith in
      search (writes, Stands-confirm, fixed) depth 12

  Stands-claim_by_status :
      (k pk : ℕ) (st : PlacementStatus) → Keeps (Stands id d) (claim_by_status k pk st)
  unfolding claim_by_status
  Stands-claim_by_status k pk PlacementStatus.sending =
      search (writes, keeps-mark_uncertain Stands-frame)
  Stands-claim_by_status k pk PlacementStatus.uncertain =
      search (writes, keeps-mark_uncertain Stands-frame)
  Stands-claim_by_status k pk _ = search writes

  Stands-claim : (k : ℕ) (o : Option (ℕ × Placement)) → Keeps (Stands id d) (claim k o)
  unfolding claim
  Stands-claim k none = search writes
  Stands-claim k (some (pk, p)) = Stands-claim_by_status k pk p.status

  Stands-begin_send : (k : ℕ) → Keeps (Stands id d) (begin_send k)
  unfolding begin_send
  Stands-begin_send k = search (writes, Stands-claim) depth 12

  Stands-send_with :
      (run : Run) (l : Loaded) (content : String × List Entity) (o : Option String)
      → Keeps (Stands id d) (send_with run l content o)
  unfolding send_with
  Stands-send_with run l content none =
      let posted =
        λ (r : SendRequest). Stands-elsewhere {id = id} {d = d} (post_request r) (λ w. refl) in
      search (writes, Stands-begin_send, posted) depth 12
  Stands-send_with run l content (some error) = search writes

  Stands-send :
      (run : Run) (l : Loaded) (content : String × List Entity)
      → Keeps (Stands id d) (send run l content)
  unfolding send
  Stands-send run l content = Stands-send_with run l content run.client

  Stands-finish :
      (run : Run) (l : Loaded) (o : Option Answer) → Keeps (Stands id d) (finish run l o)
  Stands-finish run l none = search writes
  Stands-finish run l (some a) =
      keeps-conclude Stands-frame run l a (λ m _. Stands-mark_sent run.later l.id m)

  pub Stands-attempt :
      (run : Run) (l : Loaded) (content : String × List Entity)
      → Keeps (Stands id d) (attempt_delivery run l content)
  unfolding attempt_delivery
  Stands-attempt run l content =
      search (writes, keeps-increment_attempts Stands-frame, Stands-send, Stands-finish) depth 12
