-- ===== src/Advertising/Capacity.antt =====
-- What campaigns have bought: the invariant, and single writes (apps/advertising/services.py).
use mathlib.Core.Option
use quota_radar.Prelude.{ℕ, String, ◌≤◌, ◌≡◌, refl, true, false, Option, none, some, arith}
use quota_radar.Table.{find, at_pk, change, IsKeyed, find-adjust, count-adjust-le}
use quota_radar.Table.Keys.{IsTable, change-IsTable, adjust-IsKeyed, count-at_pk}
use quota_radar.Action.{modify}
use quota_radar.Action.Keeps.{Keeps, Keeps-modify}
use quota_radar.Models.Telegram.{Delivery, DeliveryTarget}
use quota_radar.Models.Advertising.{Campaign, Placement, is_released}
use quota_radar.Models.World.{
  World, record_monitoring_event, MonitoringComponent, MonitoringEventStatus,
}
use quota_radar.Advertising.Queries.{
  campaign_row, placement_of, occupies, occupied, change_deliveries, change_placements,
  change_targets, change_campaigns,
}
use quota_radar.Advertising.Sending.{disabled}

pub record IsSound (w : World) : Type 0 where
  pub placements : IsTable w.placements
  pub campaigns : IsKeyed w.campaigns.rows
  pub within :
      (c : ℕ) (campaign : Campaign)
      → campaign_row c w ≡ some campaign
      → occupied c w ≤ campaign.total_posts

-- The delivery's placement, if it has one, occupies its slot.
pub record IsHeld (k : ℕ) (w : World) : Type 0 where
  pub sound : IsSound w
  pub occupying :
      (pk : ℕ) (p : Placement) → placement_of k w ≡ some (pk, p) → is_released p.status ≡ false

-- A state with the same campaigns and placements.
IsSound-same :
    (w v : World) → v.placements ≡ w.placements → v.campaigns ≡ w.campaigns → IsSound w → IsSound v
unfolding campaign_row occupied
IsSound-same w v ep ec h = record {
  placements = rw ep h.placements;
  campaigns = rw ec h.campaigns;
  within = λ c campaign. rw (ep, ec) (h.within c campaign);
}

IsHeld-same :
    (k : ℕ) (w v : World)
    → v.placements ≡ w.placements
    → v.campaigns ≡ w.campaigns
    → IsHeld k w
    → IsHeld k v
unfolding placement_of
IsHeld-same k w v ep ec h = record {
  sound = IsSound-same w v ep ec h.sound;
  occupying = λ pk p. rw ep (h.occupying pk p);
}

module _ (f : World → World) (ep : (w : World) → (f w).placements ≡ w.placements)
    (ec : (w : World) → (f w).campaigns ≡ w.campaigns) where
  pub IsSound-elsewhere : Keeps IsSound (modify f)
  IsSound-elsewhere = Keeps-modify f (λ w h. IsSound-same w (f w) (ep w) (ec w) h)

  pub IsHeld-elsewhere : (k : ℕ) → Keeps (IsHeld k) (modify f)
  IsHeld-elsewhere k = Keeps-modify f (λ w h. IsHeld-same k w (f w) (ep w) (ec w) h)

-- A change of placements by which no slot becomes occupied.
pub IsSound-placements :
    (g : ℕ → Placement → Placement)
    → ((c j : ℕ) (p : Placement) → occupies c (g j p) ≡ true → occupies c p ≡ true)
    → Keeps IsSound (change_placements g)
unfolding change_placements campaign_row occupied change
IsSound-placements g fewer = Keeps-modify _ λ w h. record {
  placements = change-IsTable g h.placements;
  campaigns = h.campaigns;
  within = λ c campaign e.
      omega
        (arith, h.within c campaign e, count-adjust-le (occupies c) g w.placements.rows (fewer c));
}

-- A change of one placement that occupies its slot before and after.
pub at_pk-IsSound :
    (pk : ℕ) (f : Placement → Placement) (p : Placement) (w : World)
    → find pk w.placements.rows ≡ some p
    → ((c : ℕ) → occupies c (f p) ≡ occupies c p)
    → IsSound w
    → IsSound (record w { placements = change (at_pk pk f) w.placements })
unfolding campaign_row occupied change
at_pk-IsSound pk f p w e same h = record {
  placements = unfold change in change-IsTable (at_pk pk f) h.placements;
  campaigns = h.campaigns;
  within = λ c campaign at_c. omega (
    arith,
    h.within c campaign at_c,
    count-at_pk (occupies c) pk f w.placements.rows {a = p} h.placements.keyed e (same c),
  );
}

disable-campaign :
    (c k : ℕ) (o : Option Campaign) {campaign : Campaign}
    → Option.map (at_pk k disabled c) o ≡ some campaign
    → (old : Campaign) × (o ≡ some old) × (old.total_posts ≡ campaign.total_posts)
disable-campaign c k none e = cc
disable-campaign c k (some old) e = (old, refl, ground arith)

-- Switching a campaign off leaves its size.
pub IsSound-disabled : (k : ℕ) → Keeps IsSound (change_campaigns (at_pk k disabled))
unfolding change_campaigns campaign_row occupied change
IsSound-disabled k = Keeps-modify _ λ w h. record {
  placements = h.placements;
  campaigns = adjust-IsKeyed (at_pk k disabled) w.campaigns.rows h.campaigns;
  within = λ c campaign e.
      let (old, found, size) =
        disable-campaign c k (find c w.campaigns.rows) (rw find-adjust at e) in
      omega (arith, h.within c old found, size);
}

-- The writes to other tables.
pub IsSound-deliveries : (g : ℕ → Delivery → Delivery) → Keeps IsSound (change_deliveries g)
unfolding change_deliveries
IsSound-deliveries g = IsSound-elsewhere _ (λ w. refl) (λ w. refl)

pub IsHeld-deliveries :
    (k : ℕ) (g : ℕ → Delivery → Delivery) → Keeps (IsHeld k) (change_deliveries g)
unfolding change_deliveries
IsHeld-deliveries k g = IsHeld-elsewhere _ (λ w. refl) (λ w. refl) k

pub IsSound-targets : (g : ℕ → DeliveryTarget → DeliveryTarget) → Keeps IsSound (change_targets g)
unfolding change_targets
IsSound-targets g = IsSound-elsewhere _ (λ w. refl) (λ w. refl)

pub IsSound-recorded :
    (c : MonitoringComponent) (s : MonitoringEventStatus) (o : Option ℕ) (e : String)
    → Keeps IsSound (record_monitoring_event c s o e)
unfolding record_monitoring_event
IsSound-recorded c s o e = IsSound-elsewhere _ (λ w. refl) (λ w. refl)
