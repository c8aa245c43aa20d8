-- ===== src/Advertising/Offers.antt =====
-- New placements, and what their campaigns have left (apps/advertising/services.py).
use quota_radar.Prelude.{
  ℕ, ◌<◌, String, ◌≡◌, refl, Option, none, some, arith, ltb, ◌==◌, Bool-cases, inl, inr,
}
use quota_radar.Json.{Json}
use quota_radar.Table.{first, create, find-first}
use quota_radar.Table.Keys.{create-IsTable, count-create}
use quota_radar.Action.{Result, ok, raised, ◌>>=◌}
use quota_radar.Action.Keeps.{Keeps, Keeps-gets-bind, keeps_rules}
use quota_radar.Action.Gives.{
  Gives, Gives-kept, Gives-pure, Gives-raise, Gives-modify, Gives-bind, state_after,
}
use quota_radar.Models.Telegram.{Delivery, DeliveryTarget}
use quota_radar.Models.Advertising.{Campaign, Placement}
use quota_radar.Models.World.{World}
use quota_radar.Advertising.Formatting.{Rendered}
use quota_radar.Advertising.Queries.{campaign_row, occupies, occupied, lift, lock_target}
use quota_radar.Advertising.Reservation.{
  insert_placement, create_placement, new_placement, advertise, offer, attach, serves, freeze,
  prepare_delivery,
}
use quota_radar.Advertising.Capacity.{IsSound, IsSound-deliveries}
use quota_radar.Advertising.Slots.{IsSound-reserve}

-- A sound state in which the campaign has a slot left.
pub record HasRoom (c : ℕ) (w : World) : Type 0 where
  pub sound : IsSound w
  pub room :
      (campaign : Campaign) → campaign_row c w ≡ some campaign → occupied c w < campaign.total_posts

placed :
    (c k : ℕ) (w : World)
    → HasRoom c w
    → IsSound (record w { placements = create (new_placement c k) w.placements })
unfolding campaign_row occupied
placed c k w h = record {
  placements = create-IsTable (new_placement c k) h.sound.placements;
  campaigns = h.sound.campaigns;
  within = λ c' campaign e.
      let counted = count-create (occupies c') (new_placement c k) w.placements in
      elim (Bool-cases (c == c')) [
        | inl same ↦ ground (arith, h.room campaign, counted)
        | inr differs ↦ ground (arith, h.sound.within c' campaign e, counted)
      ];
}

IsSound-insert_placement :
    (c k : ℕ) (o : Option (ℕ × Placement))
    → Gives (HasRoom c) (λ _. IsSound) IsSound (insert_placement c k o)
unfolding insert_placement
IsSound-insert_placement c k (some p) = Gives-raise _ (λ w h. h.sound)
IsSound-insert_placement c k none = Gives-modify _ (placed c k)

keeps-lift : {c : ℕ} {A : Type 0} (r : Result A) → Keeps (HasRoom c) (lift r)
keeps-lift (ok a) = search keeps_rules
keeps-lift (raised e) = search keeps_rules

IsSound-create_placement :
    (c k : ℕ) → Gives (HasRoom c) (λ _. IsSound) IsSound (create_placement c k)
unfolding create_placement
IsSound-create_placement c k =
    Gives-bind (Gives-kept (λ w h. h.sound) (search keeps_rules)) (IsSound-insert_placement c k)

module _ (render_markup : String → Json → Rendered) where
  IsSound-advertise :
      (k : ℕ) (d : Delivery) (post : String) (c : ℕ) (campaign : Campaign)
      → Gives (HasRoom c) (λ _. IsSound) IsSound (advertise render_markup k d post (c, campaign))
  unfolding advertise
  IsSound-advertise k d post c campaign =
      Gives-bind (Gives-kept (λ w h. h.sound) (search keeps_rules)) λ url.
        Gives-bind (Gives-kept (λ w h. h.sound) (keeps-lift _))
          λ copy. Gives-bind (IsSound-create_placement c k) λ _. Gives-pure copy (λ w h. h)

  offer_found :
      (k t : ℕ) (d : Delivery) (post : String) (w : World)
      → IsSound w
      → (o : Option (ℕ × Campaign)) → first (serves t) w.campaigns.rows ≡ o
      → IsSound (offer render_markup k d post o w).1
  unfolding offer ◌>>=◌ campaign_row
  offer_found k t d post w h none e = h
  offer_found k t d post w h (some (c, campaign)) e =
      elim (Bool-cases (ltb (occupied c w) campaign.total_posts)) [
        | inl free ↦ simp free (
            state_after (IsSound-advertise k d post c campaign) w (record {
              sound = h;
              room = λ other e'.
                  let row = find-first (serves t) w.campaigns.rows h.campaigns e in ground arith;
            }))
        | inr full ↦ simp full h
      ]

  IsSound-attach :
      (k t : ℕ) (target : DeliveryTarget) (d : Delivery) (post : String)
      → Keeps IsSound (attach render_markup k t target d post)
  unfolding attach
  IsSound-attach k t target d post =
      let offering =
        Keeps-gets-bind {P = IsSound} (λ (w : World). first (serves t) w.campaigns.rows)
          (offer render_markup k d post)
          (λ w h. offer_found k t d post w h (first (serves t) w.campaigns.rows) refl) in
      search (keeps_rules, offering) depth 12

  IsSound-freeze :
      (k : ℕ) (t : ℕ × DeliveryTarget) (post : String)
      → Keeps IsSound (freeze render_markup k t post)
  unfolding freeze
  IsSound-freeze k (t, target) post =
      search (keeps_rules, IsSound-reserve, IsSound-attach, IsSound-deliveries) depth 16

  -- Freezing a delivery's request, with or without a new placement, never puts more placements into
  -- a campaign than it has bought; also where it raises.
  pub IsSound-prepare_delivery :
      (k : ℕ) (post : String) → Keeps IsSound (prepare_delivery render_markup k post)
  unfolding prepare_delivery lock_target
  IsSound-prepare_delivery k post = search (keeps_rules, IsSound-freeze) depth 16
