-- ===== src/Advertising/Slots.antt =====
-- The operations on placements, and what campaigns have bought (apps/advertising/services.py).
use mathlib.Core.Option
use quota_radar.Prelude.{
  ℕ, String, ◌≡◌, refl, ap, ◌∙◌, Bool, true, false, Option, none, some, arith, leb, ◌==◌,
  Bool-cases, inl, inr,
}
use quota_radar.Table.{find, at_pk, change, find-first, first-adjust}
use quota_radar.Table.Keys.{change-IsTable, count-at_pk-le, count-at_pk}
use quota_radar.Action.{pure, ◌>>=◌, ◌>>◌}
use quota_radar.Action.Keeps.{Keeps, Keeps-gets-bind, keeps_rules}
use quota_radar.Action.Gives.{
  Gives, Post, Gives-keeps, Gives-pure, Gives-if, Gives-from, Gives-modify, Gives-atomic,
  Gives-bind, Gives-gets-bind, Gives-found-bind, state_after,
}
use quota_radar.Models.Advertising.{Campaign, Placement, PlacementStatus, is_released, is_published}
use quota_radar.Models.World.{World}
use quota_radar.Advertising.Queries.{
  campaign_row, placement_of, of_delivery, occupies, occupied, change_placements, lock_target,
  with_status, set_status,
}
use quota_radar.Advertising.Reservation.{take_slot, reserve_again, reserve}
use quota_radar.Advertising.Sending.{
  published, confirm, confirm_placement, claim, claim_by_status, begin_send, mark_uncertain,
  if_held,
}
use quota_radar.Advertising.Capacity.{
  IsSound-deliveries, IsSound-recorded, IsSound, IsHeld, IsSound-placements, IsSound-disabled,
  at_pk-IsSound,
}

-- A sound state in which this is what the query for the delivery's placement finds.
pub record Finds (k : ℕ) (o : Option (ℕ × Placement)) (w : World) : Type 0 where
  pub sound : IsSound w
  pub here : placement_of k w ≡ o

-- The same where the placement found occupies its slot.
pub record FindsHeld (k pk : ℕ) (p : Placement) (w : World) : Type 0 where
  pub finds : Finds k (some (pk, p)) w
  pub occupying : is_released p.status ≡ false

-- The row that a query for a delivery's placement finds.
pub placement_row :
    (k : ℕ) (w : World) {pk : ℕ} {p : Placement}
    → IsSound w
    → placement_of k w ≡ some (pk, p)
    → find pk w.placements.rows ≡ some p
unfolding placement_of
placement_row k w h e = find-first (of_delivery k) w.placements.rows h.placements.keyed e

-- A placement that is published keeps its slot, if it had one.
published_slot :
    (now c : ℕ) (p : Placement)
    → is_released p.status ≡ false
    → occupies c (published now p) ≡ occupies c p
published_slot now c p e = ground arith

publishing :
    (now k pk : ℕ) (p : Placement)
    → Gives (FindsHeld k pk p) (λ _. IsSound) IsSound (change_placements (at_pk pk (published now)))
unfolding change_placements
publishing now k pk p = Gives-modify _ λ w h.
    at_pk-IsSound pk (published now) p w (placement_row k w h.finds.sound h.finds.here)
      (λ c. published_slot now c p h.occupying) h.finds.sound

IsSound-confirm :
    (now k pk : ℕ) (p : Placement)
    → Gives (FindsHeld k pk p) (λ _. IsSound) IsSound (confirm now (some (pk, p)))
unfolding confirm
IsSound-confirm now k pk p =
    Gives-if (is_published p.status) (λ e. Gives-pure tt (λ w h. h.finds.sound))
      (λ e.
        Gives-bind (publishing now k pk p)
          (λ _. Gives-keeps (search (keeps_rules, IsSound-disabled) depth 12)))

confirm_found :
    (now k : ℕ) (w : World)
    → IsHeld k w
    → (o : Option (ℕ × Placement)) → placement_of k w ≡ o
    → Post (λ _. IsSound) IsSound (confirm now o w)
unfolding confirm ◌>>=◌
confirm_found now k w h none e = h.sound
confirm_found now k w h (some (pk, p)) e =
    (IsSound-confirm now k pk p).at w
      (record { finds = record { sound = h.sound; here = e }; occupying = h.occupying pk p e })

-- A confirmed request publishes a placement that kept its slot.
pub IsSound-confirm_placement :
    (now k : ℕ) → Gives (IsHeld k) (λ _. IsSound) IsSound (confirm_placement now k)
unfolding confirm_placement
IsSound-confirm_placement now k =
    Gives-gets-bind _ _ (λ w h. confirm_found now k w h (placement_of k w) refl)

-- What is true of a claim's result.
pub record Claimed (k : ℕ) (b : Bool) (w : World) : Type 0 where
  pub sound : IsSound w
  pub held : b ≡ true → IsHeld k w

sending_slot :
    (c : ℕ) (p : Placement)
    → is_released p.status ≡ false
    → occupies c (with_status PlacementStatus.sending p) ≡ occupies c p
sending_slot c p e = ground arith

-- After the claim the query finds the placement in its new status.
sending_now :
    (k pk : ℕ) (p : Placement) (w : World)
    → FindsHeld k pk p w
    → placement_of k (record w {
      placements = change (at_pk pk (with_status PlacementStatus.sending)) w.placements;
    })
      ≡ some (pk, with_status PlacementStatus.sending p)
unfolding placement_of change
sending_now k pk p w h =
    first-adjust (of_delivery k) (at_pk pk (with_status PlacementStatus.sending)) w.placements.rows
      (λ j a. ground arith)
    ∙ ap
        (Option.map
          (λ (r : ℕ × Placement). (r.0, at_pk pk (with_status PlacementStatus.sending) r.0 r.1)))
        h.finds.here
    ∙ ground arith

IsSound-set_sending :
    (k pk : ℕ) (p : Placement)
    → Gives (FindsHeld k pk p) (λ _. IsHeld k) IsSound (set_status pk PlacementStatus.sending)
unfolding change_placements
IsSound-set_sending k pk p = Gives-modify _ λ w h. record {
  sound =
      at_pk-IsSound pk (with_status PlacementStatus.sending) p w
        (placement_row k w h.finds.sound h.finds.here) (λ c. sending_slot c p h.occupying)
        h.finds.sound;
  occupying = λ pk' p' e. let now = sending_now k pk p w h in ground arith;
}

IsSound-doubted : (k : ℕ) → Keeps IsSound (change_placements (if_held k PlacementStatus.uncertain))
IsSound-doubted k = IsSound-placements _ (λ c j p e. ground arith)

IsSound-mark_uncertain : (k : ℕ) (error : String) → Keeps IsSound (mark_uncertain k error)
unfolding mark_uncertain lock_target
IsSound-mark_uncertain k error =
    search (keeps_rules, IsSound-doubted, IsSound-deliveries, IsSound-recorded) depth 14

refused :
    (k pk : ℕ) (p : Placement) (error : String)
    → Gives (Finds k (some (pk, p))) (Claimed k) IsSound (mark_uncertain k error >> pure false)
refused k pk p error =
    Gives-bind (Gives-from (λ w h. h.sound) (Gives-keeps (IsSound-mark_uncertain k error)))
      (λ _. Gives-pure false (λ w h. record { sound = h; held = λ e. cc }))

IsSound-claim_by_status :
    (k pk : ℕ) (p : Placement) (s : PlacementStatus)
    → p.status ≡ s
    → Gives (Finds k (some (pk, p))) (Claimed k) IsSound (claim_by_status k pk s)
unfolding claim_by_status
IsSound-claim_by_status k pk p PlacementStatus.reserved e =
    Gives-bind
      (Gives-from (λ w h. record { finds = h; occupying = simp e refl })
        (IsSound-set_sending k pk p))
      (λ _. Gives-pure true (λ w h. record { sound = h.sound; held = λ _. h }))
IsSound-claim_by_status k pk p PlacementStatus.sending e = refused k pk p _
IsSound-claim_by_status k pk p PlacementStatus.uncertain e = refused k pk p _
IsSound-claim_by_status k pk p _ e =
    Gives-pure false (λ w h. record { sound = h.sound; held = λ e'. cc })

claim_found :
    (k : ℕ) (w : World)
    → IsSound w
    → (o : Option (ℕ × Placement)) → placement_of k w ≡ o
    → Post (Claimed k) IsSound (claim k o w)
unfolding claim ◌>>=◌
claim_found k w h none e = record {
  sound = h;
  held = λ _. record { sound = h; occupying = λ pk p e'. cc };
}
claim_found k w h (some (pk, p)) e =
    (IsSound-claim_by_status k pk p p.status refl).at w (record { sound = h; here = e })

-- A placement that was claimed for a request occupies its slot.
pub IsSound-begin_send : (k : ℕ) → Gives IsSound (Claimed k) IsSound (begin_send k)
unfolding begin_send lock_target
IsSound-begin_send k =
    Gives-atomic (λ w h. h)
      (Gives-bind (Gives-keeps (search keeps_rules depth 12))
        (λ _. Gives-gets-bind _ _ (λ w h. claim_found k w h (placement_of k w) refl)))

-- The placement that took a slot again, in a campaign that had one left.
retaken :
    (pk : ℕ) (p : Placement) (campaign : Campaign) (w : World)
    → IsSound w
    → campaign_row p.campaign w ≡ some campaign
    → find pk w.placements.rows ≡ some p
    → leb campaign.total_posts (occupied p.campaign w) ≡ false
    → IsSound (record w {
      placements = change (at_pk pk (with_status PlacementStatus.reserved)) w.placements;
    })
unfolding occupied change campaign_row
retaken pk p campaign w h e row free = record {
  placements = unfold change in change-IsTable (at_pk pk _) h.placements;
  campaigns = h.campaigns;
  within = λ c other at_c. elim (Bool-cases (p.campaign == c)) [
    | inl same ↦ ground (
      arith,
      count-at_pk-le (occupies c) pk (with_status PlacementStatus.reserved) w.placements.rows
          h.placements.keyed,
    )
    | inr differs ↦ omega (
      arith,
      h.within c other at_c,
      count-at_pk (occupies c) pk (with_status PlacementStatus.reserved) w.placements.rows {a = p}
          h.placements.keyed row (ground arith),
    )
  ];
}

IsSound-take_slot :
    (k pk : ℕ) (p : Placement)
    → Gives (Finds k (some (pk, p))) (λ _. IsSound) IsSound (take_slot pk p.campaign)
unfolding take_slot ◌>>=◌ change_placements
IsSound-take_slot k pk p =
    Gives-found-bind (campaign_row p.campaign) _ (λ w h. h.sound)
      λ w campaign h e. elim (Bool-cases (leb campaign.total_posts (occupied p.campaign w))) [
        | inl full ↦ simp full h.sound
        | inr free ↦
            simp free (retaken pk p campaign w h.sound e (placement_row k w h.sound h.here) free)
      ]

reserve_found :
    (k : ℕ) (w : World)
    → IsSound w
    → (o : Option (ℕ × Placement)) → placement_of k w ≡ o
    → IsSound (reserve_again o w).1
unfolding reserve_again pure
reserve_found k w h none e = h
reserve_found k w h (some (pk, p)) e = elim (Bool-cases (is_released p.status)) [
  | inl yes_released ↦
      simp yes_released (state_after (IsSound-take_slot k pk p) w (record { sound = h; here = e }))
  | inr held ↦ simp held h
]

-- A released placement takes a slot again only where its campaign has one left.
pub IsSound-reserve : (k : ℕ) → Keeps IsSound (reserve k)
unfolding reserve
IsSound-reserve k = Keeps-gets-bind _ _ (λ w h. reserve_found k w h (placement_of k w) refl)
