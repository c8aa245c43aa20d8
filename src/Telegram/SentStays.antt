-- ===== src/Telegram/SentStays.antt =====
-- Sent deliveries under the whole task (apps/telegram/tasks.py).
use quota_radar.Prelude.{
  ℕ, String, ◌≡◌, ◌≢◌, refl, ap, sym, ◌∙◌, Option, none, some, List, arith, Bool-cases, inl, inr,
}
use mathlib.Core.Option.{some-injective}
use native.Mathlib.Decide.{ℕ_discrete}
use quota_radar.Json.{Json}
use quota_radar.Table.{at_pk, IsKeyed}
use quota_radar.Action.{◌>>=◌}
use quota_radar.Action.Keeps.{Keeps}
use quota_radar.Models.Telegram.{Delivery, DeliveryStatus, DeliveryTarget, Entity}
use quota_radar.Models.World.{World}
use quota_radar.Models.Advertising.{Placement, Campaign}
use quota_radar.Advertising.Formatting.{Rendered}
use quota_radar.Advertising.Queries.{delivery_row}
use quota_radar.Advertising.Reservation.{
  take_slot, reserve_again, reserve, insert_placement, create_placement, advertise, offer, attach,
  freeze, frozen, prepare_delivery,
}
use quota_radar.Telegram.Formatting.{TimeZones}
use quota_radar.Telegram.Loading.{Run, Loaded, load_delivery, load_delivery-row}
use quota_radar.Telegram.Task.{deliver_locked, deliver_found, deliver_existing, deliver_analysis}
use quota_radar.Telegram.Frame.{keeps-deliver_locked}
use quota_radar.Telegram.Stands.{Stands, writes, Stands-elsewhere, Stands-frame, Stands-attempt}

frozen_other :
    (id k : ℕ) (d : Delivery)
    → k ≢ id
    → (text : String) (entities : List Entity) → at_pk k (frozen text entities) id d ≡ d
frozen_other id k d ne text entities = ground arith

module _ {id : ℕ} {d : Delivery} where
  Stands-take_slot : (pk c : ℕ) → Keeps (Stands id d) (take_slot pk c)
  unfolding take_slot
  Stands-take_slot pk c = search writes depth 12

  Stands-reserve_again : (o : Option (ℕ × Placement)) → Keeps (Stands id d) (reserve_again o)
  unfolding reserve_again
  Stands-reserve_again none = search writes
  Stands-reserve_again (some (pk, p)) = search (writes, Stands-take_slot)

  Stands-reserve : (k : ℕ) → Keeps (Stands id d) (reserve k)
  unfolding reserve
  Stands-reserve k = search (writes, Stands-reserve_again)

  Stands-insert_placement :
      (c k : ℕ) (o : Option (ℕ × Placement)) → Keeps (Stands id d) (insert_placement c k o)
  unfolding insert_placement
  Stands-insert_placement c k none = Stands-elsewhere _ (λ w. refl)
  Stands-insert_placement c k (some p) = search writes

  Stands-create_placement : (c k : ℕ) → Keeps (Stands id d) (create_placement c k)
  unfolding create_placement
  Stands-create_placement c k = search (writes, Stands-insert_placement)

  module _ (render_markup : String → Json → Rendered) where
    Stands-advertise :
        (k : ℕ) (r : Delivery) (post : String) (c : ℕ × Campaign)
        → Keeps (Stands id d) (advertise render_markup k r post c)
    unfolding advertise
    Stands-advertise k r post (c, campaign) = search (writes, Stands-create_placement) depth 12

    Stands-offer :
        (k : ℕ) (r : Delivery) (post : String) (o : Option (ℕ × Campaign))
        → Keeps (Stands id d) (offer render_markup k r post o)
    unfolding offer
    Stands-offer k r post none = search writes
    Stands-offer k r post (some (c, campaign)) = search (writes, Stands-advertise) depth 12

    Stands-attach :
        (k t : ℕ) (target : DeliveryTarget) (r : Delivery) (post : String)
        → Keeps (Stands id d) (attach render_markup k t target r post)
    unfolding attach
    Stands-attach k t target r post = search (writes, Stands-offer) depth 12

    Stands-freeze :
        (k : ℕ)
        → k ≢ id
        → (t : ℕ × DeliveryTarget) (post : String)
        → Keeps (Stands id d) (freeze render_markup k t post)
    unfolding freeze
    Stands-freeze k ne (t, target) post =
        search (writes, Stands-reserve, Stands-attach, frozen_other) depth 16

    Stands-prepare_delivery :
        (k : ℕ)
        → k ≢ id
        → (post : String) → Keeps (Stands id d) (prepare_delivery render_markup k post)
    unfolding prepare_delivery
    Stands-prepare_delivery k ne post = search (writes, Stands-freeze) depth 12

module _ (render_markup : String → Json → Rendered) (zones : TimeZones) where
  module _ {id : ℕ} {d : Delivery} (sent : d.status ≡ DeliveryStatus.sent) (run : Run) where
    Stands-other :
        (l : Loaded) → l.id ≢ id → Keeps (Stands id d) (deliver_locked render_markup zones run l)
    Stands-other l ne =
        keeps-deliver_locked (Stands-frame sent) render_markup zones run l
          (Stands-prepare_delivery render_markup l.id ne) (Stands-attempt sent run l)

    -- The sent delivery itself is recognised by its status.
    Stands-self :
        (l : Loaded) → l.row ≡ d → Keeps (Stands id d) (deliver_locked render_markup zones run l)
    unfolding deliver_locked
    Stands-self l e = rw (ap (λ (r : Delivery). r.status) e ∙ sent) (search writes)

  module _ {id : ℕ} {d : Delivery} (run : Run) where
    keeps-found :
        (o : Option Loaded) (w : World)
        → ((l : Loaded) → o ≡ some l → delivery_row l.id w ≡ some l.row)
        → d.status ≡ DeliveryStatus.sent
        → Stands id d w
        → Stands id d (deliver_found render_markup zones run o w).1
    unfolding deliver_found ◌>>=◌
    keeps-found none w fresh sent h = h
    keeps-found (some l) w fresh sent h = elim (ℕ_discrete l.id id) [
      | yes e ↦
          (Stands-self sent run l
              (some-injective _ _ (sym (fresh l refl) ∙ ap (λ k. delivery_row k w) e ∙ h.at))).at
            w h
      | no ne ↦ (Stands-other sent run l ne).at w h
    ]

    keeps-existing :
        (analysis target : ℕ) (o : Option Loaded) (w : World)
        → IsKeyed w.deliveries.rows
        → d.status ≡ DeliveryStatus.sent
        → Stands id d w
        → Stands id d (deliver_existing render_markup zones run analysis target o w).1
    unfolding deliver_existing ◌>>=◌ delivery_row
    keeps-existing analysis target none w keyed sent h = h
    keeps-existing analysis target (some l) w keyed sent h = elim (Bool-cases run.acquired) [
      | inl yes_lock ↦ simp yes_lock (
          keeps-found (load_delivery analysis target w) w
            (λ l' e. load_delivery-row analysis target w keyed e) sent h)
      | inr no_lock ↦ simp no_lock h
    ]

  -- Whatever the run, the lock and Telegram's answer, the task leaves every delivery that is already
  -- sent exactly as it was, where the table has no two rows with one key.
  pub deliver_analysis-keeps_sent :
      (run : Run) (analysis target id : ℕ) {d : Delivery} (w : World)
      → IsKeyed w.deliveries.rows
      → d.status ≡ DeliveryStatus.sent
      → delivery_row id w ≡ some d
      → delivery_row id (deliver_analysis render_markup zones run analysis target w).1 ≡ some d
  unfolding deliver_analysis ◌>>=◌
  deliver_analysis-keeps_sent run analysis target id {d} w keyed sent h =
      (keeps-existing run analysis target (load_delivery analysis target w) w keyed sent
        (record { at = h })).at
