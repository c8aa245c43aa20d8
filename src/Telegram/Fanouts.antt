-- ===== src/Telegram/Fanouts.antt =====
-- What the fan-out promises: a delivery for every subscribed target.
use mathlib.Core.Option
use quota_radar.Prelude.{
  ℕ, ◌≡◌, refl, ap, ◌∙◌, Bool, true, false, is_some, Option, none, some, List, [], ◌∷◌, ◌++◌, arith,
  All,
}
use quota_radar.Table.{Rows, find, first, create, change, adjust, at_pk, first-adjust}
use quota_radar.Table.Order.{select, order_by, query-All}
use quota_radar.Action.{ok, atomic, modify, ◌>>=◌}
use quota_radar.Action.Keeps.{Keeps, Keeps-modify, Keeps-bind, Keeps-pure, keeps_rules}
use quota_radar.Action.Returns.{Returns, Returns-bind, Returns-gets, returns_rules}
use quota_radar.Models.Telegram.{Delivery, DeliveryTarget}
use quota_radar.Models.Analysis.{Analysis, is_true}
use quota_radar.Models.Sources.{SourcePost}
use quota_radar.Telegram.Freshness.{stale}
use quota_radar.Models.World.{World, Message}
use quota_radar.Advertising.Queries.{change_deliveries}
use quota_radar.Telegram.Loading.{for_pair}
use quota_radar.Dispatch.{Broker, delay, with_message}
use quota_radar.Telegram.Fanout.{
  new_delivery, create_delivery, get_or_create, create_deliveries, and_key, unqueued_row,
  subscribed, complete_fanout, completed_row, dispatch_delivery, dispatch_deliveries, fan_out,
  queue_locked, queue_analysis_deliveries, analysis_row, post_row,
}

-- The analysis has a delivery for the target.
pub record HasDelivery (analysis target : ℕ) (w : World) : Type 0 where
  pub at : is_some (first (for_pair analysis target) w.deliveries.rows) ≡ true

some-map : {A B : Type 0} (f : A → B) (o : Option A) → is_some (Option.map f o) ≡ is_some o
some-map f none = refl
some-map f (some a) = refl

still-first :
    (p : Delivery → Bool) (j : ℕ) (d : Delivery) (rs : Rows Delivery)
    → is_some (first p rs) ≡ true
    → is_some (first p (rs ++ ((j, d) ∷ []))) ≡ true
unfolding first
still-first p j d [] e = cc
still-first p j d ((k, b) ∷ rs) e = ground (arith, still-first p j d rs)

now-first :
    (p : Delivery → Bool) (j : ℕ) (d : Delivery) (rs : Rows Delivery)
    → p d ≡ true
    → is_some (first p (rs ++ ((j, d) ∷ []))) ≡ true
unfolding first
now-first p j d [] e = ground arith
now-first p j d ((k, b) ∷ rs) e = ground (arith, now-first p j d rs)

module _ {a t : ℕ} where
  keeps-create :
      (d : Delivery)
      → Keeps (HasDelivery a t) (modify (λ w. record w { deliveries = create d w.deliveries }))
  unfolding create
  keeps-create d =
      Keeps-modify _
        λ w h. record { at = still-first (for_pair a t) w.deliveries.next d w.deliveries.rows h.at }

  keeps-create_delivery :
      (now analysis target : ℕ) (o : Option (ℕ × Delivery))
      → Keeps (HasDelivery a t) (create_delivery now analysis target o)
  unfolding create_delivery
  keeps-create_delivery now analysis target none = search (keeps_rules, keeps-create) depth 12
  keeps-create_delivery now analysis target (some d) = search keeps_rules

  keeps-get_or_create :
      (now analysis target : ℕ) → Keeps (HasDelivery a t) (get_or_create now analysis target)
  unfolding get_or_create
  keeps-get_or_create now analysis target = search (keeps_rules, keeps-create_delivery) depth 12

  keeps-create_deliveries :
      (now analysis : ℕ) (targets : List (ℕ × DeliveryTarget))
      → Keeps (HasDelivery a t) (create_deliveries now analysis targets)
  unfolding create_deliveries
  keeps-create_deliveries now analysis [] = Keeps-pure _
  keeps-create_deliveries now analysis ((k, row) ∷ targets) =
      Keeps-bind _ _ (keeps-get_or_create now analysis k)
        λ c. Keeps-bind _ _ (keeps-create_deliveries now analysis targets) (λ r. Keeps-pure _)

created : (now a t : ℕ) (w : World) → HasDelivery a t (get_or_create now a t w).1
unfolding get_or_create create_delivery create ◌>>=◌
created now a t w = by_existing (first (for_pair a t) w.deliveries.rows) refl
  where
    by_existing :
        (o : Option (ℕ × Delivery))
        → first (for_pair a t) w.deliveries.rows ≡ o
        → HasDelivery a t (create_delivery now a t o w).1
    by_existing none e = record {
      at =
          now-first (for_pair a t) w.deliveries.next (new_delivery now a t) w.deliveries.rows
            (ground arith);
    }
    by_existing (some d) e = record { at = ap is_some e }

Returns-create_delivery :
    (now a t : ℕ) (o : Option (ℕ × Delivery)) → Returns (create_delivery now a t o)
unfolding create_delivery
Returns-create_delivery now a t none = search returns_rules depth 12
Returns-create_delivery now a t (some d) = search returns_rules

Returns-get_or_create : (now a t : ℕ) → Returns (get_or_create now a t)
unfolding get_or_create
Returns-get_or_create now a t = Returns-bind _ _ (Returns-gets _) (Returns-create_delivery now a t)

create_deliveries-HasDelivery :
    (now a : ℕ) (targets : List (ℕ × DeliveryTarget)) (w : World)
    → (ks : List ℕ) × (v : World) × (create_deliveries now a targets w ≡ (ok ks, v))
      × All (λ (r : ℕ × DeliveryTarget). HasDelivery a r.0 v) targets
unfolding create_deliveries ◌>>=◌
create_deliveries-HasDelivery now a [] w = ([], w, refl, tt)
create_deliveries-HasDelivery now a ((t, row) ∷ targets) w =
    let (c, u, e) = (Returns-get_or_create now a t).at w in
    let (ks, v, e', rest) = create_deliveries-HasDelivery now a targets u in
    let here : HasDelivery a t u = rw e at (created now a t w) in
    let still : HasDelivery a t v = rw e' at ((keeps-create_deliveries now a targets).at u here) in
    (and_key c ks, v, rw e (rw e' refl), (still, rest))

-- Dispatch changes no delivery's pair.
keeps-dispatch :
    (broker : Broker) (before : ℕ × DeliveryTarget → ℕ × DeliveryTarget → Bool) {a t : ℕ}
    (ids : List ℕ)
    → Keeps (HasDelivery a t) (dispatch_deliveries broker before ids)
unfolding dispatch_deliveries dispatch_delivery delay change_deliveries change
keeps-dispatch broker before {a} {t} ids =
    let sent = λ (m : Message).
      Keeps-modify {P = HasDelivery a t} (with_message m) (λ w h. record { at = h.at }) in
    let noted = λ (k : ℕ).
      Keeps-modify {P = HasDelivery a t}
        (λ (w : World). record w {
          deliveries = record w.deliveries {
            rows = adjust (at_pk k unqueued_row) w.deliveries.rows;
          };
        })
        (λ w h. record {
          at =
              ap is_some (
                first-adjust (for_pair a t) (at_pk k unqueued_row) w.deliveries.rows
                  (λ j d. ground arith))
              ∙ some-map _ (first (for_pair a t) w.deliveries.rows)
              ∙ h.at;
        }) in
    search (keeps_rules, sent, noted) depth 20

module _ (broker : Broker) (before : ℕ × DeliveryTarget → ℕ × DeliveryTarget → Bool) where
  fan_out-HasDelivery :
      (now id target : ℕ) {row : DeliveryTarget} (w : World)
      → find target w.targets.rows ≡ some row
      → subscribed target row ≡ true
      → (ks : List ℕ) × (v : World) × (fan_out broker before now id w ≡ (ok ks, v))
        × HasDelivery id target v
  unfolding fan_out complete_fanout ◌>>=◌
  fan_out-HasDelivery now id target {row} w et on =
      let targets = order_by before (select subscribed w.targets.rows) in
      let (ks, v, e, all) = create_deliveries-HasDelivery now id targets w in
      let here =
        query-All (λ (r : ℕ × DeliveryTarget). HasDelivery id r.0 v) before subscribed
          w.targets.rows target row all et on in
      (
        ks,
        record v { analyses = change (at_pk id (completed_row now)) v.analyses },
        rw e refl,
        record { at = here.at },
      )

  fresh_analysis :
      (now id : ℕ) {analysis : Analysis} {post : SourcePost} (w : World)
      → analysis_row id w ≡ some analysis
      → post_row analysis.source_post w ≡ some post
      → is_true analysis.is_relevant ≡ true
      → is_some analysis.delivery_fanout_completed_at ≡ false
      → stale post.published_at now ≡ false
      → queue_locked broker before now id w ≡ fan_out broker before now id w
  unfolding queue_locked ◌>>=◌
  fresh_analysis now id w ea ep relevant fresh young = simp (ea, ep, relevant, fresh, young) refl

  -- After the fan-out of a fresh relevant analysis that had none, the analysis has a delivery for every
  -- enabled target of the quota feed, whatever the broker accepts.
  pub fanout-delivers :
      (now id target : ℕ) {analysis : Analysis} {post : SourcePost} {row : DeliveryTarget}
      (w : World)
      → analysis_row id w ≡ some analysis
      → post_row analysis.source_post w ≡ some post
      → is_true analysis.is_relevant ≡ true
      → is_some analysis.delivery_fanout_completed_at ≡ false
      → stale post.published_at now ≡ false
      → find target w.targets.rows ≡ some row
      → subscribed target row ≡ true
      → HasDelivery id target (queue_analysis_deliveries broker before now id w).1
  unfolding queue_analysis_deliveries atomic ◌>>=◌
  fanout-delivers now id target w ea ep relevant fresh young et on =
      let (ks, v, e, here) = fan_out-HasDelivery now id target w et on in
      let inner = fresh_analysis now id w ea ep relevant fresh young ∙ e in
      rw inner ((Keeps-bind _ _ (keeps-dispatch broker before ks) (λ _. Keeps-pure ks)).at v here)
