-- ===== src/Telegram/RequeueCounts.antt =====
-- What requeuing does: its counts, and what a broker that refuses leaves.

use quota_radar.Prelude.{
  ℕ, ◌≤◌, ◌≡◌, refl, ap, ◌∙◌, false, ◌&&◌, some, List, length, unique, holds, Bool-cases, inl, inr,
}
use quota_radar.Table.{Table, find, change, at_pk, IsKeyed}
use quota_radar.Table.Keys.{adjust-undone}
use quota_radar.Table.Order.{query-le, query-found}
use quota_radar.Action.{ok, ◌>>=◌}
use quota_radar.Action.Returns.{Returns, returns_rules}
use quota_radar.Models.Telegram.{Delivery, is_failed}
use quota_radar.Models.World.{World, Message, record_monitoring_event}
use quota_radar.Advertising.Queries.{change_deliveries}
use quota_radar.Dispatch.{Broker, delay, DispatchResult, summary}
use quota_radar.Dispatch.Counts.{
  IsCounted, summary-IsCounted, each-total, Keeps-each, Returns-delay,
}
use quota_radar.Telegram.Requeue.{
  reset_row, returned_row, failed_of, joined, by_key, hand_over_delivery, requeue_delivery,
  requeue_failed_deliveries,
}

module _ (broker : Broker) where
  Returns-hand_over : (r : ℕ × Delivery) → Returns (hand_over_delivery broker r)
  unfolding hand_over_delivery change_deliveries record_monitoring_event
  Returns-hand_over (pk, d) = search (returns_rules, Returns-delay) depth 16

  Returns-requeue_delivery : (r : ℕ × Delivery) → Returns (requeue_delivery broker r)
  unfolding requeue_delivery change_deliveries
  Returns-requeue_delivery (pk, d) = search (returns_rules, Returns-hand_over) depth 16

  failed_of-le :
      (ids : List ℕ) (w : World) → IsKeyed w.deliveries.rows → length (failed_of ids w) ≤ length ids
  failed_of-le ids w keyed =
      query-le by_key ids (λ d. is_failed d.status && joined w d) w.deliveries.rows keyed

  -- Requeuing never raises, whatever the broker does, and every requested delivery is counted exactly
  -- once: it is queued, skipped, or could not be dispatched.
  pub requeue-counts :
      (ids : List ℕ) (w : World)
      → IsKeyed w.deliveries.rows
      → (r : DispatchResult) × (v : World) × (requeue_failed_deliveries broker ids w ≡ (ok r, v))
        × (r.requested ≡ length (unique ids))
        × IsCounted r
  unfolding requeue_failed_deliveries ◌>>=◌
  requeue-counts ids w keyed =
      let found = failed_of (unique ids) w in
      let (t, v, e, counted) =
        each-total found (requeue_delivery broker) (Returns-requeue_delivery) w in
      (
        summary (length (unique ids)) (length found) t,
        v,
        rw e refl,
        refl,
        summary-IsCounted (length (unique ids)) (length found) t (failed_of-le (unique ids) w keyed)
            counted,
      )

-- The row that was reset and given back is the row that it was.
returned-reset : (d : Delivery) → returned_row d (reset_row d) ≡ d
returned-reset d = refl

-- The table of deliveries is this one.
record Deliveries (t : Table Delivery) (w : World) : Type 0 where
  at : w.deliveries ≡ t

reset_and_returned :
    (pk : ℕ) (d : Delivery) (t : Table Delivery)
    → find pk t.rows ≡ some d
    → IsKeyed t.rows
    → change (at_pk pk (returned_row d)) (change (at_pk pk reset_row) t) ≡ t
unfolding change
reset_and_returned pk d t e keyed =
    ap (λ rows. record t { rows = rows })
      (adjust-undone pk reset_row (returned_row d) t.rows keyed e refl)

module _ (broker : Broker) (refuses : (m : Message) → broker.accepts m ≡ false) where
  hand_over-refused :
      (pk : ℕ) (d : Delivery) (w : World)
      → (hand_over_delivery broker (pk, d) w).1.deliveries
        ≡ change (at_pk pk (returned_row d)) w.deliveries
  unfolding hand_over_delivery delay change_deliveries record_monitoring_event ◌>>=◌
  hand_over-refused pk d w = simp (refuses (Message.deliver_analysis d.analysis d.target)) refl

  refused :
      (t : Table Delivery) (pk : ℕ) (d : Delivery) (w : World)
      → IsKeyed t.rows
      → find pk t.rows ≡ some d
      → Deliveries t w
      → Deliveries t (requeue_delivery broker (pk, d) w).1
  unfolding requeue_delivery change_deliveries ◌>>=◌
  refused t pk d w keyed e h =
      elim (Bool-cases
        (holds (λ (row : Delivery). is_failed row.status) (find pk w.deliveries.rows))) [
          | inl claimed ↦ simp claimed (record {
            at =
                hand_over-refused pk d
                  (record w { deliveries = change (at_pk pk reset_row) w.deliveries })
                ∙ ap (λ x. change (at_pk pk (returned_row d)) (change (at_pk pk reset_row) x)) h.at
                ∙ reset_and_returned pk d t e keyed;
          })
          | inr gone ↦ simp gone h
        ]

  -- A broker that refuses every message leaves every delivery as it was, failed ones included: the
  -- state before the reset comes back whole.
  pub requeue-refused :
      (ids : List ℕ) (w : World)
      → IsKeyed w.deliveries.rows
      → (requeue_failed_deliveries broker ids w).1.deliveries ≡ w.deliveries
  unfolding requeue_failed_deliveries ◌>>=◌
  requeue-refused ids w keyed =
      let body = requeue_delivery broker in
      let loop =
        Keeps-each {P = Deliveries w.deliveries}
          (λ (r : ℕ × Delivery). find r.0 w.deliveries.rows ≡ some r.1) (failed_of (unique ids) w)
          body (query-found by_key _ w.deliveries.rows keyed)
          (λ (pk, d) e. record { at = λ v h. refused w.deliveries pk d v keyed e h }) in
      let (t, v, e, _) =
        each-total (failed_of (unique ids) w) body (Returns-requeue_delivery broker) w in
      let same = (loop.at w (record { at = refl })).at in rw e (rw e at same)
