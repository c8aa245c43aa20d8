-- ===== src/Monitoring/RecoveryReturns.antt =====
-- The outcome and the counts of recovery (apps/monitoring/recovery.py).
use quota_radar.Prelude.{ℕ, ◌≡◌, refl, ◌+◌, Bool, List, [], ◌∷◌, length, arith}
use quota_radar.Table.Order.{select, order_by}
use quota_radar.Telegram.Fanout.{queue_analysis_deliveries}
use quota_radar.Action.{Exn, Result, ok, raised, pure, gets, attempt, ◌>>=◌}
use quota_radar.Action.Returns.{Returns, returns_rules}
use quota_radar.Models.Sources.{SourcePost}
use quota_radar.Models.Analysis.{Analysis}
use quota_radar.Models.Telegram.{Delivery, DeliveryTarget}
use quota_radar.Models.World.{World, Do}
use quota_radar.Advertising.Queries.{change_deliveries}
use quota_radar.Dispatch.{Broker, Verdict, each}
use quota_radar.Dispatch.Counts.{each-total, Returns-delay}
use quota_radar.Monitoring.Dispatch.{change_posts}
use quota_radar.Monitoring.Recovery.{
  RecoveryResult, unfanned, earlier_analysis, recover_fanout, recover_fanouts,
  recover_delivery_fanouts, republish_analysis, recover_analysis, recover_analyses,
  republish_delivery, recover_delivery, recover_deliveries, recover_orphaned_work,
}

-- The fan-outs of these analyses, one after the other: from the first state to the last one, this many
-- returned and this many raised an exception.
pub data Fanouts (broker : Broker) (before : ℕ × DeliveryTarget → ℕ × DeliveryTarget → Bool)
    (now : ℕ) : List (ℕ × Analysis) → World → ℕ → ℕ → World → Type 0 where
  finished : {w : World} → Fanouts broker before now [] w 0 0 w
  returned :
      {id : ℕ} {a : Analysis} {analyses : List (ℕ × Analysis)} {ids : List ℕ} {w u v : World}
      {c e : ℕ}
      → queue_analysis_deliveries broker before now id w ≡ (ok ids, u)
      → Fanouts broker before now analyses u c e v
      → Fanouts broker before now ((id, a) ∷ analyses) w (c + 1) e v
  raising :
      {id : ℕ} {a : Analysis} {analyses : List (ℕ × Analysis)} {x : Exn} {w u v : World} {c e : ℕ}
      → queue_analysis_deliveries broker before now id w ≡ (raised x, u)
      → Fanouts broker before now analyses u c e v
      → Fanouts broker before now ((id, a) ∷ analyses) w c (e + 1) v

module _ (broker : Broker) (before : ℕ × DeliveryTarget → ℕ × DeliveryTarget → Bool) (now : ℕ) where
  Fanouts-length :
      {analyses : List (ℕ × Analysis)} {w v : World} {c e : ℕ}
      → Fanouts broker before now analyses w c e v
      → c + e ≡ length analyses
  Fanouts-length finished = refl
  Fanouts-length (returned done rest) = omega (arith, Fanouts-length rest)
  Fanouts-length (raising failed rest) = omega (arith, Fanouts-length rest)

  -- The loop over the analyses, after the fan-out of the first one.
  recovered :
      (id : ℕ) (a : Analysis) (analyses : List (ℕ × Analysis)) (w : World)
      (r : Result (List ℕ) × World)
      → queue_analysis_deliveries broker before now id w ≡ r
      → ((u : World)
          → (t : ℕ × ℕ) × (v : World) × (recover_fanouts broker before now analyses u ≡ (ok t, v))
            × Fanouts broker before now analyses u t.0 t.1 v)
      → (t : ℕ × ℕ) × (v : World) × (recover_fanouts broker before now ((id, a) ∷ analyses) w
          ≡ (ok t, v))
        × Fanouts broker before now ((id, a) ∷ analyses) w t.0 t.1 v
  unfolding recover_fanouts recover_fanout attempt pure ◌>>=◌
  recovered id a analyses w (ok ids, u) e rest =
      let (t, v, e', runs) = rest u in ((t.0 + 1, t.1), v, rw e (rw e' refl), returned e runs)
  recovered id a analyses w (raised x, u) e rest =
      let (t, v, e', runs) = rest u in ((t.0, t.1 + 1), v, rw e (rw e' refl), raising e runs)

  recovered_all :
      (analyses : List (ℕ × Analysis)) (w : World)
      → (t : ℕ × ℕ) × (v : World) × (recover_fanouts broker before now analyses w ≡ (ok t, v))
        × Fanouts broker before now analyses w t.0 t.1 v
  unfolding recover_fanouts pure
  recovered_all [] w = ((0, 0), w, refl, finished)
  recovered_all ((id, a) ∷ analyses) w = recovered id a analyses w _ refl (recovered_all analyses)

  Returns-analysis : (r : ℕ × SourcePost) → Returns (recover_analysis broker before now r)
  unfolding recover_analysis republish_analysis change_posts
  Returns-analysis (id, p) = search (returns_rules, Returns-delay) depth 16

  Returns-delivery : (r : ℕ × Delivery) → Returns (recover_delivery broker before now r)
  unfolding recover_delivery republish_delivery change_deliveries
  Returns-delivery (id, d) = search (returns_rules, Returns-delay) depth 16

  Returns-each :
      {X : Type 0} (xs : List X) (body : X → Do Verdict)
      → ((x : X) → Returns (body x))
      → Returns (each xs body)
  Returns-each xs body rb = record {
    at = λ w. let (t, v, e, counted) = each-total xs body rb w in (t, v, e);
  }

  Returns-recovering_analyses : Returns (recover_analyses broker before now)
  unfolding recover_analyses
  Returns-recovering_analyses =
      let posts = λ (xs : List (ℕ × SourcePost)). Returns-each xs _ Returns-analysis in
      search (returns_rules, posts) depth 12

  Returns-recovering_deliveries : Returns (recover_deliveries broker before now)
  unfolding recover_deliveries
  Returns-recovering_deliveries =
      let deliveries = λ (xs : List (ℕ × Delivery)). Returns-each xs _ Returns-delivery in
      search (returns_rules, deliveries) depth 12

  -- Recovery ends with a result from every state. It runs the fan-outs of the analyses that had none,
  -- in their order and each one whatever became of those before it; the completed ones are those that
  -- returned, the errors those that raised, and together they are all of these analyses.
  pub recover-counts :
      (w : World)
      → (r : RecoveryResult) × (u v : World) × (recover_orphaned_work broker before now w
          ≡ (ok r, v))
        × Fanouts broker before now
            (order_by earlier_analysis (select unfanned w.analyses.rows))
            w
            r.fanouts_completed
            r.fanout_errors
            u
        × (r.fanouts_completed + r.fanout_errors
            ≡ length (order_by earlier_analysis (select unfanned w.analyses.rows)))
  unfolding recover_orphaned_work recover_delivery_fanouts ◌>>=◌ gets pure
  recover-counts w =
      let (f, w1, e1, runs) =
        recovered_all (order_by earlier_analysis (select unfanned w.analyses.rows)) w in
      let (a, w2, e2) = (Returns-recovering_analyses).at w1 in
      let (d, w3, e3) = (Returns-recovering_deliveries).at w2 in
      (
        record {
          fanouts_completed = f.0;
          analyses_queued = a.queued;
          deliveries_queued = d.queued;
          fanout_errors = f.1;
          analysis_dispatch_errors = a.dispatch_failed;
          delivery_dispatch_errors = d.dispatch_failed;
        },
        w1,
        w3,
        rw e1 (rw e2 (rw e3 refl)),
        runs,
        Fanouts-length runs,
      )
