-- ===== src/Monitoring/DispatchCounts.antt =====
-- What dispatching posts does: its counts, and the posts that it does not touch.
use mathlib.Core.Option
use native.Mathlib.Decide.{ℕ_discrete}
use quota_radar.Prelude.{
  ℕ, String, ◌≡◌, ◌≢◌, refl, sym, ap, ◌∙◌, Bool, true, false, Option, some, List, arith, length,
  unique, Bool-cases, inl, inr, All-implies,
}
use quota_radar.Table.{find, change, at_pk, IsKeyed, find-adjust}
use quota_radar.Table.Order.{query-le, query-holds}
use quota_radar.Action.{ok, pure, modify, ◌>>=◌}
use quota_radar.Action.Returns.{Returns, returns_rules}
use quota_radar.Action.Keeps.{
  Keeps, Keeps-modify, Keeps-gets-bind, Keeps-bind, Keeps-if, keeps_rules,
}
use quota_radar.Models.Sources.{SourcePost, SourcePostProcessingStatus}
use quota_radar.Models.World.{
  World, Message, record_monitoring_event, MonitoringComponent, MonitoringEventStatus,
}
use quota_radar.Dispatch.{Broker, delay, with_message, DispatchResult, summary}
use quota_radar.Dispatch.Counts.{
  IsCounted, summary-IsCounted, each-total, Keeps-each, Returns-delay,
}
use quota_radar.Monitoring.Dispatch.{
  has_status, change_posts, queued_row, restored_row, earlier, hand_over, claim_post, dispatch_post,
  candidates, enqueue_posts_for_analysis,
}

module _ (broker : Broker) (now : ℕ) where
  Returns-hand_over : (r : ℕ × SourcePost) → Returns (hand_over broker now r)
  unfolding hand_over change_posts record_monitoring_event
  Returns-hand_over (pk, p) = search (returns_rules, Returns-delay) depth 16

  Returns-dispatch_post : (r : ℕ × SourcePost) → Returns (dispatch_post broker now r)
  unfolding dispatch_post claim_post change_posts
  Returns-dispatch_post (pk, p) = search (returns_rules, Returns-hand_over) depth 16

  pub Returns-enqueue :
      (eligible : SourcePostProcessingStatus → Bool) (ids : List ℕ)
      → Returns (enqueue_posts_for_analysis broker now eligible ids)
  unfolding enqueue_posts_for_analysis ◌>>=◌
  Returns-enqueue eligible ids = record {
    at = λ w.
        let found = candidates eligible (unique ids) w in
        let (t, v, e, counted) =
          each-total found (dispatch_post broker now) Returns-dispatch_post w in
        (summary (length (unique ids)) (length found) t, v, rw e refl);
  }

  -- Dispatching never raises, whatever the broker does, and every requested post is counted exactly
  -- once: it is queued, skipped, or could not be dispatched.
  pub dispatch-counts :
      (eligible : SourcePostProcessingStatus → Bool) (ids : List ℕ) (w : World)
      → IsKeyed w.posts.rows
      → (r : DispatchResult) × (v : World) × (enqueue_posts_for_analysis broker now eligible ids w
          ≡ (ok r, v))
        × (r.requested ≡ length (unique ids))
        × IsCounted r
  unfolding enqueue_posts_for_analysis ◌>>=◌
  dispatch-counts eligible ids w keyed =
      let found = candidates eligible (unique ids) w in
      let (t, v, e, counted) =
        each-total found (dispatch_post broker now) Returns-dispatch_post w in
      let fits =
        query-le earlier (unique ids) (λ p. eligible p.processing_status) w.posts.rows keyed in
      (
        summary (length (unique ids)) (length found) t,
        v,
        rw e refl,
        refl,
        summary-IsCounted (length (unique ids)) (length found) t fits counted,
      )

-- The post with this key is this one.
record PostStands (pk : ℕ) (p : SourcePost) (w : World) : Type 0 where
  at : find pk w.posts.rows ≡ some p

module _ {pk : ℕ} {p : SourcePost} where
  stands-elsewhere :
      (f : World → World)
      → ((w : World) → (f w).posts ≡ w.posts)
      → Keeps (PostStands pk p) (modify f)
  stands-elsewhere f e = Keeps-modify f λ w h. record { at = rw (e w) h.at }

  stands-recorded :
      (c : MonitoringComponent) (s : MonitoringEventStatus) (o : Option ℕ) (e : String)
      → Keeps (PostStands pk p) (record_monitoring_event c s o e)
  unfolding record_monitoring_event
  stands-recorded c s o e = stands-elsewhere _ (λ w. refl)

  stands-sent : (m : Message) → Keeps (PostStands pk p) (modify (with_message m))
  stands-sent m = stands-elsewhere _ (λ w. refl)

  stands-posts :
      (g : ℕ → SourcePost → SourcePost) → g pk p ≡ p → Keeps (PostStands pk p) (change_posts g)
  unfolding change_posts change
  stands-posts g e =
      Keeps-modify _ λ w h. record {
        at = find-adjust g pk w.posts.rows ∙ ap (Option.map (g pk)) h.at ∙ ap some e;
      }

  module _ (broker : Broker) (now : ℕ) where
    -- Another post's turn.
    stands-other :
        (k : ℕ) (q : SourcePost) → k ≢ pk → Keeps (PostStands pk p) (claim_post broker now (k, q))
    unfolding claim_post hand_over delay
    stands-other k q ne =
        let queues : at_pk k (queued_row now) pk p ≡ p = ground arith in
        let restores : at_pk k (restored_row q) pk p ≡ p = ground arith in
        search (keeps_rules, stands-recorded, stands-sent, stands-posts, queues, restores) depth 20

same_status :
    (p q : SourcePost)
    → has_status q.processing_status p ≡ true
    → p.processing_status ≡ q.processing_status
same_status p q e = ground arith

module _ (broker : Broker) (now : ℕ) (eligible : SourcePostProcessingStatus → Bool) {pk : ℕ}
    {p : SourcePost} (ineligible : eligible p.processing_status ≡ false) where
  -- A post with another status than the one loaded is not claimed.
  stands_self :
      (q : SourcePost)
      → eligible q.processing_status ≡ true
      → Keeps (PostStands pk p) (claim_post broker now (pk, q))
  unfolding claim_post pure
  stands_self q e = Keeps-gets-bind _ _ λ w h.
      elim (Bool-cases (has_status q.processing_status p)) [
        | inl same ↦
            let differ : true ≡ false =
              sym e ∙ ap eligible (sym (same_status p q same)) ∙ ineligible in
            cc
        | inr differs ↦ rw (h.at, differs) h
      ]

  stands-dispatch :
      (r : ℕ × SourcePost)
      → eligible (r.1.processing_status) ≡ true
      → Keeps (PostStands pk p) (dispatch_post broker now r)
  unfolding dispatch_post
  stands-dispatch (k, q) e = elim (ℕ_discrete k pk) [
    | yes same ↦
        Keeps-bind _ _ (search keeps_rules)
          λ a. Keeps-if a _ _ (λ _. (rw same (stands_self q e))) (λ _. search keeps_rules)
    | no other ↦ search (keeps_rules, stands-other broker now k q other)
  ]

module _ (broker : Broker) (now : ℕ) where
  -- A post whose status is not among those asked for keeps its row, requested or not.
  pub dispatch-keeps_ineligible :
      (eligible : SourcePostProcessingStatus → Bool) (ids : List ℕ) (pk : ℕ) {p : SourcePost}
      (w : World)
      → find pk w.posts.rows ≡ some p
      → eligible p.processing_status ≡ false
      → find pk (enqueue_posts_for_analysis broker now eligible ids w).1.posts.rows ≡ some p
  unfolding enqueue_posts_for_analysis ◌>>=◌
  dispatch-keeps_ineligible eligible ids pk {p} w e ineligible =
      let found = candidates eligible (unique ids) w in
      let body = dispatch_post broker now in
      let loop =
        Keeps-each {P = PostStands pk p}
          (λ (r : ℕ × SourcePost). eligible r.1.processing_status ≡ true) found body
          (All-implies (λ r h. ground arith) found (query-holds earlier _ w.posts.rows))
          (stands-dispatch broker now eligible ineligible) in
      let (t, v, e', _) = each-total found body (Returns-dispatch_post broker now) w in
      let same = (loop.at w (record { at = e })).at in rw e' (rw e' at same)
