-- ===== src/Monitoring/Recovery.antt =====
-- Recovery of queued work that outlived its Celery execution window (apps/monitoring/recovery.py).
use quota_radar.Prelude.{
  ℕ, ◌+◌, Bool, true, false, ◌&&◌, ◌||◌, not, is_some, nonempty, Option, none, some, ltb, leb, ◌==◌,
  holds, List, [], ◌∷◌, if◌then◌else◌,
}
use quota_radar.Table.{find, at_pk}
use quota_radar.Table.Order.{select, order_by}
use quota_radar.Action.{pure, gets, attempt, ◌>>=◌, ◌>>◌}
use quota_radar.Models.Sources.{SourcePost, SourcePostProcessingStatus}
use quota_radar.Models.Analysis.{Analysis, is_true}
use quota_radar.Models.Telegram.{Delivery, DeliveryTarget, is_pending}
use quota_radar.Models.World.{Do, Message}
use quota_radar.Advertising.Queries.{change_deliveries}
use quota_radar.Dispatch.{Broker, delay, Verdict, Tally, each}
use quota_radar.Monitoring.Routing.{accepts_quota}
use quota_radar.Monitoring.Dispatch.{change_posts, has_status}
use quota_radar.Telegram.Fanout.{queue_analysis_deliveries}

abbrev pub analysis_stale_seconds : ℕ
analysis_stale_seconds = 1800

abbrev pub delivery_stale_seconds : ℕ
delivery_stale_seconds = 1200

-- `value is not None and value <= now - seconds`
abbrev pub elapsed : ℕ → ℕ → Option ℕ → Bool
elapsed seconds now = holds (λ value. leb (value + seconds) now)

-- Ascending, with NULL last as in PostgreSQL; `tie` decides between equal values.
abbrev pub nulls_last : Option ℕ → Option ℕ → Bool → Bool
nulls_last (some a) (some b) tie = ltb a b || (a == b && tie)
nulls_last (some a) none tie = true
nulls_last none (some b) tie = false
nulls_last none none tie = tie

abbrev pub unfanned : ℕ → Analysis → Bool
unfanned k a =
    is_true a.is_relevant
    && (not (nonempty a.error) && not (is_some a.delivery_fanout_completed_at))

abbrev pub earlier_analysis : ℕ × Analysis → ℕ × Analysis → Bool
earlier_analysis (k, a) (j, b) =
    ltb a.created_at b.created_at || (a.created_at == b.created_at && ltb k j)

-- The queued post was not started, or too long ago.
abbrev pub orphaned : ℕ → SourcePost → Bool
orphaned now p =
    has_status SourcePostProcessingStatus.queued p
    && (not (is_some p.processing_started_at)
        || elapsed analysis_stale_seconds now p.processing_started_at)

abbrev pub earlier_start : ℕ × SourcePost → ℕ × SourcePost → Bool
earlier_start (k, p) (j, q) = nulls_last p.processing_started_at q.processing_started_at (ltb k j)

abbrev pub restarted_row : ℕ → SourcePost → SourcePost
restarted_row now p = record p { processing_started_at = some now; last_error = "" }

abbrev pub unstarted_row : SourcePost → SourcePost
unstarted_row p = record p {
  processing_started_at = none;
  last_error = "Analysis recovery task could not be queued.";
}

abbrev pub forgotten : ℕ → Delivery → Bool
forgotten now d =
    is_pending d.status
    && ((not (is_some d.next_attempt_at) || elapsed 0 now d.next_attempt_at)
        && (elapsed delivery_stale_seconds now d.last_attempt_at
            || (not (is_some d.last_attempt_at)
                && leb (d.created_at + delivery_stale_seconds) now)))

abbrev pub earlier_attempt : ℕ × Delivery → ℕ × Delivery → Bool
earlier_attempt (k, d) (j, e) =
    nulls_last d.last_attempt_at e.last_attempt_at
      (ltb d.created_at e.created_at || (d.created_at == e.created_at && ltb k j))

abbrev pub unrecovered_row : Delivery → Delivery
unrecovered_row d =
    if is_pending d.status
    then record d { last_error = "Delivery recovery task could not be queued." }
    else d

pub record RecoveryResult : Type 0 where
  pub fanouts_completed : ℕ
  pub analyses_queued : ℕ
  pub deliveries_queued : ℕ
  pub fanout_errors : ℕ
  pub analysis_dispatch_errors : ℕ
  pub delivery_dispatch_errors : ℕ

-- `completed` and `errors`, with one more of the one or the other.
abbrev pub count_fanout : Bool → ℕ × ℕ → ℕ × ℕ
count_fanout true (completed, errors) = (completed + 1, errors)
count_fanout false (completed, errors) = (completed, errors + 1)

-- The times of a run are the instants at which its steps read the clock; one value stands for them.
module _ (broker : Broker) (before : ℕ × DeliveryTarget → ℕ × DeliveryTarget → Bool) (now : ℕ) where
  -- Whether the fan-out was completed; every exception is caught.
  unfoldable pub recover_fanout : ℕ → Do Bool
  recover_fanout analysis_id =
      attempt (queue_analysis_deliveries broker before now analysis_id >> pure true)
        (λ e. pure false)

  unfoldable pub recover_fanouts : List (ℕ × Analysis) → Do (ℕ × ℕ)
  recover_fanouts [] = pure (0, 0)
  recover_fanouts ((analysis_id, a) ∷ analyses) = do
    completed ← recover_fanout analysis_id
    rest ← recover_fanouts analyses
    pure (count_fanout completed rest)

  unfoldable pub recover_delivery_fanouts : Do (ℕ × ℕ)
  recover_delivery_fanouts = do
    analyses ← gets (λ w. order_by earlier_analysis (select unfanned w.analyses.rows))
    recover_fanouts analyses

  unfoldable pub republish_analysis : ℕ → Do Verdict
  republish_analysis id = do
    accepted ← delay broker (Message.analyze_post id)
    if accepted
        then pure Verdict.queued
        else do change_posts (at_pk id unstarted_row); pure Verdict.dispatch_failed

  -- The claim finds the post queued and stale still; otherwise nothing is counted.
  unfoldable pub recover_analysis : ℕ × SourcePost → Do Verdict
  recover_analysis (id, p) = do
    claimed ← gets (λ w. holds (orphaned now) (find id w.posts.rows))
    if claimed
        then (change_posts (at_pk id (restarted_row now)) >> republish_analysis id)
        else pure Verdict.skipped

  unfoldable pub recover_analyses : Do Tally
  recover_analyses = do
    posts ← gets (λ w.
        order_by earlier_start
          (select (λ k p. orphaned now p && accepts_quota p.source w) w.posts.rows))
    each posts recover_analysis

  unfoldable pub republish_delivery : ℕ × Delivery → Do Verdict
  republish_delivery (id, d) = do
    accepted ← delay broker (Message.deliver_analysis d.analysis d.target)
    if accepted
        then pure Verdict.queued
        else do change_deliveries (at_pk id unrecovered_row); pure Verdict.dispatch_failed

  unfoldable pub recover_delivery : ℕ × Delivery → Do Verdict
  recover_delivery (id, d) = do
    pending ←
        gets (λ w. holds (λ (row : Delivery). is_pending row.status) (find id w.deliveries.rows))
    if pending then republish_delivery (id, d) else pure Verdict.skipped

  unfoldable pub recover_deliveries : Do Tally
  recover_deliveries = do
    deliveries ←
        gets (λ w. order_by earlier_attempt (select (λ k d. forgotten now d) w.deliveries.rows))
    each deliveries recover_delivery

  unfoldable pub recover_orphaned_work : Do RecoveryResult
  recover_orphaned_work = do
    fanouts ← recover_delivery_fanouts
    analyses ← recover_analyses
    deliveries ← recover_deliveries
    pure (record {
      fanouts_completed = fanouts.0;
      analyses_queued = analyses.queued;
      deliveries_queued = deliveries.queued;
      fanout_errors = fanouts.1;
      analysis_dispatch_errors = analyses.dispatch_failed;
      delivery_dispatch_errors = deliveries.dispatch_failed;
    })
