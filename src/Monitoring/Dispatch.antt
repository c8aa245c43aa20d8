-- ===== src/Monitoring/Dispatch.antt =====
-- Source posts go to the analysis queue (apps/monitoring/dispatch.py).
use quota_radar.Prelude.{
  ℕ, String, Bool, ◌&&◌, ◌||◌, some, List, ltb, ◌==◌, holds, nonempty, length, contains, unique,
  if◌then◌else◌, map,
}
use quota_radar.Table.{find, change, at_pk}
use quota_radar.Table.Order.{select, order_by}
use quota_radar.Action.{pure, gets, modify, ◌>>=◌, ◌>>◌}
use quota_radar.Models.Sources.{SourcePost, SourcePostProcessingStatus}
use quota_radar.Models.World.{
  World, Do, Message, MonitoringComponent, MonitoringEventStatus, record_monitoring_event,
}
use quota_radar.Dispatch.{Broker, delay, Verdict, each, DispatchResult, summary}
use quota_radar.Monitoring.Routing.{accepts_quota}

abbrev pub status_code : SourcePostProcessingStatus → ℕ
status_code SourcePostProcessingStatus.received = 0
status_code SourcePostProcessingStatus.queued = 1
status_code SourcePostProcessingStatus.analyzed_irrelevant = 2
status_code SourcePostProcessingStatus.analyzed_relevant = 3
status_code SourcePostProcessingStatus.failed = 4

abbrev pub has_status : SourcePostProcessingStatus → SourcePost → Bool
has_status s p = status_code p.processing_status == status_code s

unfoldable pub change_posts : (ℕ → SourcePost → SourcePost) → Do (Unit {0})
change_posts g = modify (λ w. record w { posts = change g w.posts })

abbrev pub queued_row : ℕ → SourcePost → SourcePost
queued_row now p = record p {
  processing_status = SourcePostProcessingStatus.queued;
  processing_started_at = some now;
  last_error = "";
}

abbrev pub previous_error : SourcePost → String
previous_error p =
    if nonempty p.last_error then p.last_error else "Analysis task could not be queued."

-- A queued post gets its previous state back.
abbrev pub restored_row : SourcePost → SourcePost → SourcePost
restored_row previous p =
    if has_status SourcePostProcessingStatus.queued p
    then record p {
      processing_status = previous.processing_status;
      processing_started_at = previous.processing_started_at;
      last_error = previous_error previous;
    }
    else p

-- `order_by("published_at", "pk")`
abbrev pub earlier : ℕ × SourcePost → ℕ × SourcePost → Bool
earlier (k, p) (j, q) =
    ltb p.published_at q.published_at || (p.published_at == q.published_at && ltb k j)

abbrev pub candidates : (SourcePostProcessingStatus → Bool) → List ℕ → World → List (ℕ × SourcePost)
candidates eligible ids w =
    order_by earlier (select (λ k p. contains ids k && eligible p.processing_status) w.posts.rows)

abbrev pub received_of : ℕ → ℕ → SourcePost → Bool
received_of source k p = p.source == source && has_status SourcePostProcessingStatus.received p

abbrev pub is_received : SourcePostProcessingStatus → Bool
is_received s = status_code s == status_code SourcePostProcessingStatus.received

module _ (broker : Broker) (now : ℕ) where
  unfoldable pub hand_over : ℕ × SourcePost → Do Verdict
  hand_over (pk, post) = do
    accepted ← delay broker (Message.analyze_post pk)
    if accepted then pure Verdict.queued else do
      change_posts (at_pk pk (restored_row post))
      record_monitoring_event MonitoringComponent.ai MonitoringEventStatus.error (some post.source)
          broker.error_type
      pure Verdict.dispatch_failed

  -- The claim succeeds if the post still has the status that it was loaded with.
  unfoldable pub claim_post : ℕ × SourcePost → Do Verdict
  claim_post (pk, post) = do
    claimed ← gets (λ w. holds (has_status post.processing_status) (find pk w.posts.rows))
    if claimed
        then (change_posts (at_pk pk (queued_row now)) >> hand_over (pk, post))
        else pure Verdict.skipped

  unfoldable pub dispatch_post : ℕ × SourcePost → Do Verdict
  dispatch_post (pk, post) = do
    accepted ← gets (accepts_quota post.source)
    if accepted then claim_post (pk, post) else pure Verdict.skipped

  unfoldable pub enqueue_posts_for_analysis :
      (SourcePostProcessingStatus → Bool) → List ℕ → Do DispatchResult
  enqueue_posts_for_analysis eligible post_ids = do
    let requested_ids = unique post_ids
    posts ← gets (candidates eligible requested_ids)
    tally ← each posts dispatch_post
    pure (summary (length requested_ids) (length posts) tally)

  -- Every received post of the source, prior backlog included.
  unfoldable pub enqueue_pending_posts : ℕ → Do ℕ
  enqueue_pending_posts source = do
    posts ← gets (λ w. order_by earlier (select (received_of source) w.posts.rows))
    result ← enqueue_posts_for_analysis is_received (map (λ (r : ℕ × SourcePost). r.0) posts)
    pure result.queued
