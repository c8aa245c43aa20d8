-- ===== src/Telegram/Fanout.antt =====
-- A relevant analysis becomes one delivery for every target (apps/telegram/services.py,
-- `queue_analysis_deliveries`).
use quota_radar.Prelude.{
  ℕ, Bool, ◌&&◌, ◌||◌, not, is_some, Option, none, some, List, [], ◌∷◌, ltb, ◌==◌, contains,
  if◌then◌else◌,
}
use quota_radar.Table.{find, first, create, change, at_pk}
use quota_radar.Table.Order.{select, order_by}
use quota_radar.Action.{pure, gets, found, atomic, modify, for_each, ◌>>=◌, ◌>>◌}
use quota_radar.Models.Sources.{SourcePost, is_quota}
use quota_radar.Models.Analysis.{Analysis, is_true}
use quota_radar.Models.Telegram.{Delivery, DeliveryStatus, DeliveryTarget, is_pending}
use quota_radar.Models.World.{
  World, Do, Message, MonitoringComponent, MonitoringEventStatus, record_monitoring_event,
}
use quota_radar.Advertising.Queries.{change_deliveries}
use quota_radar.Telegram.Freshness.{stale}
use quota_radar.Telegram.Loading.{for_pair}
use quota_radar.Dispatch.{Broker, delay}

abbrev pub analysis_row : ℕ → World → Option Analysis
analysis_row id w = find id w.analyses.rows

abbrev pub post_row : ℕ → World → Option SourcePost
post_row id w = find id w.posts.rows

abbrev pub completed_row : ℕ → Analysis → Analysis
completed_row now a = record a { delivery_fanout_completed_at = some now }

unfoldable pub complete_fanout : ℕ → ℕ → Do (Unit {0})
complete_fanout now id =
    modify (λ w. record w { analyses = change (at_pk id (completed_row now)) w.analyses })

abbrev pub new_delivery : ℕ → ℕ → ℕ → Delivery
new_delivery now analysis target = record {
  analysis = analysis;
  target = target;
  status = DeliveryStatus.pending;
  telegram_message_id = "";
  attempts = 0;
  created_at = now;
  last_attempt_at = none;
  next_attempt_at = none;
  sent_at = none;
  last_error = "";
  rendered_text = "";
  message_entities = [];
}

-- `Delivery.objects.get_or_create(...)`: the key of a delivery that it created.
unfoldable pub create_delivery : ℕ → ℕ → ℕ → Option (ℕ × Delivery) → Do (Option ℕ)
create_delivery now analysis target (some _) = pure none
create_delivery now analysis target none = do
  pk ← gets (λ w. w.deliveries.next)
  modify (λ w. record w { deliveries = create (new_delivery now analysis target) w.deliveries })
  pure (some pk)

unfoldable pub get_or_create : ℕ → ℕ → ℕ → Do (Option ℕ)
get_or_create now analysis target = do
  existing ← gets (λ w. first (for_pair analysis target) w.deliveries.rows)
  create_delivery now analysis target existing

abbrev pub and_key : Option ℕ → List ℕ → List ℕ
and_key none ks = ks
and_key (some k) ks = k ∷ ks

unfoldable pub create_deliveries : ℕ → ℕ → List (ℕ × DeliveryTarget) → Do (List ℕ)
create_deliveries now analysis [] = pure []
create_deliveries now analysis ((target, row) ∷ targets) = do
  created ← get_or_create now analysis target
  rest ← create_deliveries now analysis targets
  pure (and_key created rest)

-- `DeliveryTarget.objects.filter(enabled=True, feed=Feed.QUOTA)`
abbrev pub subscribed : ℕ → DeliveryTarget → Bool
subscribed k t = t.enabled && is_quota t.feed

-- `ordering = ("-created_at", "-pk")`
abbrev pub newer : ℕ × Delivery → ℕ × Delivery → Bool
newer (k, d) (j, e) = ltb e.created_at d.created_at || (d.created_at == e.created_at && ltb j k)

abbrev pub unqueued_row : Delivery → Delivery
unqueued_row d =
    if is_pending d.status
    then record d { last_error = "Delivery task could not be queued." }
    else d

-- The order of the targets is the database's collation of their texts.
module _ (broker : Broker) (before : ℕ × DeliveryTarget → ℕ × DeliveryTarget → Bool) where
  unfoldable pub dispatch_delivery : ℕ × Delivery → Do (Unit {0})
  dispatch_delivery (id, d) = do
    accepted ← delay broker (Message.deliver_analysis d.analysis d.target)
    if accepted then pure tt else change_deliveries (at_pk id unqueued_row)

  unfoldable pub dispatch_deliveries : List ℕ → Do (Unit {0})
  dispatch_deliveries delivery_ids = do
    deliveries ← gets (λ w.
        order_by newer
          (select (λ k d. contains delivery_ids k && is_pending d.status) w.deliveries.rows))
    for_each deliveries dispatch_delivery

  -- The deliveries of an analysis whose post is fresh.
  unfoldable pub fan_out : ℕ → ℕ → Do (List ℕ)
  fan_out now analysis_id = do
    targets ← gets (λ w. order_by before (select subscribed w.targets.rows))
    queued_ids ← create_deliveries now analysis_id targets
    complete_fanout now analysis_id
    pure queued_ids

  unfoldable pub skip_stale : ℕ → ℕ → SourcePost → Do (List ℕ)
  skip_stale now analysis_id post = do
    complete_fanout now analysis_id
    record_monitoring_event MonitoringComponent.telegram MonitoringEventStatus.success
        (some post.source) ""
    pure []

  unfoldable pub queue_locked : ℕ → ℕ → Do (List ℕ)
  queue_locked now analysis_id = do
    analysis ← found (analysis_row analysis_id)
    post ← found (post_row analysis.source_post)
    if not (is_true analysis.is_relevant) || is_some analysis.delivery_fanout_completed_at
        then pure []
        else if stale post.published_at now
        then skip_stale now analysis_id post
        else fan_out now analysis_id

  -- The broker gets the new deliveries after the commit.
  unfoldable pub queue_analysis_deliveries : ℕ → ℕ → Do (List ℕ)
  queue_analysis_deliveries now analysis_id = do
    delivery_ids ← atomic (queue_locked now analysis_id)
    dispatch_deliveries delivery_ids
    pure delivery_ids
