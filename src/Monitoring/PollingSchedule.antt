-- ===== src/Monitoring/PollingSchedule.antt =====
-- The periodic task that resolves missing user ids and queues one poll for each active source
-- (`poll_sources` of apps/monitoring/tasks.py).
use quota_radar.Prelude.{
  ℕ, Bool, ◌&&◌, Option, none, some, List, [], ◌∷◌, ltb, if◌then◌else◌, length, filter_by, contains,
}
use quota_radar.Table.Order.{select, order_by}
use quota_radar.Action.{Exn, pure, raise, gets, attempt, ◌>>=◌, ◌>>◌, for_each}
use quota_radar.Models.Sources.{Source}
use quota_radar.Models.World.{MonitoringEventStatus, Message, World, Do}
use quota_radar.Dispatch.{Broker, delay}
use quota_radar.Monitoring.Routing.{accepts_quota}
use quota_radar.Monitoring.Preparation.{Outside}
use quota_radar.Monitoring.Resolution.{ResolutionResult, ids, resolve_source_user_ids}
use quota_radar.Monitoring.Polling.{PollRun, x_event, with_client, x_failed, on_x_error}

pub data PollSourcesOutcome : Type 0 where
  disabled error : PollSourcesOutcome
  scheduled : ℕ → PollSourcesOutcome

abbrev by_key : ℕ × Source → ℕ × Source → Bool
by_key (k, s) (j, t) = ltb k j

-- `quota_sources(Source.objects.filter(enabled=True)).order_by("pk")`
abbrev pub active_sources : World → List (ℕ × Source)
active_sources w = order_by by_key (select (λ k s. s.enabled && accepts_quota k w) w.sources.rows)

module _ (outside : Outside) (broker : Broker) (run : PollRun) where
  -- `none` stands for the end of the task on a permanent error.
  unfoldable pub resolve_active : List (ℕ × Source) → Do (Option ResolutionResult)
  resolve_active sources =
      attempt
        (with_client run (resolve_source_user_ids outside run.now sources >>= λ r. pure (some r)))
        (on_x_error (x_failed run Message.poll_sources none (ids sources)))

  -- `poll_source.delay(...)` lets the broker's exception through.
  unfoldable pub send_poll : ℕ → Do (Unit {0})
  send_poll id = do
    accepted ← delay broker (Message.poll_source id)
    if accepted then pure tt else raise Exn.broker_error

  unfoldable pub queue_polls : ResolutionResult → List (ℕ × Source) → Do PollSourcesOutcome
  queue_polls resolution sources = do
    for_each resolution.unresolved_source_ids
        (x_event MonitoringEventStatus.error "XUserResolutionError")
    let resolved = filter_by (contains resolution.resolved_source_ids) (ids sources)
    for_each resolved send_poll
    pure (PollSourcesOutcome.scheduled (length resolved))

  abbrev pub queue_resolved : List (ℕ × Source) → Option ResolutionResult → Do PollSourcesOutcome
  queue_resolved sources none = pure PollSourcesOutcome.error
  queue_resolved sources (some resolution) = queue_polls resolution sources

  abbrev pub poll_active : List (ℕ × Source) → Do PollSourcesOutcome
  poll_active [] = pure (PollSourcesOutcome.scheduled 0)
  poll_active (r ∷ rest) = resolve_active (r ∷ rest) >>= queue_resolved (r ∷ rest)

  unfoldable pub poll_sources : Do PollSourcesOutcome
  poll_sources = do
    configuration ← gets (λ w. w.configuration)
    sources ← gets active_sources
    if configuration.monitoring_enabled
        then poll_active sources
        else pure PollSourcesOutcome.disabled
