-- ===== src/Monitoring/Polling.antt =====
-- The polling tasks (apps/monitoring/tasks.py) and their retries (apps/monitoring/retries.py). Log
-- lines and the texts of the journal are not modelled.
use quota_radar.Prelude.{
  ℕ, ◌+◌, ◌-◌, max, String, Bool, ◌&&◌, ◌||◌, not, Option, none, some, List, [], ◌∷◌, ltb,
  if◌then◌else◌, nonempty, contains,
}
use quota_radar.Table.{find}
use quota_radar.Text.Integer.{ℤ}
use quota_radar.Action.{
  XApiError, Exn, pure, raise, gets, found, attempt, modify, ◌>>=◌, ◌>>◌, for_each,
}
use quota_radar.Models.Sources.{Source}
use quota_radar.Models.World.{
  MonitoringComponent, MonitoringEventStatus, Message, Do, record_monitoring_event,
}
use quota_radar.Dispatch.{Broker, with_message}
use quota_radar.Telegram.Retry.{retry_countdown}
use quota_radar.Monitoring.Routing.{accepts_quota}
use quota_radar.Monitoring.Dispatch.{enqueue_pending_posts}
use quota_radar.Monitoring.Preparation.{Outside}
use quota_radar.Monitoring.Ingestion.{PollResult, ingest_source_posts, record_source_error}
use quota_radar.Monitoring.Resolution.{resolve_source_user_ids}

-- One execution of a task: whether it gets the lock of its source, whether the token and the proxy
-- are configured, the instant it reads from the clock, and how often it was retried.
pub record PollRun : Type 0 where
  pub acquired : Bool
  pub configured : Bool
  pub now : ℕ
  pub retries : ℕ

pub data PollOutcome : Type 0 where
  missing disabled locked unresolved error : PollOutcome
  polled : PollResult → ℕ → PollOutcome

abbrev pub error_type_of : XApiError → String
error_type_of XApiError.configuration = "XApiConfigurationError"
error_type_of XApiError.authentication = "XApiAuthenticationError"
error_type_of XApiError.forbidden = "XApiForbiddenError"
error_type_of XApiError.not_found = "XApiNotFoundError"
error_type_of XApiError.response = "XApiResponseError"
error_type_of XApiError.temporary = "XApiTemporaryError"
error_type_of (XApiError.rate_limit reset_at) = "XApiRateLimitError"

-- `max(self.reset_at - current + 1, 1)`
abbrev pub seconds_until : ℕ → Option ℤ → ℕ
seconds_until now none = 60
seconds_until now (some (ℤ.pos reset_at)) = max (reset_at + 1 - now) 1
seconds_until now (some (ℤ.negsuc n)) = 1

-- When to try again; `none` stands for the permanent errors.
unfoldable pub countdown_of : PollRun → XApiError → Option ℕ
countdown_of run (XApiError.rate_limit reset_at) = some (seconds_until run.now reset_at)
countdown_of run XApiError.temporary = some (retry_countdown run.retries)
countdown_of run _ = none

abbrev pub x_event : MonitoringEventStatus → String → ℕ → Do (Unit {0})
x_event status error_type id =
    record_monitoring_event MonitoringComponent.x status (some id) error_type

-- Celery's `task.retry`: the task is published again, and raises the error itself once it was
-- retried as often as it may be.
unfoldable pub task_retry : {A : Type 0} → PollRun → Message → Exn → ℕ → ℕ → Do A
task_retry run message e countdown max_retries =
    if ltb run.retries max_retries
    then (modify (with_message message) >> raise (Exn.retry countdown))
    else raise e

unfoldable pub retry_x_task :
    {A : Type 0} → PollRun → Message → XApiError → String → ℕ → List ℕ → Do A
retry_x_task run message kind text countdown source_ids = do
  for_each source_ids (x_event MonitoringEventStatus.error (error_type_of kind))
  configuration ← gets (λ w. w.configuration)
  task_retry run message (Exn.x_api_error kind text) countdown configuration.retry_count

-- `with XApiClient() as client:`
abbrev pub with_client : {A : Type 0} → PollRun → Do A → Do A
with_client run body =
    if run.configured
    then body
    else raise (
        Exn.x_api_error XApiError.configuration
          "X API access is disabled because its configuration is unavailable.")

-- The `except` clauses for X errors: permanent ones end the task, the others retry it.
unfoldable pub x_failed : {A : Type 0} → PollRun → Message → A → List ℕ → XApiError → String → Do A
x_failed run message failure source_ids kind text = elim (countdown_of run kind) [
  | none ↦ do
    record_source_error run.now source_ids text
    for_each source_ids (x_event MonitoringEventStatus.error (error_type_of kind))
    pure failure
  | some countdown ↦ do
    record_source_error run.now source_ids text
    retry_x_task run message kind text countdown source_ids
]

abbrev pub on_x_error : {A : Type 0} → (XApiError → String → Do A) → Exn → Do A
on_x_error handler (Exn.x_api_error kind text) = handler kind text
on_x_error handler e = raise e

module _ (outside : Outside) (broker : Broker) (run : PollRun) where
  unfoldable pub poll_resolved : ℕ → Do PollOutcome
  poll_resolved id = do
    source ← found (λ w. find id w.sources.rows)
    result ← ingest_source_posts outside run.now id source
    queued ← enqueue_pending_posts broker run.now id
    x_event MonitoringEventStatus.success "" id
    pure (PollOutcome.polled result queued)

  unfoldable pub give_up_unresolved : ℕ → Do PollOutcome
  give_up_unresolved id = do
    x_event MonitoringEventStatus.error "XUserResolutionError" id
    pure PollOutcome.unresolved

  -- The body of the `try` block.
  unfoldable pub poll_with_client : ℕ → Source → Do PollOutcome
  poll_with_client id source = if nonempty source.x_user_id then poll_resolved id else do
    resolution ← resolve_source_user_ids outside run.now ((id, source) ∷ [])
    if contains resolution.unresolved_source_ids id then give_up_unresolved id else poll_resolved id

  unfoldable pub poll_locked : ℕ → Source → Do PollOutcome
  poll_locked id source =
      attempt (with_client run (poll_with_client id source))
        (on_x_error (x_failed run (Message.poll_source id) PollOutcome.error (id ∷ [])))

  abbrev pub poll_found : ℕ → Option Source → Do PollOutcome
  poll_found id none = pure PollOutcome.missing
  poll_found id (some source) = do
    accepted ← gets (accepts_quota id)
    configuration ← gets (λ w. w.configuration)
    if not (source.enabled && accepted) || not configuration.monitoring_enabled
        then pure PollOutcome.disabled
        else if run.acquired
        then poll_locked id source
        else pure PollOutcome.locked

  unfoldable pub poll_source : ℕ → Do PollOutcome
  poll_source id = do source ← gets (λ w. find id w.sources.rows); poll_found id source
