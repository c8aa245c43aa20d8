-- ===== src/Monitoring/Backfill.antt =====
-- The import of posts that are older than the stored ones (apps/monitoring/backfill.py,
-- backfill_tasks.py).
use quota_radar.Text.Integer.{isdigit, numeral, text_lt}
use quota_radar.Text.Decimal.{show}
use quota_radar.Prelude.{
  ℕ, ◌-◌, min, String, Bool, ◌&&◌, ◌||◌, not, Option, none, some, List, [], ◌∷◌, ltb, leb, ◌==◌,
  if◌then◌else◌, nonempty, length, contains,
}
use quota_radar.Table.{find}
use quota_radar.Table.Order.{order_by}
use quota_radar.Action.{
  XApiError, Exn, Result, pure, raise, gets, found, atomic, attempt, ◌>>=◌, ◌>>◌, ok, raised,
}
use quota_radar.Models.Sources.{Source, SourcePost}
use quota_radar.Models.World.{SystemConfiguration, MonitoringEventStatus, Message, World, Do}
use quota_radar.Dispatch.{Broker, DispatchResult}
use quota_radar.Advertising.Queries.{lift}
use quota_radar.Monitoring.Routing.{accepts_quota}
use quota_radar.Monitoring.Dispatch.{is_received, enqueue_posts_for_analysis}
use quota_radar.Monitoring.XApi.{response_error}
use quota_radar.Monitoring.XTimeline.{XTimelinePage, Window, iter_user_posts}
use quota_radar.Monitoring.Preparation.{Outside, Prepared, prepare_source_posts}
use quota_radar.Monitoring.Ingestion.{persist_source_posts, external_id_of, posts_of}
use quota_radar.Monitoring.Resolution.{resolve_source_user_ids}
use quota_radar.Monitoring.Polling.{
  PollRun, error_type_of, countdown_of, x_event, retry_x_task, with_client,
}

pub record BackfillResult : Type 0 where
  pub source_id : ℕ
  pub pages : ℕ
  pub created_posts : ℕ
  pub existing_posts : ℕ
  pub ignored_retweets : ℕ
  pub created_post_ids : List ℕ
  pub history_cursor : String

pub data BackfillOutcome : Type 0 where
  missing disabled locked unresolved error unavailable : BackfillOutcome
  imported : BackfillResult → DispatchResult → BackfillOutcome

-- `order_by("published_at", "external_id")`
abbrev pub earlier_post : ℕ × SourcePost → ℕ × SourcePost → Bool
earlier_post (k, p) (j, q) =
    ltb p.published_at q.published_at
    || (p.published_at == q.published_at && text_lt p.external_id q.external_id)

abbrev cursor_or : Option String → String → String
cursor_or none default = default
cursor_or (some s) default = if nonempty s then s else default

-- `_resolve_history_cursor`
unfoldable pub resolve_history_cursor : ℕ → Source → World → Result String
resolve_history_cursor id source w =
    let oldest = external_id_of (order_by earlier_post (posts_of id w)) in
    let cursor = cursor_or oldest source.last_post_id in
    if nonempty cursor
    then ok cursor
    else raised (
        Exn.backfill_unavailable_error
          "Historical import requires at least one stored post or source cursor.")

abbrev below_cursor : Option ℕ → Result String
below_cursor none = raised (Exn.value_error "invalid literal for int() with base 10")
below_cursor (some n) =
    if leb n 1
    then raised (Exn.backfill_unavailable_error "No older X Post ID can be requested.")
    else ok (show (n - 1))

-- `_exclusive_upper_bound`
unfoldable pub exclusive_upper_bound : String → Result String
unfolding isdigit numeral show
exclusive_upper_bound cursor =
    if isdigit cursor
    then below_cursor (numeral cursor)
    else response_error "Stored X Post history cursor is invalid."

abbrev pub history_window : SystemConfiguration → String → Window
history_window configuration until_id = record {
  since_id = none;
  until_id = some until_id;
  max_results = min configuration.historical_backfill_post_limit 100;
  max_pages = none;
  max_total_results = some configuration.historical_backfill_post_limit;
}

module _ (outside : Outside) (broker : Broker) (run : PollRun) where
  unfoldable pub store_history : ℕ → String → List XTimelinePage → Prepared → Do BackfillResult
  store_history id history_cursor pages prepared = do
    persistence ←
        atomic do row ← found (λ w. find id w.sources.rows); persist_source_posts id prepared.posts
    pure (record {
      source_id = id;
      pages = length pages;
      created_posts = persistence.created_posts;
      existing_posts = persistence.existing_posts;
      ignored_retweets = prepared.ignored_retweets;
      created_post_ids = persistence.created_post_ids;
      history_cursor = history_cursor;
    })

  unfoldable pub ingest_source_history : ℕ → Source → Do BackfillResult
  ingest_source_history id source =
      if not (nonempty source.x_user_id)
      then raise (Exn.value_error "Source X User ID is required before historical import.")
      else do
        cursor ← gets (resolve_history_cursor id source)
        history_cursor ← lift cursor
        until_id ← lift (exclusive_upper_bound history_cursor)
        configuration ← gets (λ w. w.configuration)
        pages ← lift (
            iter_user_posts outside.serve outside.fuel source.x_user_id
              (history_window configuration until_id))
        prepared ← lift (prepare_source_posts outside source pages)
        store_history id history_cursor pages prepared

  unfoldable pub backfill_resolved : ℕ → Do BackfillOutcome
  backfill_resolved id = do
    source ← found (λ w. find id w.sources.rows)
    result ← ingest_source_history id source
    dispatch ← enqueue_posts_for_analysis broker run.now is_received result.created_post_ids
    x_event MonitoringEventStatus.success "" id
    pure (BackfillOutcome.imported result dispatch)

  unfoldable pub backfill_unresolved : ℕ → Do BackfillOutcome
  backfill_unresolved id = do
    x_event MonitoringEventStatus.error "XUserResolutionError" id
    pure BackfillOutcome.unresolved

  unfoldable pub backfill_with_client : ℕ → Source → Do BackfillOutcome
  backfill_with_client id source = if nonempty source.x_user_id then backfill_resolved id else do
    resolution ← resolve_source_user_ids outside run.now ((id, source) ∷ [])
    if contains resolution.unresolved_source_ids id
        then backfill_unresolved id
        else backfill_resolved id

  unfoldable pub backfill_x_failed : ℕ → XApiError → String → Do BackfillOutcome
  backfill_x_failed id kind text = elim (countdown_of run kind) [
    | none ↦ do
      x_event MonitoringEventStatus.error (error_type_of kind) id
      pure BackfillOutcome.error
    | some countdown ↦ retry_x_task run (Message.backfill_source id) kind text countdown (id ∷ [])
  ]

  unfoldable pub backfill_failed : ℕ → Exn → Do BackfillOutcome
  backfill_failed id (Exn.backfill_unavailable_error message) = do
    x_event MonitoringEventStatus.error "BackfillUnavailableError" id
    pure BackfillOutcome.unavailable
  backfill_failed id (Exn.x_api_error kind text) = backfill_x_failed id kind text
  backfill_failed id e = raise e

  abbrev pub backfill_found : ℕ → Option Source → Do BackfillOutcome
  backfill_found id none = pure BackfillOutcome.missing
  backfill_found id (some source) = do
    accepted ← gets (accepts_quota id)
    if not accepted
        then pure BackfillOutcome.disabled
        else if run.acquired
        then attempt (with_client run (backfill_with_client id source)) (backfill_failed id)
        else pure BackfillOutcome.locked

  unfoldable pub backfill_source : ℕ → Do BackfillOutcome
  backfill_source id = do source ← gets (λ w. find id w.sources.rows); backfill_found id source
