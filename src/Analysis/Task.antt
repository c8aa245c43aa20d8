-- ===== src/Analysis/Task.antt =====
-- The analysis of one post (apps/analysis/tasks.py).
use quota_radar.Prelude.{ℕ, String, ◌⊎◌, inl, inr, Bool, not, Option, none, some, if◌then◌else◌}
use quota_radar.Json.{Json}
use quota_radar.Table.{find, at_pk, first}
use quota_radar.Action.{Result, pure, gets, found, attempt, ◌>>=◌, ◌>>◌, ok, raised}
use quota_radar.Models.Sources.{Source, SourcePost}
use quota_radar.Models.Analysis.{Analysis, is_successful, is_true}
use quota_radar.Models.Telegram.{DeliveryTarget}
use quota_radar.Models.World.{MonitoringEventStatus, Do}
use quota_radar.Advertising.Queries.{lift}
use quota_radar.Dispatch.{Broker}
use quota_radar.Monitoring.Routing.{accepts_quota}
use quota_radar.Monitoring.Dispatch.{change_posts, queued_row}
use quota_radar.Analysis.Saving.{LlmResponse, for_post, save_successful_analysis}
use quota_radar.Analysis.Signals.{series_reset_model, classify_series_reset}
use quota_radar.Analysis.Quality.{validate, record_llm_success, reassess_irrelevant_response}
use quota_radar.Analysis.Failures.{
  AnalysisRun, AnalysisOutcome, ai_event, fan_out_relevant, analysis_failed,
}

module _ (broker : Broker) (before : ℕ × DeliveryTarget → ℕ × DeliveryTarget → Bool)
    (run : AnalysisRun) where
  -- The LLM's part of the `try` block.
  unfoldable pub ask_llm : Source → SourcePost → Do (LlmResponse × Option String)
  ask_llm source post = do
    lift run.advice.prompt
    response ← lift run.advice.answer
    record_llm_success run.redis
    validate run.advice response source post
    final ← reassess_irrelevant_response run.advice run.redis source post response
    pure (final, none)

  unfoldable pub interpret :
      Source → SourcePost → Option LlmResponse → Do (LlmResponse × Option String)
  interpret source post none = ask_llm source post
  interpret source post (some response) = do
    validate run.advice response source post
    pure (response, some series_reset_model)

  -- What `raw_response` holds when a check fails.
  abbrev pub raw_checked : Option LlmResponse → Result LlmResponse → Option Json
  raw_checked (some r) answer = some r.raw_response
  raw_checked none (ok r) = some r.raw_response
  raw_checked none (raised e) = none

  unfoldable pub save_response : ℕ → SourcePost → LlmResponse × Option String → Do AnalysisOutcome
  save_response id post (response, model) = do
    persisted ← save_successful_analysis run.now id response model
    let relevant = is_true persisted.analysis.is_relevant
    queued ← fan_out_relevant broker before run persisted.key relevant
    ai_event MonitoringEventStatus.success "" post
    pure (
        if persisted.created
        then AnalysisOutcome.analyzed persisted.key relevant queued
        else AnalysisOutcome.already_analyzed persisted.key relevant queued)

  abbrev pub conclude_analysis :
      ℕ → SourcePost → (LlmResponse × Option String) ⊎ AnalysisOutcome → Do AnalysisOutcome
  conclude_analysis id post (inl response) = save_response id post response
  conclude_analysis id post (inr outcome) = pure outcome

  unfoldable pub analyze_new : ℕ → Source → SourcePost → Do AnalysisOutcome
  analyze_new id source post = do
    change_posts (at_pk id (queued_row run.now))
    let series = classify_series_reset run.advice.reading source post
    reached ← attempt (interpret source post series >>= λ r. pure (inl r)) (λ e.
        analysis_failed broker before run id source post (raw_checked series run.advice.answer) e
        >>= λ o. pure (inr o))
    conclude_analysis id post reached

  abbrev pub analyze_existing : ℕ → Source → SourcePost → Option (ℕ × Analysis) → Do AnalysisOutcome
  analyze_existing id source post none = analyze_new id source post
  analyze_existing id source post (some (key, a)) =
      if is_successful a
      then (fan_out_relevant broker before run key (is_true a.is_relevant) >>= λ queued.
          pure (AnalysisOutcome.already_analyzed key (is_true a.is_relevant) queued))
      else analyze_new id source post

  -- `_analyze_locked`
  unfoldable pub analyze_locked : ℕ → Source → SourcePost → Do AnalysisOutcome
  analyze_locked id source post = do
    existing ← gets (λ w. first (for_post id) w.analyses.rows)
    analyze_existing id source post existing

  abbrev pub analyze_found : ℕ → Option SourcePost → Do AnalysisOutcome
  analyze_found id none = pure AnalysisOutcome.missing
  analyze_found id (some post) = do
    source ← found (λ w. find post.source w.sources.rows)
    accepted ← gets (accepts_quota post.source)
    if not accepted
        then pure AnalysisOutcome.disabled
        else if run.acquired
        then analyze_locked id source post
        else pure AnalysisOutcome.locked

  unfoldable pub analyze_post : ℕ → Do AnalysisOutcome
  analyze_post id = do post ← gets (λ w. find id w.posts.rows); analyze_found id post
