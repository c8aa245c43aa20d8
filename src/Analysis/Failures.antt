-- ===== src/Analysis/Failures.antt =====
-- What becomes of a post whose analysis fails (apps/analysis/failures.py, fallback.py,
-- possible_reset.py, availability.py). Log lines and the texts of the journal are not modelled.
use Prim.Native.String.{◌++◌ as ◌<>◌}
use quota_radar.Text.{strip, rstrip}
use quota_radar.Text.Lines.{chars, take_chars}
use quota_radar.Prelude.{
  ℕ, String, Bool, true, false, ◌&&◌, not, Option, none, some, ltb, leb, if◌then◌else◌, length,
}
use quota_radar.Json.{Json}
use quota_radar.Action.{Exn, pure, raise, gets, modify, ◌>>=◌, ◌>>◌}
use quota_radar.Models.Sources.{Source, SourcePost}
use quota_radar.Models.Analysis.{is_successful, is_true}
use quota_radar.Models.Telegram.{DeliveryTarget}
use quota_radar.Models.World.{
  MonitoringComponent, MonitoringEventStatus, Message, Do, record_monitoring_event,
}
use quota_radar.Dispatch.{Broker, with_message}
use quota_radar.Telegram.Fanout.{queue_analysis_deliveries}
use quota_radar.Telegram.Retry.{retry_countdown}
use quota_radar.Analysis.Saving.{
  PersistedAnalysis, save_reset_warning_analysis, save_fallback_analysis, save_failed_analysis,
}
use quota_radar.Analysis.Signals.{agent_name, mentions_reset}
use quota_radar.Analysis.Quality.{Advice, record_llm_failure}

pub record AnalysisRun : Type 0 where
  pub acquired : Bool
  pub redis : Bool
  pub now : ℕ
  pub retries : ℕ
  pub advice : Advice

-- The key of the analysis, whether it is relevant, and how many deliveries were queued.
pub data AnalysisOutcome : Type 0 where
  missing disabled locked : AnalysisOutcome
  already_analyzed analyzed : ℕ → Bool → ℕ → AnalysisOutcome
  possible_reset fallback : ℕ → ℕ → AnalysisOutcome
  failed : ℕ → AnalysisOutcome

abbrev fallback_threshold : ℕ
fallback_threshold = 2

abbrev pub ai_event : MonitoringEventStatus → String → SourcePost → Do (Unit {0})
ai_event status error_type post =
    record_monitoring_event MonitoringComponent.ai status (some post.source) error_type

abbrev exn_type : Exn → String
exn_type (Exn.llm_error temporary message kind raw) = kind
exn_type (Exn.prompt_error message) = "PromptConfigurationError"
exn_type (Exn.suspicious_irrelevance_error message raw) = "SuspiciousIrrelevanceError"
exn_type _ = "AnalysisQualityError"

-- `str(exc)`
abbrev pub exn_text : Exn → String
exn_text (Exn.llm_error temporary message kind raw) = message
exn_text (Exn.prompt_error message) = message
exn_text (Exn.quality_error message) = message
exn_text _ = ""

-- `failure_result`
abbrev pub failure_result : PersistedAnalysis → AnalysisOutcome
failure_result r =
    if is_successful r.analysis
    then AnalysisOutcome.already_analyzed r.key (is_true r.analysis.is_relevant) 0
    else AnalysisOutcome.failed r.key

-- `quote_author`
unfoldable pub quote_author : String → String
unfolding strip take_chars chars
quote_author text =
    let quoted = strip text in
    let short =
      if ltb 1000 (chars quoted) then rstrip (take_chars 1000 quoted) <> "…" else quoted in
    "«" <> (short <> "»")

abbrev name_or_none : Option String → String
name_or_none none = "None"
name_or_none (some name) = name

abbrev queued_of : AnalysisOutcome → ℕ
queued_of (AnalysisOutcome.already_analyzed key relevant n) = n
queued_of (AnalysisOutcome.analyzed key relevant n) = n
queued_of (AnalysisOutcome.possible_reset key n) = n
queued_of (AnalysisOutcome.fallback key n) = n
queued_of _ = 0

module _ (broker : Broker) (before : ℕ × DeliveryTarget → ℕ × DeliveryTarget → Bool)
    (run : AnalysisRun) where
  -- The number of deliveries that a relevant analysis gets.
  unfoldable pub fan_out_relevant : ℕ → Bool → Do ℕ
  fan_out_relevant key relevant =
      if relevant
      then (queue_analysis_deliveries broker before run.now key >>= λ ids. pure (length ids))
      else pure 0

  unfoldable pub permanent_failure : ℕ → SourcePost → Exn → Option Json → Do AnalysisOutcome
  permanent_failure id post e raw = do
    analysis ← save_failed_analysis run.now id (exn_text e) raw
    ai_event MonitoringEventStatus.error (exn_type e) post
    pure (failure_result analysis)

  -- `task.retry(...)`
  unfoldable pub schedule_analysis_retry : ℕ → SourcePost → Exn → Do AnalysisOutcome
  schedule_analysis_retry id post e = do
    ai_event MonitoringEventStatus.error (exn_type e) post
    modify (with_message (Message.analyze_post id))
    raise (Exn.retry (retry_countdown run.retries))

  unfoldable pub retry_or_fail_analysis : ℕ → SourcePost → Exn → Option Json → Do AnalysisOutcome
  retry_or_fail_analysis id post e raw = do
    configuration ← gets (λ w. w.configuration)
    if ltb run.retries configuration.retry_count
        then schedule_analysis_retry id post e
        else permanent_failure id post e raw

  unfoldable pub deliver_possible_reset : ℕ → Source → SourcePost → Exn → Json → Do AnalysisOutcome
  deliver_possible_reset id source post e raw = do
    analysis ←
        save_reset_warning_analysis run.now id
          (name_or_none (agent_name source.provider) <> ": ВОЗМОЖНЫЙ СБРОС КВОТ")
          (quote_author post.text) false (some raw)
    queued ← fan_out_relevant analysis.key true
    ai_event MonitoringEventStatus.error (exn_type e) post
    pure (AnalysisOutcome.possible_reset analysis.key queued)

  unfoldable pub warn_without_llm : ℕ → SourcePost → String → Do (Option AnalysisOutcome)
  warn_without_llm id post agent = do
    analysis ← save_fallback_analysis run.now id (agent <> ": возможный сброс лимитов")
    if not analysis.analysis.is_fallback then pure none else do
      queued ← fan_out_relevant analysis.key true
      ai_event MonitoringEventStatus.error "LlmUnavailableFallback" post
      pure (some (AnalysisOutcome.fallback analysis.key queued))

  abbrev pub warn_as : ℕ → SourcePost → Option String → Do (Option AnalysisOutcome)
  warn_as id post none = pure none
  warn_as id post (some agent) =
      if mentions_reset run.advice.reading post.text
      then warn_without_llm id post agent
      else pure none

  -- `deliver_without_llm`, with `llm_unavailable`
  unfoldable pub deliver_without_llm : ℕ → Source → SourcePost → Do (Option AnalysisOutcome)
  deliver_without_llm id source post = do
    unavailable ← gets (λ w. run.redis && leb fallback_threshold w.llm_failures)
    if unavailable then warn_as id post (agent_name source.provider) else pure none

  abbrev pub after_fallback : Do AnalysisOutcome → Option AnalysisOutcome → Do AnalysisOutcome
  after_fallback otherwise none = otherwise
  after_fallback otherwise (some outcome) = pure outcome

  -- The `except` clauses; `raw` is the answer that was being checked.
  unfoldable pub analysis_failed : ℕ → Source → SourcePost → Option Json → Exn → Do AnalysisOutcome
  analysis_failed id source post raw (Exn.suspicious_irrelevance_error message trail) =
      deliver_possible_reset id source post (Exn.suspicious_irrelevance_error message trail) trail
  analysis_failed id source post raw (Exn.llm_error temporary message kind answer) = do
    record_llm_failure run.redis
    warned ← deliver_without_llm id source post
    let e = Exn.llm_error temporary message kind answer
    after_fallback
        (if temporary
          then retry_or_fail_analysis id post e answer
          else permanent_failure id post e answer)
        warned
  analysis_failed id source post raw (Exn.quality_error message) =
      retry_or_fail_analysis id post (Exn.quality_error message) raw
  analysis_failed id source post raw (Exn.prompt_error message) =
      permanent_failure id post (Exn.prompt_error message) none
  analysis_failed id source post raw e = raise e
