-- ===== src/Analysis/TaskKeeps.antt =====
-- Successful analyses under the whole analysis task (apps/analysis/tasks.py).

use quota_radar.Prelude.{
  ℕ, String, ◌≡◌, refl, ap, ◌∙◌, ◌⊎◌, inl, inr, Bool, true, false, Option, none, some,
}
use quota_radar.Json.{Json}
use quota_radar.Table.{first}
use quota_radar.Action.{Exn, Result, ok, raised}
use quota_radar.Action.Keeps.{Keeps, Keeps-bind, keeps_rules}
use quota_radar.Models.Sources.{Source, SourcePost}
use quota_radar.Models.Analysis.{Analysis, is_successful}
use quota_radar.Models.Telegram.{DeliveryTarget}
use quota_radar.Models.World.{World, Do}
use quota_radar.Advertising.Queries.{lift}
use quota_radar.Dispatch.{Broker}
use quota_radar.Analysis.Saving.{LlmResponse, save_fallback_analysis}
use quota_radar.Analysis.SuccessStays.{Final, keeps-successful, keeps-warning, keeps-failed}
use quota_radar.Analysis.Quality.{
  Advice, record_llm_failure, record_llm_success, confirm_reset, doubt, review_answer,
  reassess_irrelevant_response,
}
use quota_radar.Analysis.Failures.{
  AnalysisRun, AnalysisOutcome, exn_text, fan_out_relevant, permanent_failure,
  schedule_analysis_retry, retry_or_fail_analysis, deliver_possible_reset, warn_without_llm,
  warn_as, deliver_without_llm, after_fallback, analysis_failed,
}
use quota_radar.Analysis.Task.{
  ask_llm, interpret, save_response, conclude_analysis, analyze_new, analyze_existing,
  analyze_locked, analyze_found, analyze_post,
}
use quota_radar.Analysis.ResultStays.{
  HasResult, keeps-rest, keeps-ai_event, keeps-post, keeps-message, keeps-queue,
}

module _ {k : ℕ} {a : Analysis} where
  keeps-lift_result : {A : Type 0} (r : Result A) → Keeps (HasResult k a) (lift r)
  keeps-lift_result (ok x) = search keeps_rules
  keeps-lift_result (raised e) = search keeps_rules

  keeps-llm_failure : (redis : Bool) → Keeps (HasResult k a) (record_llm_failure redis)
  unfolding record_llm_failure
  keeps-llm_failure true = keeps-rest _ (λ w. refl)
  keeps-llm_failure false = search keeps_rules

  keeps-llm_success : (redis : Bool) → Keeps (HasResult k a) (record_llm_success redis)
  unfolding record_llm_success
  keeps-llm_success true = keeps-rest _ (λ w. refl)
  keeps-llm_success false = search keeps_rules

  keeps-confirm_reset :
      (advice : Advice) (redis : Bool) (source : Source) (post : SourcePost) (r : LlmResponse)
      → Keeps (HasResult k a) (confirm_reset advice redis source post r)
  unfolding confirm_reset
  keeps-confirm_reset advice redis source post r = search (keeps_rules, keeps-lift_result) depth 12

  keeps-doubt :
      (advice : Advice) (redis : Bool) (source : Source) (post : SourcePost) (raw : Json) (e : Exn)
      → Keeps (HasResult k a) (doubt advice redis source post raw e)
  keeps-doubt advice redis source post raw Exn.does_not_exist = search keeps_rules
  keeps-doubt advice redis source post raw Exn.integrity_error = search keeps_rules
  keeps-doubt advice redis source post raw (Exn.value_error m) = search keeps_rules
  keeps-doubt advice redis source post raw (Exn.delivery_message_error m) = search keeps_rules
  keeps-doubt advice redis source post raw (Exn.subscription_conflict m) = search keeps_rules
  keeps-doubt advice redis source post raw (Exn.validation_error m) = search keeps_rules
  keeps-doubt advice redis source post raw (Exn.x_post_payload_error m) = search keeps_rules
  keeps-doubt advice redis source post raw (Exn.backfill_unavailable_error m) = search keeps_rules
  keeps-doubt advice redis source post raw (Exn.x_api_error x m) = search keeps_rules
  keeps-doubt advice redis source post raw Exn.broker_error = search keeps_rules
  keeps-doubt advice redis source post raw Exn.budget_exhausted = search keeps_rules
  keeps-doubt advice redis source post raw Exn.unfinished = search keeps_rules
  keeps-doubt advice redis source post raw (Exn.retry n) = search keeps_rules
  keeps-doubt advice redis source post raw (Exn.quality_error m) = search keeps_rules
  keeps-doubt advice redis source post raw (Exn.llm_error t m kind r) = search keeps_rules
  keeps-doubt advice redis source post raw (Exn.prompt_error m) = search keeps_rules
  keeps-doubt advice redis source post raw (Exn.suspicious_irrelevance_error m r) =
      search keeps_rules

  keeps-review :
      (advice : Advice) (redis : Bool) (source : Source) (post : SourcePost) (first : LlmResponse)
      (r : Result LlmResponse)
      → Keeps (HasResult k a) (review_answer advice redis source post first r)
  unfolding review_answer
  keeps-review advice redis source post first (raised Exn.does_not_exist) = search keeps_rules
  keeps-review advice redis source post first (raised Exn.integrity_error) = search keeps_rules
  keeps-review advice redis source post first (raised (Exn.value_error m)) = search keeps_rules
  keeps-review advice redis source post first (raised (Exn.delivery_message_error m)) =
      search keeps_rules
  keeps-review advice redis source post first (raised (Exn.subscription_conflict m)) =
      search keeps_rules
  keeps-review advice redis source post first (raised (Exn.validation_error m)) = search keeps_rules
  keeps-review advice redis source post first (raised (Exn.x_post_payload_error m)) =
      search keeps_rules
  keeps-review advice redis source post first (raised (Exn.backfill_unavailable_error m)) =
      search keeps_rules
  keeps-review advice redis source post first (raised (Exn.x_api_error x m)) = search keeps_rules
  keeps-review advice redis source post first (raised Exn.broker_error) = search keeps_rules
  keeps-review advice redis source post first (raised Exn.budget_exhausted) = search keeps_rules
  keeps-review advice redis source post first (raised Exn.unfinished) = search keeps_rules
  keeps-review advice redis source post first (raised (Exn.retry n)) = search keeps_rules
  keeps-review advice redis source post first (raised (Exn.quality_error m)) = search keeps_rules
  keeps-review advice redis source post first (raised (Exn.prompt_error m)) = search keeps_rules
  keeps-review advice redis source post first (raised (Exn.suspicious_irrelevance_error m r)) =
      search keeps_rules
  keeps-review advice redis source post first (raised (Exn.llm_error t m kind r)) =
      search (keeps_rules, keeps-llm_failure)
  keeps-review advice redis source post first (ok reviewed) =
      search (keeps_rules, keeps-llm_success, keeps-confirm_reset, keeps-doubt) depth 12

  keeps-reassess :
      (advice : Advice) (redis : Bool) (source : Source) (post : SourcePost) (r : LlmResponse)
      → Keeps (HasResult k a) (reassess_irrelevant_response advice redis source post r)
  unfolding reassess_irrelevant_response
  keeps-reassess advice redis source post r = search (keeps_rules, keeps-review)

module _ {k : ℕ} {a : Analysis} (final : is_successful a ≡ true) where
  -- What a save of another analysis keeps.
  keeps-Final :
      {A : Type 0} (m : Do A)
      → ((b : Analysis) → is_successful b ≡ true → Keeps (Final k b) m)
      → Keeps (HasResult k a) m
  keeps-Final m kept = record {
    at = λ w h.
        let is_final = ap is_successful h.same ∙ final in
        let after = (kept h.row is_final).at w (record { keys = h.keys; at = h.at }) in
        record { keys = after.keys; row = h.row; at = after.at; same = h.same; whole = h.whole };
  }

  module _ (broker : Broker) (before : ℕ × DeliveryTarget → ℕ × DeliveryTarget → Bool)
      (run : AnalysisRun) where
    keeps-failure :
        (id : ℕ) (post : SourcePost) (e : Exn) (raw : Option Json)
        → Keeps (HasResult k a) (permanent_failure broker before run id post e raw)
    unfolding permanent_failure
    keeps-failure id post e raw =
        Keeps-bind _ _
          (keeps-Final _ (λ b is_final. keeps-failed is_final run.now id (exn_text e) raw))
          (λ analysis. search (keeps_rules, keeps-ai_event))

    keeps-retry_or_fail_analysis :
        (id : ℕ) (post : SourcePost) (e : Exn) (raw : Option Json)
        → Keeps (HasResult k a) (retry_or_fail_analysis broker before run id post e raw)
    unfolding retry_or_fail_analysis schedule_analysis_retry
    keeps-retry_or_fail_analysis id post e raw =
        search (keeps_rules, keeps-failure, keeps-ai_event, keeps-message) depth 12

    keeps-fan_out_relevant :
        (key : ℕ) (relevant : Bool)
        → Keeps (HasResult k a) (fan_out_relevant broker before run key relevant)
    unfolding fan_out_relevant
    keeps-fan_out_relevant key relevant = search (keeps_rules, keeps-queue) depth 10

    keeps-possible_reset :
        (id : ℕ) (source : Source) (post : SourcePost) (e : Exn) (raw : Json)
        → Keeps (HasResult k a) (deliver_possible_reset broker before run id source post e raw)
    unfolding deliver_possible_reset
    keeps-possible_reset id source post e raw =
        Keeps-bind _ _ (keeps-Final _ (λ b is_final. keeps-warning is_final run.now id _ _ _ _))
          (λ analysis. search (keeps_rules, keeps-fan_out_relevant, keeps-ai_event) depth 10)

    keeps-warn_without_llm :
        (id : ℕ) (post : SourcePost) (agent : String)
        → Keeps (HasResult k a) (warn_without_llm broker before run id post agent)
    unfolding warn_without_llm save_fallback_analysis
    keeps-warn_without_llm id post agent =
        Keeps-bind _ _ (keeps-Final _ (λ b is_final. keeps-warning is_final run.now id _ _ _ _))
          (λ analysis. search (keeps_rules, keeps-fan_out_relevant, keeps-ai_event) depth 12)

    keeps-warn_as :
        (id : ℕ) (post : SourcePost) (agent : Option String)
        → Keeps (HasResult k a) (warn_as broker before run id post agent)
    keeps-warn_as id post none = search keeps_rules
    keeps-warn_as id post (some agent) = search (keeps_rules, keeps-warn_without_llm)

    keeps-deliver_without_llm :
        (id : ℕ) (source : Source) (post : SourcePost)
        → Keeps (HasResult k a) (deliver_without_llm broker before run id source post)
    unfolding deliver_without_llm
    keeps-deliver_without_llm id source post = search (keeps_rules, keeps-warn_as) depth 10

    keeps-after_fallback :
        (m : Do AnalysisOutcome) (o : Option AnalysisOutcome)
        → Keeps (HasResult k a) m
        → Keeps (HasResult k a) (after_fallback broker before run m o)
    keeps-after_fallback m none kept = kept
    keeps-after_fallback m (some o) kept = search keeps_rules

    keeps-analysis_failed :
        (id : ℕ) (source : Source) (post : SourcePost) (raw : Option Json) (e : Exn)
        → Keeps (HasResult k a) (analysis_failed broker before run id source post raw e)
    unfolding analysis_failed
    keeps-analysis_failed id source post raw (Exn.suspicious_irrelevance_error m trail) =
        keeps-possible_reset id source post _ trail
    keeps-analysis_failed id source post raw (Exn.llm_error temporary m kind answer) =
        Keeps-bind _ _ (keeps-llm_failure run.redis) λ done.
          Keeps-bind _ _ (keeps-deliver_without_llm id source post) λ warned.
            keeps-after_fallback _ warned
              (search (keeps_rules, keeps-retry_or_fail_analysis, keeps-failure))
    keeps-analysis_failed id source post raw (Exn.quality_error m) =
        keeps-retry_or_fail_analysis id post _ raw
    keeps-analysis_failed id source post raw (Exn.prompt_error m) = keeps-failure id post _ none
    keeps-analysis_failed id source post raw Exn.does_not_exist = search keeps_rules
    keeps-analysis_failed id source post raw Exn.integrity_error = search keeps_rules
    keeps-analysis_failed id source post raw (Exn.value_error m) = search keeps_rules
    keeps-analysis_failed id source post raw (Exn.delivery_message_error m) = search keeps_rules
    keeps-analysis_failed id source post raw (Exn.subscription_conflict m) = search keeps_rules
    keeps-analysis_failed id source post raw (Exn.validation_error m) = search keeps_rules
    keeps-analysis_failed id source post raw (Exn.x_post_payload_error m) = search keeps_rules
    keeps-analysis_failed id source post raw (Exn.backfill_unavailable_error m) = search keeps_rules
    keeps-analysis_failed id source post raw (Exn.x_api_error x m) = search keeps_rules
    keeps-analysis_failed id source post raw Exn.broker_error = search keeps_rules
    keeps-analysis_failed id source post raw Exn.budget_exhausted = search keeps_rules
    keeps-analysis_failed id source post raw Exn.unfinished = search keeps_rules
    keeps-analysis_failed id source post raw (Exn.retry n) = search keeps_rules

    keeps-interpret :
        (source : Source) (post : SourcePost) (series : Option LlmResponse)
        → Keeps (HasResult k a) (interpret broker before run source post series)
    unfolding interpret ask_llm
    keeps-interpret source post none =
        search (keeps_rules, keeps-lift_result, keeps-llm_success, keeps-reassess) depth 20
    keeps-interpret source post (some r) = search (keeps_rules, keeps-lift_result) depth 12

    keeps-save_response :
        (id : ℕ) (post : SourcePost) (r : LlmResponse × Option String)
        → Keeps (HasResult k a) (save_response broker before run id post r)
    unfolding save_response
    keeps-save_response id post (r, model) =
        Keeps-bind _ _ (keeps-Final _ (λ b is_final. keeps-successful is_final run.now id r model))
          (λ persisted. search (keeps_rules, keeps-fan_out_relevant, keeps-ai_event) depth 12)

    keeps-conclude_analysis :
        (id : ℕ) (post : SourcePost) (r : (LlmResponse × Option String) ⊎ AnalysisOutcome)
        → Keeps (HasResult k a) (conclude_analysis broker before run id post r)
    keeps-conclude_analysis id post (inl r) = keeps-save_response id post r
    keeps-conclude_analysis id post (inr o) = search keeps_rules

    keeps-analyze_new :
        (id : ℕ) (source : Source) (post : SourcePost)
        → Keeps (HasResult k a) (analyze_new broker before run id source post)
    unfolding analyze_new
    keeps-analyze_new id source post =
        search
          (keeps_rules, keeps-post, keeps-interpret, keeps-analysis_failed, keeps-conclude_analysis)
          depth 20

    keeps-analyze_existing :
        (id : ℕ) (source : Source) (post : SourcePost) (o : Option (ℕ × Analysis))
        → Keeps (HasResult k a) (analyze_existing broker before run id source post o)
    keeps-analyze_existing id source post none = keeps-analyze_new id source post
    keeps-analyze_existing id source post (some (key, b)) =
        search (keeps_rules, keeps-fan_out_relevant, keeps-analyze_new) depth 12

    keeps-analyze_found :
        (id : ℕ) (o : Option SourcePost)
        → Keeps (HasResult k a) (analyze_found broker before run id o)
    unfolding analyze_locked
    keeps-analyze_found id none = search keeps_rules
    keeps-analyze_found id (some post) = search (keeps_rules, keeps-analyze_existing) depth 16

-- An analysis that succeeded is final: a run of the task for any post, whatever the LLM answers and
-- however the run ends, keeps all of it but the time of its fan-out, and that too once it is there.
pub analyze_post-keeps_success :
    (broker : Broker) (before : ℕ × DeliveryTarget → ℕ × DeliveryTarget → Bool) (run : AnalysisRun)
    (id k : ℕ) (a : Analysis) (w : World)
    → is_successful a ≡ true
    → HasResult k a w
    → HasResult k a (analyze_post broker before run id w).1
unfolding analyze_post
analyze_post-keeps_success broker before run id k a w final h =
    let found = keeps-analyze_found {k = k} {a = a} final broker before run id in
    (Keeps-bind _ _ (search keeps_rules) found).at w h
