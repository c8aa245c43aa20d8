-- ===== src/Analysis/Quality.antt =====
-- The checks of an LLM's answer (apps/analysis/quality.py), and the second opinion on a suspicious
-- refusal (apps/analysis/reassessment.py).
use quota_radar.Text.Lines.{chars}
use quota_radar.Text.Utf16.{utf16_length}
use quota_radar.Prelude.{
  ℕ, ◌+◌, String, Bool, true, false, ◌&&◌, ◌||◌, not, Option, none, some, [], ◌∷◌, ltb, ◌==◌,
  if◌then◌else◌,
}
use quota_radar.Json.{Json, Fields, dict}
use quota_radar.Action.{
  Exn, Result, and_then, pure, raise, gets, attempt, modify, ◌>>=◌, ◌>>◌, ok, raised,
}
use quota_radar.Models.Sources.{SourceProvider, Source, SourcePost}
use quota_radar.Models.Analysis.{AnalysisEventType, AnalysisProduct}
use quota_radar.Models.World.{World, Do}
use quota_radar.Advertising.Queries.{lift}
use quota_radar.Advertising.Formatting.{Rendered}
use quota_radar.Advertising.Budget.{quota_message_limit}
use quota_radar.Telegram.Formatting.{TimeZones, format_message_values}
use quota_radar.Analysis.Saving.{LlmResponse, expected_product, text_or}
use quota_radar.Analysis.Signals.{Pattern, Reading, needs_reset_review}

-- What an execution of the task is given from outside: the regular expressions, the time zones, the
-- rendering of campaigns, and the LLM's answers to the prompt and to its review.
pub record Advice : Type 0 where
  pub reading : Reading
  pub zones : TimeZones
  pub render_markup : String → Json → Rendered
  pub prompt : Result (Unit {0})
  pub answer : Result LlmResponse
  pub review : Result LlmResponse

abbrev provider_code : SourceProvider → ℕ
provider_code SourceProvider.openai = 0
provider_code SourceProvider.anthropic = 1
provider_code SourceProvider.cursor = 2
provider_code SourceProvider.google = 3

abbrev product_code : AnalysisProduct → ℕ
product_code AnalysisProduct.codex = 0
product_code AnalysisProduct.claude_code = 1

abbrev quality_error : {A : Type 0} → String → Result A
quality_error message = raised (Exn.quality_error message)

abbrev pub matches_source : LlmResponse → SourceProvider → AnalysisProduct → Bool
matches_source r provider product =
    provider_code r.provider == provider_code provider
    && product_code r.product == product_code product

-- `except DeliveryMessageError`
abbrev pub as_quality_error : Result String → Result String
as_quality_error (raised (Exn.delivery_message_error message)) = quality_error message
as_quality_error r = r

abbrev pub fits : ℕ → String → Result (Unit {0})
fits limit rendered =
    if ltb limit (utf16_length rendered)
    then quality_error "Rendered Telegram message is too long."
    else ok tt

abbrev pub is_quota_reset : Option AnalysisEventType → Bool
is_quota_reset (some AnalysisEventType.quota_reset) = true
is_quota_reset _ = false

module _ (advice : Advice) where
  abbrev pub is_russian : String → Bool
  is_russian = advice.reading.search_for Pattern.cyrillic

  abbrev pub has_link : String → Bool
  has_link = advice.reading.search_for Pattern.url

  -- A relevant answer: the title and the text, for the given limit.
  unfoldable pub validate_copy :
      String → Result ℕ → String → String → SourcePost → Result (Unit {0})
  validate_copy timezone limit title message post =
      if ltb 255 (chars title)
      then quality_error "Relevant title is too long."
      else if not (is_russian title) || not (is_russian message)
      then quality_error "Relevant title and message must be in Russian."
      else if has_link title || has_link message
      then quality_error "LLM output must not contain links."
      else and_then
          (as_quality_error (format_message_values advice.zones timezone title message post))
          λ rendered. and_then limit λ n. fits n rendered

  unfoldable pub validate_payload_for_post :
      LlmResponse → Source → SourcePost → World → Result (Unit {0})
  validate_payload_for_post r source post w = and_then (expected_product source.provider) λ product.
      if not (matches_source r source.provider product)
      then quality_error "LLM output provider or product does not match the source."
      else if r.is_relevant
      then validate_copy w.configuration.telegram_message_timezone
          (quota_message_limit advice.render_markup w) (text_or "" r.title_ru)
          (text_or "" r.message_ru) post
      else ok tt

  abbrev pub validate : LlmResponse → Source → SourcePost → Do (Unit {0})
  validate r source post = gets (validate_payload_for_post r source post) >>= lift

-- `record_llm_failure` and `record_llm_success`; `redis` tells whether the counter can be reached.
unfoldable pub record_llm_failure : Bool → Do (Unit {0})
record_llm_failure redis =
    if redis then modify (λ w. record w { llm_failures = w.llm_failures + 1 }) else pure tt

unfoldable pub record_llm_success : Bool → Do (Unit {0})
record_llm_success redis = if redis then modify (λ w. record w { llm_failures = 0 }) else pure tt

abbrev pub or_null : Option Json → Json
or_null none = Json.null
or_null (some j) = j

abbrev pub audit : Json → Json → Json
audit initial reviewed =
    dict (("initial_response", initial) ∷ ("reassessment_response", reviewed) ∷ [])

-- `{**raw_response, "irrelevance_review": audit}`
abbrev pub with_review : Json → Json → Json
with_review (Json.obj fs) a = Json.obj (Fields.field "irrelevance_review" a fs)
with_review j a = dict (("irrelevance_review", a) ∷ [])

module _ (advice : Advice) (redis : Bool) (source : Source) (post : SourcePost) where
  -- A review counts if it passes the checks and says that the quota is reset.
  unfoldable pub confirm_reset : LlmResponse → Do (Unit {0})
  confirm_reset reviewed = do
    validate advice reviewed source post
    if reviewed.is_relevant && is_quota_reset reviewed.event_type
        then pure tt
        else raise (Exn.quality_error "Повторная оценка не подтвердила quota_reset.")

  abbrev pub doubt : Json → Exn → Do (Unit {0})
  doubt raw (Exn.quality_error message) = raise (Exn.suspicious_irrelevance_error message raw)
  doubt raw e = raise e

  unfoldable pub review_answer : LlmResponse → Result LlmResponse → Do LlmResponse
  review_answer first (raised (Exn.llm_error temporary message kind raw)) = do
    record_llm_failure redis
    raise (Exn.suspicious_irrelevance_error kind (audit first.raw_response (or_null raw)))
  review_answer first (raised e) = raise e
  review_answer first (ok reviewed) = do
    record_llm_success redis
    let trail = audit first.raw_response reviewed.raw_response
    attempt (confirm_reset reviewed) (doubt trail)
    pure (record reviewed { raw_response = with_review reviewed.raw_response trail })

  unfoldable pub reassess_irrelevant_response : LlmResponse → Do LlmResponse
  reassess_irrelevant_response response =
      if response.is_relevant || not (needs_reset_review advice.reading source post)
      then pure response
      else review_answer response advice.review
