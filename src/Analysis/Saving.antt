-- ===== src/Analysis/Saving.antt =====
-- Transactional persistence for successful and failed post analyses (apps/analysis/services.py), with
-- the validation of the row (apps/analysis/models.py). Texts of the validation errors are not modelled.
use quota_radar.Prelude.{
  ℕ, String, Bool, true, false, ◌&&◌, ◌||◌, not, is_some, nonempty, Option, none, some, ◌==◌,
  if◌then◌else◌,
}
use quota_radar.Json.{Json}
use quota_radar.Text.{strip}
use quota_radar.Table.{find, first, create, change, at_pk}
use quota_radar.Action.{
  Exn, Result, ok, raised, pure, raise, gets, found, atomic, modify, ◌>>=◌, ◌>>◌,
}
use quota_radar.Models.Sources.{Source, SourceProvider, SourcePost, SourcePostProcessingStatus}
use quota_radar.Models.Analysis.{Analysis, AnalysisEventType, AnalysisProduct, is_successful}
use quota_radar.Models.World.{Do}
use quota_radar.Advertising.Queries.{lift}
use quota_radar.Monitoring.Dispatch.{change_posts}

-- `AnalysisPayload` (apps/analysis/schemas.py), with the response that it was read from.
pub record LlmResponse : Type 0 where
  pub is_relevant : Bool
  pub event_type : Option AnalysisEventType
  pub provider : SourceProvider
  pub product : AnalysisProduct
  pub title_ru : Option String
  pub message_ru : Option String
  pub raw_response : Json

-- apps/analysis/quality.py
unfoldable pub expected_product : SourceProvider → Result AnalysisProduct
expected_product SourceProvider.openai = ok AnalysisProduct.codex
expected_product SourceProvider.anthropic = ok AnalysisProduct.claude_code
expected_product _ = raised (Exn.quality_error "Source provider is not supported for analysis.")

abbrev pub for_post : ℕ → Analysis → Bool
for_post id a = a.source_post == id

-- The row before its values are set, with the defaults of the model's fields.
abbrev pub blank : ℕ → ℕ → Analysis
blank now id = record {
  source_post = id;
  is_relevant = none;
  event_type = none;
  provider = SourceProvider.openai;
  product = AnalysisProduct.codex;
  title_ru = "";
  message_ru = "";
  is_fallback = false;
  model = "";
  prompt_version = 0;
  raw_response = none;
  error = "";
  created_at = now;
  delivery_fanout_completed_at = none;
}

-- `Analysis.clean`
abbrev pub is_clean : Analysis → Bool
is_clean a = elim a.is_relevant [
  | none ↦ nonempty (strip a.error)
  | some true ↦
      is_some a.event_type
      && nonempty (strip a.title_ru)
      && (nonempty (strip a.message_ru) || a.is_fallback)
  | some false ↦
      not (is_some a.event_type || nonempty (strip a.title_ru) || nonempty (strip a.message_ru))
]

-- The analysis that a save returns, and whether it made the row.
pub record PersistedAnalysis : Type 0 where
  pub key : ℕ
  pub analysis : Analysis
  pub created : Bool

abbrev pub text_or : String → Option String → String
text_or default none = default
text_or default (some s) = s

abbrev pub concluded : SourcePostProcessingStatus → String → SourcePost → SourcePost
concluded status error p = record p {
  processing_status = status;
  processing_started_at = none;
  last_error = error;
}

unfoldable pub insert_analysis : Analysis → Do PersistedAnalysis
insert_analysis row = do
  pk ← gets (λ w. w.analyses.next)
  modify (λ w. record w { analyses = create row w.analyses })
  pure (record { key = pk; analysis = row; created = true })

unfoldable pub update_analysis : ℕ → Analysis → Do PersistedAnalysis
update_analysis pk row = do
  modify (λ w. record w { analyses = change (at_pk pk (λ _. row)) w.analyses })
  pure (record { key = pk; analysis = row; created = false })

abbrev pub full_clean : Analysis → Do PersistedAnalysis → Do PersistedAnalysis
full_clean row save = if is_clean row then save else raise (Exn.validation_error "")

-- `full_clean` and `save` of a new row, or of the existing one with its new values.
unfoldable pub store : ℕ → ℕ → (Analysis → Analysis) → Option (ℕ × Analysis) → Do PersistedAnalysis
store now id values none =
    full_clean (values (blank now id)) (insert_analysis (values (blank now id)))
store now id values (some (pk, old)) = full_clean (values old) (update_analysis pk (values old))

-- What the three saves have in common: the post is locked with its source, a successful analysis is
-- returned as it is, and otherwise the row and then the post are written.
unfoldable pub save_new :
    ℕ
    → ℕ
    → Result (Analysis → Analysis)
    → SourcePostProcessingStatus
    → String
    → Option (ℕ × Analysis)
    → Do PersistedAnalysis
save_new now id prepared status error existing = do
  values ← lift prepared
  persisted ← store now id values existing
  change_posts (at_pk id (concluded status error))
  pure persisted

unfoldable pub unless_successful :
    Do PersistedAnalysis → Option (ℕ × Analysis) → Do PersistedAnalysis
unless_successful save none = save
unless_successful save (some (pk, a)) =
    if is_successful a then pure (record { key = pk; analysis = a; created = false }) else save

unfoldable pub save_analysis :
    ℕ
    → ℕ
    → (Source → Result (Analysis → Analysis))
    → SourcePostProcessingStatus
    → String
    → Do PersistedAnalysis
save_analysis now id values status error = atomic do
  post ← found (λ w. find id w.posts.rows)
  source ← found (λ w. find post.source w.sources.rows)
  existing ← gets (λ w. first (for_post id) w.analyses.rows)
  unless_successful (save_new now id (values source) status error existing) existing

abbrev pub successful_values : String → ℕ → LlmResponse → Analysis → Analysis
successful_values model version r a = record a {
  is_relevant = some r.is_relevant;
  event_type = r.event_type;
  provider = r.provider;
  product = r.product;
  title_ru = text_or "" r.title_ru;
  message_ru = text_or "" r.message_ru;
  model = model;
  prompt_version = version;
  raw_response = some r.raw_response;
  error = "";
}

abbrev pub relevance_status : Bool → SourcePostProcessingStatus
relevance_status true = SourcePostProcessingStatus.analyzed_relevant
relevance_status false = SourcePostProcessingStatus.analyzed_irrelevant

unfoldable pub save_successful_analysis : ℕ → ℕ → LlmResponse → Option String → Do PersistedAnalysis
save_successful_analysis now id r model = do
  config ← gets (λ w. w.configuration)
  save_analysis now id
      (λ source. ok (successful_values (text_or config.llm_model model) config.prompt_version r))
      (relevance_status r.is_relevant) ""

-- `configuration.llm_model or "unconfigured"`
abbrev pub configured : String → String
configured model = if nonempty model then model else "unconfigured"

abbrev pub warning_values :
    String
    → String
    → Bool
    → Option Json
    → String
    → ℕ
    → Source
    → AnalysisProduct
    → Analysis
    → Analysis
warning_values title message is_fallback raw model version source product a = record a {
  is_relevant = some true;
  event_type = some AnalysisEventType.quota_reset;
  provider = source.provider;
  product = product;
  title_ru = title;
  message_ru = message;
  is_fallback = is_fallback;
  model = configured model;
  prompt_version = version;
  raw_response = raw;
  error = "";
}

abbrev pub failed_values :
    String → Option Json → String → ℕ → Source → AnalysisProduct → Analysis → Analysis
failed_values error raw model version source product a = record a {
  is_relevant = none;
  event_type = none;
  provider = source.provider;
  product = product;
  title_ru = "";
  message_ru = "";
  model = configured model;
  prompt_version = version;
  raw_response = raw;
  error = error;
}

abbrev pub of_product :
    (Source → AnalysisProduct → Analysis → Analysis) → Source → Result (Analysis → Analysis)
of_product values source = elim (expected_product source.provider) [
  | ok product ↦ ok (values source product)
  | raised e ↦ raised e
]

unfoldable pub save_reset_warning_analysis :
    ℕ → ℕ → String → String → Bool → Option Json → Do PersistedAnalysis
save_reset_warning_analysis now id title message is_fallback raw = do
  config ← gets (λ w. w.configuration)
  save_analysis now id
      (of_product
        (warning_values title message is_fallback raw config.llm_model config.prompt_version))
      SourcePostProcessingStatus.analyzed_relevant ""

unfoldable pub save_fallback_analysis : ℕ → ℕ → String → Do PersistedAnalysis
save_fallback_analysis now id title = save_reset_warning_analysis now id title "" true none

unfoldable pub save_failed_analysis : ℕ → ℕ → String → Option Json → Do PersistedAnalysis
save_failed_analysis now id error raw = do
  config ← gets (λ w. w.configuration)
  save_analysis now id (of_product (failed_values error raw config.llm_model config.prompt_version))
      SourcePostProcessingStatus.failed error
