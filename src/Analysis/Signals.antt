-- ===== src/Analysis/Signals.antt =====
-- What the program reads from a post by itself (apps/analysis/reset_signals.py, series_reset.py,
-- fallback.py). The regular expressions are parameters.
use Prim.Native.String.{◌++◌ as ◌<>◌}
use quota_radar.Text.{strip}
use quota_radar.Text.Lines.{lines, nonempty_texts}
use quota_radar.Prelude.{
  String, Bool, true, false, ◌&&◌, ◌||◌, not, Option, none, some, List, [], ◌∷◌, map, if◌then◌else◌,
  str_eq, has_text,
}
use quota_radar.Json.{Json, get, dict}
use quota_radar.Models.Sources.{SourceProvider, Source, SourcePost}
use quota_radar.Models.Analysis.{AnalysisEventType, AnalysisProduct}
use quota_radar.Monitoring.Normalization.{is_retweet}
use quota_radar.Analysis.Saving.{LlmResponse}

pub data Pattern : Type 0 where
  reset mass quota excluded uncertain context cyrillic url : Pattern

-- `pattern.search(text)`, the day of `_DAY_LINE.fullmatch(line)`, which matches no empty line, and
-- `str.casefold`.
pub record Reading : Type 0 where
  pub search_for : Pattern → String → Bool
  pub day_line : String → Option String
  pub casefold : String → String

abbrev pub codex_reset_author_id : String
codex_reset_author_id = "1953337039510003712"

abbrev pub series_reset_model : String
series_reset_model = "rule/thsottiaux-day-reset-v1"

abbrev is_openai : SourceProvider → Bool
is_openai SourceProvider.openai = true
is_openai _ = false

abbrev equals : Json → String → Bool
equals (Json.str s) t = str_eq s t
equals _ t = false

unfoldable pub is_verified_codex_reset_source : Source → SourcePost → Bool
is_verified_codex_reset_source source post =
    let primary = get "post" post.raw_data in
    is_openai source.provider
    && (str_eq source.x_user_id codex_reset_author_id
        && (equals (get "author_id" primary) codex_reset_author_id
            && (equals (get "id" primary) post.external_id && not (is_retweet primary))))

abbrev trusted_sources : SourceProvider → List String
trusted_sources SourceProvider.openai = "openaidevs" ∷ "thsottiaux" ∷ "sama" ∷ []
trusted_sources SourceProvider.anthropic = "claudedevs" ∷ []
trusted_sources _ = []

-- `agent_name`
abbrev pub agent_name : SourceProvider → Option String
agent_name SourceProvider.openai = some "Codex"
agent_name SourceProvider.anthropic = some "Claude Code"
agent_name _ = none

module _ (reading : Reading) where
  unfoldable pub has_reset_exclusions : String → Bool
  has_reset_exclusions text =
      reading.search_for Pattern.excluded text || reading.search_for Pattern.uncertain text

  unfoldable pub needs_reset_review : Source → SourcePost → Bool
  needs_reset_review source post =
      let text = post.text in
      if is_verified_codex_reset_source source post
      then reading.search_for Pattern.reset text && not (reading.search_for Pattern.excluded text)
      else has_text (trusted_sources source.provider) (reading.casefold source.username)
        && (reading.search_for Pattern.reset text
            && (reading.search_for Pattern.mass text
                && (reading.search_for Pattern.quota text && not (has_reset_exclusions text))))

  abbrev pub mentions_reset : String → Bool
  mentions_reset text = reading.search_for Pattern.reset text

  unfoldable pub days_of : List String → List String
  days_of [] = []
  days_of (line ∷ rest) = elim (reading.day_line line) [
    | none ↦ days_of rest
    | some day ↦ day ∷ days_of rest
  ]

  abbrev series_response : SourcePost → String → LlmResponse
  series_response post day = record {
    is_relevant = true;
    event_type = some AnalysisEventType.quota_reset;
    provider = SourceProvider.openai;
    product = AnalysisProduct.codex;
    title_ru = some "🟢[CODEX] Использованные лимиты сброшены";
    message_ru = some ("Объявлен сброс лимитов Codex — день " <> (day <> "."));
    raw_response = dict (
        (
          "classification",
          dict (
              ("method", Json.str "deterministic")
              ∷ ("rule", Json.str series_reset_model)
              ∷ ("author_id", Json.str codex_reset_author_id)
              ∷ ("post_id", Json.str post.external_id)
              ∷ ("day", Json.str day)
              ∷ []),
        )
        ∷ []);
  }

  abbrev for_one_day : SourcePost → List String → Option LlmResponse
  for_one_day post (day ∷ []) = some (series_response post day)
  for_one_day post _ = none

  unfoldable pub classify_series_reset : Source → SourcePost → Option LlmResponse
  classify_series_reset source post =
      if not (is_verified_codex_reset_source source post)
        || (has_reset_exclusions post.text || reading.search_for Pattern.context post.text)
      then none
      else for_one_day post (days_of (nonempty_texts (map strip (lines post.text))))
