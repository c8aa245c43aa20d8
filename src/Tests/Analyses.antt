-- ===== src/Tests/Analyses.antt =====
-- The theorems on the analysis of a post, at concrete answers.
use quota_radar.Prelude.{ℕ, String, ◌≡◌, ◌↔◌, refl, Bool, true, false, none, some, [], arith}
use quota_radar.Json.{Json}
use quota_radar.Text.{strip}
use quota_radar.Text.Lines.{chars}
use quota_radar.Text.Utf16.{utf16_length, utf16_units}
use quota_radar.Text.Decimal.{show, show_two}
use quota_radar.Table.{find}
use quota_radar.Action.{and_then, ok}
use quota_radar.Action.Gives.{Post}
use quota_radar.Models.Sources.{SourceProvider}
use quota_radar.Models.Analysis.{AnalysisEventType, AnalysisProduct}
use quota_radar.Models.Telegram.{DeliveryTarget}
use quota_radar.Models.World.{World}
use quota_radar.Advertising.Formatting.{campaign_copy}
use quota_radar.Advertising.Budget.{reserve_of, quota_message_limit}
use quota_radar.Telegram.Formatting.{
  format_publication_date, layout, within_limit, format_message_values,
}
use quota_radar.Analysis.Saving.{LlmResponse, expected_product}
use quota_radar.Analysis.Signals.{Pattern, Reading}
use quota_radar.Analysis.Quality.{
  Advice, matches_source, validate_copy, validate_payload_for_post, reassess_irrelevant_response,
}
use quota_radar.Analysis.Failures.{AnalysisRun}
use quota_radar.Analysis.Task.{analyze_post}
use quota_radar.Analysis.ResultStays.{HasResult}
use quota_radar.Analysis.TaskKeeps.{analyze_post-keeps_success}
use quota_radar.Analysis.Review.{Settled, Unsettled, reassess-Settled}
use quota_radar.Analysis.Approval.{IsPublishable, validate-IsPublishable}
use quota_radar.Tests.State.{analysis, database, moscow, open_broker, plain_markup, post, source}

-- Russian is found in every text, and so are the words of a reset.
abbrev finds : Pattern → String → Bool
finds Pattern.url text = false
finds Pattern.excluded text = false
finds Pattern.uncertain text = false
finds Pattern.context text = false
finds _ text = true

abbrev reading : Reading
reading = record { search_for = finds; day_line = λ line. none; casefold = λ s. "sama" }

abbrev reset_found : LlmResponse
reset_found = record {
  is_relevant = true;
  event_type = some AnalysisEventType.quota_reset;
  provider = SourceProvider.openai;
  product = AnalysisProduct.codex;
  title_ru = some "Сброс";
  message_ru = some "Лимиты сброшены.";
  raw_response = Json.null;
}

abbrev nothing_found : LlmResponse
nothing_found = record reset_found {
  is_relevant = false;
  event_type = none;
  title_ru = none;
  message_ru = none;
}

abbrev advice : Advice
advice = record {
  reading = reading;
  zones = moscow;
  render_markup = plain_markup;
  prompt = ok tt;
  answer = ok nothing_found;
  review = ok reset_found;
}

abbrev state : World
state = database [] []

is_approved : validate_payload_for_post advice reset_found source post state ≡ ok tt
unfolding validate_payload_for_post validate_copy expected_product format_message_values
    format_publication_date layout within_limit quota_message_limit reserve_of campaign_copy
    and_then chars utf16_length strip show show_two find utf16_units
is_approved = refl

-- The channel of the state has an active campaign, whose advertising goes below the message.
validate-IsPublishable_example :
    (validate_payload_for_post advice reset_found source post state ≡ ok tt) ↔ (
      ((product : AnalysisProduct) × (expected_product SourceProvider.openai ≡ ok product)
        × (matches_source reset_found SourceProvider.openai product ≡ true))
      × IsPublishable advice "Сброс" "Лимиты сброшены." post state)
validate-IsPublishable_example = validate-IsPublishable advice reset_found source post state refl

-- The first answer is a refusal of a post that looks like a reset, the second one is not.
reassess-Settled_example :
    Post
      (λ final v. Settled advice source post nothing_found final v)
      (λ v. Unsettled advice source post nothing_found v)
      (reassess_irrelevant_response advice true source post nothing_found state)
reassess-Settled_example = reassess-Settled advice true source post nothing_found state

abbrev analysis_run : AnalysisRun
analysis_run = record { acquired = true; redis = true; now = 5300; retries = 0; advice = advice }

abbrev any_target : ℕ × DeliveryTarget → ℕ × DeliveryTarget → Bool
any_target (k, t) (j, u) = true

state-HasResult : HasResult 1 analysis state
unfolding find
state-HasResult = record {
  keys = record { keyed = (refl, tt); ahead = λ k le. ground arith };
  row = analysis;
  at = refl;
  same = refl;
  whole = λ done. refl;
}

analyze_post-keeps_success_example :
    HasResult 1 analysis (analyze_post open_broker any_target analysis_run 2 state).1
analyze_post-keeps_success_example =
    analyze_post-keeps_success open_broker any_target analysis_run 2 1 analysis state refl
      state-HasResult
