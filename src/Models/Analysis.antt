-- ===== src/Models/Analysis.antt =====
-- apps/analysis/models.py
use quota_radar.Prelude.{ℕ, String, Bool, true, false, Option, some, is_some, nonempty, not, ◌&&◌}
use quota_radar.Json.{Json}
use quota_radar.Models.Sources.{SourceProvider}

pub data AnalysisEventType : Type 0 where
  quota_reset quota_increase quota_extension : AnalysisEventType

pub data AnalysisProduct : Type 0 where
  codex claude_code : AnalysisProduct

-- `event_type` is `none` where the column is blank, `is_relevant` where it is NULL.
pub record Analysis : Type 0 where
  pub source_post : ℕ
  pub is_relevant : Option Bool
  pub event_type : Option AnalysisEventType
  pub provider : SourceProvider
  pub product : AnalysisProduct
  pub title_ru : String
  pub message_ru : String
  pub is_fallback : Bool
  pub model : String
  pub prompt_version : ℕ
  pub raw_response : Option Json
  pub error : String
  pub created_at : ℕ
  pub delivery_fanout_completed_at : Option ℕ

-- `Analysis.is_successful`
abbrev pub is_successful : Analysis → Bool
is_successful a = is_some a.is_relevant && not (nonempty a.error)

-- `analysis.is_relevant is True`
abbrev pub is_true : Option Bool → Bool
is_true (some true) = true
is_true _ = false
