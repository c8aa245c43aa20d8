-- ===== src/Models/Sources.antt =====
-- apps/sources/models.py
use quota_radar.Prelude.{ℕ, String, Bool, true, false, Option}
use quota_radar.Json.{Json}

pub data SourceProvider : Type 0 where
  openai anthropic cursor google : SourceProvider

pub data Feed : Type 0 where
  quota news : Feed

abbrev pub is_quota : Feed → Bool
is_quota Feed.quota = true
is_quota Feed.news = false

pub record Source : Type 0 where
  pub provider : SourceProvider
  pub username : String
  pub x_user_id : String
  pub enabled : Bool
  pub last_post_id : String
  pub last_checked_at : Option ℕ
  pub last_success_at : Option ℕ
  pub last_error : String

pub data SourcePostProcessingStatus : Type 0 where
  received queued analyzed_irrelevant analyzed_relevant failed : SourcePostProcessingStatus

pub record SourceSubscription : Type 0 where
  pub source : ℕ
  pub feed : Feed
  pub enabled : Bool
  pub priority : Bool
  pub query_terms : String

pub record SourcePost : Type 0 where
  pub source : ℕ
  pub external_id : String
  pub text : String
  pub normalized_text : String
  pub source_url : String
  pub published_at : ℕ
  pub raw_data : Json
  pub processing_status : SourcePostProcessingStatus
  pub processing_started_at : Option ℕ
  pub last_error : String
