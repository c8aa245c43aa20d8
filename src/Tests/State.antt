-- ===== src/Tests/State.antt =====
-- A channel and a subscriber, an alert for both of them, and a campaign of the channel's.
use quota_radar.Prelude.{ℕ, String, true, false, none, some, [], ◌∷◌}
use quota_radar.Json.{Json}
use quota_radar.Table.{Table, Rows}
use quota_radar.Action.{ok}
use quota_radar.Models.Sources.{
  Source, SourceProvider, SourcePost, SourcePostProcessingStatus, Feed,
}
use quota_radar.Models.Analysis.{Analysis, AnalysisEventType, AnalysisProduct}
use quota_radar.Models.Telegram.{Delivery, DeliveryStatus, DeliveryTarget, DeliveryTargetType}
use quota_radar.Models.Advertising.{Campaign, Placement, PlacementStatus}
use quota_radar.Models.World.{World, SystemConfiguration}
use quota_radar.Advertising.Formatting.{Rendered}
use quota_radar.Telegram.Formatting.{TimeZones}
use quota_radar.Telegram.Loading.{Run, Answer}
use quota_radar.Dispatch.{Broker}

abbrev pub table : {A : Type 0} → Rows A → ℕ → Table A
table rows next = record { rows = rows; next = next }

abbrev pub channel : DeliveryTarget
channel = record {
  target_type = DeliveryTargetType.channel;
  telegram_chat_id = "@quotas";
  enabled = true;
  feed = Feed.quota;
}

abbrev pub subscriber : DeliveryTarget
subscriber = record {
  target_type = DeliveryTargetType.private_chat;
  telegram_chat_id = "42";
  enabled = true;
  feed = Feed.quota;
}

abbrev pub source : Source
source = record {
  provider = SourceProvider.openai;
  username = "author";
  x_user_id = "1";
  enabled = true;
  last_post_id = "";
  last_checked_at = none;
  last_success_at = none;
  last_error = "";
}

abbrev pub post : SourcePost
post = record {
  source = 1;
  external_id = "100";
  text = "Limits are reset";
  normalized_text = "Limits are reset";
  source_url = "https://x.com/author/status/100";
  published_at = 5000;
  raw_data = Json.null;
  processing_status = SourcePostProcessingStatus.analyzed_relevant;
  processing_started_at = none;
  last_error = "";
}

abbrev pub waiting_post : SourcePost
waiting_post = record post {
  external_id = "101";
  processing_status = SourcePostProcessingStatus.received;
}

abbrev pub analysis : Analysis
analysis = record {
  source_post = 1;
  is_relevant = some true;
  event_type = some AnalysisEventType.quota_reset;
  provider = SourceProvider.openai;
  product = AnalysisProduct.codex;
  title_ru = "Сброс";
  message_ru = "Лимиты сброшены.";
  is_fallback = false;
  model = "model";
  prompt_version = 1;
  raw_response = none;
  error = "";
  created_at = 5100;
  delivery_fanout_completed_at = none;
}

abbrev pub pending_delivery : Delivery
pending_delivery = record {
  analysis = 1;
  target = 1;
  status = DeliveryStatus.pending;
  telegram_message_id = "";
  attempts = 0;
  created_at = 5200;
  last_attempt_at = none;
  next_attempt_at = none;
  sent_at = none;
  last_error = "";
  rendered_text = "";
  message_entities = [];
}

abbrev pub sent_delivery : Delivery
sent_delivery = record pending_delivery {
  target = 2;
  status = DeliveryStatus.sent;
  telegram_message_id = "7";
  attempts = 1;
  sent_at = some 5250;
}

abbrev pub failed_delivery : Delivery
failed_delivery = record sent_delivery { status = DeliveryStatus.failed; last_error = "HTTP 404" }

abbrev pub campaign : Campaign
campaign = record {
  target = 1;
  body = "";
  emoji_fallbacks = Json.null;
  message = "Сервис";
  link_label = "Подробнее";
  url = "https://example.org";
  total_posts = 2;
  enabled = true;
}

abbrev pub placement : Placement
placement = record {
  campaign = 1;
  delivery = 1;
  status = PlacementStatus.reserved;
  sent_at = none;
  resolution_note = "";
  telegram_message_id = "";
}

abbrev pub settings : SystemConfiguration
settings = record {
  monitoring_enabled = true;
  bootstrap_post_limit = 5;
  regular_poll_post_limit = 20;
  historical_backfill_post_limit = 50;
  telegram_message_timezone = "Europe/Moscow";
  llm_model = "model";
  prompt_version = 1;
  retry_count = 3;
}

-- The database, with these deliveries and placements.
abbrev pub database : Rows Delivery → Rows Placement → World
database deliveries placements = record {
  sources = table ((1, source) ∷ []) 2;
  subscriptions = table [] 1;
  posts = table ((1, post) ∷ (2, waiting_post) ∷ []) 3;
  analyses = table ((1, analysis) ∷ []) 2;
  targets = table ((1, channel) ∷ (2, subscriber) ∷ []) 3;
  deliveries = table deliveries 3;
  campaigns = table ((1, campaign) ∷ []) 2;
  placements = table placements 2;
  configuration = settings;
  events = [];
  requests = [];
  messages = [];
  llm_failures = 0;
}

abbrev pub delivering : World
delivering = database ((1, pending_delivery) ∷ (2, sent_delivery) ∷ []) ((1, placement) ∷ [])

abbrev pub plain_markup : String → Json → Rendered
plain_markup body fallbacks = ok (body, [])

abbrev pub moscow : TimeZones
moscow name now =
    some (record { day = 1; month = 5; year = 2026; hour = 12; minute = 5; tzname = some "MSK" })

abbrev pub confirmed_run : Run
confirmed_run = record {
  acquired = true;
  now = 5300;
  client = none;
  answer = Answer.message_id "8";
  later = 5301;
  retries = 0;
}

abbrev pub open_broker : Broker
open_broker = record { accepts = λ m. true; error_type = "OperationalError" }

abbrev pub closed_broker : Broker
closed_broker = record { accepts = λ m. false; error_type = "OperationalError" }
