-- ===== src/Models/World.antt =====
-- What the tasks read and change: the tables, the configuration (apps/configuration/models.py), the
-- monitoring journal (apps/monitoring/events.py), and the messages that went out to Telegram and to
-- the Celery broker, newest first; and the Redis counter of consecutive LLM failures.
use quota_radar.Prelude.{ℕ, String, Bool, Option, List, ◌∷◌}
use quota_radar.Table.{Table}
use quota_radar.Action.{Action, modify}
use quota_radar.Models.Sources.{Source, SourceSubscription, SourcePost}
use quota_radar.Models.Analysis.{Analysis}
use quota_radar.Models.Telegram.{DeliveryTarget, Delivery, Entity}
use quota_radar.Models.Advertising.{Campaign, Placement}

pub record SystemConfiguration : Type 0 where
  pub monitoring_enabled : Bool
  pub bootstrap_post_limit : ℕ
  pub regular_poll_post_limit : ℕ
  pub historical_backfill_post_limit : ℕ
  pub telegram_message_timezone : String
  pub llm_model : String
  pub prompt_version : ℕ
  pub retry_count : ℕ

pub data MonitoringComponent : Type 0 where
  x ai telegram system : MonitoringComponent

pub data MonitoringEventStatus : Type 0 where
  success error : MonitoringEventStatus

-- The message text and the task id of an event are not modelled.
pub record MonitoringEvent : Type 0 where
  pub component : MonitoringComponent
  pub status : MonitoringEventStatus
  pub source : Option ℕ
  pub error_type : String

-- A `sendMessage` request on the network.
pub record SendRequest : Type 0 where
  pub delivery : ℕ
  pub chat_id : String
  pub text : String
  pub entities : List Entity

-- A task that the broker accepted.
pub data Message : Type 0 where
  deliver_analysis : ℕ → ℕ → Message
  analyze_post : ℕ → Message
  poll_sources : Message
  poll_source backfill_source : ℕ → Message

pub record World : Type 0 where
  pub sources : Table Source
  pub subscriptions : Table SourceSubscription
  pub posts : Table SourcePost
  pub analyses : Table Analysis
  pub targets : Table DeliveryTarget
  pub deliveries : Table Delivery
  pub campaigns : Table Campaign
  pub placements : Table Placement
  pub configuration : SystemConfiguration
  pub events : List MonitoringEvent
  pub requests : List SendRequest
  pub messages : List Message
  pub llm_failures : ℕ

abbrev pub Do : Type 0 → Type 0
Do = Action World

-- `record_monitoring_event`
unfoldable pub record_monitoring_event :
    MonitoringComponent → MonitoringEventStatus → Option ℕ → String → Do (Unit {0})
record_monitoring_event component status source error_type = modify λ w.
    let event : MonitoringEvent = record {
      component = component;
      status = status;
      source = source;
      error_type = error_type;
    } in
    record w { events = event ∷ w.events }
