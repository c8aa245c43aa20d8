-- ===== src/Telegram/Loading.antt =====
-- One run of the task `telegram.deliver_analysis`: what it sees of the outside, what it loads and what
-- it returns (apps/telegram/tasks.py). Log lines are not modelled.
use quota_radar.Prelude.{refl, ◌≡◌, arith, ℕ, String, Bool, ◌&&◌, Option, none, some, ◌==◌}
use quota_radar.Table.{find, first, IsKeyed, find-first}
use quota_radar.Models.Sources.{SourcePost}
use quota_radar.Models.Analysis.{Analysis}
use quota_radar.Models.Telegram.{DeliveryTarget, Delivery}
use quota_radar.Models.World.{
  World, Do, MonitoringComponent, MonitoringEventStatus, record_monitoring_event,
}

-- What `send_message` returns or raises (apps/telegram/client.py); a temporary error carries
-- Telegram's delay and whether the message may have been delivered.
pub data Answer : Type 0 where
  message_id : String → Answer
  temporary : String → Option ℕ → Bool → Answer
  permanent_chat authentication response configuration : String → Answer

pub record Run : Type 0 where
  pub acquired : Bool
  pub now : ℕ
  pub client : Option String
  pub answer : Answer
  pub later : ℕ
  pub retries : ℕ

-- The status of the result that the task returns.
pub data Outcome : Type 0 where
  missing locked already_sent uncertain permanently_failed retry_scheduled : Outcome
  disabled stale_event failed sent : Outcome

-- A delivery with the rows that `select_related` loads beside it.
pub record Loaded : Type 0 where
  pub id : ℕ
  pub row : Delivery
  pub target : DeliveryTarget
  pub analysis : Analysis
  pub post : SourcePost

abbrev pub for_pair : ℕ → ℕ → Delivery → Bool
for_pair analysis target d = d.analysis == analysis && d.target == target

load_related : ℕ × Delivery → World → Option Loaded
load_related (id, d) w = elim (find d.target w.targets.rows) [
  | none ↦ none
  | some target ↦ elim (find d.analysis w.analyses.rows) [
    | none ↦ none
    | some analysis ↦ elim (find analysis.source_post w.posts.rows) [
      | none ↦ none
      | some post ↦
          some (record { id = id; row = d; target = target; analysis = analysis; post = post })
    ]
  ]
]

load_first : Option (ℕ × Delivery) → World → Option Loaded
load_first none w = none
load_first (some row) w = load_related row w

-- `_load_delivery`: the joins are inner, over foreign keys that are not null.
unfoldable pub load_delivery : ℕ → ℕ → World → Option Loaded
unfolding load_first load_related
load_delivery analysis target w = load_first (first (for_pair analysis target) w.deliveries.rows) w

abbrev pub journal : MonitoringEventStatus → String → Loaded → Do (Unit {0})
journal status error_type d =
    record_monitoring_event MonitoringComponent.telegram status (some d.post.source) error_type

abbrev pub fault : String → Loaded → Do (Unit {0})
fault = journal MonitoringEventStatus.error

-- What was loaded is the row under its key, of the pair that was asked for.
load_related-row :
    (j : ℕ) (d : Delivery) (w : World) {l : Loaded}
    → load_related (j, d) w ≡ some l
    → (l.id ≡ j) × (l.row ≡ d)
unfolding load_related
load_related-row j d w {l} e = ground arith

pub load_delivery-row :
    (analysis target : ℕ) (w : World) {l : Loaded}
    → IsKeyed w.deliveries.rows
    → load_delivery analysis target w ≡ some l
    → find l.id w.deliveries.rows ≡ some l.row
unfolding load_delivery
load_delivery-row analysis target w {l} keyed e =
    by_first (first (for_pair analysis target) w.deliveries.rows) refl e
  where
    by_first :
        (o : Option (ℕ × Delivery))
        → first (for_pair analysis target) w.deliveries.rows ≡ o
        → load_first o w ≡ some l
        → find l.id w.deliveries.rows ≡ some l.row
    by_first none absent e' = cc
    by_first (some (j, d)) present e' =
        let same = load_related-row j d w e' in
        rw (same.0, same.1) (find-first (for_pair analysis target) w.deliveries.rows keyed present)
