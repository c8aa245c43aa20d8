-- ===== src/Monitoring/BackfillKeeps.antt =====
-- What the import of older posts keeps (apps/monitoring/backfill.py, backfill_tasks.py).
use quota_radar.Prelude.{ℕ, String, Option, none, some, List, [], ◌∷◌}
use quota_radar.Action.{XApiError, Exn}
use quota_radar.Action.Keeps.{Keeps, keeps_rules}
use quota_radar.Models.Sources.{Source}
use quota_radar.Models.World.{Message, World, Do}
use quota_radar.Dispatch.{Broker}
use quota_radar.Monitoring.XTimeline.{XTimelinePage}
use quota_radar.Monitoring.Preparation.{Outside, Prepared}
use quota_radar.Monitoring.Polling.{PollRun, countdown_of, retry_x_task}
use quota_radar.Monitoring.Backfill.{
  store_history, ingest_source_history, backfill_resolved, backfill_unresolved,
  backfill_with_client, backfill_x_failed, backfill_failed, backfill_found, backfill_source,
}
use quota_radar.Monitoring.PollingKeeps.{
  ImportSteps, keeps-lift, keeps-persist, keeps-enqueue, keeps-resolve, keeps-retry_x_task,
}

module _ {P : World → Type 0} (steps : ImportSteps P) where
  module _ (outside : Outside) (broker : Broker) (run : PollRun) where
    keeps-store_history :
        (id : ℕ) (cursor : String) (pages : List XTimelinePage) (prepared : Prepared)
        → Keeps P (store_history outside broker run id cursor pages prepared)
    unfolding store_history
    keeps-store_history id cursor pages prepared =
        search (keeps_rules, keeps-persist steps) depth 10

    keeps-history :
        (id : ℕ) (source : Source) → Keeps P (ingest_source_history outside broker run id source)
    unfolding ingest_source_history
    keeps-history id source = search (keeps_rules, keeps-lift, keeps-store_history) depth 20

    keeps-backfill_resolved : (id : ℕ) → Keeps P (backfill_resolved outside broker run id)
    unfolding backfill_resolved
    keeps-backfill_resolved id =
        search (keeps_rules, keeps-history, keeps-enqueue steps, steps.side.event) depth 12

    keeps-backfill_with_client :
        (id : ℕ) (source : Source) → Keeps P (backfill_with_client outside broker run id source)
    unfolding backfill_with_client backfill_unresolved
    keeps-backfill_with_client id source =
        search (keeps_rules, keeps-resolve steps.side, keeps-backfill_resolved, steps.side.event)
          depth 12

    keeps-retries_or :
        (kind : XApiError) (message : Message) (text : String) (source_ids : List ℕ) {A : Type 0}
        (ending : Do A) (o : Option ℕ)
        → Keeps P ending
        → Keeps P (elim o [
          | none ↦ ending
          | some countdown ↦ retry_x_task run message kind text countdown source_ids
        ])
    keeps-retries_or kind message text source_ids ending none k = k
    keeps-retries_or kind message text source_ids ending (some countdown) k =
        keeps-retry_x_task steps.side run message kind text countdown source_ids

    keeps-backfill_failed : (id : ℕ) (e : Exn) → Keeps P (backfill_failed outside broker run id e)
    unfolding backfill_failed backfill_x_failed
    keeps-backfill_failed id (Exn.backfill_unavailable_error message) =
        search (keeps_rules, steps.side.event)
    keeps-backfill_failed id (Exn.x_api_error kind text) =
        keeps-retries_or kind _ text (id ∷ []) _ (countdown_of run kind)
          (search (keeps_rules, steps.side.event))
    keeps-backfill_failed id Exn.does_not_exist = search keeps_rules
    keeps-backfill_failed id Exn.integrity_error = search keeps_rules
    keeps-backfill_failed id (Exn.value_error m) = search keeps_rules
    keeps-backfill_failed id (Exn.delivery_message_error m) = search keeps_rules
    keeps-backfill_failed id (Exn.subscription_conflict m) = search keeps_rules
    keeps-backfill_failed id (Exn.validation_error m) = search keeps_rules
    keeps-backfill_failed id (Exn.quality_error m) = search keeps_rules
    keeps-backfill_failed id (Exn.x_post_payload_error m) = search keeps_rules
    keeps-backfill_failed id Exn.broker_error = search keeps_rules
    keeps-backfill_failed id Exn.budget_exhausted = search keeps_rules
    keeps-backfill_failed id Exn.unfinished = search keeps_rules
    keeps-backfill_failed id (Exn.llm_error a m t r) = search keeps_rules
    keeps-backfill_failed id (Exn.prompt_error m) = search keeps_rules
    keeps-backfill_failed id (Exn.suspicious_irrelevance_error m r) = search keeps_rules
    keeps-backfill_failed id (Exn.retry n) = search keeps_rules

    keeps-backfill_found :
        (id : ℕ) (o : Option Source) → Keeps P (backfill_found outside broker run id o)
    keeps-backfill_found id none = search keeps_rules
    keeps-backfill_found id (some source) =
        search (keeps_rules, keeps-backfill_with_client, keeps-backfill_failed) depth 12

    -- The whole import keeps what its steps keep.
    pub keeps-backfill_source : (id : ℕ) → Keeps P (backfill_source outside broker run id)
    unfolding backfill_source
    keeps-backfill_source id = search (keeps_rules, keeps-backfill_found)
