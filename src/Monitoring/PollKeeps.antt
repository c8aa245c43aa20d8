-- ===== src/Monitoring/PollKeeps.antt =====
-- What the polling task keeps (apps/monitoring/tasks.py).
use quota_radar.Prelude.{ℕ, String, Option, none, some, List}
use quota_radar.Action.{XApiError, Exn, ◌>>◌}
use quota_radar.Action.Keeps.{Keeps, keeps_rules}
use quota_radar.Models.Sources.{Source}
use quota_radar.Models.World.{Message, World, Do}
use quota_radar.Dispatch.{Broker}
use quota_radar.Monitoring.Dispatch.{enqueue_pending_posts}
use quota_radar.Monitoring.XTimeline.{XTimelinePage}
use quota_radar.Monitoring.Preparation.{Outside, Prepared}
use quota_radar.Monitoring.Ingestion.{store_poll, ingest_source_posts, record_source_error}
use quota_radar.Monitoring.Polling.{
  PollRun, countdown_of, retry_x_task, x_failed, on_x_error, poll_resolved, give_up_unresolved,
  poll_with_client, poll_locked, poll_found, poll_source,
}
use quota_radar.Monitoring.PollingKeeps.{
  SideSteps, PollSteps, keeps-lift, keeps-persist, keeps-enqueue, keeps-resolve, keeps-retry_x_task,
}

pub keeps-on_x_error :
    {P : World → Type 0} {A : Type 0} (handler : XApiError → String → Do A) (e : Exn)
    → ((kind : XApiError) (text : String) → Keeps P (handler kind text))
    → Keeps P (on_x_error handler e)
keeps-on_x_error handler (Exn.x_api_error kind text) k = k kind text
keeps-on_x_error handler (Exn.backfill_unavailable_error m) k = search keeps_rules
keeps-on_x_error handler Exn.does_not_exist k = search keeps_rules
keeps-on_x_error handler Exn.integrity_error k = search keeps_rules
keeps-on_x_error handler (Exn.value_error m) k = search keeps_rules
keeps-on_x_error handler (Exn.delivery_message_error m) k = search keeps_rules
keeps-on_x_error handler (Exn.subscription_conflict m) k = search keeps_rules
keeps-on_x_error handler (Exn.validation_error m) k = search keeps_rules
keeps-on_x_error handler (Exn.quality_error m) k = search keeps_rules
keeps-on_x_error handler (Exn.x_post_payload_error m) k = search keeps_rules
keeps-on_x_error handler Exn.broker_error k = search keeps_rules
keeps-on_x_error handler Exn.budget_exhausted k = search keeps_rules
keeps-on_x_error handler Exn.unfinished k = search keeps_rules
keeps-on_x_error handler (Exn.llm_error a m t r) k = search keeps_rules
keeps-on_x_error handler (Exn.prompt_error m) k = search keeps_rules
keeps-on_x_error handler (Exn.suspicious_irrelevance_error m r) k = search keeps_rules
keeps-on_x_error handler (Exn.retry n) k = search keeps_rules

module _ {P : World → Type 0} (side : SideSteps P) (run : PollRun) where
  keeps-retries_or :
      {A : Type 0} (kind : XApiError) (message : Message) (text : String) (source_ids : List ℕ)
      (ending : Do A) (o : Option ℕ)
      → Keeps P ending
      → Keeps P (elim o [
        | none ↦ ending
        | some countdown ↦ do
          record_source_error run.now source_ids text
          retry_x_task run message kind text countdown source_ids
      ])
  keeps-retries_or kind message text source_ids ending none k = k
  keeps-retries_or kind message text source_ids ending (some countdown) k =
      search (keeps_rules, side.faulty, keeps-retry_x_task side) depth 10

  pub keeps-x_failed :
      {A : Type 0} (message : Message) (failure : A) (source_ids : List ℕ) (kind : XApiError)
      (text : String)
      → Keeps P (x_failed run message failure source_ids kind text)
  unfolding x_failed
  keeps-x_failed message failure source_ids kind text =
      keeps-retries_or kind message text source_ids _ (countdown_of run kind)
        (search (keeps_rules, side.faulty, side.event) depth 10)

module _ {P : World → Type 0} (steps : PollSteps P) (outside : Outside) (broker : Broker)
    (run : PollRun) where
  pub keeps-store_poll :
      (id : ℕ) (cursor : Option String) (pages : List XTimelinePage) (prepared : Prepared)
      → Keeps P (store_poll outside run.now id cursor pages prepared)
  unfolding store_poll
  keeps-store_poll id cursor pages prepared =
      search (keeps_rules, keeps-persist steps.imports, steps.polled) depth 12

  keeps-ingest :
      (id : ℕ) (source : Source) → Keeps P (ingest_source_posts outside run.now id source)
  unfolding ingest_source_posts
  keeps-ingest id source = search (keeps_rules, keeps-lift, keeps-store_poll) depth 16

  keeps-poll_resolved : (id : ℕ) → Keeps P (poll_resolved outside broker run id)
  unfolding poll_resolved enqueue_pending_posts
  keeps-poll_resolved id =
      search (keeps_rules, keeps-ingest, keeps-enqueue steps.imports, steps.imports.side.event)
        depth 16

  keeps-poll_with_client :
      (id : ℕ) (source : Source) → Keeps P (poll_with_client outside broker run id source)
  unfolding poll_with_client give_up_unresolved
  keeps-poll_with_client id source =
      search
        (
          keeps_rules,
          keeps-resolve steps.imports.side,
          keeps-poll_resolved,
          steps.imports.side.event,
        )
        depth 12

  keeps-poll_locked :
      (id : ℕ) (source : Source) → Keeps P (poll_locked outside broker run id source)
  unfolding poll_locked
  keeps-poll_locked id source =
      search
        (
          keeps_rules,
          keeps-poll_with_client,
          keeps-on_x_error,
          keeps-x_failed steps.imports.side run,
        )
        depth 12

  keeps-poll_found : (id : ℕ) (o : Option Source) → Keeps P (poll_found outside broker run id o)
  keeps-poll_found id none = search keeps_rules
  keeps-poll_found id (some source) = search (keeps_rules, keeps-poll_locked) depth 12

  -- The whole poll keeps what its steps keep.
  pub keeps-poll_source : (id : ℕ) → Keeps P (poll_source outside broker run id)
  unfolding poll_source
  keeps-poll_source id = search (keeps_rules, keeps-poll_found)
