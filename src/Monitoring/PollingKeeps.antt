-- ===== src/Monitoring/PollingKeeps.antt =====
-- What the polling and the import write, step by step, and that a predicate which every such step
-- keeps is kept by the whole tasks.
use quota_radar.Prelude.{ℕ, String, Bool, true, false, Option, List, [], ◌∷◌, if◌then◌else◌}
use quota_radar.Table.{at_pk}
use quota_radar.Action.{XApiError, Exn, Result, modify, ok, raised}
use quota_radar.Action.Keeps.{Keeps, Keeps-pure, Keeps-bind, keeps_rules}
use quota_radar.Models.Sources.{Source, SourcePostProcessingStatus, SourcePost}
use quota_radar.Models.World.{
  MonitoringComponent, MonitoringEventStatus, Message, World, Do, record_monitoring_event,
}
use quota_radar.Advertising.Queries.{lift}
use quota_radar.Dispatch.{Broker, with_message, delay, Verdict, each}
use quota_radar.Monitoring.Dispatch.{
  change_posts, queued_row, restored_row, hand_over, claim_post, dispatch_post,
  enqueue_posts_for_analysis,
}
use quota_radar.Monitoring.Normalization.{NormalizedSourcePost}
use quota_radar.Monitoring.XUsers.{Mapping}
use quota_radar.Monitoring.Preparation.{Outside}
use quota_radar.Monitoring.Ingestion.{
  get_or_create_post, persist_source_posts, change_sources, polled_row, record_source_error,
}
use quota_radar.Monitoring.Resolution.{
  ids, resolved_row, unresolved_row, resolve_each, resolve_missing, resolve_source_user_ids,
}
use quota_radar.Monitoring.Polling.{PollRun, task_retry, retry_x_task}

-- The steps that store nothing.
pub record SideSteps (P : World → Type 0) : Type 0 where
  pub event :
      (c : MonitoringComponent) (s : MonitoringEventStatus) (source : Option ℕ) (e : String)
      → Keeps P (record_monitoring_event c s source e)
  pub sent : (m : Message) → Keeps P (modify (with_message m))
  pub resolved :
      (k now : ℕ) (user_id : String) → Keeps P (change_sources (at_pk k (resolved_row now user_id)))
  pub unresolved : (k now : ℕ) → Keeps P (change_sources (at_pk k (unresolved_row now)))
  pub faulty :
      (now : ℕ) (ids : List ℕ) (message : String) → Keeps P (record_source_error now ids message)

-- The steps of an import: posts are created and queued.
pub record ImportSteps (P : World → Type 0) : Type 0 where
  pub side : SideSteps P
  pub queued : (k now : ℕ) → Keeps P (change_posts (at_pk k (queued_row now)))
  pub restored : (k : ℕ) (p : SourcePost) → Keeps P (change_posts (at_pk k (restored_row p)))
  pub created :
      (source : ℕ) (payload : NormalizedSourcePost) → Keeps P (get_or_create_post source payload)

-- The steps of a poll: the cursor moves.
pub record PollSteps (P : World → Type 0) : Type 0 where
  pub imports : ImportSteps P
  pub polled :
      (k now : ℕ) (cursor : Option String) (newest_id : String)
      → Keeps P (change_sources (at_pk k (polled_row now cursor newest_id)))

pub keeps-lift : {P : World → Type 0} {A : Type 0} (r : Result A) → Keeps P (lift r)
keeps-lift (ok a) = search keeps_rules
keeps-lift (raised e) = search keeps_rules

module _ {P : World → Type 0} (steps : ImportSteps P) where
  pub keeps-persist :
      (source : ℕ) (prepared : List NormalizedSourcePost)
      → Keeps P (persist_source_posts source prepared)
  unfolding persist_source_posts
  keeps-persist source [] = search keeps_rules
  keeps-persist source (payload ∷ prepared) =
      let step = steps.created source payload in
      search (keeps_rules, step, keeps-persist source prepared)

  keeps-dispatch_post :
      (broker : Broker) (now : ℕ) (r : ℕ × SourcePost) → Keeps P (dispatch_post broker now r)
  unfolding dispatch_post claim_post hand_over delay
  keeps-dispatch_post broker now (k, p) =
      search (keeps_rules, steps.side.event, steps.side.sent, steps.queued, steps.restored) depth 20

  keeps-each :
      {X : Type 0} (xs : List X) (body : X → Do Verdict)
      → ((x : X) → Keeps P (body x))
      → Keeps P (each xs body)
  unfolding each
  keeps-each [] body kb = search keeps_rules
  keeps-each (x ∷ xs) body kb =
      Keeps-bind _ _ (kb x) (λ v. Keeps-bind _ _ (keeps-each xs body kb) (λ t. Keeps-pure _))

  pub keeps-enqueue :
      (broker : Broker) (now : ℕ) (eligible : SourcePostProcessingStatus → Bool) (ids : List ℕ)
      → Keeps P (enqueue_posts_for_analysis broker now eligible ids)
  unfolding enqueue_posts_for_analysis
  keeps-enqueue broker now eligible ids =
      search (keeps_rules, keeps-each, keeps-dispatch_post) depth 10

module _ {P : World → Type 0} (side : SideSteps P) where
  keeps-resolution :
      (id now : ℕ) (b : Bool) (user_id : String)
      → Keeps P
          (change_sources (at_pk id (if b then resolved_row now user_id else unresolved_row now)))
  keeps-resolution id now true user_id = side.resolved id now user_id
  keeps-resolution id now false user_id = side.unresolved id now

  keeps-resolve_each :
      (outside : Outside) (now : ℕ) (mapping : Mapping) (sources : List (ℕ × Source))
      → Keeps P (resolve_each outside now mapping sources)
  unfolding resolve_each
  keeps-resolve_each outside now mapping [] = search keeps_rules
  keeps-resolve_each outside now mapping ((id, s) ∷ sources) =
      Keeps-bind _ _ (keeps-resolution id now _ _)
        (λ done. search (keeps_rules, keeps-resolve_each outside now mapping sources))

  keeps-resolve_missing :
      (outside : Outside) (now : ℕ) (sources unresolved : List (ℕ × Source))
      → Keeps P (resolve_missing outside now sources unresolved)
  keeps-resolve_missing outside now sources [] = search keeps_rules
  keeps-resolve_missing outside now sources (r ∷ rest) =
      search (keeps_rules, keeps-lift, keeps-resolve_each) depth 10

  pub keeps-resolve :
      (outside : Outside) (now : ℕ) (sources : List (ℕ × Source))
      → Keeps P (resolve_source_user_ids outside now sources)
  unfolding resolve_source_user_ids
  keeps-resolve outside now sources = keeps-resolve_missing outside now sources _

  pub keeps-task_retry :
      {A : Type 0} (run : PollRun) (message : Message) (e : Exn) (countdown limit : ℕ)
      → Keeps P (task_retry {A = A} run message e countdown limit)
  unfolding task_retry
  keeps-task_retry run message e countdown limit = search (keeps_rules, side.sent) depth 10

  pub keeps-retry_x_task :
      {A : Type 0} (run : PollRun) (message : Message) (kind : XApiError) (text : String)
      (countdown : ℕ) (source_ids : List ℕ)
      → Keeps P (retry_x_task {A = A} run message kind text countdown source_ids)
  unfolding retry_x_task
  keeps-retry_x_task run message kind text countdown source_ids =
      search (keeps_rules, side.event, keeps-task_retry) depth 12
