-- ===== src/Monitoring/PollFailure.antt =====
-- Polls that do not succeed (apps/monitoring/tasks.py).
use quota_radar.Prelude.{ℕ, refl, ◌&&◌, ◌||◌, not, Option, none, some, nonempty, contains}
use quota_radar.Action.Keeps.{Keeps, Keeps-gets, Keeps-found}
use quota_radar.Action.Gives.{
  Post, Gives, Gives-pure, Gives-raise, Gives-if, Gives-weaken, Gives-keeps, Gives-undone,
  Gives-attempt, Gives-returned, Gives-bind,
}
use quota_radar.Action.Returns.{returns_rules}
use quota_radar.Models.Sources.{Source}
use quota_radar.Models.World.{World, Do, record_monitoring_event}
use quota_radar.Dispatch.{Broker}
use quota_radar.Monitoring.Dispatch.{enqueue_pending_posts}
use quota_radar.Monitoring.DispatchCounts.{Returns-enqueue}
use quota_radar.Monitoring.Preparation.{Outside}
use quota_radar.Monitoring.Ingestion.{store_poll, ingest_source_posts}
use quota_radar.Monitoring.Polling.{
  PollRun, PollOutcome, with_client, poll_resolved, give_up_unresolved, poll_with_client,
  poll_locked, poll_found, poll_source,
}
use quota_radar.Monitoring.PollingKeeps.{keeps-lift, keeps-resolve}
use quota_radar.Monitoring.PollKeeps.{keeps-on_x_error, keeps-x_failed}
use quota_radar.Monitoring.PollUnchanged.{Unchanged, Unchanged-event, Unchanged-side}

-- What a poll leaves if it returns.
abbrev pub AfterPoll : World → PollOutcome → World → Type 0
AfterPoll before (PollOutcome.polled result queued) w = Unit
AfterPoll before _ w = Unchanged before w

module _ (outside : Outside) (broker : Broker) (run : PollRun) (before : World) where
  -- Until the transaction, nothing is stored; and the transaction stores all or nothing.
  Gives-ingest :
      (id : ℕ) (source : Source)
      → Gives
          (Unchanged before)
          (λ r w. Unit)
          (Unchanged before)
          (ingest_source_posts outside run.now id source)
  unfolding ingest_source_posts store_poll
  Gives-ingest id source =
      Gives-if (not (nonempty source.x_user_id)) (λ e. Gives-raise _ (λ w h. h))
        λ e. Gives-bind (Gives-keeps (Keeps-gets _)) λ poll_cursor.
          Gives-bind (Gives-keeps (Keeps-gets _)) λ configuration.
            Gives-bind (Gives-keeps (keeps-lift _))
              λ pages. Gives-bind (Gives-keeps (keeps-lift _)) λ prepared. Gives-undone _

  Gives-poll_resolved :
      (id : ℕ)
      → Gives
          (Unchanged before)
          (AfterPoll before)
          (Unchanged before)
          (poll_resolved outside broker run id)
  unfolding poll_resolved enqueue_pending_posts record_monitoring_event
  Gives-poll_resolved id = Gives-bind (Gives-keeps (Keeps-found _)) λ source.
      Gives-bind (Gives-ingest id source) λ result.
        Gives-bind (Gives-returned (search (returns_rules, Returns-enqueue) depth 10)) λ queued.
          Gives-bind (Gives-returned (search returns_rules)) λ done. Gives-pure _ (λ w h. tt)

  Gives-poll_with_client :
      (id : ℕ) (source : Source)
      → Gives
          (Unchanged before)
          (AfterPoll before)
          (Unchanged before)
          (poll_with_client outside broker run id source)
  unfolding poll_with_client give_up_unresolved
  Gives-poll_with_client id source =
      Gives-if (nonempty source.x_user_id) (λ e. Gives-poll_resolved id)
        λ e. Gives-bind (Gives-keeps (keeps-resolve Unchanged-side outside run.now _)) λ resolution.
          Gives-if (contains resolution.unresolved_source_ids id)
            (λ e.
              Gives-bind (Gives-keeps (Unchanged-event _ _ _ _)) λ done. Gives-pure _ (λ w h. h))
            (λ e. Gives-poll_resolved id)

  Gives-with_client :
      (b : Do PollOutcome)
      → Gives (Unchanged before) (AfterPoll before) (Unchanged before) b
      → Gives (Unchanged before) (AfterPoll before) (Unchanged before) (with_client run b)
  Gives-with_client b g = Gives-if run.configured (λ e. g) (λ e. Gives-raise _ (λ w h. h))

  Unchanged-after : (o : PollOutcome) (w : World) → Unchanged before w → AfterPoll before o w
  Unchanged-after (PollOutcome.polled result queued) w h = tt
  Unchanged-after PollOutcome.missing w h = h
  Unchanged-after PollOutcome.disabled w h = h
  Unchanged-after PollOutcome.locked w h = h
  Unchanged-after PollOutcome.unresolved w h = h
  Unchanged-after PollOutcome.error w h = h

  Gives-kept_poll :
      {m : Do PollOutcome}
      → Keeps (Unchanged before) m
      → Gives (Unchanged before) (AfterPoll before) (Unchanged before) m
  Gives-kept_poll k = Gives-weaken Unchanged-after (Gives-keeps k)

  Gives-poll_locked :
      (id : ℕ) (source : Source)
      → Gives
          (Unchanged before)
          (AfterPoll before)
          (Unchanged before)
          (poll_locked outside broker run id source)
  unfolding poll_locked
  Gives-poll_locked id source =
      Gives-attempt (Gives-with_client _ (Gives-poll_with_client id source)) λ e.
        Gives-kept_poll
          (keeps-on_x_error _ e (λ kind text. keeps-x_failed Unchanged-side run _ _ _ kind text))

  Gives-poll_found :
      (id : ℕ) (o : Option Source)
      → Gives
          (Unchanged before)
          (AfterPoll before)
          (Unchanged before)
          (poll_found outside broker run id o)
  Gives-poll_found id none = Gives-pure _ (λ w h. h)
  Gives-poll_found id (some source) = Gives-bind (Gives-keeps (Keeps-gets _)) λ accepted.
      Gives-bind (Gives-keeps (Keeps-gets _)) λ configuration.
        Gives-if (not (source.enabled && accepted) || not configuration.monitoring_enabled)
          (λ e. Gives-pure _ (λ w h. h))
          (λ e.
            Gives-if run.acquired (λ e'. Gives-poll_locked id source)
              (λ e'. Gives-pure _ (λ w h. h)))

  Gives-poll_source :
      (id : ℕ)
      → Gives
          (Unchanged before)
          (AfterPoll before)
          (Unchanged before)
          (poll_source outside broker run id)
  unfolding poll_source
  Gives-poll_source id = Gives-bind (Gives-keeps (Keeps-gets _)) (Gives-poll_found id)

-- A poll that ends in any other way than by success, with an outcome, an exception or a retry, leaves
-- all posts as they were, and all cursors and times of the last success: there is no partial poll.
pub poll-all_or_nothing :
    (outside : Outside) (broker : Broker) (run : PollRun) (id : ℕ) (w : World)
    → Post (AfterPoll w) (Unchanged w) (poll_source outside broker run id w)
poll-all_or_nothing outside broker run id w =
    (Gives-poll_source outside broker run w id).at w (record { posts = refl; sources = refl })
