-- ===== src/Monitoring/Cursor.antt =====
-- The poll cursors of sources under polls and imports (apps/monitoring/services.py).
use mathlib.Core.Option
use quota_radar.Prelude.{
  ℕ, String, ◌≡◌, refl, ap, ◌∙◌, inl, inr, Option, none, some, List, ◌==◌, nonempty, Bool-cases,
  contains,
}
use quota_radar.Table.{Table, find, at_pk, change, find-adjust}
use quota_radar.Action.{modify}
use quota_radar.Action.Keeps.{Keeps, Keeps-modify, keeps_rules}
use quota_radar.Models.Sources.{Source, SourcePost}
use quota_radar.Models.World.{
  MonitoringComponent, MonitoringEventStatus, World, record_monitoring_event,
}
use quota_radar.Dispatch.{Broker}
use quota_radar.Monitoring.Dispatch.{change_posts}
use quota_radar.Monitoring.PostIdOrder.{AsNew, AsNew-newer_of, AsNew-empty, is_empty}
use quota_radar.Monitoring.Preparation.{Outside}
use quota_radar.Monitoring.Ingestion.{
  create_post, get_or_create_post, change_sources, restored_cursor, next_cursor,
  record_source_error,
}
use quota_radar.Monitoring.Resolution.{ids, resolved_row, unresolved_row}
use quota_radar.Monitoring.Polling.{PollRun, poll_source}
use quota_radar.Monitoring.Backfill.{backfill_source}
use quota_radar.Monitoring.Normalization.{NormalizedSourcePost}
use quota_radar.Monitoring.PollingKeeps.{ImportSteps, PollSteps}
use quota_radar.Monitoring.PollKeeps.{keeps-poll_source}
use quota_radar.Monitoring.BackfillKeeps.{keeps-backfill_source}

pub AsNew-restored_cursor :
    (a s : String) (poll_cursor : Option String)
    → AsNew a s
    → AsNew a (restored_cursor poll_cursor s)
AsNew-restored_cursor a s none h = h
AsNew-restored_cursor a s (some cursor) h = elim (Bool-cases (nonempty s)) [
  | inl e ↦ rw e h
  | inr e ↦ let empty : s ≡ "" = is_empty s e in rw e (AsNew-empty a cursor (rw (← empty) h))
]

pub AsNew-next_cursor :
    (a s newest_id : String) (poll_cursor : Option String)
    → AsNew a s
    → AsNew a (next_cursor poll_cursor newest_id s)
AsNew-next_cursor a s newest_id poll_cursor h =
    let restored = AsNew-restored_cursor a s poll_cursor h in
    elim (Bool-cases (nonempty newest_id)) [
      | inl e ↦ rw e (AsNew-newer_of a (restored_cursor poll_cursor s) newest_id restored)
      | inr e ↦ rw e restored
    ]

-- A condition on the row of one source.
pub record SourceHas (id : ℕ) (C : Source → Type 0) (w : World) : Type 0 where
  pub row : Source
  pub at : find id w.sources.rows ≡ some row
  pub holds_of : C row

at_pk-keeps :
    {C : Source → Type 0} (k : ℕ) (f : Source → Source)
    → ((s : Source) → C s → C (f s))
    → (j : ℕ) (s : Source) → C s
    → C (at_pk k f j s)
at_pk-keeps k f step j s h = elim (Bool-cases (j == k)) [ inl e ↦ rw e (step s h) | inr e ↦ rw e h ]

module _ {id : ℕ} {C : Source → Type 0} where
  keeps-sources :
      (g : ℕ → Source → Source)
      → ((k : ℕ) (s : Source) → C s → C (g k s))
      → Keeps (SourceHas id C) (change_sources g)
  unfolding change_sources change
  keeps-sources g forward = Keeps-modify _ λ w h. record {
    row = g id h.row;
    at = find-adjust g id w.sources.rows ∙ ap (Option.map (g id)) h.at;
    holds_of = forward id h.row h.holds_of;
  }

  -- What leaves the sources alone.
  keeps-other :
      (f : World → World)
      → ((w : World) → (f w).sources ≡ w.sources)
      → Keeps (SourceHas id C) (modify f)
  keeps-other f same = Keeps-modify _ λ w h. record {
    row = h.row;
    at = ap (λ (t : Table Source). find id t.rows) (same w) ∙ h.at;
    holds_of = h.holds_of;
  }

  keeps-event :
      (c : MonitoringComponent) (s : MonitoringEventStatus) (source : Option ℕ) (e : String)
      → Keeps (SourceHas id C) (record_monitoring_event c s source e)
  unfolding record_monitoring_event
  keeps-event c s source e = keeps-other _ (λ w. refl)

  keeps-change_posts : (g : ℕ → SourcePost → SourcePost) → Keeps (SourceHas id C) (change_posts g)
  unfolding change_posts
  keeps-change_posts g = keeps-other _ (λ w. refl)

  keeps-create_post : (p : SourcePost) → Keeps (SourceHas id C) (modify (create_post p))
  keeps-create_post p = keeps-other _ (λ w. refl)

  keeps-created :
      (source : ℕ) (payload : NormalizedSourcePost)
      → Keeps (SourceHas id C) (get_or_create_post source payload)
  unfolding get_or_create_post
  keeps-created source payload = search (keeps_rules, keeps-create_post) depth 12

  keeps-faulty :
      ((now : ℕ) (message : String) (s : Source)
        → C s
        → C (record s { last_checked_at = some now; last_error = message }))
      → (now : ℕ) (ids : List ℕ) (message : String)
      → Keeps (SourceHas id C) (record_source_error now ids message)
  unfolding record_source_error
  keeps-faulty faulty now ids message = keeps-sources _ λ k s h.
      elim (Bool-cases (contains ids k)) [ inl e ↦ rw e (faulty now message s h) | inr e ↦ rw e h ]

  -- The steps of an import, for a condition that a resolution of the user id keeps.
  import_steps :
      ((now : ℕ) (user_id : String) (s : Source) → C s → C (resolved_row now user_id s))
      → ((now : ℕ) (s : Source) → C s → C (unresolved_row now s))
      → ((now : ℕ) (message : String) (s : Source)
          → C s
          → C (record s { last_checked_at = some now; last_error = message }))
      → ImportSteps (SourceHas id C)
  import_steps resolved unresolved faulty = record {
    side = record {
      event = keeps-event;
      sent = λ m. keeps-other _ (λ w. refl);
      resolved = λ k now user_id. keeps-sources _ (at_pk-keeps {C = C} k _ (resolved now user_id));
      unresolved = λ k now. keeps-sources _ (at_pk-keeps {C = C} k _ (unresolved now));
      faulty = keeps-faulty faulty;
    };
    queued = λ k now. keeps-change_posts _;
    restored = λ k p. keeps-change_posts _;
    created = keeps-created;
  }

-- The poll cursor of the source is as new as this id.
abbrev pub Reached : ℕ → String → World → Type 0
Reached id cursor = SourceHas id (λ s. AsNew cursor s.last_post_id)

poll_steps : (id : ℕ) (cursor : String) → PollSteps (Reached id cursor)
poll_steps id cursor = record {
  imports = import_steps (λ now user_id s h. h) (λ now s h. h) (λ now message s h. h);
  polled = λ k now poll_cursor newest_id. keeps-sources _ (
      at_pk-keeps {C = λ s. AsNew cursor s.last_post_id} k _
        (λ s. AsNew-next_cursor cursor s.last_post_id newest_id poll_cursor));
}

-- A poll of any source, whatever X answers and whether it succeeds, fails or is retried, leaves every
-- source with a cursor that is not older than the one it had.
pub poll-cursor_forward :
    (outside : Outside) (broker : Broker) (run : PollRun) (polled id : ℕ) (cursor : String)
    (w : World)
    → Reached id cursor w
    → Reached id cursor (poll_source outside broker run polled w).1
poll-cursor_forward outside broker run polled id cursor w h =
    (keeps-poll_source (poll_steps id cursor) outside broker run polled).at w h

-- An import of older posts leaves the cursor and the time of the last success of every source as
-- they are, whatever X answers.
pub backfill-keeps_cursor :
    (outside : Outside) (broker : Broker) (run : PollRun) (imported id : ℕ) (cursor : String)
    (success : Option ℕ) (w : World)
    → SourceHas id (λ s. (s.last_post_id ≡ cursor) × (s.last_success_at ≡ success)) w
    → SourceHas id
        (λ s. (s.last_post_id ≡ cursor) × (s.last_success_at ≡ success))
        (backfill_source outside broker run imported w).1
backfill-keeps_cursor outside broker run imported id cursor success w h =
    (keeps-backfill_source
        (import_steps (λ now user_id s h. h) (λ now s h. h) (λ now message s h. h)) outside broker
        run imported).at
      w h
