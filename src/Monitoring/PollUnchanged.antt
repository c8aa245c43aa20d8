-- ===== src/Monitoring/PollUnchanged.antt =====
-- The steps of a poll that store nothing (apps/monitoring/services.py, tasks.py).
use quota_radar.Prelude.{
  ℕ, String, ◌≡◌, refl, ap, ◌∙◌, inl, inr, Option, List, [], ◌∷◌, ◌==◌, Bool-cases, contains,
}
use quota_radar.Table.{Rows, Table, adjust, at_pk, change}
use quota_radar.Action.{modify}
use quota_radar.Action.Keeps.{Keeps, Keeps-modify}
use quota_radar.Models.Sources.{Source}
use quota_radar.Models.World.{
  MonitoringComponent, MonitoringEventStatus, Message, World, record_monitoring_event,
}
use quota_radar.Dispatch.{with_message}
use quota_radar.Monitoring.Ingestion.{change_sources, record_source_error}
use quota_radar.Monitoring.Resolution.{ids}
use quota_radar.Monitoring.PollingKeeps.{SideSteps}

-- The cursors of the sources and the times of their last successful polls.
abbrev pub progress : Rows Source → List (ℕ × String × Option ℕ)
progress [] = []
progress ((id, s) ∷ rs) = (id, s.last_post_id, s.last_success_at) ∷ progress rs

-- The posts and the progress of the polls are as they were in this state.
pub record Unchanged (before : World) (w : World) : Type 0 where
  pub posts : w.posts ≡ before.posts
  pub sources : progress w.sources.rows ≡ progress before.sources.rows

progress-adjust :
    (g : ℕ → Source → Source)
    → ((k : ℕ) (s : Source)
        → ((g k s).last_post_id ≡ s.last_post_id) × ((g k s).last_success_at ≡ s.last_success_at))
    → (rs : Rows Source) → progress (adjust g rs) ≡ progress rs
unfolding adjust
progress-adjust g same [] = refl
progress-adjust g same ((k, s) ∷ rs) =
    let (cursor, success) = same k s in rw (cursor, success, progress-adjust g same rs) refl

module _ {before : World} where
  Unchanged-other :
      (f : World → World)
      → ((w : World) → (f w).posts ≡ w.posts)
      → ((w : World) → (f w).sources ≡ w.sources)
      → Keeps (Unchanged before) (modify f)
  Unchanged-other f posts sources = Keeps-modify _ λ w h. record {
    posts = posts w ∙ h.posts;
    sources = ap (λ (t : Table Source). progress t.rows) (sources w) ∙ h.sources;
  }

  pub Unchanged-event :
      (c : MonitoringComponent) (s : MonitoringEventStatus) (source : Option ℕ) (e : String)
      → Keeps (Unchanged before) (record_monitoring_event c s source e)
  unfolding record_monitoring_event
  Unchanged-event c s source e = Unchanged-other _ (λ w. refl) (λ w. refl)

  Unchanged-sent : (m : Message) → Keeps (Unchanged before) (modify (with_message m))
  Unchanged-sent m = Unchanged-other _ (λ w. refl) (λ w. refl)

  Unchanged-sources :
      (g : ℕ → Source → Source)
      → ((k : ℕ) (s : Source)
          → ((g k s).last_post_id ≡ s.last_post_id) × ((g k s).last_success_at ≡ s.last_success_at))
      → Keeps (Unchanged before) (change_sources g)
  unfolding change_sources change
  Unchanged-sources g same =
      Keeps-modify _ λ w h. record {
        posts = h.posts;
        sources = progress-adjust g same w.sources.rows ∙ h.sources;
      }

  Unchanged-at :
      (id : ℕ) (f : Source → Source)
      → ((s : Source)
          → ((f s).last_post_id ≡ s.last_post_id) × ((f s).last_success_at ≡ s.last_success_at))
      → Keeps (Unchanged before) (change_sources (at_pk id f))
  Unchanged-at id f same =
      Unchanged-sources _
        λ k s. elim (Bool-cases (k == id)) [ inl e ↦ rw e (same s) | inr e ↦ rw e (refl, refl) ]

  Unchanged-faulty :
      (now : ℕ) (ids : List ℕ) (message : String)
      → Keeps (Unchanged before) (record_source_error now ids message)
  unfolding record_source_error
  Unchanged-faulty now ids message = Unchanged-sources _ λ k s. elim (Bool-cases (contains ids k)) [
    | inl e ↦ rw e (refl, refl)
    | inr e ↦ rw e (refl, refl)
  ]

  pub Unchanged-side : SideSteps (Unchanged before)
  Unchanged-side = record {
    event = Unchanged-event;
    sent = Unchanged-sent;
    resolved = λ k now user_id. Unchanged-at k _ (λ s. (refl, refl));
    unresolved = λ k now. Unchanged-at k _ (λ s. (refl, refl));
    faulty = Unchanged-faulty;
  }
