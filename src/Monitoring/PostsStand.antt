-- ===== src/Monitoring/PostsStand.antt =====
-- The stored posts under polls and imports (apps/monitoring/services.py, `get_or_create`).
use mathlib.Core.Option
use quota_radar.Prelude.{
  ℕ, String, ◌≡◌, refl, sym, ap, ◌∙◌, inl, inr, true, false, Option, none, some, [], ◌∷◌, ◌++◌,
  arith, eq_iff, str_eq, is_some, Bool-cases, Option-cases,
}
use quota_radar.Table.{Rows, find, adjust, at_pk, first, create, change, find-adjust}
use quota_radar.Table.Keys.{find-create}
use quota_radar.Action.{found, modify, ◌>>=◌}
use quota_radar.Action.Keeps.{Keeps, Keeps-modify}
use quota_radar.Models.Sources.{Source, SourcePostProcessingStatus, SourcePost}
use quota_radar.Models.World.{
  MonitoringComponent, MonitoringEventStatus, World, record_monitoring_event,
}
use quota_radar.Dispatch.{Broker}
use quota_radar.Monitoring.Dispatch.{change_posts, queued_row, restored_row}
use quota_radar.Monitoring.Normalization.{NormalizedSourcePost}
use quota_radar.Monitoring.Preparation.{Outside}
use quota_radar.Monitoring.Ingestion.{
  has_external_id, new_post, create_post, get_or_create_post, change_sources, record_source_error,
}
use quota_radar.Monitoring.Polling.{PollRun, poll_source}
use quota_radar.Monitoring.Backfill.{backfill_source}
use quota_radar.Monitoring.PollingKeeps.{ImportSteps, PollSteps}
use quota_radar.Monitoring.PollKeeps.{keeps-poll_source}
use quota_radar.Monitoring.BackfillKeeps.{keeps-backfill_source}
use quota_radar.Monitoring.PostStore.{stored, stored-first}

-- No two rows have one X id.
unfoldable pub IsDistinct : Rows SourcePost → Type 0
IsDistinct [] = Unit
IsDistinct ((k, p) ∷ rs) = (stored p.external_id rs ≡ none) × IsDistinct rs

-- A post without its place in the analysis queue.
abbrev pub content : SourcePost → SourcePost
content p = record p {
  processing_status = SourcePostProcessingStatus.received;
  processing_started_at = none;
  last_error = "";
}

-- The X ids are distinct, and the row with this key has this content.
pub record Stands (k : ℕ) (p : SourcePost) (w : World) : Type 0 where
  pub distinct : IsDistinct w.posts.rows
  pub row : SourcePost
  pub at : find k w.posts.rows ≡ some row
  pub same : content row ≡ content p

stored-adjust :
    (g : ℕ → SourcePost → SourcePost)
    → ((k : ℕ) (p : SourcePost) → (g k p).external_id ≡ p.external_id)
    → (id : String) (rs : Rows SourcePost) → stored id rs ≡ none
    → stored id (adjust g rs) ≡ none
unfolding stored adjust
stored-adjust g same id [] h = refl
stored-adjust g same id ((k, p) ∷ rs) h = ground (arith, same k p, stored-adjust g same id rs)

IsDistinct-adjust :
    (g : ℕ → SourcePost → SourcePost)
    → ((k : ℕ) (p : SourcePost) → (g k p).external_id ≡ p.external_id)
    → (rs : Rows SourcePost) → IsDistinct rs
    → IsDistinct (adjust g rs)
unfolding IsDistinct adjust
IsDistinct-adjust g same [] h = tt
IsDistinct-adjust g same ((k, p) ∷ rs) (here, h) =
    (rw (same k p) (stored-adjust g same p.external_id rs here), IsDistinct-adjust g same rs h)

stored-other :
    (id : String) (k : ℕ) (p : SourcePost) (rs : Rows SourcePost)
    → stored id rs ≡ none
    → has_external_id id p ≡ false
    → stored id (rs ++ ((k, p) ∷ [])) ≡ none
unfolding stored
stored-other id k p [] h e = ground arith
stored-other id k p ((j, q) ∷ rs) h e = ground (arith, stored-other id k p rs)

symmetric : (s t : String) → str_eq s t ≡ false → str_eq t s ≡ false
symmetric s t e = elim (Bool-cases (str_eq t s)) [
  | inl same ↦
      let here : s ≡ t = sym ((eq_iff t s).0 same) in
      let hit : str_eq s t ≡ true = (eq_iff s t).1 here in cc
  | inr other ↦ other
]

IsDistinct-append :
    (k : ℕ) (p : SourcePost) (rs : Rows SourcePost)
    → IsDistinct rs
    → stored p.external_id rs ≡ none
    → IsDistinct (rs ++ ((k, p) ∷ []))
unfolding IsDistinct stored
IsDistinct-append k p [] h absent = (refl, tt)
IsDistinct-append k p ((j, q) ∷ rs) (here, h) absent =
    elim (Bool-cases (has_external_id p.external_id q)) [
      | inl hit ↦ let clash : some q ≡ none = simp hit at absent in cc
      | inr missed ↦ (
        stored-other q.external_id k p rs here (symmetric q.external_id p.external_id missed),
        IsDistinct-append k p rs h (simp missed at absent),
      )
    ]

missing :
    (id : String) (rs : Rows SourcePost)
    → is_some (first (has_external_id id) rs) ≡ false
    → stored id rs ≡ none
missing id rs e = elim (Option-cases (stored id rs)) [
  | inl absent ↦ absent
  | inr (p, found) ↦
      let e' : is_some (stored id rs) ≡ false = sym (stored-first id rs) ∙ e in
      let clash : true ≡ false = rw (← e', found) refl in cc
]

content-queued : (j now i : ℕ) (q : SourcePost) → content (at_pk j (queued_row now) i q) ≡ content q
content-queued j now i q = ground arith

content-restored :
    (j : ℕ) (previous : SourcePost) (i : ℕ) (q : SourcePost)
    → content (at_pk j (restored_row previous) i q) ≡ content q
content-restored j previous i q = ground arith

module _ {k : ℕ} {p : SourcePost} where
  -- What leaves the posts alone.
  Stands-other :
      (f : World → World) → ((w : World) → (f w).posts ≡ w.posts) → Keeps (Stands k p) (modify f)
  Stands-other f same = Keeps-modify _ λ w h. record {
    distinct = rw (same w) h.distinct;
    row = h.row;
    at = rw (same w) h.at;
    same = h.same;
  }

  Stands-sources : (g : ℕ → Source → Source) → Keeps (Stands k p) (change_sources g)
  unfolding change_sources
  Stands-sources g = Stands-other _ (λ w. refl)

  Stands-event :
      (c : MonitoringComponent) (s : MonitoringEventStatus) (source : Option ℕ) (e : String)
      → Keeps (Stands k p) (record_monitoring_event c s source e)
  unfolding record_monitoring_event
  Stands-event c s source e = Stands-other _ (λ w. refl)

  -- A change of the places in the queue only.
  Stands-posts :
      (g : ℕ → SourcePost → SourcePost)
      → ((j : ℕ) (q : SourcePost) → content (g j q) ≡ content q)
      → Keeps (Stands k p) (change_posts g)
  unfolding change_posts change
  Stands-posts g same = Keeps-modify _ λ w h. record {
    distinct =
        IsDistinct-adjust g (λ j q. ap (λ (c : SourcePost). c.external_id) (same j q)) w.posts.rows
          h.distinct;
    row = g k h.row;
    at = find-adjust g k w.posts.rows ∙ ap (Option.map (g k)) h.at;
    same = same k h.row ∙ h.same;
  }

  Stands-create :
      (q : SourcePost) (w : World)
      → stored q.external_id w.posts.rows ≡ none
      → Stands k p w
      → Stands k p (create_post q w)
  unfolding create
  Stands-create q w absent h = record {
    distinct = IsDistinct-append w.posts.next q w.posts.rows h.distinct absent;
    row = h.row;
    at = find-create k h.row q w.posts h.at;
    same = h.same;
  }

  Stands-created :
      (source : ℕ) (payload : NormalizedSourcePost)
      → Keeps (Stands k p) (get_or_create_post source payload)
  unfolding get_or_create_post ◌>>=◌
  Stands-created source payload = record {
    at = λ w h.
        let new = Stands-create (new_post source payload) w in
        let absent = missing payload.external_id w.posts.rows in
        elim (Bool-cases (is_some (first (has_external_id payload.external_id) w.posts.rows))) [
          | inl known ↦ rw known h
          | inr e ↦ rw e (new (absent e) h)
        ];
  }

  Stands-steps : ImportSteps (Stands k p)
  unfolding record_source_error
  Stands-steps = record {
    side = record {
      event = Stands-event;
      sent = λ m. Stands-other _ (λ w. refl);
      resolved = λ j now user_id. Stands-sources _;
      unresolved = λ j now. Stands-sources _;
      faulty = λ now ids message. Stands-sources _;
    };
    queued = λ j now. Stands-posts _ (content-queued j now);
    restored = λ j previous. Stands-posts _ (content-restored j previous);
    created = Stands-created;
  }

  Stands-poll_steps : PollSteps (Stands k p)
  Stands-poll_steps = record {
    imports = Stands-steps;
    polled = λ j now cursor newest_id. Stands-sources _;
  }

-- A poll and an import, whatever X answers and however they end, keep the X ids of the stored posts
-- distinct, and keep every stored post but for its place in the analysis queue.
pub poll-keeps_posts :
    (outside : Outside) (broker : Broker) (run : PollRun) (source k : ℕ) (p : SourcePost)
    (w : World)
    → Stands k p w
    → Stands k p (poll_source outside broker run source w).1
      × Stands k p (backfill_source outside broker run source w).1
poll-keeps_posts outside broker run source k p w h = (
  (keeps-poll_source Stands-poll_steps outside broker run source).at w h,
  (keeps-backfill_source Stands-steps outside broker run source).at w h,
)
