-- ===== src/Analysis/ResultStays.antt =====
-- The stored result of an analysis under the steps of the task (apps/analysis/tasks.py).
use mathlib.Core.Option
use mathlib.Core.Option.{some-injective}
use quota_radar.Prelude.{
  ℕ, String, ◌≡◌, ◌≢◌, refl, sym, ap, ◌∙◌, Bool, true, false, not, ◌||◌, is_some, Option, none,
  some, List, [], ◌∷◌, arith,
}
use quota_radar.Table.{find, at_pk, create, change, find-adjust}
use quota_radar.Table.Keys.{IsTable, change-IsTable}
use quota_radar.Action.{modify}
use quota_radar.Action.Keeps.{
  Keeps, Keeps-pure, Keeps-bind, Keeps-if, Keeps-found, Keeps-gets, Keeps-found-bind, Keeps-modify,
  keeps_rules,
}
use quota_radar.Models.Sources.{SourcePost}
use quota_radar.Models.Analysis.{Analysis, is_true}
use quota_radar.Telegram.Freshness.{stale}
use quota_radar.Models.Telegram.{DeliveryTarget, Delivery}
use quota_radar.Models.World.{
  MonitoringComponent, MonitoringEventStatus, Message, World, record_monitoring_event,
}
use quota_radar.Advertising.Queries.{change_deliveries}
use quota_radar.Dispatch.{Broker, with_message, delay}
use quota_radar.Monitoring.Dispatch.{change_posts}
use quota_radar.Telegram.Fanout.{
  post_row, completed_row, complete_fanout, create_delivery, get_or_create, create_deliveries,
  dispatch_delivery, dispatch_deliveries, fan_out, skip_stale, queue_locked,
  queue_analysis_deliveries,
}

-- An analysis without the time of its fan-out.
abbrev pub result_of : Analysis → Analysis
result_of a = record a { delivery_fanout_completed_at = none }

-- The analysis with this key, where only the time of the fan-out may differ, if there was none.
pub record HasResult (k : ℕ) (a : Analysis) (w : World) : Type 0 where
  pub keys : IsTable w.analyses
  pub row : Analysis
  pub at : find k w.analyses.rows ≡ some row
  pub same : result_of row ≡ result_of a
  pub whole : is_some a.delivery_fanout_completed_at ≡ true → row ≡ a

module _ {k : ℕ} {a : Analysis} where
  pub keeps-rest :
      (f : World → World)
      → ((w : World) → (f w).analyses ≡ w.analyses)
      → Keeps (HasResult k a) (modify f)
  keeps-rest f same = Keeps-modify _ λ w h. record {
    keys = rw (same w) h.keys;
    row = h.row;
    at = rw (same w) h.at;
    same = h.same;
    whole = h.whole;
  }

  pub keeps-ai_event :
      (c : MonitoringComponent) (s : MonitoringEventStatus) (source : Option ℕ) (e : String)
      → Keeps (HasResult k a) (record_monitoring_event c s source e)
  unfolding record_monitoring_event
  keeps-ai_event c s source e = keeps-rest _ (λ w. refl)

  pub keeps-post : (g : ℕ → SourcePost → SourcePost) → Keeps (HasResult k a) (change_posts g)
  unfolding change_posts
  keeps-post g = keeps-rest _ (λ w. refl)

  pub keeps-message : (m : Message) → Keeps (HasResult k a) (modify (with_message m))
  keeps-message m = keeps-rest _ (λ w. refl)

  keeps-deliveries : (g : ℕ → Delivery → Delivery) → Keeps (HasResult k a) (change_deliveries g)
  unfolding change_deliveries
  keeps-deliveries g = keeps-rest _ (λ w. refl)

  keeps-new_delivery :
      (d : Delivery)
      → Keeps (HasResult k a) (modify (λ w. record w { deliveries = create d w.deliveries }))
  keeps-new_delivery d = keeps-rest _ (λ w. refl)

  keeps-create_delivery :
      (now analysis target : ℕ) (o : Option (ℕ × Delivery))
      → Keeps (HasResult k a) (create_delivery now analysis target o)
  unfolding create_delivery
  keeps-create_delivery now analysis target none = search (keeps_rules, keeps-new_delivery) depth 12
  keeps-create_delivery now analysis target (some d) = search keeps_rules

  keeps-get_or_create :
      (now analysis target : ℕ) → Keeps (HasResult k a) (get_or_create now analysis target)
  unfolding get_or_create
  keeps-get_or_create now analysis target = search (keeps_rules, keeps-create_delivery) depth 12

  keeps-create_deliveries :
      (now analysis : ℕ) (targets : List (ℕ × DeliveryTarget))
      → Keeps (HasResult k a) (create_deliveries now analysis targets)
  unfolding create_deliveries
  keeps-create_deliveries now analysis [] = search keeps_rules
  keeps-create_deliveries now analysis ((t, row) ∷ targets) =
      Keeps-bind _ _ (keeps-get_or_create now analysis t) λ created.
        Keeps-bind _ _ (keeps-create_deliveries now analysis targets) λ rest. Keeps-pure _

  -- Only the time of the fan-out changes, and not that of an analysis which has one.
  keeps-complete_fanout :
      (now id : ℕ)
      → (is_some a.delivery_fanout_completed_at ≡ true → id ≢ k)
      → Keeps (HasResult k a) (complete_fanout now id)
  unfolding complete_fanout change
  keeps-complete_fanout now id other = Keeps-modify _ λ w h. record {
    keys = change-IsTable (at_pk id (completed_row now)) h.keys;
    row = at_pk id (completed_row now) k h.row;
    at = find-adjust (at_pk id (completed_row now)) k w.analyses.rows ∙ ap (Option.map _) h.at;
    same = completed id now k h.row ∙ h.same;
    whole = λ done. let ne = other done in elsewhere id now k h.row ne ∙ h.whole done;
  }
    where
      completed :
          (id now j : ℕ) (b : Analysis) → result_of (at_pk id (completed_row now) j b) ≡ result_of b
      completed id now j b = ground arith

      elsewhere : (id now j : ℕ) (b : Analysis) → id ≢ j → at_pk id (completed_row now) j b ≡ b
      elsewhere id now j b ne = ground arith

  keeps-fan_out :
      (broker : Broker) (before : ℕ × DeliveryTarget → ℕ × DeliveryTarget → Bool) (now id : ℕ)
      → (is_some a.delivery_fanout_completed_at ≡ true → id ≢ k)
      → Keeps (HasResult k a) (fan_out broker before now id)
  unfolding fan_out
  keeps-fan_out broker before now id other = Keeps-bind _ _ (Keeps-gets _) λ targets.
      Keeps-bind _ _ (keeps-create_deliveries now id targets)
        λ created. Keeps-bind _ _ (keeps-complete_fanout now id other) λ done. Keeps-pure created

  keeps-skip_stale :
      (broker : Broker) (before : ℕ × DeliveryTarget → ℕ × DeliveryTarget → Bool) (now id : ℕ)
      (post : SourcePost)
      → (is_some a.delivery_fanout_completed_at ≡ true → id ≢ k)
      → Keeps (HasResult k a) (skip_stale broker before now id post)
  unfolding skip_stale
  keeps-skip_stale broker before now id post other =
      Keeps-bind _ _ (keeps-complete_fanout now id other)
        λ done. Keeps-bind _ _ (keeps-ai_event _ _ _ _) λ reported. Keeps-pure []

  -- An analysis whose fan-out is still to be done is not one that has its time.
  unfinished-other :
      (id : ℕ) (b : Analysis) (w : World)
      → HasResult k a w
      → find id w.analyses.rows ≡ some b
      → is_some b.delivery_fanout_completed_at ≡ false
      → is_some a.delivery_fanout_completed_at ≡ true
      → id ≢ k
  unfinished-other id b w h e open_yet done same =
      let here : b ≡ h.row =
        some-injective _ _ (sym e ∙ ap (λ j. find j w.analyses.rows) same ∙ h.at) in
      let differ : false ≡ true =
        sym open_yet
        ∙ ap (λ (c : Analysis). is_some c.delivery_fanout_completed_at) (here ∙ h.whole done)
        ∙ done in
      cc

  keeps-queue_locked :
      (broker : Broker) (before : ℕ × DeliveryTarget → ℕ × DeliveryTarget → Bool) (now id : ℕ)
      → Keeps (HasResult k a) (queue_locked broker before now id)
  unfolding queue_locked
  keeps-queue_locked broker before now id = Keeps-found-bind _ _ λ w b h e.
      (Keeps-bind _ _ (Keeps-found (post_row b.source_post)) λ post.
          Keeps-if (not (is_true b.is_relevant) || is_some b.delivery_fanout_completed_at) _ _
            (λ done. Keeps-pure [])
            λ to_do.
              let other = unfinished-other id b w h e (ground arith) in
              Keeps-if (stale post.published_at now) _ _
                (λ old. keeps-skip_stale broker before now id post other)
                (λ fresh. keeps-fan_out broker before now id other)).at
        w h

  pub keeps-queue :
      (broker : Broker) (before : ℕ × DeliveryTarget → ℕ × DeliveryTarget → Bool) (now id : ℕ)
      → Keeps (HasResult k a) (queue_analysis_deliveries broker before now id)
  unfolding queue_analysis_deliveries dispatch_deliveries dispatch_delivery delay
  keeps-queue broker before now id =
      search (keeps_rules, keeps-queue_locked, keeps-message, keeps-deliveries) depth 30
