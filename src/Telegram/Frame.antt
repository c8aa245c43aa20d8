-- ===== src/Telegram/Frame.antt =====
-- What every state change of a delivery keeps. A predicate that survives each single write of the
-- delivery code survives the operations that are made of these writes.
use quota_radar.Prelude.{ℕ, String, Option, none, some, List, ◌≡◌, refl}
use quota_radar.Table.{at_pk}
use quota_radar.Telegram.Task.{
  reject_disabled, reject_stale, unprepared, attempt_delivery, deliver_prepared, deliver_locked,
  deliver_unsent, deliver_pending, prepare, message_text,
}
use quota_radar.Json.{Json}
use quota_radar.Models.Telegram.{Entity}
use quota_radar.Advertising.Formatting.{Rendered}
use quota_radar.Advertising.Reservation.{prepare_delivery}
use quota_radar.Telegram.Formatting.{TimeZones}
use quota_radar.Action.{modify, Exn, Result, ok, raised}
use quota_radar.Action.Keeps.{Keeps, Keeps-bind, keeps_rules}
use quota_radar.Models.Advertising.{PlacementStatus}
use quota_radar.Models.World.{
  World, record_monitoring_event, MonitoringComponent, MonitoringEventStatus,
}
use quota_radar.Advertising.Queries.{
  change_deliveries, change_placements, change_targets, lock_target, lift,
}
use quota_radar.Advertising.Sending.{
  mark_uncertain, uncertain_row, if_held, release, if_sending, retry_reserved, unconfirmed_send,
}
use quota_radar.Telegram.State.{
  increment_attempts, attempted, mark_failed, failed_row, mark_retry_scheduled, retry_row,
  mark_permanent_chat_failure, switched_off,
}
use quota_radar.Telegram.Loading.{Answer, Run, Loaded}
use quota_radar.Telegram.Conclusion.{
  republish, schedule_retry, fail_with, retry_or_fail, give_up_as_uncertain, conclude,
}
use quota_radar.Telegram.State.{mark_sent}

-- The writes of apps/telegram/delivery_state.py and apps/advertising/services.py, but for those that
-- claim a placement or publish it.
pub record Frame (P : World → Type 0) : Type 0 where
  pub uncertain : (k : ℕ) (e : String) → Keeps P (change_deliveries (at_pk k (uncertain_row e)))
  pub failed : (k : ℕ) (e : String) → Keeps P (change_deliveries (at_pk k (failed_row e)))
  pub attempted : (k now : ℕ) → Keeps P (change_deliveries (at_pk k (attempted now)))
  pub retried :
      (k now : ℕ) (e : String) (c : ℕ) → Keeps P (change_deliveries (at_pk k (retry_row now e c)))
  pub doubted : (k : ℕ) → Keeps P (change_placements (if_held k PlacementStatus.uncertain))
  pub released : (k : ℕ) → Keeps P (change_placements (if_held k PlacementStatus.released))
  pub returned : (k : ℕ) → Keeps P (change_placements (if_sending k))
  pub unsubscribed : (k : ℕ) → Keeps P (change_targets (at_pk k switched_off))
  pub recorded :
      (c : MonitoringComponent) (s : MonitoringEventStatus) (o : Option ℕ) (e : String)
      → Keeps P (record_monitoring_event c s o e)
  pub republished : (l : Loaded) → Keeps P (modify (republish l))

module _ {P : World → Type 0} where
  pub keeps-lift : {A : Type 0} (r : Result A) → Keeps P (lift r)
  keeps-lift (ok a) = search keeps_rules
  keeps-lift (raised e) = search keeps_rules

  pub keeps-lock_target : (k : ℕ) → Keeps P (lock_target k)
  unfolding lock_target
  keeps-lock_target k = search keeps_rules

module _ {P : World → Type 0} (frame : Frame P) where
  open frame use {
    uncertain, failed, attempted as attempts, retried, doubted, released, returned, unsubscribed,
    recorded, republished,
  }

  pub keeps-mark_uncertain : (k : ℕ) (error : String) → Keeps P (mark_uncertain k error)
  unfolding mark_uncertain
  keeps-mark_uncertain k error =
      search (keeps_rules, keeps-lock_target, uncertain, doubted, recorded) depth 12

  pub keeps-unconfirmed_send : (k : ℕ) → Keeps P (unconfirmed_send k)
  unfolding unconfirmed_send
  keeps-unconfirmed_send k = search (keeps_rules, keeps-mark_uncertain) depth 12

  pub keeps-increment_attempts : (now k : ℕ) → Keeps P (increment_attempts now k)
  unfolding increment_attempts
  keeps-increment_attempts now k = search (keeps_rules, attempts) depth 12

  pub keeps-release : (k : ℕ) → Keeps P (release k)
  unfolding release
  keeps-release k = released k

  pub keeps-mark_failed : (k : ℕ) (error : String) → Keeps P (mark_failed k error)
  unfolding mark_failed
  keeps-mark_failed k error =
      search (keeps_rules, keeps-lock_target, failed, keeps-release) depth 12

  pub keeps-mark_retry_scheduled :
      (now k : ℕ) (error : String) (countdown : ℕ)
      → Keeps P (mark_retry_scheduled now k error countdown)
  unfolding mark_retry_scheduled retry_reserved
  keeps-mark_retry_scheduled now k error countdown =
      search (keeps_rules, retried, returned) depth 12

  pub keeps-mark_permanent_chat_failure :
      (k : ℕ) (error : String) → Keeps P (mark_permanent_chat_failure k error)
  unfolding mark_permanent_chat_failure
  keeps-mark_permanent_chat_failure k error =
      search (keeps_rules, keeps-lock_target, failed, keeps-release, unsubscribed) depth 16

  pub keeps-fail_with : (l : Loaded) (error kind : String) → Keeps P (fail_with l error kind)
  unfolding fail_with
  keeps-fail_with l error kind = search (keeps_rules, keeps-mark_failed, recorded) depth 12

  keeps-schedule_retry :
      (run : Run) (l : Loaded) (error : String) (retry_after : Option ℕ)
      → Keeps P (schedule_retry run l error retry_after)
  unfolding schedule_retry
  keeps-schedule_retry run l error retry_after =
      search (keeps_rules, keeps-mark_retry_scheduled, recorded, republished) depth 12

  pub keeps-retry_or_fail :
      (run : Run) (l : Loaded) (error : String) (retry_after : Option ℕ)
      → Keeps P (retry_or_fail run l error retry_after)
  unfolding retry_or_fail
  keeps-retry_or_fail run l error retry_after =
      search (keeps_rules, keeps-schedule_retry, keeps-fail_with) depth 12

  pub keeps-give_up : (l : Loaded) (error : String) → Keeps P (give_up_as_uncertain l error)
  unfolding give_up_as_uncertain
  keeps-give_up l error = search (keeps_rules, keeps-mark_uncertain) depth 12

  -- The conclusion of a send; that of a confirmed one rests on what `mark_sent` does.
  pub keeps-conclude :
      (run : Run) (l : Loaded) (a : Answer)
      → ((m : String) → a ≡ Answer.message_id m → Keeps P (mark_sent run.later l.id m))
      → Keeps P (conclude run l a)
  unfolding conclude
  keeps-conclude run l (Answer.message_id m) publish =
      Keeps-bind _ _ (publish m refl) (λ _. search (keeps_rules, recorded) depth 12)
  keeps-conclude run l (Answer.temporary e r u) publish =
      search (keeps_rules, keeps-give_up, keeps-retry_or_fail) depth 12
  keeps-conclude run l (Answer.permanent_chat e) publish =
      search (keeps_rules, keeps-mark_permanent_chat_failure, recorded) depth 12
  keeps-conclude run l (Answer.response e) publish =
      search (keeps_rules, keeps-give_up, keeps-fail_with) depth 12
  keeps-conclude run l (Answer.authentication e) publish = search keeps-fail_with
  keeps-conclude run l (Answer.configuration e) publish = search keeps-fail_with

  pub keeps-reject_disabled : (l : Loaded) → Keeps P (reject_disabled l)
  unfolding reject_disabled
  keeps-reject_disabled l = search (keeps_rules, keeps-mark_failed, recorded) depth 12

  pub keeps-reject_stale : (l : Loaded) → Keeps P (reject_stale l)
  unfolding reject_stale
  keeps-reject_stale l = search (keeps_rules, keeps-mark_failed, recorded) depth 12

  pub keeps-unprepared : (l : Loaded) (e : Exn) → Keeps P (unprepared l e)
  keeps-unprepared l (Exn.value_error e) =
      search (keeps_rules, keeps-mark_failed, recorded) depth 12
  keeps-unprepared l (Exn.delivery_message_error e) =
      search (keeps_rules, keeps-mark_failed, recorded) depth 12
  keeps-unprepared l _ = search keeps_rules

  -- Everything after the preparation, for an attempt that keeps the predicate.
  pub keeps-deliver_prepared :
      (render_markup : String → Json → Rendered) (zones : TimeZones) (run : Run) (l : Loaded)
      (o : Option (String × List Entity))
      → ((content : String × List Entity) → Keeps P (attempt_delivery run l content))
      → Keeps P (deliver_prepared render_markup zones run l o)
  unfolding deliver_prepared
  keeps-deliver_prepared render_markup zones run l none attempt = search keeps_rules
  keeps-deliver_prepared render_markup zones run l (some content) attempt = attempt content

  -- The task under its lock, for a preparation and an attempt that keep the predicate.
  pub keeps-deliver_locked :
      (render_markup : String → Json → Rendered) (zones : TimeZones) (run : Run) (l : Loaded)
      → ((text : String) → Keeps P (prepare_delivery render_markup l.id text))
      → ((content : String × List Entity) → Keeps P (attempt_delivery run l content))
      → Keeps P (deliver_locked render_markup zones run l)
  unfolding deliver_locked deliver_unsent deliver_pending prepare message_text
  keeps-deliver_locked render_markup zones run l preparing attempting =
      search
        (
          keeps_rules, preparing, attempting, keeps-lift, keeps-unconfirmed_send,
          keeps-reject_disabled, keeps-reject_stale, keeps-unprepared, keeps-deliver_prepared,
        )
        depth 20
