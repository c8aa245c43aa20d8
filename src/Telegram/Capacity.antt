-- ===== src/Telegram/Capacity.antt =====
-- What campaigns have bought, under a whole run of the task (apps/telegram/tasks.py).
use quota_radar.Prelude.{
  ℕ, String, ◌≡◌, refl, Bool, true, false, Option, none, some, arith, List, if◌then◌else◌,
}
use quota_radar.Json.{Json}
use quota_radar.Action.{modify, pure, ◌>>◌}
use quota_radar.Action.Keeps.{Keeps, Keeps-bind, keeps_rules}
use quota_radar.Action.Gives.{
  Gives, Gives-keeps, Gives-kept, Gives-pure, Gives-bind, Gives-atomic, Gives-from, state_after,
}
use quota_radar.Models.Telegram.{Entity}
use quota_radar.Models.World.{World}
use quota_radar.Advertising.Formatting.{Rendered}
use quota_radar.Advertising.Capacity.{
  IsSound, IsHeld, IsSound-placements, IsSound-deliveries, IsSound-targets, IsSound-recorded,
  IsSound-elsewhere, IsHeld-elsewhere, IsHeld-deliveries,
}
use quota_radar.Advertising.Slots.{Claimed, IsSound-begin_send, IsSound-confirm_placement}
use quota_radar.Advertising.Offers.{IsSound-prepare_delivery}
use quota_radar.Telegram.State.{mark_sent}
use quota_radar.Telegram.Formatting.{TimeZones}
use quota_radar.Telegram.Loading.{Answer, Run, Loaded}
use quota_radar.Telegram.Conclusion.{conclude, republish}
use quota_radar.Telegram.Task.{
  post_request, request_of, send_with, send, finish, attempt_delivery, deliver_locked,
  deliver_found, deliver_existing, deliver_analysis,
}
use quota_radar.Telegram.Frame.{
  Frame, keeps-lock_target, keeps-increment_attempts, keeps-conclude, keeps-deliver_locked,
}

IsSound-frame : Frame IsSound
IsSound-frame = record {
  uncertain = λ k e. IsSound-deliveries _;
  failed = λ k e. IsSound-deliveries _;
  attempted = λ k now. IsSound-deliveries _;
  retried = λ k now e c. IsSound-deliveries _;
  doubted = λ k. IsSound-placements _ (λ c j p e. ground arith);
  released = λ k. IsSound-placements _ (λ c j p e. ground arith);
  returned = λ k. IsSound-placements _ (λ c j p e. ground arith);
  unsubscribed = λ k. IsSound-targets _;
  recorded = IsSound-recorded;
  republished = λ l. IsSound-elsewhere (republish l) (λ w. refl) (λ w. refl);
}

-- A confirmed send counts a placement that kept its slot.
IsSound-mark_sent :
    (now k : ℕ) (m : String) → Gives (IsHeld k) (λ _. IsSound) IsSound (mark_sent now k m)
unfolding mark_sent
IsSound-mark_sent now k m =
    Gives-atomic (λ w h. h.sound)
      (Gives-bind (Gives-kept (λ w h. h.sound) (keeps-lock_target k)) λ _.
        Gives-bind (Gives-kept (λ w h. h.sound) (IsHeld-deliveries k _))
          λ _. IsSound-confirm_placement now k)

-- What is known once the request was attempted: an answer of Telegram's means that the delivery's
-- placement, if it has one, occupies its slot.
record Attempted (k : ℕ) (o : Option Answer) (w : World) : Type 0 where
  sound : IsSound w
  held : (m : String) → o ≡ some (Answer.message_id m) → IsHeld k w

module _ (run : Run) (l : Loaded) where
  posted :
      (content : String × List Entity)
      → Keeps (IsHeld l.id) (modify (post_request (request_of l content)))
  posted content = IsHeld-elsewhere _ (λ w. refl) (λ w. refl) l.id

  after_claim :
      (content : String × List Entity) (b : Bool)
      → Gives (Claimed l.id b) (Attempted l.id) IsSound (
          if b
          then (modify (post_request (request_of l content)) >> pure (some run.answer))
          else pure none)
  after_claim content true =
      Gives-bind (Gives-from (λ w h. h.held refl) (Gives-kept (λ w h. h.sound) (posted content)))
        (λ _. Gives-pure _ (λ w h. record { sound = h.sound; held = λ m e. h }))
  after_claim content false = Gives-pure none (λ w h. record { sound = h.sound; held = λ m e. cc })

  IsSound-send :
      (content : String × List Entity) (o : Option String)
      → Gives IsSound (Attempted l.id) IsSound (send_with run l content o)
  unfolding send_with
  IsSound-send content none = Gives-bind (IsSound-begin_send l.id) (after_claim content)
  IsSound-send content (some error) = Gives-pure _ (λ w h. record { sound = h; held = λ m e. cc })

  IsSound-finish :
      (o : Option Answer) → Gives (Attempted l.id o) (λ _. IsSound) IsSound (finish run l o)
  unfolding conclude
  IsSound-finish none = Gives-pure _ (λ w h. h.sound)
  IsSound-finish (some (Answer.message_id m)) =
      Gives-bind (Gives-from (λ w h. h.held m refl) (IsSound-mark_sent run.later l.id m))
        (λ _. Gives-keeps (search (keeps_rules, IsSound-recorded) depth 12))
  IsSound-finish (some a) =
      Gives-from (λ w h. h.sound) (Gives-keeps (keeps-conclude IsSound-frame run l a (λ m e. cc)))

  IsSound-attempt :
      (content : String × List Entity) → Keeps IsSound (attempt_delivery run l content)
  unfolding attempt_delivery send
  IsSound-attempt content = record {
    at = state_after (
        Gives-bind (Gives-keeps (keeps-increment_attempts IsSound-frame run.now l.id))
          λ _. Gives-bind (IsSound-send content run.client) IsSound-finish);
  }

module _ (render_markup : String → Json → Rendered) (zones : TimeZones) where
  IsSound-deliver_locked :
      (run : Run) (l : Loaded) → Keeps IsSound (deliver_locked render_markup zones run l)
  IsSound-deliver_locked run l =
      keeps-deliver_locked IsSound-frame render_markup zones run l
        (IsSound-prepare_delivery render_markup l.id) (IsSound-attempt run l)

  IsSound-deliver_found :
      (run : Run) (o : Option Loaded) → Keeps IsSound (deliver_found render_markup zones run o)
  unfolding deliver_found
  IsSound-deliver_found run none = search keeps_rules
  IsSound-deliver_found run (some l) = IsSound-deliver_locked run l

  IsSound-deliver_existing :
      (run : Run) (analysis target : ℕ) (o : Option Loaded)
      → Keeps IsSound (deliver_existing render_markup zones run analysis target o)
  unfolding deliver_existing
  IsSound-deliver_existing run analysis target none = search keeps_rules
  IsSound-deliver_existing run analysis target (some l) =
      search (keeps_rules, IsSound-deliver_found)

  -- Whatever the run and Telegram's answer, and also where the task raises, no campaign holds more
  -- placements after the task than it has bought, if none did before.
  pub deliver_analysis-IsSound :
      (run : Run) (analysis target : ℕ) (w : World)
      → IsSound w
      → IsSound (deliver_analysis render_markup zones run analysis target w).1
  unfolding deliver_analysis
  deliver_analysis-IsSound run analysis target =
      (Keeps-bind _ _ (search keeps_rules) (IsSound-deliver_existing run analysis target)).at
