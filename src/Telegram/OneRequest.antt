-- ===== src/Telegram/OneRequest.antt =====
-- The number of requests that a run of the delivery task puts on the network
-- (apps/telegram/tasks.py).
use quota_radar.Prelude.{ℕ, String, ◌≡◌, refl, Option, none, some, List, ◌∷◌}
use quota_radar.Json.{Json}
use quota_radar.Action.{modify}
use quota_radar.Action.Keeps.{Keeps, Keeps-pure, keeps_rules}
use quota_radar.Action.Gives.{
  Gives, Gives-keeps, Gives-kept, Gives-pure, Gives-modify, Gives-bind, Gives-if, Post-both,
  state_after,
}
use quota_radar.Models.Telegram.{Entity, is_sent, is_uncertain, is_failed}
use quota_radar.Telegram.Freshness.{stale}
use quota_radar.Models.World.{World, Do, SendRequest}
use quota_radar.Advertising.Formatting.{Rendered}
use quota_radar.Telegram.Formatting.{TimeZones}
use quota_radar.Telegram.Loading.{Answer, Run, Loaded}
use quota_radar.Telegram.Task.{
  post_request, request_of, waits, undeliverable, send_with, send, finish, attempt_delivery,
  deliver_locked, deliver_found, deliver_existing, deliver_analysis, deliver_unsent,
  deliver_pending, deliver_prepared, prepare, message_text,
}
use quota_radar.Telegram.Frame.{
  keeps-increment_attempts, keeps-conclude, keeps-lift, keeps-unprepared, keeps-reject_disabled,
  keeps-reject_stale, keeps-unconfirmed_send,
}
use quota_radar.Telegram.Requests.{
  OfRequests, requests_frame, on_mark_sent, on_begin_send, on_prepare_delivery,
}

-- These requests, or one more in front of them.
pub data OneMore (rs : List SendRequest) : List SendRequest → Type 0 where
  no_more : OneMore rs rs
  one_more : (r : SendRequest) → OneMore rs (r ∷ rs)

module _ (rs : List SendRequest) where
  abbrev Before : World → Type 0
  Before = OfRequests (λ x. x ≡ rs)

  abbrev After : World → Type 0
  After = OfRequests (OneMore rs)

  unchanged : (w : World) → Before w → After w
  unchanged w h = record { at = rw h.at no_more }

  quiet : {A : Type 0} {m : Do A} → Keeps Before m → Gives Before (λ _. After) After m
  quiet {m} k = record { at = λ w h. Post-both After (m w) (unchanged (m w).1 (k.at w h)) }

  posting : (r : SendRequest) → Gives Before (λ _. After) After (modify (post_request r))
  posting r = Gives-modify _ (λ w h. record { at = rw h.at (one_more r) })

  module _ (run : Run) (l : Loaded) where
    send_with-After :
        (content : String × List Entity) (o : Option String)
        → Gives Before (λ _. After) After (send_with run l content o)
    unfolding send_with
    send_with-After content (some error) = Gives-pure _ unchanged
    send_with-After content none = Gives-bind (Gives-kept unchanged (on_begin_send l.id)) λ b.
        Gives-if b (λ _. Gives-bind (posting (request_of l content)) (λ _. Gives-pure _ (λ w h. h)))
          (λ _. Gives-pure _ unchanged)

    finish-After : (o : Option Answer) → Keeps After (finish run l o)
    finish-After none = Keeps-pure _
    finish-After (some a) =
        keeps-conclude requests_frame run l a (λ m e. on_mark_sent run.later l.id m)

    attempt_delivery-After :
        (content : String × List Entity)
        → Gives Before (λ _. After) After (attempt_delivery run l content)
    unfolding attempt_delivery send
    attempt_delivery-After content =
        Gives-bind (Gives-kept unchanged (keeps-increment_attempts requests_frame run.now l.id))
          λ _. Gives-bind (send_with-After content run.client) λ o. Gives-keeps (finish-After o)

  module _ (render_markup : String → Json → Rendered) (zones : TimeZones) (run : Run) where
    keeps-prepare : (l : Loaded) → Keeps Before (prepare render_markup zones l)
    unfolding prepare message_text
    keeps-prepare l =
        search
          (
            keeps_rules,
            keeps-lift,
            on_prepare_delivery render_markup,
            keeps-unprepared requests_frame,
          )
          depth 20

    deliver_prepared-After :
        (l : Loaded) (o : Option (String × List Entity))
        → Gives Before (λ _. After) After (deliver_prepared render_markup zones run l o)
    unfolding deliver_prepared
    deliver_prepared-After l none = Gives-pure _ unchanged
    deliver_prepared-After l (some content) = attempt_delivery-After run l content

    deliver_pending-After :
        (l : Loaded) → Gives Before (λ _. After) After (deliver_pending render_markup zones run l)
    unfolding deliver_pending
    deliver_pending-After l =
        Gives-if (waits run.now l.row) (λ _. Gives-pure _ unchanged)
          λ _.
            Gives-if (undeliverable l) (λ _. quiet (keeps-reject_disabled requests_frame l))
              λ _.
                Gives-if (stale l.post.published_at run.now)
                  (λ _. quiet (keeps-reject_stale requests_frame l))
                  λ _.
                    Gives-bind (Gives-kept unchanged (keeps-prepare l)) (deliver_prepared-After l)

    deliver_locked-After :
        (l : Loaded) → Gives Before (λ _. After) After (deliver_locked render_markup zones run l)
    unfolding deliver_locked deliver_unsent
    deliver_locked-After l =
        Gives-if (is_sent l.row.status) (λ _. Gives-pure _ unchanged)
          λ _.
            Gives-if (is_uncertain l.row.status) (λ _. Gives-pure _ unchanged)
              λ _.
                Gives-bind (Gives-kept unchanged (keeps-unconfirmed_send requests_frame l.id)) λ b.
                  Gives-if b (λ _. Gives-pure _ unchanged)
                    λ _.
                      Gives-if (is_failed l.row.status) (λ _. Gives-pure _ unchanged)
                        (λ _. deliver_pending-After l)

    deliver_found-After :
        (o : Option Loaded)
        → Gives Before (λ _. After) After (deliver_found render_markup zones run o)
    unfolding deliver_found
    deliver_found-After none = Gives-pure _ unchanged
    deliver_found-After (some l) = deliver_locked-After l

    deliver_existing-After :
        (analysis target : ℕ) (o : Option Loaded)
        → Gives Before
            (λ _. After)
            After
            (deliver_existing render_markup zones run analysis target o)
    unfolding deliver_existing
    deliver_existing-After analysis target none = Gives-pure _ unchanged
    deliver_existing-After analysis target (some l) =
        Gives-if run.acquired
          (λ _. Gives-bind (Gives-kept unchanged (search keeps_rules)) deliver_found-After)
          (λ _. Gives-pure _ unchanged)

module _ (render_markup : String → Json → Rendered) (zones : TimeZones) where
  -- Whatever the state, the run and Telegram's answer, a run of the task puts one request on the network
  -- at most.
  pub deliver_analysis-OneMore :
      (run : Run) (analysis target : ℕ) (w : World)
      → OneMore w.requests (deliver_analysis render_markup zones run analysis target w).1.requests
  unfolding deliver_analysis
  deliver_analysis-OneMore run analysis target w =
      (state_after
        (Gives-bind (Gives-kept (unchanged w.requests) (search keeps_rules))
          (deliver_existing-After w.requests render_markup zones run analysis target))
        w (record { at = refl })).at
