-- ===== src/Tests/Work.antt =====
-- The theorems on queues, subscriptions, analyses and answers, at concrete states.
use quota_radar.Prelude.{
  ◌+◌, ℕ, String, ◌≤◌, ◌≡◌, refl, Bool, true, false, Option, some, List, [], ◌∷◌, arith, unique,
  length,
}
use quota_radar.Json.{Json, Fields, get}
use quota_radar.Text.Decimal.{show}
use quota_radar.Text.{strip}
use quota_radar.Table.{find, first, IsKeyed}
use quota_radar.Table.Keys.{IsTable}
use quota_radar.Table.Order.{select, order_by}
use quota_radar.Action.{ok}
use quota_radar.Action.Gives.{Post}
use quota_radar.Models.Telegram.{DeliveryTarget}
use quota_radar.Models.World.{World}
use quota_radar.Dispatch.{DispatchResult}
use quota_radar.Dispatch.Counts.{IsCounted}
use quota_radar.Telegram.Requeue.{requeue_failed_deliveries}
use quota_radar.Telegram.RequeueCounts.{requeue-counts, requeue-refused}
use quota_radar.Monitoring.Dispatch.{is_received, enqueue_posts_for_analysis}
use quota_radar.Monitoring.DispatchCounts.{dispatch-counts, dispatch-keeps_ineligible}
use quota_radar.Monitoring.Recovery.{
  RecoveryResult, recover_orphaned_work, unfanned, earlier_analysis,
}
use quota_radar.Monitoring.RecoveryReturns.{Fanouts, recover-counts}
use quota_radar.Telegram.Subscriptions.{
  SubscriptionResult, disable_private_chat, enable_private_chat,
}
use quota_radar.Telegram.SubscriptionStatus.{IsUnique, Settled, disable-status}
use quota_radar.Telegram.SubscriptionStart.{IsOn, enable-status}
use quota_radar.Telegram.Client.{Response, send_message, read_message, call, read_body}
use quota_radar.Telegram.Answers.{Confirmed, send_message-Confirmed}
use quota_radar.Telegram.Loading.{Answer}
use quota_radar.Telegram.Retry.{retry_countdown}
use quota_radar.Telegram.Countdown.{retry_countdown-bounds}
use quota_radar.Analysis.Saving.{
  LlmResponse, save_successful_analysis, save_reset_warning_analysis, save_failed_analysis,
}
use quota_radar.Analysis.SuccessStays.{saves-keep_success}
use quota_radar.Tests.State.{
  database, failed_delivery, sent_delivery, closed_broker, open_broker, post, analysis,
}

abbrev failing : World
failing = database ((1, failed_delivery) ∷ (2, sent_delivery) ∷ []) []

failing-IsKeyed : IsKeyed failing.deliveries.rows
unfolding find
failing-IsKeyed = (refl, (refl, tt))

-- A failed delivery is asked for twice, a sent one once, and one that does not exist.
abbrev asked : List ℕ
asked = 1 ∷ 2 ∷ 1 ∷ 9 ∷ []

requeue-counts_example :
    (r : DispatchResult) × (v : World) × (requeue_failed_deliveries open_broker asked failing
      ≡ (ok r, v))
    × (r.requested ≡ length (unique asked))
    × IsCounted r
requeue-counts_example = requeue-counts open_broker asked failing failing-IsKeyed

requeue-refused_example :
    (requeue_failed_deliveries closed_broker asked failing).1.deliveries ≡ failing.deliveries
requeue-refused_example = requeue-refused closed_broker (λ m. refl) asked failing failing-IsKeyed

posts-IsKeyed : IsKeyed failing.posts.rows
unfolding find
posts-IsKeyed = (refl, (refl, tt))

dispatch-counts_example :
    (r : DispatchResult) × (v : World) × (enqueue_posts_for_analysis open_broker 5300 is_received
        asked failing
      ≡ (ok r, v))
    × (r.requested ≡ length (unique asked))
    × IsCounted r
dispatch-counts_example = dispatch-counts open_broker 5300 is_received asked failing posts-IsKeyed

analyzed_post : find 1 failing.posts.rows ≡ some post
unfolding find
analyzed_post = refl

-- The post that is analysed already is not queued again.
dispatch-keeps_ineligible_example :
    find 1 (enqueue_posts_for_analysis open_broker 5300 is_received asked failing).1.posts.rows
    ≡ some post
dispatch-keeps_ineligible_example =
    dispatch-keeps_ineligible open_broker 5300 is_received asked 1 failing analyzed_post refl

abbrev any_order : ℕ × DeliveryTarget → ℕ × DeliveryTarget → Bool
any_order (k, t) (j, u) = true

recover-counts_example :
    (r : RecoveryResult) × (u v : World) × (recover_orphaned_work closed_broker any_order 9000
        failing
      ≡ (ok r, v))
    × Fanouts closed_broker any_order 9000
        (order_by earlier_analysis (select unfanned failing.analyses.rows))
        failing
        r.fanouts_completed
        r.fanout_errors
        u
    × (r.fanouts_completed + r.fanout_errors
        ≡ length (order_by earlier_analysis (select unfanned failing.analyses.rows)))
recover-counts_example = recover-counts closed_broker any_order 9000 failing

abbrev every : String → Bool
every s = true

targets-IsKeyed : IsKeyed failing.targets.rows
unfolding find
targets-IsKeyed = (refl, (refl, tt))

targets-IsUnique : IsUnique failing.targets.rows
unfolding first
targets-IsUnique = (refl, (refl, tt))

disable-status_example :
    Post
      (λ (r : SubscriptionResult). Settled "42" false)
      (λ v. v ≡ failing)
      (disable_private_chat every every "42" failing)
disable-status_example = disable-status every every "42" failing targets-IsKeyed targets-IsUnique

chat_id-stripped : strip "77" ≡ "77"
unfolding strip
chat_id-stripped = refl

enable-status_example :
    Post
      (λ (r : SubscriptionResult). IsOn "77")
      (λ v. v ≡ failing)
      (enable_private_chat every every "77" failing)
enable-status_example = enable-status every every "77" failing chat_id-stripped

abbrev accepted : Response
accepted = record {
  status_code = 200;
  body = some (
      Json.obj (
        Fields.field "ok" (Json.bool true) (
          Fields.field "result" (Json.obj (Fields.field "message_id" (Json.num 8) Fields.end))
            Fields.end)));
}

accepted_message : send_message (some accepted) ≡ Answer.message_id "8"
unfolding send_message read_message call read_body get show
accepted_message = refl

send_message-Confirmed_example : Confirmed (some accepted) "8"
send_message-Confirmed_example = send_message-Confirmed (some accepted) "8" accepted_message

retry_countdown-bounds_example :
    (30 ≤ retry_countdown 2)
    × (retry_countdown 2 ≤ 900)
    × (retry_countdown 2 ≤ retry_countdown 3)
    × (retry_countdown 7 ≡ 900)
retry_countdown-bounds_example = retry_countdown-bounds 2

analyses-IsTable : IsTable failing.analyses
unfolding find
analyses-IsTable = record { keyed = (refl, tt); ahead = λ k le. ground arith }

analysis_1 : find 1 failing.analyses.rows ≡ some analysis
unfolding find
analysis_1 = refl

saves-keep_success_example :
    ((r : LlmResponse) (model : Option String)
      → find 1 (save_successful_analysis 5300 1 r model failing).1.analyses.rows ≡ some analysis)
    × ((title message : String) (is_fallback : Bool) (raw : Option Json)
        → find 1
            (save_reset_warning_analysis 5300 1 title message is_fallback raw
              failing).1.analyses.rows
          ≡ some analysis)
    × ((error : String) (raw : Option Json)
        → find 1 (save_failed_analysis 5300 1 error raw failing).1.analyses.rows ≡ some analysis)
saves-keep_success_example = saves-keep_success 5300 1 1 failing analyses-IsTable analysis_1 refl
