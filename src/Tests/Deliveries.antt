-- ===== src/Tests/Deliveries.antt =====
-- The theorems on deliveries, at the states of Tests/State.
use quota_radar.Prelude.{ℕ, ◌≡◌, refl, Bool, true, false, some, [], arith}
use quota_radar.Table.{find, count, IsKeyed}
use quota_radar.Models.World.{World}
use quota_radar.Models.Telegram.{DeliveryTarget}
use quota_radar.Advertising.Queries.{delivery_row, campaign_row, occupied}
use quota_radar.Advertising.Capacity.{IsSound}
use quota_radar.Advertising.Reservation.{prepare_delivery}
use quota_radar.Advertising.Offers.{IsSound-prepare_delivery}
use quota_radar.Telegram.Task.{deliver_analysis}
use quota_radar.Telegram.SentStays.{deliver_analysis-keeps_sent}
use quota_radar.Telegram.Capacity.{deliver_analysis-IsSound}
use quota_radar.Telegram.OneRequest.{OneMore, deliver_analysis-OneMore}
use quota_radar.Telegram.Fanout.{analysis_row, post_row, queue_analysis_deliveries}
use quota_radar.Telegram.Freshness.{stale}
use quota_radar.Telegram.Fanouts.{HasDelivery, fanout-delivers}
use quota_radar.Advertising.Formatting.{append_advertising}
use quota_radar.Telegram.Formatting.{format_message_values}
use quota_radar.Telegram.Length.{
  Fits, itself, text_of, format_message_values-Fits, append_advertising-Fits,
}
use quota_radar.Tests.State.{
  campaign, delivering, database, sent_delivery, plain_markup, moscow, confirmed_run, open_broker,
  analysis, post, channel,
}

delivering-IsKeyed : IsKeyed delivering.deliveries.rows
unfolding find
delivering-IsKeyed = (refl, (refl, tt))

subscriber_row : delivery_row 2 delivering ≡ some sent_delivery
unfolding delivery_row find
subscriber_row = refl

-- The channel's delivery runs while the subscriber's is sent already.
deliver_analysis-keeps_sent_example :
    delivery_row 2 (deliver_analysis plain_markup moscow confirmed_run 1 1 delivering).1
    ≡ some sent_delivery
deliver_analysis-keeps_sent_example =
    deliver_analysis-keeps_sent plain_markup moscow confirmed_run 1 1 2 delivering
      delivering-IsKeyed refl subscriber_row

delivering-IsSound : IsSound delivering
unfolding find campaign_row occupied count
delivering-IsSound = record {
  placements = record { keyed = (refl, tt); ahead = λ k le. ground arith };
  campaigns = (refl, tt);
  within = λ c campaign e. ground arith;
}

deliver_analysis-IsSound_example :
    IsSound (deliver_analysis plain_markup moscow confirmed_run 1 1 delivering).1
deliver_analysis-IsSound_example =
    deliver_analysis-IsSound plain_markup moscow confirmed_run 1 1 delivering delivering-IsSound

IsSound-prepare_delivery_example : IsSound (prepare_delivery plain_markup 1 "Сброс" delivering).1
IsSound-prepare_delivery_example =
    (IsSound-prepare_delivery plain_markup 1 "Сброс").at delivering delivering-IsSound

-- Nothing was delivered yet.
abbrev analysed : World
analysed = database [] []

abbrev any_order : ℕ × DeliveryTarget → ℕ × DeliveryTarget → Bool
any_order (k, t) (j, u) = true

analysis_1 : analysis_row 1 analysed ≡ some analysis
unfolding find
analysis_1 = refl

post_1 : post_row 1 analysed ≡ some post
unfolding find
post_1 = refl

target_1 : find 1 analysed.targets.rows ≡ some channel
unfolding find
target_1 = refl

fresh_post : stale 5000 5300 ≡ false
unfolding stale
fresh_post = refl

fanout-delivers_example :
    HasDelivery 1 1 (queue_analysis_deliveries open_broker any_order 5300 1 analysed).1
fanout-delivers_example =
    fanout-delivers open_broker any_order 5300 1 1 analysed analysis_1 post_1 refl refl fresh_post
      target_1 refl

format_message_values-Fits_example :
    Fits itself (format_message_values moscow "Europe/Moscow" "Сброс" "Лимиты сброшены." post)
format_message_values-Fits_example =
    format_message_values-Fits moscow "Europe/Moscow" "Сброс" "Лимиты сброшены." post

append_advertising-Fits_example :
    Fits text_of
      (append_advertising plain_markup "Сброс" campaign "https://x.com/author/status/100")
append_advertising-Fits_example =
    append_advertising-Fits plain_markup "Сброс" campaign "https://x.com/author/status/100"

deliver_analysis-OneMore_example :
    OneMore [] (deliver_analysis plain_markup moscow confirmed_run 1 1 delivering).1.requests
deliver_analysis-OneMore_example =
    deliver_analysis-OneMore plain_markup moscow confirmed_run 1 1 delivering
