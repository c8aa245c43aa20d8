-- ===== src/Telegram/Formatting.antt =====
-- Telegram text rendering (apps/telegram/formatting.py). The time-zone database is a parameter: the
-- local time of an instant in a named zone, if the zone exists.
use Prim.Native.String.{◌++◌ as ◌<>◌}
use quota_radar.Prelude.{
  ℕ, zero, suc, String, ◌||◌, not, Option, none, some, ltb, nonempty, str_eq, if◌then◌else◌,
}
use quota_radar.Text.{strip}
use quota_radar.Text.Utf16.{utf16_length}
use quota_radar.Text.Decimal.{show, show_two}
use quota_radar.Action.{Result, ok, raised, Exn}
use quota_radar.Models.Sources.{SourcePost}
use quota_radar.Models.Analysis.{Analysis, is_true}

pub record LocalTime : Type 0 where
  pub day : ℕ
  pub month : ℕ
  pub year : ℕ
  pub hour : ℕ
  pub minute : ℕ
  pub tzname : Option String

abbrev pub TimeZones : Type 0
TimeZones = String → ℕ → Option LocalTime

abbrev pub telegram_message_limit : ℕ
telegram_message_limit = 4096

-- `_RUSSIAN_MONTHS[month - 1]`
abbrev pub russian_month : ℕ → String
russian_month (suc zero) = "января"
russian_month (suc (suc zero)) = "февраля"
russian_month (suc (suc (suc zero))) = "марта"
russian_month (suc (suc (suc (suc zero)))) = "апреля"
russian_month (suc (suc (suc (suc (suc zero))))) = "мая"
russian_month (suc (suc (suc (suc (suc (suc zero)))))) = "июня"
russian_month (suc (suc (suc (suc (suc (suc (suc zero))))))) = "июля"
russian_month (suc (suc (suc (suc (suc (suc (suc (suc zero)))))))) = "августа"
russian_month (suc (suc (suc (suc (suc (suc (suc (suc (suc zero))))))))) = "сентября"
russian_month (suc (suc (suc (suc (suc (suc (suc (suc (suc (suc zero)))))))))) = "октября"
russian_month (suc (suc (suc (suc (suc (suc (suc (suc (suc (suc (suc zero))))))))))) = "ноября"
russian_month _ = "декабря"

abbrev pub name_or : Option String → String → String
name_or none fallback = fallback
name_or (some name) fallback = if nonempty name then name else fallback

unfoldable pub timezone_label : String → LocalTime → String
timezone_label name local = if str_eq name "Europe/Moscow" then "МСК" else name_or local.tzname name

unfoldable pub format_publication_date : TimeZones → ℕ → String → Result String
unfolding timezone_label
format_publication_date zones value name = elim (zones name value) [
  | none ↦ raised (Exn.delivery_message_error "Telegram publication timezone is invalid.")
  | some local ↦ ok (
      show local.day
      <> (" "
          <> (russian_month local.month
              <> (" "
                  <> (show local.year
                      <> (", "
                          <> (show_two local.hour
                              <> (":"
                                  <> (show_two local.minute
                                      <> (" " <> timezone_label name local))))))))))
]

-- The message of an alert: title, text, date and link.
unfoldable pub layout : String → String → String → String → String
layout title message published_at source_url =
    title
    <> ("\n\n"
        <> (message
            <> ("\n\n"
                <> ("Опубликовано: " <> (published_at <> ("\n" <> ("Источник: " <> source_url)))))))

unfoldable pub within_limit : String → Result String
within_limit payload =
    if ltb telegram_message_limit (utf16_length payload)
    then raised
        (Exn.delivery_message_error "Telegram message is too long (exceeds 4096 characters).")
    else ok payload

unfoldable pub format_message_values :
    TimeZones → String → String → String → SourcePost → Result String
format_message_values zones timezone title message post =
    let title = strip title in
    let message = strip message in
    let source_url = strip post.source_url in
    if not (nonempty title) || (not (nonempty message) || not (nonempty source_url))
    then raised (Exn.delivery_message_error "Relevant analysis is missing delivery content.")
    else elim (format_publication_date zones post.published_at timezone) [
      | raised e ↦ raised e
      | ok published_at ↦ within_limit (layout title message published_at source_url)
    ]

unfoldable pub format_fallback_message : Analysis → SourcePost → Result String
format_fallback_message analysis post =
    let title = strip analysis.title_ru in
    let source_url = strip post.source_url in
    if not (nonempty title) || not (nonempty source_url)
    then raised (Exn.delivery_message_error "Keyword warning is missing delivery content.")
    else ok (title <> ("\n" <> source_url))

unfoldable pub format_delivery_message : TimeZones → String → Analysis → SourcePost → Result String
format_delivery_message zones timezone analysis post =
    if not (is_true analysis.is_relevant)
    then raised (Exn.delivery_message_error "Only relevant analyses can be delivered.")
    else if analysis.is_fallback
    then format_fallback_message analysis post
    else format_message_values zones timezone analysis.title_ru analysis.message_ru post
