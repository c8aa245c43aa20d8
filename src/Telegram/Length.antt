-- ===== src/Telegram/Length.antt =====
-- Telegram's limit on a message: 4096 UTF-16 units.
use Prim.Native.String.{◌++◌ as ◌<>◌}
use mathlib.Core.Path.{subst}
use quota_radar.Prelude.{
  String, ◌≤◌, ◌<◌, ◌≡◌, refl, List, arith, ltb, nonempty, not, ◌||◌, Bool-cases, inl, inr,
}
use quota_radar.Json.{Json}
use quota_radar.Text.{strip}
use quota_radar.Text.Utf16.{utf16_length, utf16_units, utf16_length-append}
use quota_radar.Action.{Result, ok, raised, ok_injective}
use quota_radar.Models.Sources.{SourcePost}
use quota_radar.Models.Telegram.{Entity}
use quota_radar.Models.Advertising.{Campaign}
use quota_radar.Advertising.Formatting.{
  ad_separator, Rendered, campaign_copy, append_block, append_advertising,
}
use quota_radar.Telegram.Formatting.{
  TimeZones, within_limit, layout, format_publication_date, format_message_values,
}

-- A result whose text, if there is one, fits into a Telegram message.
abbrev pub Fits : {A : Type 0} → (A → String) → Result A → Type 0
Fits text (ok a) = utf16_length (text a) ≤ 4096
Fits text (raised e) = Unit

abbrev pub itself : String → String
itself s = s

within_limit-Fits : (payload : String) → Fits itself (within_limit payload)
unfolding within_limit
within_limit-Fits payload = elim (Bool-cases (ltb 4096 (utf16_length payload))) [
  | inl long ↦ simp long tt
  | inr fits ↦ simp fits (ground arith)
]

dated-Fits :
    (date : Result String) (title message source_url : String)
    → Fits itself (elim date [
      | raised e ↦ raised e
      | ok published_at ↦ within_limit (layout title message published_at source_url)
    ])
dated-Fits (ok published_at) title message source_url = within_limit-Fits _
dated-Fits (raised e) title message source_url = tt

-- Whatever the LLM wrote, the text of an alert that is not refused fits into one Telegram message.
pub format_message_values-Fits :
    (zones : TimeZones) (timezone title message : String) (post : SourcePost)
    → Fits itself (format_message_values zones timezone title message post)
unfolding format_message_values
format_message_values-Fits zones timezone title message post =
    elim (Bool-cases (
      not (nonempty (strip title))
      || (not (nonempty (strip message)) || not (nonempty (strip post.source_url))))) [
        | inl missing ↦ simp missing tt
        | inr complete ↦ simp complete (
            dated-Fits (format_publication_date zones post.published_at timezone) (strip title)
              (strip message) (strip post.source_url))
      ]

blank_line : utf16_length "\n\n" ≡ 2
unfolding utf16_length utf16_units
blank_line = refl

-- Every alert has its two blank lines.
layout-nonempty :
    (title message published_at source_url : String)
    → 0 < utf16_length (layout title message published_at source_url)
unfolding layout
layout-nonempty title message published_at source_url =
    let rest =
      message
      <> ("\n\n"
          <> ("Опубликовано: " <> (published_at <> ("\n" <> ("Источник: " <> source_url))))) in
    rw (utf16_length-append title ("\n\n" <> rest), utf16_length-append "\n\n" rest, blank_line)
      (omega arith)

within_limit-ok : (payload : String) {s : String} → within_limit payload ≡ ok s → payload ≡ s
unfolding within_limit
within_limit-ok payload e = elim (Bool-cases (ltb 4096 (utf16_length payload))) [
  | inl long ↦ let bad = simp long at e in cc
  | inr fits ↦ ok_injective (simp fits at e)
]

dated-nonempty :
    (date : Result String) (title message source_url : String) {s : String}
    → elim date [
      | raised e ↦ raised e
      | ok published_at ↦ within_limit (layout title message published_at source_url)
    ]
      ≡ ok s
    → 0 < utf16_length s
dated-nonempty (ok published_at) title message source_url e =
    subst (λ text. 0 < utf16_length text) (within_limit-ok _ e)
      (layout-nonempty title message published_at source_url)
dated-nonempty (raised x) title message source_url e = cc

pub format_message_values-nonempty :
    (zones : TimeZones) (timezone title message : String) (post : SourcePost) {s : String}
    → format_message_values zones timezone title message post ≡ ok s
    → 0 < utf16_length s
unfolding format_message_values
format_message_values-nonempty zones timezone title message post e =
    elim (Bool-cases (
      not (nonempty (strip title))
      || (not (nonempty (strip message)) || not (nonempty (strip post.source_url))))) [
        | inl missing ↦ let bad = simp missing at e in cc
        | inr complete ↦
            dated-nonempty (format_publication_date zones post.published_at timezone) (strip title)
              (strip message) (strip post.source_url) (simp complete at e)
      ]

-- The text of advertised copy.
abbrev pub text_of : String × List Entity → String
text_of (text, entities) = text

module _ (render_markup : String → Json → Rendered) where
  append_block-Fits :
      (post : String) (campaign : Campaign) (source_url : String) (copy : String × List Entity)
      → Fits text_of (append_block post campaign source_url copy)
  unfolding append_block
  append_block-Fits post campaign source_url (block, entities) =
      elim (Bool-cases (ltb 4096 (utf16_length (post <> (ad_separator <> block))))) [
        | inl long ↦ simp long tt
        | inr fits ↦ simp fits (ground arith)
      ]

  copied-Fits :
      (post : String) (campaign : Campaign) (source_url : String) (copy : Rendered)
      → Fits text_of
          (elim copy [ raised e ↦ raised e | ok c ↦ append_block post campaign source_url c ])
  copied-Fits post campaign source_url (ok copy) = append_block-Fits post campaign source_url copy
  copied-Fits post campaign source_url (raised e) = tt

  -- A post with advertising below it that is not refused fits into one Telegram message, whatever the
  -- campaign's markup renders to.
  pub append_advertising-Fits :
      (post : String) (campaign : Campaign) (source_url : String)
      → Fits text_of (append_advertising render_markup post campaign source_url)
  unfolding append_advertising
  append_advertising-Fits post campaign source_url =
      copied-Fits post campaign source_url (campaign_copy render_markup campaign)
