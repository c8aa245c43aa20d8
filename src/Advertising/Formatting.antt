-- ===== src/Advertising/Formatting.antt =====
-- Advertising copy and UTF-16 space accounting (apps/advertising/formatting.py). The markup parser
-- (markup.py and its siblings) is a parameter: the text and the entities of a campaign's body, or
-- its error.
use quota_radar.Prelude.{
  ℕ, ◌+◌, String, none, some, List, [], ◌∷◌, ◌++◌, map, ltb, nonempty, if◌then◌else◌,
}
use Prim.Native.String.{◌++◌ as ◌<>◌}
use quota_radar.Text.{strip, rstrip, before_last}
use quota_radar.Text.Utf16.{utf16_length}
use quota_radar.Json.{Json}
use quota_radar.Models.Telegram.{Entity}
use quota_radar.Models.Advertising.{Campaign}
use quota_radar.Action.{Result, ok, raised, Exn}

abbrev pub ad_separator : String
ad_separator = "\n\n"

abbrev pub message_limit : ℕ
message_limit = 4096

abbrev pub prefix : String
prefix = "Рекомендация: "

unfoldable pub advertising_text : String → String → String
advertising_text message link_label = prefix <> (strip message <> (" " <> strip link_label))

-- Text with its entities, or an exception.
abbrev pub Rendered : Type 0
Rendered = Result (String × List Entity)

-- `{**entity, "offset": entity["offset"] + offset}`
abbrev pub shift : ℕ → Entity → Entity
shift n e = record e { offset = e.offset + n }

-- The `url` entity over the source link, where the post contains it.
unfoldable pub source_entities : String → String → List Entity
source_entities post source_url =
    elim (if nonempty source_url then before_last source_url post else none) [
      | none ↦ []
      | some before ↦
          record {
            kind = "url";
            offset = utf16_length before;
            extent = utf16_length source_url;
            attributes = [];
          }
          ∷ []
    ]

-- Where the block's own entities begin to count.
unfoldable pub block_offset : String → Campaign → ℕ
block_offset post campaign =
    utf16_length (post <> ad_separator)
    + (if nonempty campaign.body then utf16_length (rstrip prefix <> "\n") else 0)

unfoldable pub link_entity : Campaign → Entity
link_entity campaign = record {
  kind = "text_link";
  offset = utf16_length (prefix <> (strip campaign.message <> " "));
  extent = utf16_length (strip campaign.link_label);
  attributes = ("url", campaign.url) ∷ [];
}

-- The post, the separator and the block, if all of it fits.
unfoldable pub append_block : String → Campaign → String → String × List Entity → Rendered
append_block post campaign source_url (block, ad_entities) =
    let text = post <> (ad_separator <> block) in
    if ltb message_limit (utf16_length text)
    then raised (
        Exn.value_error
          "Пост вместе с рекомендацией превышает лимит Telegram — 4096 единиц UTF-16. Текст не обрезан.")
    else ok (
      text,
      source_entities post source_url ++ map (shift (block_offset post campaign)) ad_entities,
    )

module _ (render_markup : String → Json → Rendered) where
  unfoldable pub campaign_copy : Campaign → Rendered
  unfolding advertising_text link_entity
  campaign_copy campaign =
      if nonempty campaign.body
      then elim (render_markup (strip campaign.body) campaign.emoji_fallbacks) [
        | raised e ↦ raised e
        | ok (text, entities) ↦ ok (rstrip prefix <> ("\n" <> text), entities)
      ]
      else ok (advertising_text campaign.message campaign.link_label, link_entity campaign ∷ [])

  unfoldable pub append_advertising : String → Campaign → String → Rendered
  append_advertising post campaign source_url = elim (campaign_copy campaign) [
    | raised e ↦ raised e
    | ok copy ↦ append_block post campaign source_url copy
  ]
