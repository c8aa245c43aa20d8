-- ===== src/Monitoring/Normalization.antt =====
-- X posts become source posts (apps/monitoring/normalization.py). Payloads are read as the X API
-- documents them: where a list is documented, another value counts as an empty list.
pub mod PostText
pub mod Replies
use Prim.Native.String.{◌++◌ as ◌<>◌}
use quota_radar.Text.{strip}
use quota_radar.Text.Integer.{isdigit}
use quota_radar.Text.Lines.{join, replace, lines, squeeze, nonempty_texts}
use quota_radar.Prelude.{
  ℕ, zero, suc, ◌+◌, ◌-◌, ◌*◌, ◌^◌, ◌≤◌, ◌<◌, min, max, String, ◌≡◌, refl, sym, ap, ◌∙◌, fun_ext,
  ◌≢◌, ◌↔◌, ◌⊎◌, inl, inr, Bool, true, false, ◌&&◌, ◌||◌, not, Option, none, some, List, [], ◌∷◌,
  ◌++◌, map, arith, eq_iff, ltb, leb, ◌==◌, if◌then◌else◌, str_eq, nonempty, is_some, holds, ==_iff,
  ==_refl, Bool-cases, Option-cases, length, filter_by, length-append, All, All-implies, contains,
  unique_from, unique, get_item, has_text, unique_texts,
}
use quota_radar.Json.{
  Json, Items, Fields, get_field, get, as_text, is_dict, truthy, or_default, items, to_items,
  as_list, fields, empty_list, empty_dict, all_dicts, items_of, dict,
}
use quota_radar.Action.{Result, ok, raised, Exn, and_then}
use quota_radar.Models.Sources.{Source}
use quota_radar.Monitoring.Normalization.PostText.{
  clean_text, is_written, preferred_post_text, Url, urls_of, entity_urls, expand_urls,
  extract_article_text,
}
use quota_radar.Monitoring.Normalization.Replies.{
  by_text, referenced_posts, heading, parent_sections, reply_sections,
}

pub record NormalizedSourcePost : Type 0 where
  pub external_id : String
  pub text : String
  pub normalized_text : String
  pub source_url : String
  pub published_at : ℕ
  pub raw_data : Json

-- What Django's `parse_datetime` makes of a text: an instant, and whether a time zone is given.
pub record Datetime : Type 0 where
  pub instant : ℕ
  pub aware : Bool

abbrev is_type : String → Json → Bool
is_type kind (Json.str s) = str_eq s kind
is_type kind _ = false

-- `any(reference.get("type") == "retweeted" ...)`
unfoldable pub any_retweet : List Json → Bool
any_retweet [] = false
any_retweet (reference ∷ references) =
    is_type "retweeted" (get "type" reference) || any_retweet references

unfoldable pub is_retweet : Json → Bool
unfolding any_retweet
is_retweet post = any_retweet (items_of (get "referenced_tweets" post))

-- The URLs of the posts, each once.
unfoldable pub all_expanded : List Json → List String
all_expanded [] = []
all_expanded (post ∷ posts) =
    nonempty_texts (map (λ (u : Url). u.expanded) (entity_urls post)) ++ all_expanded posts

unfoldable pub collect_expanded_urls : Json → List Json → List String
unfolding all_expanded
collect_expanded_urls post context = unique_texts [] (all_expanded (post ∷ context))

-- `_included_media_by_key`
unfoldable pub included_media_by_key : Json → List (String × Json)
included_media_by_key includes = by_text "media_key" (items_of (get "media" includes)) []

-- The media of these keys, each key once, with the keys that are seen already.
unfoldable pub media_of : List (String × Json) → List String → List Json → List Json × List String
media_of included seen [] = ([], seen)
media_of included seen (Json.str key ∷ keys) =
    let found = if has_text seen key then none else get_item key included in
    let (rest, seen') = media_of included (if is_some found then key ∷ seen else seen) keys in
    elim found [ none ↦ (rest, seen') | some media ↦ (media ∷ rest, seen') ]
media_of included seen (key ∷ keys) = media_of included seen keys

unfoldable pub media_of_posts : List (String × Json) → List String → List Json → List Json
media_of_posts included seen [] = []
media_of_posts included seen (post ∷ posts) =
    let (media, seen') =
      media_of included seen (items_of (get "media_keys" (get "attachments" post))) in
    media ++ media_of_posts included seen' posts

-- The `alt_text` of a medium, if it has one.
unfoldable pub alt_texts : List Json → List String
alt_texts [] = []
alt_texts (media ∷ rest) = alt_text (get "alt_text" media) ++ alt_texts rest
  where
    alt_text : Json → List String
    alt_text (Json.str s) = if nonempty (strip s) then clean_text s ∷ [] else []
    alt_text _ = []

abbrev section : String → String → List String
section heading text = if nonempty text then (heading <> text) ∷ [] else []

unfoldable pub quoted_sections : List Json → List String
unfolding expand_urls extract_article_text
quoted_sections [] = []
quoted_sections (quoted ∷ rest) =
    section "Quoted post:\n" (expand_urls (preferred_post_text quoted) (entity_urls quoted))
    ++ (section "Quoted article:\n" (extract_article_text (get "article" quoted))
        ++ quoted_sections rest)

-- `_deduplicate_sections`
unfoldable pub deduplicate_sections : List String → List String
unfolding unique_texts nonempty_texts
deduplicate_sections sections = unique_texts [] (nonempty_texts sections)

abbrev x_post_payload_error : {A : Type 0} → String → Result A
x_post_payload_error message = raised (Exn.x_post_payload_error message)

module _ (parse_datetime : String → Option Datetime) (source : Source) where
  -- `_parse_published_at`
  abbrev pub parse_published_at : Json → Result ℕ
  parse_published_at (Json.str value) = elim (parse_datetime value) [
    | none ↦ x_post_payload_error "X post publication date is invalid."
    | some parsed ↦
        if parsed.aware
        then ok parsed.instant
        else x_post_payload_error "X post publication date is invalid."
  ]
  parse_published_at value = x_post_payload_error "X post publication date is missing."

  abbrev pub valid_id : Json → Result String
  valid_id (Json.str external_id) =
      if not (nonempty external_id)
      then x_post_payload_error "X post ID is missing."
      else if isdigit external_id
      then ok external_id
      else x_post_payload_error "X post ID is invalid."
  valid_id value = x_post_payload_error "X post ID is missing."

  module _ (post includes response_meta : Json) (response_errors : List Json) where
    abbrev included_posts : List (String × Json)
    included_posts = by_text "id" (items_of (get "tweets" includes)) []

    abbrev quoted_posts : List Json
    quoted_posts = referenced_posts post included_posts "quoted"

    abbrev reply_parents : List Json
    reply_parents = referenced_posts post included_posts "replied_to"

    abbrev attached_media : List Json
    attached_media =
        media_of_posts (included_media_by_key includes) [] (post ∷ (quoted_posts ++ reply_parents))

    abbrev pub normalized_sections : String → List String
    normalized_sections primary_text =
        (expand_urls primary_text (entity_urls post) ∷ [])
        ++ section "Article:\n" (extract_article_text (get "article" post))
        ++ quoted_sections quoted_posts
        ++ reply_sections reply_parents post includes source
        ++ section "Expanded URLs:\n"
            (join "\n" (collect_expanded_urls post (quoted_posts ++ reply_parents)))
        ++ section "Media alt text:\n" (join "\n" (unique_texts [] (alt_texts attached_media)))

    abbrev pub raw_data : Json
    raw_data = dict (
        ("post", post)
        ∷ ("includes", includes)
        ∷ ("meta", or_default response_meta empty_dict)
        ∷ (
          "resolved_context",
          dict (
              ("quoted_tweets", Json.arr (to_items quoted_posts))
              ∷ ("reply_parents", Json.arr (to_items reply_parents))
              ∷ ("attached_media", Json.arr (to_items attached_media))
              ∷ []),
        )
        ∷ ("errors", Json.arr (to_items response_errors))
        ∷ [])

    abbrev normalized : String → ℕ → String → Result NormalizedSourcePost
    normalized external_id published_at primary_text =
        if not (nonempty primary_text)
        then x_post_payload_error "X post text is missing."
        else ok (record {
          external_id = external_id;
          text = primary_text;
          normalized_text =
              strip (join "\n\n" (deduplicate_sections (normalized_sections primary_text)));
          source_url = "https://x.com/" <> (source.username <> ("/status/" <> external_id));
          published_at = published_at;
          raw_data = raw_data;
        })

    unfoldable pub normalize_source_post : Result NormalizedSourcePost
    normalize_source_post = and_then (valid_id (get "id" post)) λ external_id.
        and_then (parse_published_at (get "created_at" post))
          λ published_at. normalized external_id published_at (preferred_post_text post)
