-- ===== src/Monitoring/Normalization/PostText.antt =====
-- The text of a post and its URLs (apps/monitoring/normalization_text.py).
use quota_radar.Text.{strip}
use quota_radar.Text.Lines.{join, replace, lines, squeeze, nonempty_texts}
use quota_radar.Prelude.{
  String, Bool, false, List, [], ◌∷◌, ◌++◌, map, if◌then◌else◌, nonempty, unique_texts,
}
use quota_radar.Json.{Json, get, or_default, items_of}

-- Empty lines are dropped, so that it does not matter that `lines` has more of them.
unfoldable pub clean_text : String → String
unfolding lines squeeze join nonempty_texts
clean_text value =
    strip (join "\n" (nonempty_texts (map (λ line. strip (squeeze line)) (lines value))))

-- `isinstance(value, str) and value.strip()`
abbrev pub is_written : Json → Bool
is_written (Json.str s) = nonempty (strip s)
is_written _ = false

abbrev cleaned : Json → String
cleaned (Json.str s) = clean_text s
cleaned _ = ""

-- The long text of a post wins over the short one.
unfoldable pub preferred_post_text : Json → String
unfolding clean_text
preferred_post_text post =
    let note_text = get "text" (get "note_tweet" post) in
    if is_written note_text then cleaned note_text else cleaned (get "text" post)

pub record Url : Type 0 where
  pub short : String
  pub expanded : String

abbrev url_of : Json → Json → List Url
url_of (Json.str short) (Json.str expanded) = record { short = short; expanded = expanded } ∷ []
url_of short expanded = []

unfoldable pub urls_of : List Json → List Url
urls_of [] = []
urls_of (item ∷ rest) =
    let short = get "url" item in
    url_of short (or_default (get "unwound_url" item) (or_default (get "expanded_url" item) short))
    ++ urls_of rest

-- The URLs of the post's entities, and of those of its long text.
unfoldable pub entity_urls : Json → List Url
unfolding urls_of
entity_urls post =
    urls_of (items_of (get "urls" (get "entities" post)))
    ++ urls_of (items_of (get "urls" (get "entities" (get "note_tweet" post))))

unfoldable pub expand_urls : String → List Url → String
unfolding replace
expand_urls text [] = text
expand_urls text (url ∷ urls) = expand_urls (replace url.short url.expanded text) urls

abbrev article_text_keys : List String
article_text_keys =
    "title" ∷ "preview_text" ∷ "description" ∷ "text" ∷ "plain_text" ∷ "content" ∷ []

abbrev value_at : Json → String → String
value_at article key = let value = get key article in if is_written value then cleaned value else ""

-- The article's texts, each once; anything but a dict has none.
unfoldable pub extract_article_text : Json → String
unfolding clean_text join nonempty_texts
extract_article_text article =
    join "\n" (unique_texts [] (nonempty_texts (map (value_at article) article_text_keys)))
