-- ===== src/Monitoring/Normalization/Replies.antt =====
-- The posts that a post refers to (apps/monitoring/reply_context.py). Author ids and user names are
-- read as texts, as the X API documents them; another value counts as a missing one.
use Prim.Native.String.{◌++◌ as ◌<>◌}
use quota_radar.Prelude.{
  String, ◌&&◌, not, none, some, List, [], ◌∷◌, ◌++◌, if◌then◌else◌, str_eq, nonempty, get_item,
  unique_texts,
}
use quota_radar.Json.{Json, get, items_of, str_or}
use quota_radar.Models.Sources.{Source}
use quota_radar.Monitoring.Normalization.PostText.{
  preferred_post_text, entity_urls, expand_urls, extract_article_text,
}

-- `{item[key]: item for item in ... if isinstance(item.get(key), str)}`, added to a dict
unfoldable pub by_text : String → List Json → List (String × Json) → List (String × Json)
by_text key [] found = found
by_text key (item ∷ rest) found = by_text key rest (entry (get key item))
  where
    entry : Json → List (String × Json)
    entry (Json.str s) = (s, item) ∷ found
    entry _ = found

abbrev text_at : String → Json → String
text_at key value = str_or "" (get key value)

abbrev texts_of : Json → List String
texts_of (Json.str s) = s ∷ []
texts_of _ = []

abbrev reference_ids : String → List Json → List String
reference_ids kind [] = []
reference_ids kind (reference ∷ references) =
    let rest = reference_ids kind references in
    if str_eq (text_at "type" reference) kind then texts_of (get "id" reference) ++ rest else rest

abbrev included : List (String × Json) → List String → List Json
included posts [] = []
included posts (id ∷ ids) =
    let rest = included posts ids in
    elim (get_item id posts) [ none ↦ rest | some post ↦ post ∷ rest ]

-- The included posts that are referred to in this way, each once.
unfoldable pub referenced_posts : Json → List (String × Json) → String → List Json
referenced_posts post included_posts reference_type =
    included included_posts
      (unique_texts [] (reference_ids reference_type (items_of (get "referenced_tweets" post))))

abbrev section : String → String → List String
section heading text = if nonempty text then (heading <> text) ∷ [] else []

abbrev author_of : String → String → String
author_of username author_id =
    if nonempty username
    then "@" <> username
    else "author_id: " <> (if nonempty author_id then author_id else "unknown")

-- `users.get(author_id, {}).get("username")`
abbrev username_of : List (String × Json) → Json → String
username_of users (Json.str author_id) = elim (get_item author_id users) [
  | none ↦ ""
  | some user ↦ text_at "username" user
]
username_of users _ = ""

module _ (users : List (String × Json)) (post : Json) (source : Source) where
  abbrev pub heading : Json → String
  heading parent =
      let author_id = text_at "author_id" parent in
      let same_author = nonempty author_id && str_eq author_id (text_at "author_id" post) in
      let named = username_of users (get "author_id" parent) in
      let username = if not (nonempty named) && same_author then source.username else named in
      let identity = if same_author then "same author" else "different or unknown author" in
      "Reply parent (" <> (author_of username author_id <> ("; " <> (identity <> ")")))

  unfoldable pub parent_sections : List Json → List String
  parent_sections [] = []
  parent_sections (parent ∷ parents) =
      section (heading parent <> ":\n")
        (expand_urls (preferred_post_text parent) (entity_urls parent))
      ++ (section (heading parent <> ", article:\n") (extract_article_text (get "article" parent))
          ++ parent_sections parents)

unfoldable pub reply_sections : List Json → Json → Json → Source → List String
unfolding parent_sections
reply_sections parents post includes source =
    parent_sections (by_text "id" (items_of (get "users" includes)) []) post source parents
