-- ===== src/Monitoring/Preparation.antt =====
-- The pages of a timeline become normalized posts in the order of their publication
-- (`prepare_source_posts` of apps/monitoring/services.py).
use quota_radar.Prelude.{
  ℕ, ◌+◌, String, Bool, ◌&&◌, ◌||◌, Option, List, [], ◌∷◌, ◌++◌, ltb, ◌==◌, if◌then◌else◌, nonempty,
}
use quota_radar.Json.{Json, get, str_or}
use quota_radar.Action.{Exn, Result, and_then, ok, raised}
use quota_radar.Models.Sources.{Source}
use quota_radar.Monitoring.PostIds.{older}
use quota_radar.Monitoring.XApi.{XRequest, XAnswer, response_error}
use quota_radar.Monitoring.XTimeline.{XTimelinePage}
use quota_radar.Monitoring.Normalization.{
  normalize_source_post, NormalizedSourcePost, Datetime, is_retweet,
}

-- What the tasks are given from outside: the X server, the rounds that a timeline may take, Python's
-- `str.casefold` and Django's `parse_datetime`.
pub record Outside : Type 0 where
  pub serve : XRequest → XAnswer
  pub fuel : ℕ
  pub casefold : String → String
  pub parse_datetime : String → Option Datetime

pub record Prepared : Type 0 where
  pub posts : List NormalizedSourcePost
  pub ignored_retweets : ℕ

abbrev external_ids : List Json → List String
external_ids [] = []
external_ids (post ∷ posts) =
    let rest = external_ids posts in
    if nonempty (str_or "" (get "id" post)) then str_or "" (get "id" post) ∷ rest else rest

unfoldable pub all_external_ids : List XTimelinePage → List String
all_external_ids [] = []
all_external_ids (page ∷ pages) = external_ids page.posts ++ all_external_ids pages

-- A post that cannot be normalized spoils the whole answer.
abbrev pub as_response_error : {A : Type 0} → Result A → Result A
as_response_error (raised (Exn.x_post_payload_error message)) =
    response_error "X timeline contained invalid post data."
as_response_error r = r

abbrev ignored : Prepared → Prepared
ignored r = record r { ignored_retweets = r.ignored_retweets + 1 }

abbrev kept : NormalizedSourcePost → Prepared → Prepared
kept item r = record r { posts = item ∷ r.posts }

-- `(item.published_at, _sortable_post_id(item.external_id))`
abbrev pub published_before : NormalizedSourcePost → NormalizedSourcePost → Bool
published_before a b =
    ltb a.published_at b.published_at
    || (a.published_at == b.published_at && older a.external_id b.external_id)

-- The stable sort: equal items keep their order.
unfoldable pub insert_post :
    NormalizedSourcePost → List NormalizedSourcePost → List NormalizedSourcePost
insert_post item [] = item ∷ []
insert_post item (other ∷ rest) =
    let later = insert_post item rest in
    if published_before other item then other ∷ later else item ∷ other ∷ rest

unfoldable pub sort_posts : List NormalizedSourcePost → List NormalizedSourcePost
sort_posts [] = []
sort_posts (item ∷ rest) = insert_post item (sort_posts rest)

abbrev pub sorted : Prepared → Prepared
sorted r = record r { posts = sort_posts r.posts }

module _ (outside : Outside) where
  unfoldable pub prepare_posts : Source → XTimelinePage → List Json → Result Prepared
  prepare_posts source page [] = ok (record { posts = []; ignored_retweets = 0 })
  prepare_posts source page (post ∷ posts) =
      let rest = prepare_posts source page posts in
      let item =
        normalize_source_post outside.parse_datetime source post page.includes page.meta
          page.errors in
      if is_retweet post
      then and_then rest (λ r. ok (ignored r))
      else and_then (as_response_error item) λ payload. and_then rest λ r. ok (kept payload r)

  unfoldable pub prepare_pages : Source → List XTimelinePage → Result Prepared
  prepare_pages source [] = ok (record { posts = []; ignored_retweets = 0 })
  prepare_pages source (page ∷ pages) = and_then (prepare_posts source page page.posts) λ r.
      and_then (prepare_pages source pages) λ r'. ok (record {
        posts = r.posts ++ r'.posts;
        ignored_retweets = r.ignored_retweets + r'.ignored_retweets;
      })

  -- `prepare_source_posts`, without the newest id
  unfoldable pub prepare_source_posts : Source → List XTimelinePage → Result Prepared
  prepare_source_posts source pages = and_then (prepare_pages source pages) λ r. ok (sorted r)
