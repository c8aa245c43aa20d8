-- ===== src/Monitoring/Ingestion.antt =====
-- X posts become rows (apps/monitoring/services.py). The fuel is that of the timeline's pages.
use quota_radar.Prelude.{
  ℕ, ◌+◌, String, Bool, ◌&&◌, ◌||◌, not, Option, none, some, List, [], ◌∷◌, ltb, ◌==◌,
  if◌then◌else◌, str_eq, nonempty, is_some, length, contains,
}
use quota_radar.Table.{Rows, find, at_pk, first, create, change}
use quota_radar.Table.Order.{select, order_by}
use quota_radar.Text.Integer.{text_lt}
use quota_radar.Action.{Exn, pure, raise, gets, found, atomic, modify, ◌>>=◌, ◌>>◌}
use quota_radar.Models.Sources.{Source, SourcePostProcessingStatus, SourcePost}
use quota_radar.Models.World.{SystemConfiguration, World, Do}
use quota_radar.Advertising.Queries.{lift}
use quota_radar.Monitoring.PostIds.{newer_of, newest}
use quota_radar.Monitoring.XTimeline.{XTimelinePage, Window, iter_user_posts}
use quota_radar.Monitoring.Normalization.{NormalizedSourcePost}
use quota_radar.Monitoring.Preparation.{Outside, Prepared, all_external_ids, prepare_source_posts}

pub record PollResult : Type 0 where
  pub source_id : ℕ
  pub pages : ℕ
  pub created_posts : ℕ
  pub existing_posts : ℕ
  pub ignored_retweets : ℕ
  pub last_post_id : String

pub record PersistedPosts : Type 0 where
  pub created_posts : ℕ
  pub existing_posts : ℕ
  pub created_post_ids : List ℕ

abbrev pub has_external_id : String → SourcePost → Bool
has_external_id external_id p = str_eq p.external_id external_id

abbrev pub new_post : ℕ → NormalizedSourcePost → SourcePost
new_post source payload = record {
  source = source;
  external_id = payload.external_id;
  text = payload.text;
  normalized_text = payload.normalized_text;
  source_url = payload.source_url;
  published_at = payload.published_at;
  raw_data = payload.raw_data;
  processing_status = SourcePostProcessingStatus.received;
  processing_started_at = none;
  last_error = "";
}

abbrev pub create_post : SourcePost → World → World
create_post p w = record w { posts = create p w.posts }

-- `SourcePost.objects.get_or_create(...)`: the key of a new row, `none` for an existing one.
unfoldable pub get_or_create_post : ℕ → NormalizedSourcePost → Do (Option ℕ)
get_or_create_post source payload = do
  known ← gets (λ w. is_some (first (has_external_id payload.external_id) w.posts.rows))
  if known then pure none else do
    pk ← gets (λ w. w.posts.next)
    modify (create_post (new_post source payload))
    pure (some pk)

abbrev pub counted : Option ℕ → PersistedPosts → PersistedPosts
counted none r = record r { existing_posts = r.existing_posts + 1 }
counted (some pk) r = record r {
  created_posts = r.created_posts + 1;
  created_post_ids = pk ∷ r.created_post_ids;
}

unfoldable pub persist_source_posts : ℕ → List NormalizedSourcePost → Do PersistedPosts
persist_source_posts source [] =
    pure (record { created_posts = 0; existing_posts = 0; created_post_ids = [] })
persist_source_posts source (payload ∷ prepared) = do
  created ← get_or_create_post source payload
  rest ← persist_source_posts source prepared
  pure (counted created rest)

unfoldable pub change_sources : (ℕ → Source → Source) → Do (Unit {0})
change_sources g = modify (λ w. record w { sources = change g w.sources })

-- `order_by("-published_at", "-external_id")`
abbrev pub later_post : ℕ × SourcePost → ℕ × SourcePost → Bool
later_post (k, p) (j, q) =
    ltb q.published_at p.published_at
    || (p.published_at == q.published_at && text_lt q.external_id p.external_id)

abbrev pub external_id_of : Rows SourcePost → Option String
external_id_of [] = none
external_id_of ((k, p) ∷ rs) = some p.external_id

abbrev pub posts_of : ℕ → World → Rows SourcePost
posts_of id w = select (λ k (p : SourcePost). p.source == id) w.posts.rows

-- `_resolve_poll_cursor`
unfoldable pub resolve_poll_cursor : ℕ → Source → World → Option String
resolve_poll_cursor id source w =
    if nonempty source.last_post_id
    then some source.last_post_id
    else external_id_of (order_by later_post (posts_of id w))

abbrev pub poll_window : SystemConfiguration → Option String → Window
poll_window configuration none = record {
  since_id = none;
  until_id = none;
  max_results = configuration.bootstrap_post_limit;
  max_pages = some 1;
  max_total_results = none;
}
poll_window configuration (some cursor) = record {
  since_id = some cursor;
  until_id = none;
  max_results = configuration.regular_poll_post_limit;
  max_pages = none;
  max_total_results = none;
}

-- An empty cursor takes the one that the poll started from.
abbrev pub restored_cursor : Option String → String → String
restored_cursor none last_post_id = last_post_id
restored_cursor (some cursor) last_post_id = if nonempty last_post_id then last_post_id else cursor

abbrev pub next_cursor : Option String → String → String → String
next_cursor poll_cursor newest_external_id last_post_id =
    let restored = restored_cursor poll_cursor last_post_id in
    if nonempty newest_external_id then newer_of restored newest_external_id else restored

abbrev pub polled_row : ℕ → Option String → String → Source → Source
polled_row now poll_cursor newest_external_id s = record s {
  last_post_id = next_cursor poll_cursor newest_external_id s.last_post_id;
  last_checked_at = some now;
  last_success_at = some now;
  last_error = "";
}

module _ (outside : Outside) (now : ℕ) where
  -- The transaction: the posts, then the cursor of the locked source.
  unfoldable pub store_poll : ℕ → Option String → List XTimelinePage → Prepared → Do PollResult
  store_poll id poll_cursor pages prepared = atomic do
    locked_source ← found (λ w. find id w.sources.rows)
    persistence ← persist_source_posts id prepared.posts
    let row = polled_row now poll_cursor (newest (all_external_ids pages))
    change_sources (at_pk id row)
    pure (record {
      source_id = id;
      pages = length pages;
      created_posts = persistence.created_posts;
      existing_posts = persistence.existing_posts;
      ignored_retweets = prepared.ignored_retweets;
      last_post_id = (row locked_source).last_post_id;
    })

  unfoldable pub ingest_source_posts : ℕ → Source → Do PollResult
  ingest_source_posts id source =
      if not (nonempty source.x_user_id)
      then raise (Exn.value_error "Source X User ID is required before polling.")
      else do
        poll_cursor ← gets (resolve_poll_cursor id source)
        configuration ← gets (λ w. w.configuration)
        pages ← lift (
            iter_user_posts outside.serve outside.fuel source.x_user_id
              (poll_window configuration poll_cursor))
        prepared ← lift (prepare_source_posts outside source pages)
        store_poll id poll_cursor pages prepared

-- `record_source_error`
unfoldable pub record_source_error : ℕ → List ℕ → String → Do (Unit {0})
record_source_error now source_ids message = change_sources λ k s.
    if contains source_ids k
    then record s { last_checked_at = some now; last_error = message }
    else s
