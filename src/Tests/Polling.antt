-- ===== src/Tests/Polling.antt =====
-- The theorems on polls and imports, at a server with two posts.
use quota_radar.Prelude.{
  ◌+◌, ◌≤◌, String, ◌≡◌, refl, sym, ap, ◌∙◌, ◌≢◌, true, none, some, List, [], ◌∷◌, arith, has_text,
}
use quota_radar.Json.{
  fields, items, all_dicts, Json, get, items, to_items, fields, empty_dict, all_dicts, dict,
}
use quota_radar.Table.{find}
use quota_radar.Action.{Exn, Result, and_then, ok, raised}
use quota_radar.Action.Gives.{Post}
use quota_radar.Models.Sources.{Source}
use quota_radar.Models.World.{World}
use quota_radar.Monitoring.Normalization.{NormalizedSourcePost}
use quota_radar.Monitoring.XApi.{XRequest, XAnswer, raise_for_status, get_json}
use quota_radar.Monitoring.XTimeline.{
  XTimelinePage, Window, page_of, continue_after, pages_from, iter_user_posts,
}
use quota_radar.Monitoring.XPaging.{total_posts, iter_user_posts-Within}
use quota_radar.Monitoring.XPagingEnds.{meta_of, Offers, iter_user_posts-ends}
use quota_radar.Monitoring.PostIdOrder.{AsNew-refl}
use quota_radar.Monitoring.Preparation.{Outside}
use quota_radar.Monitoring.Ingestion.{PersistedPosts, persist_source_posts}
use quota_radar.Monitoring.Polling.{PollRun, poll_source}
use quota_radar.Monitoring.Backfill.{backfill_source}
use quota_radar.Monitoring.PostStore.{stored, put_all, view}
use quota_radar.Monitoring.Persistence.{persist-refines, persist-again}
use quota_radar.Monitoring.Cursor.{SourceHas, Reached, poll-cursor_forward, backfill-keeps_cursor}
use quota_radar.Monitoring.PostsStand.{IsDistinct, Stands, poll-keeps_posts}
use quota_radar.Monitoring.PollUnchanged.{Unchanged}
use quota_radar.Monitoring.PollFailure.{AfterPoll, poll-all_or_nothing}
use quota_radar.Tests.State.{database, open_broker, post, source}

abbrev tweet : String → Json
tweet id = dict (
    ("id", Json.str id)
    ∷ ("text", Json.str "Reset!")
    ∷ ("created_at", Json.str "2026-05-01T00:00:00Z")
    ∷ [])

-- Every answer has the posts 100 and 200, and the token "next".
abbrev timeline : Json
timeline = dict (
    ("data", Json.arr (to_items (tweet "200" ∷ tweet "100" ∷ [])))
    ∷ ("meta", dict (("next_token", Json.str "next") ∷ []))
    ∷ [])

abbrev server : XRequest → XAnswer
server request = XAnswer.responded 200 none (some timeline)

abbrev one_page : Window
one_page = record {
  since_id = none;
  until_id = none;
  max_results = 5;
  max_pages = some 1;
  max_total_results = some 1;
}

abbrev first_page : XTimelinePage
first_page = record {
  posts = tweet "200" ∷ [];
  includes = empty_dict;
  meta = dict (("next_token", Json.str "next") ∷ []);
  errors = [];
}

page_read : iter_user_posts server 1 "42" one_page ≡ ok (first_page ∷ [])
unfolding iter_user_posts pages_from and_then get_json raise_for_status page_of continue_after get
    fields items to_items all_dicts
page_read = refl

iter_user_posts-Within_example : (1 ≤ 1) × (1 ≤ 1)
unfolding total_posts
iter_user_posts-Within_example =
    iter_user_posts-Within server 1 "42" one_page (first_page ∷ []) page_read

abbrev json_text : Json → String
json_text (Json.str s) = s
json_text _ = ""

abbrev value_of : Result Json → Json
value_of (ok j) = j
value_of (raised e) = Json.null

one_token : Offers server ("next" ∷ [])
unfolding get_json raise_for_status and_then get fields
one_token = record {
  known = λ query payload token e e'.
      let same : timeline ≡ payload = ap value_of e in
      let offered : Json.str "next" ≡ Json.str token =
        ap (λ p. get "next_token" (meta_of p)) same ∙ e' in
      let here : "next" ≡ token = ap json_text offered in ap (has_text ("next" ∷ [])) (sym here);
}

iter_user_posts-ends_example :
    (iter_user_posts server 2 "42" one_page ≢ raised Exn.unfinished)
    × (iter_user_posts server 2 "42" one_page ≡ iter_user_posts server 2 "42" one_page)
iter_user_posts-ends_example =
    iter_user_posts-ends server ("next" ∷ []) 2 "42" one_page one_token (omega arith)

abbrev payload : String → NormalizedSourcePost
payload id = record {
  external_id = id;
  text = "Reset!";
  normalized_text = "Reset!";
  source_url = "https://x.com/author/status/1";
  published_at = 6000;
  raw_data = Json.null;
}

abbrev world : World
world = database [] []

-- One post is stored already, and one comes twice.
abbrev prepared : List NormalizedSourcePost
prepared = payload "100" ∷ payload "200" ∷ payload "200" ∷ []

persist-refines_example :
    (r : PersistedPosts) × (v : World) × (persist_source_posts 1 prepared world ≡ (ok r, v))
    × (r.created_posts + r.existing_posts ≡ 3)
    × ((key : String) → view v key ≡ put_all 1 prepared (view world) key)
persist-refines_example = persist-refines 1 prepared world

persist-again_example :
    persist_source_posts 2 prepared (persist_source_posts 1 prepared world).1 ≡ (
      ok (record { created_posts = 0; existing_posts = 3; created_post_ids = [] }),
      (persist_source_posts 1 prepared world).1,
    )
persist-again_example = persist-again 1 2 prepared world

abbrev outside : Outside
outside = record {
  serve = server;
  fuel = 3;
  casefold = λ s. s;
  parse_datetime = λ s. some (record { instant = 6000; aware = true });
}

abbrev poll_run : PollRun
poll_run = record { acquired = true; configured = true; now = 7000; retries = 0 }

world-Reached : Reached 1 "" world
unfolding find
world-Reached = record { row = source; at = refl; holds_of = AsNew-refl "" }

poll-cursor_forward_example : Reached 1 "" (poll_source outside open_broker poll_run 1 world).1
poll-cursor_forward_example =
    poll-cursor_forward outside open_broker poll_run 1 1 "" world world-Reached

abbrev Idle : Source → Type 0
Idle s = (s.last_post_id ≡ "") × (s.last_success_at ≡ none)

world-Idle : SourceHas 1 Idle world
unfolding find
world-Idle = record { row = source; at = refl; holds_of = (refl, refl) }

backfill-keeps_cursor_example :
    SourceHas 1 Idle (backfill_source outside open_broker poll_run 1 world).1
backfill-keeps_cursor_example =
    backfill-keeps_cursor outside open_broker poll_run 1 1 "" none world world-Idle

world-Stands : Stands 1 post world
unfolding find IsDistinct stored
world-Stands = record { distinct = (refl, (refl, tt)); row = post; at = refl; same = refl }

poll-keeps_posts_example :
    Stands 1 post (poll_source outside open_broker poll_run 1 world).1
    × Stands 1 post (backfill_source outside open_broker poll_run 1 world).1
poll-keeps_posts_example = poll-keeps_posts outside open_broker poll_run 1 1 post world world-Stands

poll-all_or_nothing_example :
    Post (AfterPoll world) (Unchanged world) (poll_source outside open_broker poll_run 1 world)
poll-all_or_nothing_example = poll-all_or_nothing outside open_broker poll_run 1 world
