-- ===== src/Monitoring/XTimeline.antt =====
-- The timeline of the X client (`iter_user_posts` of apps/monitoring/x_api.py), read to its end as
-- its callers do. The loop runs on fuel; `unfinished` is its outcome when the fuel is used up.
use quota_radar.Text.Integer.{isdigit}
use quota_radar.Prelude.{
  has_text, ℕ, zero, suc, ◌+◌, ◌-◌, String, Bool, ◌&&◌, ◌||◌, not, Option, none, some, List, [],
  ◌∷◌, ltb, leb, if◌then◌else◌, min, max, nonempty, length, holds,
}
use quota_radar.Json.{Json, get, is_dict, or_default, empty_list, empty_dict, as_list, all_dicts}
use quota_radar.Action.{Result, ok, raised, Exn, and_then}
use quota_radar.Monitoring.XApi.{TimelineQuery, XRequest, XAnswer, get_json, response_error}

abbrev pub timeline_min_results : ℕ
timeline_min_results = 5

abbrev pub timeline_max_results : ℕ
timeline_max_results = 100

pub record XTimelinePage : Type 0 where
  pub posts : List Json
  pub includes : Json
  pub meta : Json
  pub errors : List Json

-- The keyword arguments of `iter_user_posts`.
pub record Window : Type 0 where
  pub since_id : Option String
  pub until_id : Option String
  pub max_results : ℕ
  pub max_pages : Option ℕ
  pub max_total_results : Option ℕ

abbrev pub given : Option String → Bool
given = holds nonempty

-- A parameter that is sent only if it is not empty.
abbrev sent_text : Option String → Option String
sent_text none = none
sent_text (some s) = if nonempty s then some s else none

abbrev pub invalid_cursor : Option String → Bool
invalid_cursor = holds λ s. nonempty s && not (isdigit s)

module _ {ℓ} {A : Type ℓ} where
  -- `data[:n]`
  unfoldable pub take : ℕ → List A → List A
  take zero xs = []
  take (suc n) [] = []
  take (suc n) (x ∷ xs) = x ∷ take n xs

  abbrev pub take_at_most : Option ℕ → List A → List A
  take_at_most none xs = xs
  take_at_most (some n) xs = take n xs

-- `max_total_results - returned_results`, which is positive while the loop runs.
abbrev pub left : Option ℕ → ℕ → Option ℕ
left none returned = none
left (some n) returned = some (n - returned)

abbrev pub remaining : Window → ℕ → Option ℕ
remaining window returned = left window.max_total_results returned

abbrev pub request_max_results : Window → ℕ → ℕ
request_max_results window returned = elim (remaining window returned) [
  | none ↦ window.max_results
  | some n ↦ max timeline_min_results (min window.max_results n)
]

abbrev pub query_of : String → Window → Option String → ℕ → TimelineQuery
query_of user_id window token returned = record {
  user_id = user_id;
  max_results = request_max_results window returned;
  since_id = sent_text window.since_id;
  until_id = sent_text window.until_id;
  pagination_token = token;
}

abbrev pub read_page :
    Option ℕ → Option (List Json) → Json → Json → Option (List Json) → Result XTimelinePage
read_page limit (some posts) includes meta errors =
    if not (all_dicts posts && is_dict includes)
    then response_error "X timeline returned malformed data."
    else elim errors [
      | none ↦ response_error "X timeline returned malformed metadata."
      | some es ↦
          if is_dict meta && all_dicts es
          then ok (record {
            posts = take_at_most limit posts;
            includes = includes;
            meta = meta;
            errors = es;
          })
          else response_error "X timeline returned malformed metadata."
    ]
read_page limit none includes meta errors = response_error "X timeline returned malformed data."

unfoldable pub page_of : Option ℕ → Json → Result XTimelinePage
unfolding take
page_of limit payload =
    read_page limit (as_list (or_default (get "data" payload) empty_list))
      (or_default (get "includes" payload) empty_dict) (or_default (get "meta" payload) empty_dict)
      (as_list (or_default (get "errors" payload) empty_list))

-- What follows a page.
pub data Next : Type 0 where
  last invalid : Next
  another : String → Next

abbrev pub token_after : List String → String → Next
token_after seen s =
    if not (nonempty s) then Next.last else if has_text seen s then Next.invalid else Next.another s

abbrev pub next_of : List String → Json → Next
next_of seen Json.null = Next.last
next_of seen (Json.str s) = token_after seen s
next_of seen _ = Next.invalid

abbrev pub reached : Option ℕ → ℕ → Bool
reached limit n = holds (λ m. leb m n) limit

-- The page, and those that follow it if any do.
unfoldable pub follow :
    XTimelinePage → (String → Result (List XTimelinePage)) → Next → Result (List XTimelinePage)
follow page rest Next.last = ok (page ∷ [])
follow page rest Next.invalid = response_error "X timeline returned an invalid pagination token."
follow page rest (Next.another token) = and_then (rest token) λ pages. ok (page ∷ pages)

unfoldable pub continue_after :
    Window
    → List String
    → ℕ
    → ℕ
    → XTimelinePage
    → (String → Result (List XTimelinePage))
    → Result (List XTimelinePage)
continue_after window seen page_number returned page rest =
    if reached window.max_pages page_number || reached window.max_total_results returned
    then ok (page ∷ [])
    else follow page rest (next_of seen (get "next_token" page.meta))

module _ (serve : XRequest → XAnswer) (user_id : String) (window : Window) where
  unfoldable pub pages_from : ℕ → Option String → List String → ℕ → ℕ → Result (List XTimelinePage)
  pages_from zero token seen page_number returned = raised Exn.unfinished
  pages_from (suc fuel) token seen page_number returned =
      let answer = serve (XRequest.user_posts (query_of user_id window token returned)) in
      and_then (get_json answer) λ payload.
        and_then (page_of (remaining window returned) payload) λ page.
          let returned' = returned + length page.posts in
          continue_after window seen (page_number + 1) returned' page
            λ next. pages_from fuel (some next) (next ∷ seen) (page_number + 1) returned'

abbrev pub below_one : Option ℕ → Bool
below_one = holds λ n. ltb n 1

unfoldable pub iter_user_posts :
    (XRequest → XAnswer) → ℕ → String → Window → Result (List XTimelinePage)
unfolding isdigit
iter_user_posts serve fuel user_id window =
    if not (isdigit user_id)
    then response_error "Configured X User ID is invalid."
    else if invalid_cursor window.since_id
    then response_error "Stored X Post cursor is invalid."
    else if invalid_cursor window.until_id
    then response_error "Stored X Post history cursor is invalid."
    else if given window.since_id && given window.until_id
    then raised (Exn.value_error "X timeline since_id and until_id are mutually exclusive.")
    else if not
        (leb timeline_min_results window.max_results && leb window.max_results timeline_max_results)
    then raised (Exn.value_error "X timeline max_results must be between 5 and 100.")
    else if below_one window.max_pages
    then raised (Exn.value_error "X timeline max_pages must be at least 1.")
    else if below_one window.max_total_results
    then raised (Exn.value_error "X timeline max_total_results must be at least 1.")
    else pages_from serve user_id window fuel none [] 0 0
