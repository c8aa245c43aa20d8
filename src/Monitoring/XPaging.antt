-- ===== src/Monitoring/XPaging.antt =====
-- How far a timeline is read (apps/monitoring/x_api.py, `iter_user_posts`).
use quota_radar.Prelude.{
  ℕ, zero, suc, ◌+◌, ◌≤◌, ◌<◌, String, ◌≡◌, ◌⊎◌, inl, inr, false, Option, none, some, List, [], ◌∷◌,
  arith, length,
}
use quota_radar.Json.{Json, get}
use quota_radar.Action.{and_then-ok, Result, ok}
use quota_radar.Monitoring.XApi.{XRequest, XAnswer}
use quota_radar.Monitoring.XTimeline.{
  continue_after, iter_user_posts, below_one, iter_user_posts, XTimelinePage, Window, take, left,
  remaining, read_page, page_of, Next, next_of, reached, follow, continue_after, pages_from,
  below_one, iter_user_posts,
}

module _ {ℓ} {A : Type ℓ} where
  length-take : (n : ℕ) (xs : List A) → length (take n xs) ≤ n
  unfolding take
  length-take zero xs = omega arith
  length-take (suc n) [] = omega arith
  length-take (suc n) (x ∷ xs) = omega (arith, length-take n xs)

-- All posts of the pages.
unfoldable pub total_posts : List XTimelinePage → ℕ
total_posts [] = 0
total_posts (page ∷ pages) = length page.posts + total_posts pages

-- A count that does not pass its limit, if it has one.
abbrev pub Within : Option ℕ → ℕ → Type 0
Within none n = Unit
Within (some m) n = n ≤ m

abbrev Below : Option ℕ → ℕ → Type 0
Below none n = Unit
Below (some m) n = n < m

read_page-Within :
    (limit : Option ℕ) (posts : Option (List Json)) (includes meta : Json)
    (errors : Option (List Json)) (page : XTimelinePage)
    → read_page limit posts includes meta errors ≡ ok page
    → Within limit (length page.posts)
read_page-Within none posts includes meta errors page e = tt
read_page-Within (some n) none includes meta errors page e = cc
read_page-Within (some n) (some posts) includes meta none page e =
    ground (arith, length-take n posts)
read_page-Within (some n) (some posts) includes meta (some es) page e =
    ground (arith, length-take n posts)

page_of-Within :
    (limit : Option ℕ) (payload : Json) (page : XTimelinePage)
    → page_of limit payload ≡ ok page
    → Within limit (length page.posts)
unfolding page_of
page_of-Within limit payload = read_page-Within limit _ _ _ _

Later : XTimelinePage → (String → Result (List XTimelinePage)) → List XTimelinePage → Type 0
Later page rest pages =
    (token : String) × (later : List XTimelinePage) × (rest token ≡ ok later)
    × (pages ≡ page ∷ later)

follow-cases :
    (page : XTimelinePage) (rest : String → Result (List XTimelinePage)) (next : Next)
    (pages : List XTimelinePage)
    → follow page rest next ≡ ok pages
    → (pages ≡ page ∷ []) ⊎ Later page rest pages
unfolding follow Later
follow-cases page rest Next.last pages e = inl (ground arith)
follow-cases page rest Next.invalid pages e = cc
follow-cases page rest (Next.another token) pages e =
    let (later, got, e') = and_then-ok _ _ e in inr (token, later, got, ground arith)

reached-Below : (limit : Option ℕ) (n : ℕ) → reached limit n ≡ false → Below limit n
reached-Below none n e = tt
reached-Below (some m) n e = ground arith

-- The page is the last one, or others follow and no limit is reached.
continue-cases :
    (window : Window) (seen : List String) (page_number returned : ℕ) (page : XTimelinePage)
    (rest : String → Result (List XTimelinePage)) (pages : List XTimelinePage)
    → continue_after window seen page_number returned page rest ≡ ok pages
    → (pages ≡ page ∷ [])
      ⊎ (Later page rest pages
          × Below window.max_pages page_number
          × Below window.max_total_results returned)
unfolding continue_after
continue-cases window seen page_number returned page rest pages e = ground (
  arith,
  follow-cases page rest (next_of seen (get "next_token" page.meta)) pages,
  reached-Below window.max_pages page_number,
  reached-Below window.max_total_results returned,
)

Within-left :
    (limit : Option ℕ) (used n : ℕ)
    → Below limit used
    → Within (left limit used) n
    → Within limit (used + n)
Within-left none used n room h = tt
Within-left (some m) used n room h = omega arith

Within-next : (limit : Option ℕ) (used : ℕ) → Below limit used → Within limit (used + 1)
Within-next none used room = tt
Within-next (some m) used room = omega arith

Within-same : (limit : Option ℕ) (m n : ℕ) → m ≡ n → Within limit m → Within limit n
Within-same limit m n e h = rw (← e) h

module _ (serve : XRequest → XAnswer) (user_id : String) (window : Window) where
  pages_from-Within :
      (fuel : ℕ) (token : Option String) (seen : List String) (page_number returned : ℕ)
      (pages : List XTimelinePage)
      → Below window.max_pages page_number
      → Below window.max_total_results returned
      → pages_from serve user_id window fuel token seen page_number returned ≡ ok pages
      → Within window.max_pages (page_number + length pages)
        × Within window.max_total_results (returned + total_posts pages)
  unfolding pages_from total_posts Later
  pages_from-Within zero token seen page_number returned pages room room' e = cc
  pages_from-Within (suc fuel) token seen page_number returned pages room room' e =
      let (payload, got, e') = and_then-ok _ _ e in
      let (page, is_page, e'') = and_then-ok _ _ e' in
      let posts =
        Within-left window.max_total_results returned (length page.posts) room'
          (page_of-Within (remaining window returned) payload page is_page) in
      elim (continue-cases window seen (page_number + 1) (returned + length page.posts) page _ pages
        e'') [
          | inl one ↦ rw one (
            Within-next window.max_pages page_number room,
            Within-same window.max_total_results _ _ (omega arith) posts,
          )
          | inr ((next, later, got', more), below, below') ↦
              let (ih, ih') =
                pages_from-Within fuel (some next) (next ∷ seen) (page_number + 1)
                  (returned + length page.posts) later below below' got' in
              rw more (
                Within-same window.max_pages _ _ (omega arith) ih,
                Within-same window.max_total_results _ _ (omega arith) ih',
              )
        ]

room : (limit : Option ℕ) → below_one limit ≡ false → Below limit 0
room none e = tt
room (some m) e = ground arith

-- A timeline that is read without an error has at most `max_pages` pages and, over all of them, at
-- most `max_total_results` posts, whatever the server answers.
pub iter_user_posts-Within :
    (serve : XRequest → XAnswer) (fuel : ℕ) (user_id : String) (window : Window)
    (pages : List XTimelinePage)
    → iter_user_posts serve fuel user_id window ≡ ok pages
    → Within window.max_pages (length pages) × Within window.max_total_results (total_posts pages)
unfolding iter_user_posts
iter_user_posts-Within serve fuel user_id window pages e = ground (
  arith,
  pages_from-Within serve user_id window fuel none [] 0 0 pages,
  room window.max_pages,
  room window.max_total_results,
)
