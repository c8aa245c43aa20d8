-- ===== src/Monitoring/XPagingEnds.antt =====
-- The loop over the pages of a timeline and the tokens it has seen (apps/monitoring/x_api.py).
use quota_radar.Prelude.{
  has_text, ℕ, zero, suc, ◌+◌, ◌≤◌, ◌<◌, String, ◌≡◌, refl, sym, ap, ◌∙◌, ◌≢◌, inl, inr, true,
  false, Option, none, some, List, [], ◌∷◌, arith, eq_iff, if◌then◌else◌, str_eq, Bool-cases,
  length,
}
use quota_radar.Json.{Json, get, or_default, empty_dict}
use quota_radar.Action.{Result, ok, raised, Exn, and_then}
use quota_radar.Monitoring.XApi.{TimelineQuery, XRequest, XAnswer, raise_for_status, get_json}
use quota_radar.Monitoring.XTimeline.{
  continue_after, iter_user_posts, XTimelinePage, Window, read_page, page_of, Next, next_of, follow,
  continue_after, pages_from, iter_user_posts,
}

-- How many of the tokens were not seen yet.
unfoldable unseen : List String → List String → ℕ
unseen [] seen = 0
unseen (t ∷ ts) seen = if has_text seen t then unseen ts seen else suc (unseen ts seen)

unseen-length : (ts seen : List String) → unseen ts seen ≤ length ts
unfolding unseen
unseen-length [] seen = omega arith
unseen-length (t ∷ ts) seen = ground (arith, unseen-length ts seen)

unseen-le : (ts seen : List String) (s : String) → unseen ts (s ∷ seen) ≤ unseen ts seen
unfolding unseen
unseen-le [] seen s = omega arith
unseen-le (t ∷ ts) seen s = ground (arith, unseen-le ts seen s)

str_eq-same : (s t : String) → str_eq s t ≡ true → s ≡ t
str_eq-same s t e = (eq_iff s t).0 e

str_eq_refl : (s : String) → str_eq s s ≡ true
str_eq_refl s = (eq_iff s s).1 refl

-- A token that is seen for the first time is one fewer.
unseen-lt :
    (ts seen : List String) (s : String)
    → has_text ts s ≡ true
    → has_text seen s ≡ false
    → unseen ts (s ∷ seen) < unseen ts seen
unfolding unseen
unseen-lt [] seen s known new = cc
unseen-lt (t ∷ ts) seen s known new = elim (Bool-cases (str_eq t s)) [
  | inl same ↦
      let here : t ≡ s = str_eq-same t s same in
      rw here (ground (arith, str_eq_refl s, unseen-le ts seen s))
  | inr other ↦ ground (arith, unseen-lt ts seen s)
]

abbrev exn_of {ℓ} : {A : Type ℓ} → Exn → Result A → Exn
exn_of x (ok a) = x
exn_of x (raised y) = y

and_then-raised {ℓ} :
    {A B : Type ℓ} (r : Result A) (f : A → Result B) (x : Exn)
    → r ≢ raised x
    → ((a : A) → r ≡ ok a → f a ≢ raised x)
    → and_then r f ≢ raised x
unfolding and_then
and_then-raised (ok a) f x h g e = g a refl e
and_then-raised (raised y) f x h g e = h (ap raised (ap (exn_of x) e))

and_then-same {ℓ} :
    {A B : Type ℓ} (r : Result A) (f g : A → Result B)
    → ((a : A) → r ≡ ok a → f a ≡ g a)
    → and_then r f ≡ and_then r g
unfolding and_then
and_then-same (ok a) f g h = h a refl
and_then-same (raised y) f g h = refl

get_json-finished : (answer : XAnswer) → get_json answer ≢ raised Exn.unfinished
unfolding get_json raise_for_status and_then
get_json-finished XAnswer.request_failed e = cc
get_json-finished (XAnswer.responded status_code raw_reset none) e = ground arith
get_json-finished (XAnswer.responded status_code raw_reset (some body)) e = ground arith

read_page-finished :
    (limit : Option ℕ) (posts : Option (List Json)) (includes meta : Json)
    (errors : Option (List Json))
    → read_page limit posts includes meta errors ≢ raised Exn.unfinished
read_page-finished limit none includes meta errors e = cc
read_page-finished limit (some posts) includes meta none e = ground arith
read_page-finished limit (some posts) includes meta (some es) e = ground arith

read_page-meta :
    (limit : Option ℕ) (posts : Option (List Json)) (includes meta : Json)
    (errors : Option (List Json)) (page : XTimelinePage)
    → read_page limit posts includes meta errors ≡ ok page
    → page.meta ≡ meta
read_page-meta limit none includes meta errors page e = cc
read_page-meta limit (some posts) includes meta none page e = ground arith
read_page-meta limit (some posts) includes meta (some es) page e = ground arith

page_of-finished :
    (limit : Option ℕ) (payload : Json) → page_of limit payload ≢ raised Exn.unfinished
unfolding page_of
page_of-finished limit payload = read_page-finished limit _ _ _ _

abbrev pub meta_of : Json → Json
meta_of payload = or_default (get "meta" payload) empty_dict

page_of-meta :
    (limit : Option ℕ) (payload : Json) (page : XTimelinePage)
    → page_of limit payload ≡ ok page
    → page.meta ≡ meta_of payload
unfolding page_of
page_of-meta limit payload = read_page-meta limit _ _ (meta_of payload) _

-- The server gives no other pagination tokens than these.
pub record Offers (serve : XRequest → XAnswer) (tokens : List String) : Type 0 where
  pub known :
      (query : TimelineQuery) (payload : Json) (token : String)
      → get_json (serve (XRequest.user_posts query)) ≡ ok payload
      → get "next_token" (meta_of payload) ≡ Json.str token
      → has_text tokens token ≡ true

-- A token that follows a page is new, and the server's.
next_of-another :
    (seen : List String) (value : Json) (token : String)
    → next_of seen value ≡ Next.another token
    → (value ≡ Json.str token) × (has_text seen token ≡ false)
next_of-another seen (Json.str s) token e = ground arith
next_of-another seen (Json.arr s) token e = cc
next_of-another seen (Json.obj s) token e = cc
next_of-another seen (Json.num s) token e = cc
next_of-another seen (Json.neg s) token e = cc
next_of-another seen (Json.real s) token e = cc
next_of-another seen (Json.bool s) token e = cc
next_of-another seen Json.null token e = cc

follow-same :
    (page : XTimelinePage) (rest rest' : String → Result (List XTimelinePage)) (next : Next)
    → ((token : String) → next ≡ Next.another token → rest token ≡ rest' token)
    → follow page rest next ≡ follow page rest' next
unfolding follow
follow-same page rest rest' Next.last h = refl
follow-same page rest rest' Next.invalid h = refl
follow-same page rest rest' (Next.another token) h = rw (h token refl) refl

follow-finished :
    (page : XTimelinePage) (rest : String → Result (List XTimelinePage)) (next : Next)
    → ((token : String) → next ≡ Next.another token → rest token ≢ raised Exn.unfinished)
    → follow page rest next ≢ raised Exn.unfinished
unfolding follow
follow-finished page rest Next.last h e = cc
follow-finished page rest Next.invalid h e = cc
follow-finished page rest (Next.another token) h e =
    and_then-raised (rest token) _ Exn.unfinished (h token refl) (λ pages got same. cc) e

continue-finished :
    (window : Window) (seen : List String) (page_number returned : ℕ) (page : XTimelinePage)
    (rest : String → Result (List XTimelinePage))
    → ((token : String)
        → next_of seen (get "next_token" page.meta) ≡ Next.another token
        → rest token ≢ raised Exn.unfinished)
    → continue_after window seen page_number returned page rest ≢ raised Exn.unfinished
unfolding continue_after
continue-finished window seen page_number returned page rest h e =
    ground (arith, follow-finished page rest (next_of seen (get "next_token" page.meta)) h)

continue-same :
    (window : Window) (seen : List String) (page_number returned : ℕ) (page : XTimelinePage)
    (rest rest' : String → Result (List XTimelinePage))
    → ((token : String)
        → next_of seen (get "next_token" page.meta) ≡ Next.another token
        → rest token ≡ rest' token)
    → continue_after window seen page_number returned page rest
      ≡ continue_after window seen page_number returned page rest'
unfolding continue_after
continue-same window seen page_number returned page rest rest' h =
    let same = follow-same page rest rest' (next_of seen (get "next_token" page.meta)) h in
    rw same refl

module _ (serve : XRequest → XAnswer) (tokens : List String) (offers : Offers serve tokens)
    (user_id : String) (window : Window) where
  -- The next round has fewer unseen tokens.
  fewer :
      (seen : List String) (query : TimelineQuery) (limit : Option ℕ) (payload : Json)
      (page : XTimelinePage) (token : String)
      → get_json (serve (XRequest.user_posts query)) ≡ ok payload
      → page_of limit payload ≡ ok page
      → next_of seen (get "next_token" page.meta) ≡ Next.another token
      → unseen tokens (token ∷ seen) < unseen tokens seen
  fewer seen query limit payload page token got is_page e =
      let (value, new) = next_of-another seen _ token e in
      let same : page.meta ≡ meta_of payload = page_of-meta limit payload page is_page in
      unseen-lt tokens seen token
        (offers.known query payload token got (ap (get "next_token") (sym same) ∙ value)) new

  pages_from-finished :
      (fuel : ℕ) (token : Option String) (seen : List String) (page_number returned : ℕ)
      → unseen tokens seen < fuel
      → pages_from serve user_id window fuel token seen page_number returned ≢ raised Exn.unfinished
  unfolding pages_from
  pages_from-finished zero token seen page_number returned lt = absurd (omega arith)
  pages_from-finished (suc fuel) token seen page_number returned lt =
      and_then-raised _ _ _ (get_json-finished _) λ payload got.
        and_then-raised _ _ _ (page_of-finished _ payload) λ page is_page.
          continue-finished window seen (page_number + 1) (returned + length page.posts) page _
            λ next e.
              let lt' = fewer seen _ _ payload page next got is_page e in
              pages_from-finished fuel (some next) (next ∷ seen) (page_number + 1)
                (returned + length page.posts) (omega arith)

  pages_from-same :
      (fuel fuel' : ℕ) (token : Option String) (seen : List String) (page_number returned : ℕ)
      → unseen tokens seen < fuel
      → unseen tokens seen < fuel'
      → pages_from serve user_id window fuel token seen page_number returned
        ≡ pages_from serve user_id window fuel' token seen page_number returned
  unfolding pages_from
  pages_from-same zero fuel' token seen page_number returned lt lt' = absurd (omega arith)
  pages_from-same (suc fuel) zero token seen page_number returned lt lt' = absurd (omega arith)
  pages_from-same (suc fuel) (suc fuel') token seen page_number returned lt lt' =
      and_then-same _ _ _ λ payload got. and_then-same _ _ _ λ page is_page.
        continue-same window seen (page_number + 1) (returned + length page.posts) page _ _
          λ next e.
            let less = fewer seen _ _ payload page next got is_page e in
            pages_from-same fuel fuel' (some next) (next ∷ seen) (page_number + 1)
              (returned + length page.posts) (omega arith) (omega arith)

-- If the server has only so many pagination tokens, one more round than that is enough: the
-- timeline is read to its end or to an error, and more fuel changes nothing.
pub iter_user_posts-ends :
    (serve : XRequest → XAnswer) (tokens : List String) (fuel : ℕ) (user_id : String)
    (window : Window)
    → Offers serve tokens
    → length tokens < fuel
    → (iter_user_posts serve fuel user_id window ≢ raised Exn.unfinished)
      × (iter_user_posts serve fuel user_id window
          ≡ iter_user_posts serve (length tokens + 1) user_id window)
unfolding iter_user_posts
iter_user_posts-ends serve tokens fuel user_id window offers lt =
    let le = unseen-length tokens [] in
    let end =
      pages_from-finished serve tokens offers user_id window fuel none [] 0 0 (omega arith) in
    let same =
      pages_from-same serve tokens offers user_id window fuel (length tokens + 1) none [] 0 0
        (omega arith) (omega arith) in
    ((λ e. ground arith), rw same refl)
