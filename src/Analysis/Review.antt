-- ===== src/Analysis/Review.antt =====
-- The second opinion on a suspicious refusal (apps/analysis/reassessment.py).
use quota_radar.Prelude.{
  ◌≡◌, refl, sym, ◌∙◌, ◌⊎◌, inl, inr, Bool, true, false, arith, ◌&&◌, ◌||◌, not, Option, none, some,
}
use quota_radar.Json.{Json}
use quota_radar.Action.{ok_injective, Exn, Result, ok, raised, pure, raise}
use quota_radar.Models.Analysis.{AnalysisEventType}
use quota_radar.Advertising.Queries.{lift}
use mathlib.Core.Path.{subst}
use quota_radar.Action.Returns.{Returns, returns_rules}
use quota_radar.Action.Gives.{
  Post, Gives, Gives-pure, Gives-raise, Gives-if, Gives-returned, Gives-attempt, Gives-bind,
  Gives-gets-bind,
}
use quota_radar.Models.Sources.{Source, SourcePost}
use quota_radar.Models.World.{World, Do}
use quota_radar.Analysis.Saving.{LlmResponse}
use quota_radar.Analysis.Signals.{needs_reset_review}
use quota_radar.Analysis.Quality.{
  record_llm_success, record_llm_failure, Advice, is_quota_reset, validate_payload_for_post,
  validate, audit, with_review, confirm_reset, doubt, review_answer, reassess_irrelevant_response,
}

-- The second answer, which passes the checks in the state that it leaves and says that the quota is
-- reset; it is returned with both raw responses.
pub record Confirmed (advice : Advice) (source : Source) (post : SourcePost)
    (first final : LlmResponse) (w : World) : Type 0 where
  pub second : LlmResponse
  pub answered : advice.review ≡ ok second
  pub approved : validate_payload_for_post advice second source post w ≡ ok tt
  pub relevant : second.is_relevant ≡ true
  pub reset : second.event_type ≡ some AnalysisEventType.quota_reset
  pub returned : final ≡ record second {
    raw_response = with_review second.raw_response (audit first.raw_response second.raw_response);
  }

-- The first answer stands as it is, for it is relevant or nothing is suspicious; or it is a suspicious
-- refusal, and the second answer is returned.
abbrev pub Settled : Advice → Source → SourcePost → LlmResponse → LlmResponse → World → Type 0
Settled advice source post first final w =
    let settled = first.is_relevant || not (needs_reset_review advice.reading source post) in
    ((final ≡ first) × (settled ≡ true))
    ⊎ (Confirmed advice source post first final w × (settled ≡ false))

-- An answer that passes the checks and says that the quota is reset.
abbrev pub Passes : Advice → Source → SourcePost → LlmResponse → World → Type 0
Passes advice source post r w =
    (validate_payload_for_post advice r source post w ≡ ok tt)
    × ((r.is_relevant && is_quota_reset r.event_type) ≡ true)

-- There is no second answer that passes.
abbrev pub Unconfirmed : Advice → Source → SourcePost → World → Type 0
Unconfirmed advice source post w =
    (second : LlmResponse) → advice.review ≡ ok second → ¬ Passes advice source post second w

Returns-success : (redis : Bool) → Returns (record_llm_success redis)
unfolding record_llm_success
Returns-success redis = search returns_rules

Returns-failure : (redis : Bool) → Returns (record_llm_failure redis)
unfolding record_llm_failure
Returns-failure redis = search returns_rules

-- The refusal is suspicious, and no second answer passes.
abbrev pub Unsettled : Advice → Source → SourcePost → LlmResponse → World → Type 0
Unsettled advice source post first w =
    ((first.is_relevant || not (needs_reset_review advice.reading source post)) ≡ false)
    × Unconfirmed advice source post w

is_reset :
    (o : Option AnalysisEventType)
    → is_quota_reset o ≡ true
    → o ≡ some AnalysisEventType.quota_reset
is_reset (some AnalysisEventType.quota_reset) e = refl
is_reset (some _) e = cc
is_reset none e = cc

both_hold :
    (r : LlmResponse)
    → (r.is_relevant && is_quota_reset r.event_type) ≡ true
    → (r.is_relevant ≡ true) × (r.event_type ≡ some AnalysisEventType.quota_reset)
both_hold r e = (ground arith, is_reset r.event_type (ground arith))

abbrev Any : World → Type 0
Any w = Unit

module _ (advice : Advice) (redis : Bool) (source : Source) (post : SourcePost) where
  approved_by :
      (r : LlmResponse) (o : Result (Unit {0})) (w : World)
      → validate_payload_for_post advice r source post w ≡ o
      → Post
          (λ d v. validate_payload_for_post advice r source post v ≡ ok tt)
          (λ v. ¬ Passes advice source post r v)
          (lift o w)
  unfolding pure raise
  approved_by r (ok d) w e = e
  approved_by r (raised x) w e = λ passed. let approved = passed.0 in cc

  Gives-validate :
      (r : LlmResponse)
      → Gives Any
          (λ d w. validate_payload_for_post advice r source post w ≡ ok tt)
          (λ w. ¬ Passes advice source post r w)
          (validate advice r source post)
  Gives-validate r =
      Gives-gets-bind (validate_payload_for_post advice r source post) lift
        (λ w h. approved_by r (validate_payload_for_post advice r source post w) w refl)

  Gives-confirm_reset :
      (r : LlmResponse)
      → Gives Any
          (λ done. Passes advice source post r)
          (λ w. ¬ Passes advice source post r w)
          (confirm_reset advice redis source post r)
  unfolding confirm_reset
  Gives-confirm_reset r = Gives-bind (Gives-validate r) λ done.
      Gives-if (r.is_relevant && is_quota_reset r.event_type) (λ e. Gives-pure tt (λ w h. (h, e)))
        (λ e. Gives-raise _ (λ w h passed. let again = passed.1 in cc))

  -- The handler always raises.
  Gives-doubt :
      {P R : World → Type 0} {Q : Unit {0} → World → Type 0}
      → ((w : World) → P w → R w)
      → (raw : Json) (e : Exn) → Gives P Q R (doubt advice redis source post raw e)
  Gives-doubt back raw Exn.does_not_exist = Gives-raise _ back
  Gives-doubt back raw Exn.integrity_error = Gives-raise _ back
  Gives-doubt back raw (Exn.value_error m) = Gives-raise _ back
  Gives-doubt back raw (Exn.delivery_message_error m) = Gives-raise _ back
  Gives-doubt back raw (Exn.subscription_conflict m) = Gives-raise _ back
  Gives-doubt back raw (Exn.validation_error m) = Gives-raise _ back
  Gives-doubt back raw (Exn.x_post_payload_error m) = Gives-raise _ back
  Gives-doubt back raw (Exn.backfill_unavailable_error m) = Gives-raise _ back
  Gives-doubt back raw (Exn.x_api_error x m) = Gives-raise _ back
  Gives-doubt back raw Exn.broker_error = Gives-raise _ back
  Gives-doubt back raw Exn.budget_exhausted = Gives-raise _ back
  Gives-doubt back raw Exn.unfinished = Gives-raise _ back
  Gives-doubt back raw (Exn.retry n) = Gives-raise _ back
  Gives-doubt back raw (Exn.quality_error m) = Gives-raise _ back
  Gives-doubt back raw (Exn.prompt_error m) = Gives-raise _ back
  Gives-doubt back raw (Exn.suspicious_irrelevance_error m r) = Gives-raise _ back
  Gives-doubt back raw (Exn.llm_error t m kind r) = Gives-raise _ back

  -- The second answer is no answer.
  unanswered :
      {x : Exn} → advice.review ≡ raised x → (w : World) → Any w → Unconfirmed advice source post w
  unanswered answered w h second again = cc

  -- The second answer does not pass.
  refuted :
      {r : LlmResponse}
      → advice.review ≡ ok r
      → (w : World) → ¬ Passes advice source post r w
      → Unconfirmed advice source post w
  refuted {r} answered w h second again passed =
      h (subst (λ s. Passes advice source post s w) (ok_injective (sym again ∙ answered)) passed)

  Gives-review :
      (first : LlmResponse) (r : Result LlmResponse)
      → advice.review ≡ r
      → Gives Any
          (λ final w. Confirmed advice source post first final w)
          (Unconfirmed advice source post)
          (review_answer advice redis source post first r)
  unfolding review_answer
  Gives-review first (ok reviewed) answered =
      Gives-bind (Gives-returned (Returns-success redis)) λ done.
        Gives-bind (Gives-attempt (Gives-confirm_reset reviewed) (Gives-doubt (refuted answered) _))
          λ checked. Gives-pure _ λ w (approved, confirmed).
            let (relevant, reset) = both_hold reviewed confirmed in
            record {
              second = reviewed;
              answered = answered;
              approved = approved;
              relevant = relevant;
              reset = reset;
              returned = refl;
            }
  Gives-review first (raised (Exn.llm_error t m kind raw)) answered =
      Gives-bind (Gives-returned (Returns-failure redis))
        λ done. Gives-raise _ (unanswered answered)
  Gives-review first (raised Exn.does_not_exist) answered = Gives-raise _ (unanswered answered)
  Gives-review first (raised Exn.integrity_error) answered = Gives-raise _ (unanswered answered)
  Gives-review first (raised (Exn.value_error m)) answered = Gives-raise _ (unanswered answered)
  Gives-review first (raised (Exn.delivery_message_error m)) answered =
      Gives-raise _ (unanswered answered)
  Gives-review first (raised (Exn.subscription_conflict m)) answered =
      Gives-raise _ (unanswered answered)
  Gives-review first (raised (Exn.validation_error m)) answered =
      Gives-raise _ (unanswered answered)
  Gives-review first (raised (Exn.x_post_payload_error m)) answered =
      Gives-raise _ (unanswered answered)
  Gives-review first (raised (Exn.backfill_unavailable_error m)) answered =
      Gives-raise _ (unanswered answered)
  Gives-review first (raised (Exn.x_api_error x m)) answered = Gives-raise _ (unanswered answered)
  Gives-review first (raised Exn.broker_error) answered = Gives-raise _ (unanswered answered)
  Gives-review first (raised Exn.budget_exhausted) answered = Gives-raise _ (unanswered answered)
  Gives-review first (raised Exn.unfinished) answered = Gives-raise _ (unanswered answered)
  Gives-review first (raised (Exn.retry n)) answered = Gives-raise _ (unanswered answered)
  Gives-review first (raised (Exn.quality_error m)) answered = Gives-raise _ (unanswered answered)
  Gives-review first (raised (Exn.prompt_error m)) answered = Gives-raise _ (unanswered answered)
  Gives-review first (raised (Exn.suspicious_irrelevance_error m r)) answered =
      Gives-raise _ (unanswered answered)

paired :
    {A : Type 0} (E : Type 0) (fact : E) (Q : A → World → Type 0) (R : World → Type 0)
    (S : A → World → Type 0) (r : Result A × World)
    → Post Q R r
    → Post (λ a w. S a w ⊎ (Q a w × E)) (λ w. E × R w) r
paired E fact Q R S (ok a, w) h = inr (h, fact)
paired E fact Q R S (raised e, w) h = (fact, h)

-- The fact that led to an action, with what the action gives.
Gives-both :
    {A E : Type 0} {P R : World → Type 0} {Q : A → World → Type 0} {S : A → World → Type 0}
    {m : Do A}
    → E
    → Gives P Q R m
    → Gives P (λ a w. S a w ⊎ (Q a w × E)) (λ w. E × R w) m
Gives-both {A} {E} {P} {R} {Q} {S} {m} fact g = record {
  at = λ w h. paired E fact Q R S (m w) (g.at w h);
}

-- A first answer that is relevant, or where nothing is suspicious, is returned as it is. For a
-- suspicious refusal the second answer is returned, with both raw responses, if it passes the checks
-- and says that the quota is reset; and an exception ends the review only if it does not.
pub reassess-Settled :
    (advice : Advice) (redis : Bool) (source : Source) (post : SourcePost) (response : LlmResponse)
    (w : World)
    → Post
        (λ final v. Settled advice source post response final v)
        (λ v. Unsettled advice source post response v)
        (reassess_irrelevant_response advice redis source post response w)
unfolding reassess_irrelevant_response
reassess-Settled advice redis source post response w =
    (Gives-if {P = Any} {R = λ v. Unsettled advice source post response v}
        {Q = λ final v. Settled advice source post response final v}
        (response.is_relevant || not (needs_reset_review advice.reading source post))
        (λ e. Gives-pure response (λ v h. inl (refl, e)))
        (λ e. Gives-both e (Gives-review advice redis source post response advice.review refl))).at
      w tt
