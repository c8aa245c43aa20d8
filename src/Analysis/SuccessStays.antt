-- ===== src/Analysis/SuccessStays.antt =====
-- Successful analyses under the saves (apps/analysis/services.py).
use mathlib.Core.Option
use mathlib.Core.Option.{some-injective}
use quota_radar.Prelude.{
  ℕ, String, ◌≡◌, ◌≢◌, refl, sym, ap, ◌∙◌, Bool, true, false, Option, none, some, arith, Bool-cases,
  inl, inr,
}
use quota_radar.Json.{Json}
use quota_radar.Table.{find, first, change, create, at_pk, find-first, find-adjust}
use quota_radar.Table.Keys.{IsTable, change-IsTable, create-IsTable, find-create}
use quota_radar.Action.{Result, ok, raised, pure, ◌>>=◌}
use quota_radar.Action.Keeps.{Keeps, Keeps-modify, Keeps-gets-bind, Keeps-bind, keeps_rules}
use quota_radar.Models.Sources.{Source, SourcePost, SourcePostProcessingStatus}
use quota_radar.Models.Analysis.{Analysis, is_successful}
use quota_radar.Models.World.{World}
use quota_radar.Advertising.Queries.{lift}
use quota_radar.Monitoring.Dispatch.{change_posts}
use quota_radar.Analysis.Saving.{
  LlmResponse, for_post, store, insert_analysis, update_analysis, save_new, unless_successful,
  save_analysis, save_successful_analysis, save_reset_warning_analysis, save_failed_analysis,
}

-- A table of analyses with one row per key, in which this row stands.
pub record Final (k : ℕ) (a : Analysis) (w : World) : Type 0 where
  pub keys : IsTable w.analyses
  pub at : find k w.analyses.rows ≡ some a

-- The query found nothing, or a row with another key.
abbrev Other : ℕ → Option (ℕ × Analysis) → Type 0
Other k none = Unit
Other k (some (pk, b)) = pk ≢ k

module _ {k : ℕ} {a : Analysis} where
  keeps-posts : (g : ℕ → SourcePost → SourcePost) → Keeps (Final k a) (change_posts g)
  unfolding change_posts
  keeps-posts g = Keeps-modify _ λ w h. record { keys = h.keys; at = h.at }

  keeps-lift : {A : Type 0} (r : Result A) → Keeps (Final k a) (lift r)
  keeps-lift (ok x) = search keeps_rules
  keeps-lift (raised e) = search keeps_rules

  inserting : (row : Analysis) → Keeps (Final k a) (insert_analysis row)
  unfolding insert_analysis ◌>>=◌
  inserting row =
      let created =
        Keeps-modify {P = Final k a} (λ (w : World). record w { analyses = create row w.analyses })
          (λ w h. record {
            keys = create-IsTable row h.keys;
            at = find-create k a row w.analyses h.at;
          }) in
      search (keeps_rules, created) depth 12

  updating : (pk : ℕ) → pk ≢ k → (row : Analysis) → Keeps (Final k a) (update_analysis pk row)
  unfolding update_analysis change ◌>>=◌
  updating pk ne row =
      let same : at_pk pk (λ _. row) k a ≡ a = ground arith in
      let updated =
        Keeps-modify {P = Final k a}
          (λ (w : World). record w { analyses = change (at_pk pk (λ _. row)) w.analyses })
          (λ w h. record {
            keys = change-IsTable (at_pk pk (λ _. row)) h.keys;
            at =
                find-adjust (at_pk pk (λ _. row)) k w.analyses.rows
                ∙ ap (Option.map _) h.at
                ∙ ap some same;
          }) in
      search (keeps_rules, updated) depth 12

  keeps-store :
      (now id : ℕ) (values : Analysis → Analysis) (o : Option (ℕ × Analysis))
      → Other k o
      → Keeps (Final k a) (store now id values o)
  unfolding store
  keeps-store now id values none other = search (keeps_rules, inserting)
  keeps-store now id values (some (pk, b)) other = search (keeps_rules, updating pk other)

  keeps-save_new :
      (now id : ℕ) (prepared : Result (Analysis → Analysis)) (status : SourcePostProcessingStatus)
      (error : String) (o : Option (ℕ × Analysis))
      → Other k o
      → Keeps (Final k a) (save_new now id prepared status error o)
  unfolding save_new
  keeps-save_new now id prepared status error o other =
      let storing = λ (values : Analysis → Analysis). keeps-store now id values o other in
      search (keeps_rules, keeps-posts, keeps-lift, storing) depth 16

  module _ (final : is_successful a ≡ true) where
    not-Final :
        (w : World)
        → Final k a w
        → (id pk : ℕ) (b : Analysis) → first (for_post id) w.analyses.rows ≡ some (pk, b)
        → is_successful b ≡ false
        → pk ≢ k
    not-Final w h id pk b e replaced same =
        let row = find-first (for_post id) w.analyses.rows h.keys.keyed e in
        let here = some-injective _ _ (sym row ∙ ap (λ j. find j w.analyses.rows) same ∙ h.at) in
        let differ : true ≡ false = sym final ∙ ap is_successful (sym here) ∙ replaced in cc

  module _ (final : is_successful a ≡ true) (now id : ℕ) (prepared : Result (Analysis → Analysis))
      (status : SourcePostProcessingStatus) (error : String) where
    by_existing :
        (w : World)
        → Final k a w
        → (o : Option (ℕ × Analysis)) → first (for_post id) w.analyses.rows ≡ o
        → Final k a (unless_successful (save_new now id prepared status error o) o w).1
    unfolding unless_successful pure
    by_existing w h none e = (keeps-save_new now id prepared status error none tt).at w h
    by_existing w h (some (pk, b)) e = elim (Bool-cases (is_successful b)) [
      | inl kept ↦ simp kept h
      | inr replaced ↦ simp replaced (
          (keeps-save_new now id prepared status error (some (pk, b))
              (not-Final final w h id pk b e replaced)).at
            w h)
    ]

  keeps-save_analysis :
      (final : is_successful a ≡ true) (now id : ℕ) (values : Source → Result (Analysis → Analysis))
      (status : SourcePostProcessingStatus) (error : String)
      → Keeps (Final k a) (save_analysis now id values status error)
  unfolding save_analysis
  keeps-save_analysis final now id values status error =
      let saving = λ (prepared : Result (Analysis → Analysis)).
        Keeps-gets-bind {P = Final k a} (λ (w : World). first (for_post id) w.analyses.rows)
          (λ o. unless_successful (save_new now id prepared status error o) o)
          (λ w h. by_existing final now id prepared status error w h _ refl) in
      search (keeps_rules, saving) depth 16

module _ {k : ℕ} {a : Analysis} (final : is_successful a ≡ true) (now id : ℕ) where
  pub keeps-successful :
      (r : LlmResponse) (model : Option String)
      → Keeps (Final k a) (save_successful_analysis now id r model)
  unfolding save_successful_analysis
  keeps-successful r model =
      Keeps-bind _ _ (search keeps_rules) (λ config. keeps-save_analysis final now id _ _ _)

  pub keeps-warning :
      (title message : String) (is_fallback : Bool) (raw : Option Json)
      → Keeps (Final k a) (save_reset_warning_analysis now id title message is_fallback raw)
  unfolding save_reset_warning_analysis
  keeps-warning title message is_fallback raw =
      Keeps-bind _ _ (search keeps_rules) (λ config. keeps-save_analysis final now id _ _ _)

  pub keeps-failed :
      (error : String) (raw : Option Json)
      → Keeps (Final k a) (save_failed_analysis now id error raw)
  unfolding save_failed_analysis
  keeps-failed error raw =
      Keeps-bind _ _ (search keeps_rules) (λ config. keeps-save_analysis final now id _ _ _)

-- A save of any post's analysis, be it a success, a warning of the application's own or a failure,
-- leaves every successful analysis exactly as it was, where no two analyses have one key.
pub saves-keep_success :
    (now id k : ℕ) {a : Analysis} (w : World)
    → IsTable w.analyses
    → find k w.analyses.rows ≡ some a
    → is_successful a ≡ true
    → ((r : LlmResponse) (model : Option String)
        → find k (save_successful_analysis now id r model w).1.analyses.rows ≡ some a)
      × ((title message : String) (is_fallback : Bool) (raw : Option Json)
          → find k
              (save_reset_warning_analysis now id title message is_fallback raw w).1.analyses.rows
            ≡ some a)
      × ((error : String) (raw : Option Json)
          → find k (save_failed_analysis now id error raw w).1.analyses.rows ≡ some a)
saves-keep_success now id k {a} w keys e final =
    let start : Final k a w = record { keys = keys; at = e } in
    (
      λ r model. ((keeps-successful final now id r model).at w start).at,
      λ title message is_fallback raw.
          ((keeps-warning final now id title message is_fallback raw).at w start).at,
      λ error raw. ((keeps-failed final now id error raw).at w start).at,
    )
