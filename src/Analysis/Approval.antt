-- ===== src/Analysis/Approval.antt =====
-- Answers that pass the checks (apps/analysis/quality.py).
use quota_radar.Text.Lines.{chars}
use quota_radar.Text.Utf16.{utf16_length}
use quota_radar.Prelude.{
  ℕ, ◌≤◌, String, ◌≡◌, ◌↔◌, refl, ltb, Bool, true, false, ◌||◌, not, arith, if◌then◌else◌,
}
use quota_radar.Action.{Exn, Result, and_then, and_then-ok, ok, raised}
use quota_radar.Models.Sources.{Source, SourcePost}
use quota_radar.Models.Analysis.{AnalysisProduct}
use quota_radar.Models.World.{World}
use quota_radar.Advertising.Budget.{quota_message_limit}
use quota_radar.Advertising.Formatting.{message_limit}
use quota_radar.Advertising.Room.{HasRoom, quota_message_limit-HasRoom, HasRoom-quota_message_limit}
use quota_radar.Telegram.Length.{
  Fits, itself, format_message_values-Fits, format_message_values-nonempty,
}
use mathlib.Core.Path.{subst}
use quota_radar.Telegram.Formatting.{TimeZones, format_message_values}
use quota_radar.Analysis.Saving.{LlmResponse, expected_product, text_or}
use quota_radar.Analysis.Quality.{
  Advice, matches_source, as_quality_error, fits, is_russian, has_link, validate_copy,
  validate_payload_for_post,
}

-- The copy is short, in Russian and without links, and its message can be sent, also with the
-- advertising of each active campaign below it.
pub record IsPublishable (advice : Advice) (title message : String) (post : SourcePost) (w : World)
    : Type 0 where
  pub short : chars title ≤ 255
  pub title_russian : is_russian advice title ≡ true
  pub message_russian : is_russian advice message ≡ true
  pub title_plain : has_link advice title ≡ false
  pub message_plain : has_link advice message ≡ false
  pub rendered : String
  pub is_rendered :
      format_message_values advice.zones w.configuration.telegram_message_timezone title message
        post
      ≡ ok rendered
  pub room : HasRoom advice.render_markup w (utf16_length rendered) w.campaigns.rows

not_refused :
    {A : Type 0} (b : Bool) (x : Exn) (r : Result A) {a : A}
    → (if b then raised x else r) ≡ ok a
    → (b ≡ false) × (r ≡ ok a)
not_refused true x r e = cc
not_refused false x r e = (refl, e)

neither : (b c : Bool) → (b || c) ≡ false → (b ≡ false) × (c ≡ false)
neither true c e = cc
neither false c e = (refl, e)

holds_if : (b : Bool) → not b ≡ false → b ≡ true
holds_if true e = refl
holds_if false e = cc

as_quality_error-ok : (r : Result String) {s : String} → as_quality_error r ≡ ok s → r ≡ ok s
as_quality_error-ok (ok s) e = e
as_quality_error-ok (raised Exn.does_not_exist) e = cc
as_quality_error-ok (raised Exn.integrity_error) e = cc
as_quality_error-ok (raised (Exn.value_error m)) e = cc
as_quality_error-ok (raised (Exn.subscription_conflict m)) e = cc
as_quality_error-ok (raised (Exn.validation_error m)) e = cc
as_quality_error-ok (raised (Exn.x_post_payload_error m)) e = cc
as_quality_error-ok (raised (Exn.backfill_unavailable_error m)) e = cc
as_quality_error-ok (raised (Exn.x_api_error x m)) e = cc
as_quality_error-ok (raised Exn.broker_error) e = cc
as_quality_error-ok (raised Exn.budget_exhausted) e = cc
as_quality_error-ok (raised Exn.unfinished) e = cc
as_quality_error-ok (raised (Exn.retry n)) e = cc
as_quality_error-ok (raised (Exn.quality_error m)) e = cc
as_quality_error-ok (raised (Exn.prompt_error m)) e = cc
as_quality_error-ok (raised (Exn.suspicious_irrelevance_error m r)) e = cc
as_quality_error-ok (raised (Exn.llm_error t m kind r)) e = cc
as_quality_error-ok (raised (Exn.delivery_message_error m)) e = cc

fits-ok :
    (limit : ℕ) (rendered : String) → fits limit rendered ≡ ok tt → utf16_length rendered ≤ limit
fits-ok limit rendered e = ground arith

fits-within :
    (limit : ℕ) (rendered : String) → utf16_length rendered ≤ limit → fits limit rendered ≡ ok tt
fits-within limit rendered le = ground arith

fitting :
    (zones : TimeZones) (timezone title message : String) (post : SourcePost) {s : String}
    → format_message_values zones timezone title message post ≡ ok s
    → utf16_length s ≤ message_limit
fitting zones timezone title message post e =
    subst (Fits itself) e (format_message_values-Fits zones timezone title message post)

module _ (advice : Advice) (title message : String) (post : SourcePost) (w : World) where
  -- The checks of the copy of a relevant answer.
  checked : Result (Unit {0})
  checked =
      validate_copy advice w.configuration.telegram_message_timezone
        (quota_message_limit advice.render_markup w) title message post

  checked-IsPublishable : checked ≡ ok tt → IsPublishable advice title message post w
  unfolding checked validate_copy
  checked-IsPublishable e =
      let (short, e1) = not_refused _ _ _ e in
      let (russian, e2) = not_refused _ _ _ e1 in
      let (plain, e3) = not_refused _ _ _ e2 in
      let (rendered, is_rendered, e4) = and_then-ok _ _ e3 in
      let (limit, is_limit, e5) = and_then-ok _ _ e4 in
      let (in_title, in_message) = neither _ _ russian in
      let (no_title, no_message) = neither _ _ plain in
      let formatted = as_quality_error-ok _ is_rendered in
      record {
        short = ground arith;
        title_russian = holds_if _ in_title;
        message_russian = holds_if _ in_message;
        title_plain = no_title;
        message_plain = no_message;
        rendered = rendered;
        is_rendered = formatted;
        room =
            quota_message_limit-HasRoom advice.render_markup w (utf16_length rendered) limit
              (format_message_values-nonempty advice.zones _ title message post formatted) is_limit
              (fits-ok limit rendered e5);
      }

  IsPublishable-checked : IsPublishable advice title message post w → checked ≡ ok tt
  unfolding checked validate_copy and_then
  IsPublishable-checked h =
      let (limit, is_limit, le) =
        HasRoom-quota_message_limit advice.render_markup w (utf16_length h.rendered)
          (fitting advice.zones _ title message post h.is_rendered) h.room in
      let short : ltb 255 (chars title) ≡ false = (let n = h.short in ground arith) in
      rw
        (
          short, h.title_russian, h.message_russian, h.title_plain, h.message_plain, h.is_rendered,
          is_limit,
        )
        (fits-within limit h.rendered le)

-- A relevant answer passes the checks exactly if it has the provider and the product of its source,
-- its title has at most 255 characters, its copy is in Russian and without links, and its message can
-- be sent, also with the advertising of each active campaign below it.
pub validate-IsPublishable :
    (advice : Advice) (r : LlmResponse) (source : Source) (post : SourcePost) (w : World)
    → r.is_relevant ≡ true
    → (validate_payload_for_post advice r source post w ≡ ok tt) ↔ (
        ((product : AnalysisProduct) × (expected_product source.provider ≡ ok product)
          × (matches_source r source.provider product ≡ true))
        × IsPublishable advice (text_or "" r.title_ru) (text_or "" r.message_ru) post w)
unfolding validate_payload_for_post and_then checked
validate-IsPublishable advice r source post w relevant = (
  (λ e.
      let (product, expected, e1) = and_then-ok _ _ e in
      let (matched, e2) = not_refused _ _ _ e1 in
      (
        (product, expected, holds_if _ matched),
        checked-IsPublishable advice (text_or "" r.title_ru) (text_or "" r.message_ru) post w
            (simp relevant at e2),
      )),
  λ ((product, expected, matched), h).
      let passed = IsPublishable-checked advice _ _ post w h in
      rw expected (simp (matched, relevant) passed),
)
