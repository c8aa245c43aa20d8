-- ===== src/News/Settlement.antt =====
-- Ledgers within their ceilings, under `settle` and under sequences of calls
-- (apps/news/budget.py).

use quota_radar.Prelude.{
  ℕ, ◌*◌, ◌≡◌, refl, true, false, Option, none, some, List, [], ◌∷◌, arith, ltb,
}
use quota_radar.Text.Integer.{ℤ}
use quota_radar.Table.{at_pk}
use quota_radar.Table.Keys.{change-IsTable}
use quota_radar.Action.Keeps.{
  Keeps, Keeps-pure, Keeps-found, Keeps-if, Keeps-raise, Keeps-atomic, Keeps-bind, Keeps-modify,
}
use quota_radar.News.Budget.{
  fill_limit, weekly_cap, resource_price, XBudgetPeriod, is_reserved, XApiUsage, InitialFill,
  Ledger, Claim, change_periods, change_fills, change_usages, reserve_budget, corrected, above,
  correct_fill_row, correct_period_row, correct_fill, settle_reserved, settle_usage,
}
use quota_radar.News.BudgetBounds.{
  IsWithin, over_cap, over_fill, lowered, keeps-usages, reserve-keeps,
}

-- A settlement gives money back.
less-committed :
    (held actual cap : ℕ) (committed : ℤ)
    → ltb held actual ≡ false
    → above 1 cap (corrected held actual committed) ≡ true
    → above 1 cap committed ≡ true
less-committed held actual cap (ℤ.pos m) fits over = ground arith
less-committed held actual cap (ℤ.negsuc m) fits over = ground arith

lowers-period :
    (held actual k : ℕ)
    → ltb held actual ≡ false
    → Keeps IsWithin (change_periods (correct_period_row held actual) k)
unfolding change_periods
lowers-period held actual k fits = Keeps-modify _ λ w h. record {
  periods = change-IsTable _ h.periods;
  fills = h.fills;
  weeks_below = lowered over_cap _ w.periods (less k) h.weeks_below;
  fills_below = h.fills_below;
}
  where
    less :
        (k j : ℕ) (p : XBudgetPeriod)
        → over_cap (at_pk k (correct_period_row held actual) j p) ≡ true
        → over_cap p ≡ true
    less k j p over = ground (arith, less-committed held actual weekly_cap p.committed fits)

lowers-fill :
    (held actual : ℕ) (o : Option ℕ)
    → ltb held actual ≡ false
    → Keeps IsWithin (correct_fill held actual o)
unfolding correct_fill change_fills
lowers-fill held actual none fits = Keeps-pure tt
lowers-fill held actual (some fill) fits = Keeps-modify _ λ w h. record {
  periods = h.periods;
  fills = change-IsTable _ h.fills;
  weeks_below = h.weeks_below;
  fills_below = lowered over_fill _ w.fills (less fill) h.fills_below;
}
  where
    less :
        (k j : ℕ) (r : InitialFill)
        → over_fill (at_pk k (correct_fill_row held actual) j r) ≡ true
        → over_fill r ≡ true
    less k j r over = ground (arith, less-committed held actual fill_limit r.committed fits)

settle-reserved_keeps :
    (id : ℕ) (usage : XApiUsage) (o : Option ℤ) → Keeps IsWithin (settle_reserved id usage o)
unfolding settle_reserved change_usages
settle-reserved_keeps id usage none = keeps-usages _ (λ w. (refl, refl))
settle-reserved_keeps id usage (some (ℤ.negsuc n)) = Keeps-raise _
settle-reserved_keeps id usage (some (ℤ.pos resources)) =
    Keeps-if (ltb usage.reserved (resources * resource_price)) _ _ (λ _. Keeps-raise _)
      λ fits.
        Keeps-bind _ _
          (lowers-fill usage.reserved (resources * resource_price) usage.initial_fill fits)
          λ _.
            Keeps-bind _ _
              (lowers-period usage.reserved (resources * resource_price) usage.period fits)
              (λ _. keeps-usages _ (λ w. (refl, refl)))

settle-keeps : (id : ℕ) (o : Option ℤ) → Keeps IsWithin (settle_usage id o)
unfolding settle_usage
settle-keeps id o = Keeps-atomic _ (
    Keeps-bind _ _ (Keeps-found _) λ usage.
      Keeps-if (is_reserved usage.status) _ _ (λ _. settle-reserved_keeps id usage o)
        (λ _. Keeps-pure tt))

-- The calls that the collectors make.
pub data BudgetCall : Type 0 where
  reserving : Claim → BudgetCall
  settling : ℕ → Option ℤ → BudgetCall

-- The ledger after the calls, one after the other; a call may raise.
unfoldable pub after_calls : List BudgetCall → Ledger → Ledger
after_calls [] w = w
after_calls (BudgetCall.reserving c ∷ calls) w = after_calls calls (reserve_budget c w).1
after_calls (BudgetCall.settling id resources ∷ calls) w =
    after_calls calls (settle_usage id resources w).1

-- Whatever is asked of the X budget, and in whatever order requests are paid and settled or refused,
-- no week commits more than 10 dollars and no first fill more than 2, if that was so before.
pub after_calls-IsWithin :
    (calls : List BudgetCall) (w : Ledger) → IsWithin w → IsWithin (after_calls calls w)
unfolding after_calls
after_calls-IsWithin [] w h = h
after_calls-IsWithin (BudgetCall.reserving c ∷ calls) w h =
    after_calls-IsWithin calls _ ((reserve-keeps c).at w h)
after_calls-IsWithin (BudgetCall.settling id resources ∷ calls) w h =
    after_calls-IsWithin calls _ ((settle-keeps id resources).at w h)
