-- ===== src/News/SettledOnce.antt =====
-- Settlements of a request that has been settled (apps/news/budget.py).
use mathlib.Core.Option
use mathlib.Core.Path.{subst}
use quota_radar.Prelude.{
  ℕ, ◌*◌, ◌≡◌, refl, ap, ◌∙◌, false, Option, none, some, ltb, if◌then◌else◌, ==_refl,
}
use quota_radar.Text.Integer.{ℤ}
use quota_radar.Table.{find, at_pk, change, find-adjust}
use quota_radar.Action.{Result, ok, raised, pure, found, atomic, ◌>>=◌}
use quota_radar.Action.Gives.{
  Gives, Gives-pure, Gives-raise, Gives-if, Gives-bind, Gives-found-bind, Gives-modify,
  Gives-atomic, Gives-from, Post,
}
use quota_radar.Action.Keeps.{Keeps, Keeps-modify, Keeps-pure}
use quota_radar.News.Budget.{
  resource_price, is_reserved, XApiUsage, Ledger, change_periods, change_fills, change_usages,
  correct_period_row, correct_fill, counted_row, unknown_row, settle_reserved, settle_usage,
}

record HasUsage (id : ℕ) (w : Ledger) : Type 0 where
  usage : XApiUsage
  here : find id w.usages.rows ≡ some usage

-- The outcome of the request has been entered.
record Settled (id : ℕ) (w : Ledger) : Type 0 where
  usage : XApiUsage
  here : find id w.usages.rows ≡ some usage
  entered : is_reserved usage.status ≡ false

entering :
    (id : ℕ) (f : XApiUsage → XApiUsage)
    → ((u : XApiUsage) → is_reserved (f u).status ≡ false)
    → Gives (HasUsage id) (λ _. Settled id) (λ _. Unit) (change_usages f id)
unfolding change_usages change
entering id f enters = Gives-modify _ λ w h. record {
  usage = f h.usage;
  here =
      find-adjust (at_pk id f) id w.usages.rows
      ∙ ap (Option.map (at_pk id f id)) h.here
      ∙ ap (λ b. some (if b then f h.usage else h.usage)) (==_refl id);
  entered = enters h.usage;
}

keeps-fill : (id held actual : ℕ) (o : Option ℕ) → Keeps (HasUsage id) (correct_fill held actual o)
unfolding correct_fill change_fills
keeps-fill id held actual none = Keeps-pure tt
keeps-fill id held actual (some fill) =
    Keeps-modify _ λ w h. record { usage = h.usage; here = h.here }

keeps-period :
    (id held actual k : ℕ) → Keeps (HasUsage id) (change_periods (correct_period_row held actual) k)
unfolding change_periods
keeps-period id held actual k = Keeps-modify _ λ w h. record { usage = h.usage; here = h.here }

by_keeping :
    {id : ℕ} {A : Type 0} {m : Ledger → Result A × Ledger}
    → Keeps (HasUsage id) m
    → Gives (HasUsage id) (λ _. HasUsage id) (λ _. Unit) m
by_keeping {id} {m} k = record { at = λ w h. by_result (m w) (k.at w h) }
  where
    by_result :
        {B : Type 0} (r : Result B × Ledger)
        → HasUsage id r.1
        → Post (λ _. HasUsage id) (λ _. Unit) r
    by_result (ok a, w) h = h
    by_result (raised e, w) h = tt

Settled-reserved :
    (id : ℕ) (usage : XApiUsage) (o : Option ℤ)
    → Gives (HasUsage id) (λ _. Settled id) (λ _. Unit) (settle_reserved id usage o)
unfolding settle_reserved
Settled-reserved id usage none = entering id unknown_row (λ u. refl)
Settled-reserved id usage (some (ℤ.negsuc n)) = Gives-raise _ (λ w h. tt)
Settled-reserved id usage (some (ℤ.pos resources)) =
    Gives-if (ltb usage.reserved (resources * resource_price)) (λ _. Gives-raise _ (λ w h. tt))
      λ fits. Gives-bind (by_keeping (keeps-fill id usage.reserved _ usage.initial_fill)) λ _.
        Gives-bind (by_keeping (keeps-period id usage.reserved _ usage.period))
          λ _. entering id (counted_row _ resources) (λ u. refl)

Settled-settle :
    (id : ℕ) (o : Option ℤ) → Gives (λ _. Unit) (λ _. Settled id) (λ _. Unit) (settle_usage id o)
unfolding settle_usage
Settled-settle id o =
    Gives-atomic (λ w h. tt)
      (Gives-found-bind _ _ (λ w h. tt)
        λ w usage h e.
          (Gives-if {P = λ v. v ≡ w} (is_reserved usage.status)
              (λ _.
                Gives-from
                  (λ v at. record { usage = usage; here = ap (λ u. find id u.usages.rows) at ∙ e })
                  (Settled-reserved id usage o))
              (λ entered. Gives-pure tt λ v at. record {
                usage = usage;
                here = ap (λ u. find id u.usages.rows) at ∙ e;
                entered = entered;
              })).at
            w refl)

-- What has been settled stays.
settle-stands :
    (id : ℕ) (o : Option ℤ) (w : Ledger) → Settled id w → settle_usage id o w ≡ (ok tt, w)
unfolding settle_usage atomic found ◌>>=◌ pure
settle-stands id o w h = rw h.here (rw h.entered refl)

-- A settlement that returns has entered the outcome of its request for good: whatever a second
-- settlement says, it changes nothing.
pub settle-once :
    (id : ℕ) (o later : Option ℤ) (w v : Ledger)
    → settle_usage id o w ≡ (ok tt, v)
    → settle_usage id later v ≡ (ok tt, v)
settle-once id o later w v e =
    settle-stands id later v
      (subst (Post (λ _. Settled id) (λ _. Unit)) e ((Settled-settle id o).at w tt))
