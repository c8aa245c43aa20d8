-- ===== src/News/BudgetBounds.antt =====
-- Ledgers within the ceilings of a week and of a first fill, under `reserve`
-- (apps/news/budget.py).

use quota_radar.Prelude.{
  ℕ, ◌+◌, ◌≡◌, refl, sym, ap, ◌∙◌, Bool, true, false, Option, none, some, [], ◌∷◌, ◌++◌, arith,
}
use quota_radar.Table.{
  Rows, Table, find, at_pk, count, first, create, change, find-first, count-adjust-le,
}
use quota_radar.Table.Keys.{IsTable, change-IsTable, create-IsTable, count-at_pk, count-create}
use quota_radar.Action.{Exn, modify}
use quota_radar.Action.Keeps.{Keeps, Keeps-pure, Keeps-gets, Keeps-bind, Keeps-modify}
use quota_radar.Action.Gives.{
  Gives-keeps, Gives, Gives-pure, Gives-raise, Gives-if, Gives-from, Gives-bind, Gives-gets-bind,
  Gives-found-bind, Gives-modify, Gives-atomic, state_after,
}
use quota_radar.News.Budget.{
  above, fill_more, new_period, fill_limit, weekly_cap, XBudgetPeriod, InitialFill, Ledger, Claim,
  of_week, change_periods, change_fills, fill_refuses, check_fill, get_or_create_period,
  week_refuses, spend, charge_fill, record_usage, commit, reserve_budget,
}

abbrev pub over_cap : XBudgetPeriod → Bool
over_cap p = above 1 weekly_cap p.committed

abbrev pub over_fill : InitialFill → Bool
over_fill r = above 1 fill_limit r.committed

-- Keys are unique, and no row is above its ceiling.
pub record IsWithin (w : Ledger) : Type 0 where
  pub periods : IsTable w.periods
  pub fills : IsTable w.fills
  pub weeks_below : count over_cap w.periods.rows ≡ 0
  pub fills_below : count over_fill w.fills.rows ≡ 0

-- A row of a table with no row above the ceiling is below it.
none-counted :
    {A : Type 0} (p : A → Bool) (k : ℕ) (rs : Rows A) {a : A}
    → count p rs ≡ 0
    → find k rs ≡ some a
    → p a ≡ false
unfolding find count
none-counted p k [] {a} h e = cc
none-counted p k ((j, b) ∷ rs) {a} h e = ground (arith, none-counted p k rs {a = a})

-- A change of one row to a row below the ceiling.
stays-below :
    {A : Type 0} (p : A → Bool) (k : ℕ) (f : A → A) (t : Table A) {a : A}
    → IsTable t
    → count p t.rows ≡ 0
    → find k t.rows ≡ some a
    → p (f a) ≡ false
    → count p (change (at_pk k f) t).rows ≡ 0
unfolding change
stays-below p k f t {a} keys below e low =
    count-at_pk p k f t.rows keys.keyed e (low ∙ sym (none-counted p k t.rows below e)) ∙ below

allowed-week :
    (c : Claim) (p : XBudgetPeriod) → week_refuses c p ≡ false → over_cap (spend c p) ≡ false
allowed-week c p h = ground arith

allowed-fill :
    (c : Claim) (r : InitialFill) → fill_refuses c r ≡ false → over_fill (fill_more c r) ≡ false
allowed-fill c r h = ground arith

-- A change of rows that makes none of them more than it was.
pub lowered :
    {A : Type 0} (p : A → Bool) (g : ℕ → A → A) (t : Table A)
    → ((j : ℕ) (a : A) → p (g j a) ≡ true → p a ≡ true)
    → count p t.rows ≡ 0
    → count p (change g t).rows ≡ 0
unfolding change
lowered p g t less below = let le = count-adjust-le p g t.rows less in omega arith

-- The fill that a request draws on has room for it.
abbrev Covered : Claim → Option ℕ → Ledger → Type 0
Covered c none w = Unit
Covered c (some fill) w =
    (run : InitialFill) × (find fill w.fills.rows ≡ some run)
    × (over_fill (fill_more c run) ≡ false)

record Checked (c : Claim) (w : Ledger) : Type 0 where
  within : IsWithin w
  covered : Covered c c.initial_fill w

-- What is known of a ledger in which the period has been found or made.
record Opened (c : Claim) (row : ℕ × XBudgetPeriod) (w : Ledger) : Type 0 where
  checked : Checked c w
  here : find row.0 w.periods.rows ≡ some row.1

check_fill-Covered :
    (c : Claim) (o : Option ℕ)
    → Gives IsWithin (λ _ w. IsWithin w × Covered c o w) IsWithin (check_fill c o)
unfolding check_fill
check_fill-Covered c none = Gives-pure tt (λ w h. (h, tt))
check_fill-Covered c (some fill) =
    Gives-found-bind _ _ (λ w h. h)
      λ w run h e.
        (Gives-if {P = λ v. v ≡ w} (fill_refuses c run)
            (λ _. Gives-raise Exn.budget_exhausted (λ v same. rw same h))
            (λ fits. Gives-pure tt (λ v same. rw same (h, (run, e, allowed-fill c run fits))))).at
          w refl

find-last :
    {A : Type 0} (k : ℕ) (a : A) (rs : Rows A)
    → find k rs ≡ none
    → find k (rs ++ ((k, a) ∷ [])) ≡ some a
unfolding find
find-last k a [] e = ground arith
find-last k a ((j, b) ∷ rs) e = ground (arith, find-last k a rs)

find-created :
    {A : Type 0} (a : A) (t : Table A) → IsTable t → find t.next (create a t).rows ≡ some a
unfolding create
find-created a t keys = find-last t.next a t.rows (keys.ahead t.next (omega arith))

-- The ledger with a new period.
with_period :
    (c : Claim) (w : Ledger)
    → Checked c w
    → Checked c (record w { periods = create (new_period c) w.periods })
with_period c w h = record {
  within = record {
    periods = create-IsTable (new_period c) h.within.periods;
    fills = h.within.fills;
    weeks_below =
        count-create over_cap (new_period c) w.periods ∙ ap (λ n. n + 0) h.within.weeks_below;
    fills_below = h.within.fills_below;
  };
  covered = covered_by c.initial_fill h.covered;
}
  where
    covered_by :
        (o : Option ℕ)
        → Covered c o w
        → Covered c o (record w { periods = create (new_period c) w.periods })
    covered_by none t = t
    covered_by (some fill) t = t

Opened-get_or_create :
    (c : Claim) (w : Ledger) (o : Option (ℕ × XBudgetPeriod))
    → first (of_week c.week) w.periods.rows ≡ o
    → Gives (λ v. (v ≡ w) × Checked c w) (Opened c) IsWithin (get_or_create_period c o)
unfolding get_or_create_period
Opened-get_or_create c w none e = Gives-gets-bind _ _ λ v (same, h).
    (Gives-bind {Q = λ _ u. Opened c (v.periods.next, new_period c) u}
        (Gives-modify {P = λ u. u ≡ w} _ λ u at. rw at (
          rw same (record {
            checked = with_period c w h;
            here = find-created (new_period c) w.periods h.within.periods;
          })))
        (λ _. Gives-pure (v.periods.next, new_period c) (λ u there. there))).at
      v same
Opened-get_or_create c w (some row) e = Gives-pure row λ v (same, h). rw same (record {
  checked = h;
  here = find-first (of_week c.week) w.periods.rows h.within.periods.keyed e;
})

-- The week pays.
spent :
    (c : Claim) (row : ℕ × XBudgetPeriod)
    → week_refuses c row.1 ≡ false
    → Gives (Opened c row) (λ _. Checked c) IsWithin (change_periods (spend c) row.0)
unfolding change_periods
spent c (pk, p) fits = Gives-modify _ λ w h. record {
  within = record {
    periods = change-IsTable (at_pk pk (spend c)) h.checked.within.periods;
    fills = h.checked.within.fills;
    weeks_below =
        stays-below over_cap pk (spend c) w.periods h.checked.within.periods
          h.checked.within.weeks_below h.here (allowed-week c p fits);
    fills_below = h.checked.within.fills_below;
  };
  covered = covered_by w c.initial_fill h.checked.covered;
}
  where
    covered_by :
        (w : Ledger) (o : Option ℕ)
        → Covered c o w
        → Covered c o (record w { periods = change (at_pk pk (spend c)) w.periods })
    covered_by w none t = t
    covered_by w (some fill) t = t

-- The fill pays.
charged :
    (c : Claim) (o : Option ℕ)
    → Gives (λ w. IsWithin w × Covered c o w) (λ _. IsWithin) IsWithin (charge_fill c o)
unfolding charge_fill change_fills
charged c none = Gives-pure tt (λ w h. h.0)
charged c (some fill) = Gives-modify _ λ w (h, (run, here, low)). record {
  periods = h.periods;
  fills = change-IsTable (at_pk fill (fill_more c)) h.fills;
  weeks_below = h.weeks_below;
  fills_below = stays-below over_fill fill (fill_more c) w.fills h.fills h.fills_below here low;
}

-- What writes usages only.
pub keeps-usages :
    (f : Ledger → Ledger)
    → ((w : Ledger) → ((f w).periods ≡ w.periods) × ((f w).fills ≡ w.fills))
    → Keeps IsWithin (modify f)
keeps-usages f same = Keeps-modify f λ w h.
    let (p, r) = same w in
    record {
      periods = rw p h.periods;
      fills = rw r h.fills;
      weeks_below = rw p h.weeks_below;
      fills_below = rw r h.fills_below;
    }

keeps-record_usage : (c : Claim) (period : ℕ) → Keeps IsWithin (record_usage c period)
unfolding record_usage
keeps-record_usage c period =
    Keeps-bind _ _ (Keeps-gets _)
      λ pk. Keeps-bind _ _ (keeps-usages _ (λ w. (refl, refl))) (λ _. Keeps-pure pk)

committed-IsWithin :
    (c : Claim) (row : ℕ × XBudgetPeriod)
    → Gives (Opened c row) (λ _. IsWithin) IsWithin (commit c row)
unfolding commit
committed-IsWithin c row =
    Gives-if (week_refuses c row.1)
      (λ _. Gives-raise Exn.budget_exhausted (λ w h. h.checked.within))
      λ fits. Gives-bind (spent c row fits) λ _.
        Gives-bind (Gives-from (λ w h. (h.within, h.covered)) (charged c c.initial_fill))
          (λ _. Gives-keeps (keeps-record_usage c row.0))

pub reserve-keeps : (c : Claim) → Keeps IsWithin (reserve_budget c)
unfolding reserve_budget
reserve-keeps c =
    let body =
      Gives-atomic (λ w h. h)
        (Gives-bind (check_fill-Covered c c.initial_fill) λ _. Gives-gets-bind _ _ λ w (h, covers).
          (Gives-bind (Opened-get_or_create c w (first (of_week c.week) w.periods.rows) refl)
              (committed-IsWithin c)).at
            w (refl, record { within = h; covered = covers })) in
    record { at = state_after body }
