-- ===== src/News/Budget.antt =====
-- The budget of X requests (apps/news/budget.py). Amounts are thousandths of a dollar, which is the
-- precision of their columns; a week is the number of its Monday.
use quota_radar.Prelude.{
  ℕ, ◌+◌, ◌-◌, ◌-◌, ◌*◌, min, String, Bool, true, false, ◌&&◌, ◌||◌, not, Option, none, some, ltb,
  leb, ◌==◌, if◌then◌else◌, is_some,
}
use quota_radar.Text.Integer.{ℤ}
use quota_radar.Table.{Table, find, at_pk, first, create, change}
use quota_radar.Action.{Exn, Action, pure, raise, gets, found, atomic, modify, ◌>>=◌, ◌>>◌}

-- Sums of a signed amount and one that is not negative.
abbrev pub plus : ℤ → ℕ → ℤ
plus (ℤ.pos m) n = ℤ.pos (m + n)
plus (ℤ.negsuc m) n = if ltb m n then ℤ.pos (n - (m + 1)) else ℤ.negsuc (m - n)

abbrev pub minus : ℤ → ℕ → ℤ
minus (ℤ.pos m) n = if leb n m then ℤ.pos (m - n) else ℤ.negsuc (n - (m + 1))
minus (ℤ.negsuc m) n = ℤ.negsuc (m + n)

-- So many times the amount are more than the limit.
abbrev pub above : ℕ → ℕ → ℤ → Bool
above times limit (ℤ.pos n) = ltb limit (times * n)
above times limit (ℤ.negsuc n) = false

abbrev pub fill_limit : ℕ
fill_limit = 2000

abbrev pub weekly_cap : ℕ
weekly_cap = 10000

-- The price of a returned post.
abbrev pub resource_price : ℕ
resource_price = 5

pub record XBudgetPeriod : Type 0 where
  pub week : ℕ
  pub limit : ℕ
  pub committed : ℤ

pub data UsageStatus : Type 0 where
  reserved uncertain counted : UsageStatus

abbrev pub is_reserved : UsageStatus → Bool
is_reserved UsageStatus.reserved = true
is_reserved _ = false

pub record XApiUsage : Type 0 where
  pub period : ℕ
  pub source : ℕ
  pub initial_fill : Option ℕ
  pub operation : String
  pub reserved : ℕ
  pub charged_estimate : Option ℕ
  pub status : UsageStatus
  pub resources : ℕ

pub data InitialFillStatus : Type 0 where
  archive collecting assessing publishing completed blocked : InitialFillStatus

abbrev pub is_collecting : InitialFillStatus → Bool
is_collecting InitialFillStatus.collecting = true
is_collecting _ = false

-- The one-time fill with old news, as far as the budget reads and writes it.
pub record InitialFill : Type 0 where
  pub status : InitialFillStatus
  pub expires_at : ℕ
  pub committed : ℤ

pub record Ledger : Type 0 where
  pub periods : Table XBudgetPeriod
  pub usages : Table XApiUsage
  pub fills : Table InitialFill

abbrev Book : Type 0 → Type 0
Book = Action Ledger

-- What a request for money says, with the instant and the week that it is made in.
pub record Claim : Type 0 where
  pub source : ℕ
  pub weekly_x_limit : ℕ
  pub maximum : ℕ
  pub priority : Bool
  pub operation : String
  pub initial_fill : Option ℕ
  pub now : ℕ
  pub week : ℕ

abbrev pub of_week : ℕ → XBudgetPeriod → Bool
of_week week p = p.week == week

abbrev pub new_period : Claim → XBudgetPeriod
new_period c = record { week = c.week; limit = c.weekly_x_limit; committed = ℤ.pos 0 }

unfoldable pub change_periods : (XBudgetPeriod → XBudgetPeriod) → ℕ → Book (Unit {0})
change_periods f pk = modify (λ w. record w { periods = change (at_pk pk f) w.periods })

unfoldable pub change_fills : (InitialFill → InitialFill) → ℕ → Book (Unit {0})
change_fills f pk = modify (λ w. record w { fills = change (at_pk pk f) w.fills })

unfoldable pub change_usages : (XApiUsage → XApiUsage) → ℕ → Book (Unit {0})
change_usages f pk = modify (λ w. record w { usages = change (at_pk pk f) w.usages })

abbrev pub fill_refuses : Claim → InitialFill → Bool
fill_refuses c run =
    not (is_collecting run.status)
    || (leb run.expires_at c.now || above 1 fill_limit (plus run.committed c.maximum))

unfoldable pub check_fill : Claim → Option ℕ → Book (Unit {0})
check_fill c none = pure tt
check_fill c (some fill) = do
  run ← found (λ w. find fill w.fills.rows)
  if fill_refuses c run then raise Exn.budget_exhausted else pure tt

-- The period that is there, or the new one.
unfoldable pub get_or_create_period : Claim → Option (ℕ × XBudgetPeriod) → Book (ℕ × XBudgetPeriod)
get_or_create_period c (some row) = pure row
get_or_create_period c none = do
  pk ← gets (λ w. w.periods.next)
  modify (λ w. record w { periods = create (new_period c) w.periods })
  pure (pk, new_period c)

-- The operator's setting, below the hard ceiling.
abbrev pub week_limit : Claim → ℕ
week_limit c = min c.weekly_x_limit weekly_cap

-- A source without priority has 80 percent of the limit; `maximum <= 0` is refused too.
abbrev pub week_refuses : Claim → XBudgetPeriod → Bool
week_refuses c period =
    let total = plus period.committed c.maximum in
    (c.maximum == 0)
    || (if not c.priority && not (is_some c.initial_fill)
        then above 10 (8 * week_limit c) total
        else above 1 (week_limit c) total)

abbrev pub spend : Claim → XBudgetPeriod → XBudgetPeriod
spend c p = record p { limit = week_limit c; committed = plus p.committed c.maximum }

abbrev pub fill_more : Claim → InitialFill → InitialFill
fill_more c r = record r { committed = plus r.committed c.maximum }

unfoldable pub charge_fill : Claim → Option ℕ → Book (Unit {0})
charge_fill c none = pure tt
charge_fill c (some fill) = change_fills (fill_more c) fill

abbrev pub new_usage : Claim → ℕ → XApiUsage
new_usage c period = record {
  period = period;
  source = c.source;
  initial_fill = c.initial_fill;
  operation = c.operation;
  reserved = c.maximum;
  charged_estimate = none;
  status = UsageStatus.reserved;
  resources = 0;
}

unfoldable pub record_usage : Claim → ℕ → Book ℕ
record_usage c period = do
  pk ← gets (λ w. w.usages.next)
  modify (λ w. record w { usages = create (new_usage c period) w.usages })
  pure pk

-- After the period was found or made.
unfoldable pub commit : Claim → ℕ × XBudgetPeriod → Book ℕ
commit c (pk, period) =
    if week_refuses c period
    then raise Exn.budget_exhausted
    else do change_periods (spend c) pk; charge_fill c c.initial_fill; record_usage c pk

-- `reserve`
unfoldable pub reserve_budget : Claim → Book ℕ
reserve_budget c = atomic do
  check_fill c c.initial_fill
  existing ← gets (λ w. first (of_week c.week) w.periods.rows)
  period ← get_or_create_period c existing
  commit c period

-- `committed += actual - reserved`
abbrev pub corrected : ℕ → ℕ → ℤ → ℤ
corrected held actual committed = minus (plus committed actual) held

abbrev pub correct_fill_row : ℕ → ℕ → InitialFill → InitialFill
correct_fill_row held actual r = record r { committed = corrected held actual r.committed }

abbrev pub correct_period_row : ℕ → ℕ → XBudgetPeriod → XBudgetPeriod
correct_period_row held actual p = record p { committed = corrected held actual p.committed }

unfoldable pub correct_fill : ℕ → ℕ → Option ℕ → Book (Unit {0})
correct_fill held actual none = pure tt
correct_fill held actual (some fill) = change_fills (correct_fill_row held actual) fill

abbrev pub counted_row : ℕ → ℕ → XApiUsage → XApiUsage
counted_row actual resources u = record u {
  charged_estimate = some actual;
  resources = resources;
  status = UsageStatus.counted;
}

abbrev pub unknown_row : XApiUsage → XApiUsage
unknown_row u = record u { status = UsageStatus.uncertain }

abbrev too_large_response : String
too_large_response = "Ответ X вышел за зарезервированный размер страницы."

-- An answer of less than nothing, or of more than was reserved, is refused.
unfoldable pub settle_reserved : ℕ → XApiUsage → Option ℤ → Book (Unit {0})
settle_reserved id usage none = change_usages unknown_row id
settle_reserved id usage (some (ℤ.negsuc n)) = raise (Exn.value_error too_large_response)
settle_reserved id usage (some (ℤ.pos resources)) =
    let actual = resources * resource_price in
    if ltb usage.reserved actual then raise (Exn.value_error too_large_response) else do
      correct_fill usage.reserved actual usage.initial_fill
      change_periods (correct_period_row usage.reserved actual) usage.period
      change_usages (counted_row actual resources) id

-- `settle`; without `resources` the outcome of the request is not known.
unfoldable pub settle_usage : ℕ → Option ℤ → Book (Unit {0})
settle_usage id resources = atomic do
  usage ← found (λ w. find id w.usages.rows)
  if is_reserved usage.status then settle_reserved id usage resources else pure tt
