-- ===== src/Tests/Budget.antt =====
-- Requests for X budget on small ledgers.

use quota_radar.Prelude.{ℕ, ◌≡◌, refl, true, none, some, Option, List, [], ◌∷◌, arith}
use quota_radar.Text.Integer.{ℤ}
use quota_radar.Table.{find, first, adjust, change, create, count}
use quota_radar.News.Budget.{
  XBudgetPeriod, InitialFillStatus, InitialFill, Ledger, Claim, reserve_budget, check_fill,
  get_or_create_period, commit, change_periods, charge_fill, record_usage, settle_reserved,
  correct_fill, change_usages, settle_usage,
}
use quota_radar.Action.{ok, atomic, found, pure, gets, modify, ◌>>=◌}
use quota_radar.News.SettledOnce.{settle-once}
use quota_radar.News.BudgetBounds.{IsWithin}
use quota_radar.News.Settlement.{BudgetCall, after_calls, after_calls-IsWithin}

abbrev week : XBudgetPeriod
week = record { week = 20780; limit = 10000; committed = ℤ.pos 9400 }

abbrev fill : InitialFill
fill = record { status = InitialFillStatus.collecting; expires_at = 900; committed = ℤ.pos 1900 }

abbrev ledger : Ledger
ledger = record {
  periods = record { rows = (1, week) ∷ []; next = 2 };
  usages = record { rows = []; next = 1 };
  fills = record { rows = (1, fill) ∷ []; next = 2 };
}

abbrev asked : Option ℕ → Claim
asked initial_fill = record {
  source = 1;
  weekly_x_limit = 20000;
  maximum = 100;
  priority = true;
  operation = "recent_search";
  initial_fill = initial_fill;
  now = 800;
  week = 20780;
}

ledger-IsWithin : IsWithin ledger
unfolding find count
ledger-IsWithin = record {
  periods = record { keyed = (refl, tt); ahead = λ k le. ground arith };
  fills = record { keyed = (refl, tt); ahead = λ k le. ground arith };
  weeks_below = refl;
  fills_below = refl;
}

-- The fill pays to its last cent, is refused, and gets a part back.
abbrev calls : List BudgetCall
calls =
    BudgetCall.reserving (asked (some 1))
    ∷ BudgetCall.reserving (asked (some 1))
    ∷ BudgetCall.settling 1 (some (ℤ.pos 12))
    ∷ []

after_calls-IsWithin_example : IsWithin (after_calls calls ledger)
after_calls-IsWithin_example = after_calls-IsWithin calls ledger ledger-IsWithin

-- A response with 12 posts, then the report of a lost one.
abbrev asked_once : Ledger
asked_once = (reserve_budget (asked none) ledger).1

settled_once :
    settle_usage 1 (some (ℤ.pos 12)) asked_once
    ≡ (ok tt, (settle_usage 1 (some (ℤ.pos 12)) asked_once).1)
unfolding settle_usage reserve_budget check_fill get_or_create_period commit change_periods
    charge_fill record_usage settle_reserved correct_fill change_usages atomic found pure gets
    modify ◌>>=◌ find first adjust change create
settled_once = refl

settle-once_example :
    settle_usage 1 none (settle_usage 1 (some (ℤ.pos 12)) asked_once).1
    ≡ (ok tt, (settle_usage 1 (some (ℤ.pos 12)) asked_once).1)
settle-once_example = settle-once 1 (some (ℤ.pos 12)) none asked_once _ settled_once
