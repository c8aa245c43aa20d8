-- ===== src/Text/Decimal.antt =====
-- `str(n)` for a natural number, and the two-digit form of a clock.
use Prim.Native.String.{◌++◌ as ◌<>◌}
use quota_radar.Prelude.{ℕ, zero, suc, ◌+◌, String, ltb, if◌then◌else◌, ◌≡◌, refl}
use Prim.Native.Nat.{◌/◌, ◌%◌}

abbrev digit : ℕ → String
digit zero = "0"
digit (suc zero) = "1"
digit (suc (suc zero)) = "2"
digit (suc (suc (suc zero))) = "3"
digit (suc (suc (suc (suc zero)))) = "4"
digit (suc (suc (suc (suc (suc zero))))) = "5"
digit (suc (suc (suc (suc (suc (suc zero)))))) = "6"
digit (suc (suc (suc (suc (suc (suc (suc zero))))))) = "7"
digit (suc (suc (suc (suc (suc (suc (suc (suc zero)))))))) = "8"
digit _ = "9"

-- The fuel bounds the number of digits: a number has fewer digits than its value plus one.
show_fuel : ℕ → ℕ → String
show_fuel zero n = ""
show_fuel (suc f) n =
    let rest = show_fuel f (n / 10) in if ltb n 10 then digit n else rest <> digit (n % 10)

unfoldable pub show : ℕ → String
unfolding show_fuel
show n = show_fuel (n + 1) n

unfoldable pub show_two : ℕ → String
unfolding show_fuel
show_two n = if ltb n 10 then "0" <> show n else show n

show-year : show 2026 ≡ "2026"
unfolding show
show-year = refl
