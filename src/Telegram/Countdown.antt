-- ===== src/Telegram/Countdown.antt =====
-- The delay before a retry.
use quota_radar.Prelude.{ℕ, zero, suc, ◌+◌, ◌^◌, ◌≤◌, ◌≡◌, Option, none, some, arith}
use quota_radar.Telegram.Retry.{retry_countdown, delivery_countdown}

power_positive : (n : ℕ) → 1 ≤ 2 ^ n
power_positive zero = omega arith
power_positive (suc n) = omega (arith, power_positive n)

power_five : (n : ℕ) → 32 ≤ 2 ^ (n + 5)
power_five zero = omega arith
power_five (suc n) =
    let next : suc n + 5 ≡ suc (n + 5) = omega arith in rw next (omega (arith, power_five n))

-- The back-off starts at half a minute or later, never passes a quarter of an hour, never shrinks from
-- one retry to the next, and stays at its limit from the fifth retry on.
pub retry_countdown-bounds :
    (n : ℕ)
    → (30 ≤ retry_countdown n)
      × (retry_countdown n ≤ 900)
      × (retry_countdown n ≤ retry_countdown (suc n))
      × (retry_countdown (n + 5) ≡ 900)
unfolding retry_countdown
retry_countdown-bounds n =
    (omega (arith, power_positive n), omega arith, omega arith, omega (arith, power_five n))

-- Whatever delay Telegram asks for, the wait before the next attempt is at least a second.
pub delivery_countdown-positive :
    (retry_after : Option ℕ) (n : ℕ) → 1 ≤ delivery_countdown retry_after n
unfolding delivery_countdown
delivery_countdown-positive none n = omega (arith, (retry_countdown-bounds n).0)
delivery_countdown-positive (some zero) n = omega (arith, (retry_countdown-bounds n).0)
delivery_countdown-positive (some (suc m)) n = omega arith
