-- ===== src/Telegram/Retry.antt =====
-- The exponential back-off that the Telegram, X and analysis tasks share
-- (apps/telegram/task_support.py, apps/monitoring/retries.py, apps/analysis/failures.py).
use quota_radar.Prelude.{ℕ, zero, suc, ◌*◌, ◌^◌, Option, none, some, min}

abbrev pub base_retry_seconds : ℕ
base_retry_seconds = 30

abbrev pub max_retry_seconds : ℕ
max_retry_seconds = 900

-- `min(_BASE_RETRY_SECONDS * (2**retries), _MAX_RETRY_SECONDS)`
unfoldable pub retry_countdown : ℕ → ℕ
retry_countdown retries = min (base_retry_seconds * 2 ^ retries) max_retry_seconds

-- `exc.retry_after or ...`: Telegram's own delay wins, unless it is absent or 0.
unfoldable pub delivery_countdown : Option ℕ → ℕ → ℕ
delivery_countdown none retries = retry_countdown retries
delivery_countdown (some zero) retries = retry_countdown retries
delivery_countdown (some (suc n)) retries = suc n
