-- ===== src/Telegram/Freshness.antt =====
-- The test for a post that is older than thirty minutes (apps/telegram/freshness.py).
use quota_radar.Prelude.{ℕ, ◌+◌, Bool, leb}

abbrev pub max_event_age : ℕ
max_event_age = 1800

unfoldable pub stale : ℕ → ℕ → Bool
stale published_at now = leb (published_at + max_event_age) now
