-- ===== src/Monitoring/Routing.antt =====
-- Which sources feed the quota alerts (apps/sources/routing.py).
use quota_radar.Prelude.{ℕ, Bool, is_some, not, ◌&&◌, ◌||◌, ◌==◌}
use quota_radar.Table.{find, first}
use quota_radar.Models.Sources.{SourceSubscription, is_quota}
use quota_radar.Models.World.{World}

abbrev of_source : ℕ → SourceSubscription → Bool
of_source id s = s.source == id

abbrev for_quota : ℕ → SourceSubscription → Bool
for_quota id s = of_source id s && is_quota s.feed && s.enabled

-- A source without subscriptions is one of before they were introduced.
unfoldable pub accepts_quota : ℕ → World → Bool
accepts_quota id w =
    is_some (find id w.sources.rows)
    && (is_some (first (for_quota id) w.subscriptions.rows)
        || not (is_some (first (of_source id) w.subscriptions.rows)))
