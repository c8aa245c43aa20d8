-- ===== src/Dispatch.antt =====
-- Handing work to the Celery broker, and the counts of it that the dispatching functions return.
pub mod Counts
use quota_radar.Prelude.{ℕ, ◌+◌, ◌-◌, Bool, true, false, String, List, [], ◌∷◌, if◌then◌else◌}
use quota_radar.Action.{pure, modify, ◌>>=◌, ◌>>◌}
use quota_radar.Models.World.{World, Do, Message}

-- The broker: whether it accepts a message, and the class of the exception that it raises otherwise.
pub record Broker : Type 0 where
  pub accepts : Message → Bool
  pub error_type : String

abbrev pub with_message : Message → World → World
with_message m w = record w { messages = m ∷ w.messages }

-- `try: task.delay(...)`, with the handler's case as the result
unfoldable pub delay : Broker → Message → Do Bool
delay broker m = if broker.accepts m then (modify (with_message m) >> pure true) else pure false

-- What became of one requested item.
pub data Verdict : Type 0 where
  queued skipped dispatch_failed : Verdict

pub record Tally : Type 0 where
  pub queued : ℕ
  pub skipped : ℕ
  pub dispatch_failed : ℕ

abbrev pub nothing : Tally
nothing = record { queued = 0; skipped = 0; dispatch_failed = 0 }

abbrev pub add : Verdict → Tally → Tally
add Verdict.queued t = record t { queued = t.queued + 1 }
add Verdict.skipped t = record t { skipped = t.skipped + 1 }
add Verdict.dispatch_failed t = record t { dispatch_failed = t.dispatch_failed + 1 }

module _ {X : Type 0} where
  -- The loop over the candidates, with its counters.
  unfoldable pub each : List X → (X → Do Verdict) → Do Tally
  each [] body = pure nothing
  each (x ∷ xs) body = do verdict ← body x; rest ← each xs body; pure (add verdict rest)

-- `AnalysisDispatchResult` and `DeliveryDispatchResult`
pub record DispatchResult : Type 0 where
  pub requested : ℕ
  pub queued : ℕ
  pub skipped : ℕ
  pub dispatch_failed : ℕ

-- The result for this many requested items, this many candidates among them, and their counters.
abbrev pub summary : ℕ → ℕ → Tally → DispatchResult
summary requested candidates t = record {
  requested = requested;
  queued = t.queued;
  skipped = (requested - candidates) + t.skipped;
  dispatch_failed = t.dispatch_failed;
}
