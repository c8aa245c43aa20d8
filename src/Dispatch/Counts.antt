-- ===== src/Dispatch/Counts.antt =====
-- The counters of a dispatching loop, and what the loop keeps.
use quota_radar.Prelude.{ℕ, ◌+◌, ◌≡◌, refl, List, [], ◌∷◌, ◌≤◌, arith, length, All}
use quota_radar.Action.{ok, ◌>>=◌}
use quota_radar.Action.Keeps.{Keeps, Keeps-pure, Keeps-bind}
use quota_radar.Action.Returns.{Returns, returns_rules}
use quota_radar.Models.World.{World, Do, Message}
use quota_radar.Dispatch.{
  Broker, delay, Verdict, Tally, add, each, nothing, DispatchResult, summary,
}

abbrev pub total : Tally → ℕ
total t = t.queued + t.skipped + t.dispatch_failed

total-add : (v : Verdict) (t : Tally) → total (add v t) ≡ total t + 1
total-add Verdict.queued t = omega arith
total-add Verdict.skipped t = omega arith
total-add Verdict.dispatch_failed t = omega arith

-- Every requested item is counted exactly once.
unfoldable pub IsCounted : DispatchResult → Type 0
IsCounted r = r.queued + r.skipped + r.dispatch_failed ≡ r.requested

pub summary-IsCounted :
    (requested candidates : ℕ) (t : Tally)
    → candidates ≤ requested
    → total t ≡ candidates
    → IsCounted (summary requested candidates t)
unfolding IsCounted
summary-IsCounted requested candidates t fits counted = omega (arith, fits, counted)

pub Returns-delay : (broker : Broker) (m : Message) → Returns (delay broker m)
unfolding delay
Returns-delay broker m = search returns_rules depth 12

module _ {X : Type 0} where
  -- A loop whose body never raises gives every item a verdict, and counts it once.
  pub each-total :
      (xs : List X) (body : X → Do Verdict)
      → ((x : X) → Returns (body x))
      → (w : World)
      → (t : Tally) × (v : World) × (each xs body w ≡ (ok t, v)) × (total t ≡ length xs)
  unfolding each ◌>>=◌
  each-total [] body rb w = (nothing, w, refl, refl)
  each-total (x ∷ xs) body rb w =
      let (verdict, u, e) = (rb x).at w in
      let (t, v, e', counted) = each-total xs body rb u in
      (add verdict t, v, rw e (rw e' refl), omega (arith, total-add verdict t, counted))

  -- What every step keeps, for the items that the list can hold.
  pub Keeps-each :
      {P : World → Type 0} (Q : X → Type 0) (xs : List X) (body : X → Do Verdict)
      → All Q xs
      → ((x : X) → Q x → Keeps P (body x))
      → Keeps P (each xs body)
  unfolding each
  Keeps-each Q [] body h kb = Keeps-pure _
  Keeps-each Q (x ∷ xs) body h kb =
      Keeps-bind _ _ (kb x h.0)
        (λ v. Keeps-bind _ _ (Keeps-each Q xs body h.1 kb) (λ t. Keeps-pure _))
