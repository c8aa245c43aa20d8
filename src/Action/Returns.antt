-- ===== src/Action/Returns.antt =====
-- Actions that never raise, a rule for each way to build one.
use quota_radar.Prelude.{Bool, true, false, ◌≡◌, refl, if◌then◌else◌}
use quota_radar.Action.{
  Action, Result, ok, raised, Exn, pure, gets, atomic, modify, ◌>>=◌, attempt, catch,
}

pub record Returns {ℓ} {W A : Type ℓ} (m : Action W A) : Type ℓ where
  pub at : (w : W) → (a : A) × (v : W) × (m w ≡ (ok a, v))

module _ {ℓ} {W A : Type ℓ} where
  pub Returns-pure : (a : A) → Returns (pure {W = W} a)
  unfolding pure
  Returns-pure a = record { at = λ w. (a, w, refl) }

  pub Returns-gets : (f : W → A) → Returns (gets f)
  unfolding gets
  Returns-gets f = record { at = λ w. (f w, w, refl) }

  pub Returns-if :
      (b : Bool) (m n : Action W A) → Returns m → Returns n → Returns (if b then m else n)
  Returns-if true m n rm rn = rm
  Returns-if false m n rm rn = rn

  pub Returns-atomic : (m : Action W A) → Returns m → Returns (atomic m)
  unfolding atomic
  Returns-atomic m rm = record { at = λ w. let (a, v, e) = rm.at w in (a, v, rw e refl) }

  caught :
      (handler : Exn → Action W A) (r : Result A × W)
      → ((e : Exn) → Returns (handler e))
      → (a : A) × (v : W) × (catch handler r ≡ (ok a, v))
  caught handler (ok a, w) rh = (a, w, refl)
  caught handler (raised e, w) rh = (rh e).at w

  -- A handler for every exception.
  pub Returns-attempt :
      (m : Action W A) (handler : Exn → Action W A)
      → ((e : Exn) → Returns (handler e))
      → Returns (attempt m handler)
  unfolding attempt
  Returns-attempt m handler rh = record { at = λ w. caught handler (m w) rh }

module _ {ℓ} {W A B : Type ℓ} where
  pub Returns-bind :
      (m : Action W A) (f : A → Action W B)
      → Returns m
      → ((a : A) → Returns (f a))
      → Returns (m >>= f)
  unfolding ◌>>=◌
  Returns-bind m f rm rf = record {
    at = λ w. let (a, v, e) = rm.at w in let (b, u, e') = (rf a).at v in (b, u, rw e e');
  }

module _ {ℓ} {W : Type ℓ} where
  pub Returns-modify : (f : W → W) → Returns (modify f)
  unfolding modify
  Returns-modify f = record { at = λ w. (tt, f w, refl) }

pub ruleset returns_rules = (
  Returns-pure, Returns-gets, Returns-if, Returns-atomic, Returns-attempt, Returns-bind,
  Returns-modify,
)
