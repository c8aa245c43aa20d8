-- ===== src/Action/Keeps.antt =====
-- Invariants of actions, a rule for each way to build an action. An action keeps a predicate if
-- the predicate holds after it whenever it held before, also when the action raises.
use quota_radar.Prelude.{
  Option, none, some, Bool, true, false, ◌≡◌, refl, List, [], ◌∷◌, if◌then◌else◌,
}
use quota_radar.Action.{
  Action, Result, ok, raised, Exn, pure, raise, gets, found, atomic, attempt, modify, ◌>>=◌,
  for_each, continue, settle, catch, or_missing,
}

pub record Keeps {ℓ} {W A : Type ℓ} (P : W → Type ℓ) (m : Action W A) : Type ℓ where
  pub at : (w : W) → P w → P (m w).1

settle-keeps {ℓ} :
    {W A : Type ℓ} (P : W → Type ℓ) (w : W) (r : Result A × W) → P w → P r.1 → P (settle w r).1
settle-keeps P w (ok a, w') h h' = h'
settle-keeps P w (raised e, w') h h' = h

module _ {ℓ} {W A : Type ℓ} {P : W → Type ℓ} where
  pub Keeps-pure : (a : A) → Keeps P (pure a)
  unfolding pure
  Keeps-pure a = record { at = λ w h. h }

  pub Keeps-raise : (e : Exn) → Keeps P (raise {A = A} e)
  unfolding raise
  Keeps-raise e = record { at = λ w h. h }

  pub Keeps-gets : (read : W → A) → Keeps P (gets read)
  unfolding gets
  Keeps-gets read = record { at = λ w same. same }

  pub Keeps-found : (f : W → Option A) → Keeps P (found f)
  unfolding found
  Keeps-found f = record { at = λ w h. h }

  pub Keeps-atomic : (m : Action W A) → Keeps P m → Keeps P (atomic m)
  unfolding atomic
  Keeps-atomic m km = record { at = λ w h. settle-keeps P w (m w) h (km.at w h) }

  catch-keeps :
      (handler : Exn → Action W A) (r : Result A × W)
      → ((e : Exn) → Keeps P (handler e))
      → P r.1
      → P (catch handler r).1
  catch-keeps handler (ok a, w) kh h = h
  catch-keeps handler (raised e, w) kh h = (kh e).at w h

  pub Keeps-attempt :
      (m : Action W A) (handler : Exn → Action W A)
      → Keeps P m
      → ((e : Exn) → Keeps P (handler e))
      → Keeps P (attempt m handler)
  unfolding attempt
  Keeps-attempt m handler km kh = record { at = λ w h. catch-keeps handler (m w) kh (km.at w h) }

  -- Either branch may use which way the test went.
  pub Keeps-if :
      (test : Bool) (then_do else_do : Action W A)
      → (test ≡ true → Keeps P then_do)
      → (test ≡ false → Keeps P else_do)
      → Keeps P (if test then then_do else else_do)
  Keeps-if true then_do else_do by_true by_false = by_true refl
  Keeps-if false then_do else_do by_true by_false = by_false refl

module _ {ℓ} {W A B : Type ℓ} {P : W → Type ℓ} where
  continue-keeps :
      (f : A → Action W B) (r : Result A × W)
      → ((a : A) → Keeps P (f a))
      → P r.1
      → P (continue f r).1
  continue-keeps f (ok a, w) kf h = (kf a).at w h
  continue-keeps f (raised e, w) kf h = h

  pub Keeps-bind :
      (action : Action W A) (next : A → Action W B)
      → Keeps P action
      → ((a : A) → Keeps P (next a))
      → Keeps P (action >>= next)
  unfolding ◌>>=◌
  Keeps-bind action next kept rest = record {
    at = λ w h. continue-keeps next (action w) rest (kept.at w h);
  }

  -- The rest of the block may use what it read.
  pub Keeps-gets-bind :
      (f : W → A) (k : A → Action W B) → ((w : W) → P w → P (k (f w) w).1) → Keeps P (gets f >>= k)
  unfolding ◌>>=◌
  Keeps-gets-bind f k kf = record { at = kf }

  -- The same of a row that is there.
  pub Keeps-found-bind :
      (f : W → Option A) (k : A → Action W B)
      → ((w : W) (a : A) → P w → f w ≡ some a → P (k a w).1)
      → Keeps P (found f >>= k)
  unfolding ◌>>=◌
  Keeps-found-bind f k kf = record { at = λ w h. by_row w h (f w) refl }
    where
      by_row : (w : W) → P w → (o : Option A) → f w ≡ o → P (continue k (or_missing o, w)).1
      by_row w h none e = h
      by_row w h (some a) e = kf w a h e

module _ {ℓ} {W : Type ℓ} {P : W → Type ℓ} where
  pub Keeps-modify : (f : W → W) → ((w : W) → P w → P (f w)) → Keeps P (modify f)
  unfolding modify
  Keeps-modify f kf = record { at = kf }

module _ {ℓ} {W X : Type ℓ} {P : W → Type ℓ} where
  pub Keeps-for_each :
      (xs : List X) (body : X → Action W (Unit {ℓ}))
      → ((x : X) → Keeps P (body x))
      → Keeps P (for_each xs body)
  unfolding for_each
  Keeps-for_each [] body kb = Keeps-pure tt
  Keeps-for_each (x ∷ xs) body kb = Keeps-bind (body x) _ (kb x) (λ _. Keeps-for_each xs body kb)

pub ruleset keeps_rules = (
  Keeps-pure, Keeps-raise, Keeps-gets, Keeps-found, Keeps-atomic, Keeps-attempt, Keeps-if,
  Keeps-bind, Keeps-for_each,
)
