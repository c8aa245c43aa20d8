-- ===== src/Action.antt =====
-- Python code that changes the database and may raise. What was written before an exception stays
-- written, unless a `transaction.atomic` block encloses it.
pub mod Keeps
pub mod Gives
pub mod Returns
use quota_radar.Text.Integer.{ℤ}
use quota_radar.Json.{Json}
use quota_radar.Prelude.{◌≡◌, refl, Option, none, some, Bool, true, false, String, ℕ, List, [], ◌∷◌}

-- apps/monitoring/x_errors.py; a rate limit has the header's deadline.
pub data XApiError : Type 0 where
  configuration authentication forbidden not_found response temporary : XApiError
  rate_limit : Option ℤ → XApiError

-- The exceptions that the modelled code raises or lets through. `retry` is Celery's `Retry`;
-- `unfinished` is no exception but the outcome of a loop that is still running on its last fuel.
pub data Exn : Type 0 where
  does_not_exist integrity_error : Exn
  value_error delivery_message_error subscription_conflict validation_error : String → Exn
  quality_error x_post_payload_error backfill_unavailable_error : String → Exn
  x_api_error : XApiError → String → Exn
  llm_error : Bool → String → String → Option Json → Exn
  prompt_error : String → Exn
  suspicious_irrelevance_error : String → Json → Exn
  broker_error budget_exhausted unfinished : Exn
  retry : ℕ → Exn

pub data Result {ℓ} (A : Type ℓ) : Type ℓ where
  ok : A → Result A
  raised : Exn → Result A

abbrev pub Action {ℓ} : Type ℓ → Type ℓ → Type ℓ
Action W A = W → Result A × W

abbrev or_missing {ℓ} : {A : Type ℓ} → Option A → Result A
or_missing none = raised Exn.does_not_exist
or_missing (some a) = ok a

pub ok_injective {ℓ} : {A : Type ℓ} {a b : A} → Result.ok a ≡ Result.ok b → a ≡ b
ok_injective e = cc

-- The next step of a computation without state.
unfoldable pub and_then {ℓ} : {A B : Type ℓ} → Result A → (A → Result B) → Result B
and_then (ok a) f = f a
and_then (raised e) f = raised e

-- The result of a step that succeeded.
pub and_then-ok {ℓ} :
    {A B : Type ℓ} (r : Result A) (f : A → Result B) {b : B}
    → and_then r f ≡ ok b
    → (a : A) × (r ≡ ok a) × (f a ≡ ok b)
unfolding and_then
and_then-ok (ok a) f e = (a, refl, e)
and_then-ok (raised x) f e = cc

module _ {ℓ} {W A : Type ℓ} where
  unfoldable pub pure : A → Action W A
  pure a w = (ok a, w)

  unfoldable pub raise : Exn → Action W A
  raise e w = (raised e, w)

  unfoldable pub gets : (W → A) → Action W A
  gets f w = (ok (f w), w)

  -- `objects.get(...)` of what a query found
  unfoldable pub found : (W → Option A) → Action W A
  found f w = (or_missing (f w), w)

  abbrev settle : W → Result A × W → Result A × W
  settle w (ok a, w') = (ok a, w')
  settle w (raised e, w') = (raised e, w)

  -- `with transaction.atomic():`
  unfoldable pub atomic : Action W A → Action W A
  atomic m w = settle w (m w)

  abbrev catch : (Exn → Action W A) → Result A × W → Result A × W
  catch handler (ok a, w) = (ok a, w)
  catch handler (raised e, w) = handler e w

  -- `try: ... except ...`; the handler raises again what it does not catch.
  unfoldable pub attempt : Action W A → (Exn → Action W A) → Action W A
  attempt m handler w = catch handler (m w)

module _ {ℓ} {W : Type ℓ} where
  unfoldable pub modify : (W → W) → Action W (Unit {ℓ})
  modify f w = (ok tt, f w)

module _ {ℓ} {W A B : Type ℓ} where
  abbrev continue : (A → Action W B) → Result A × W → Result B × W
  continue f (ok a, w) = f a w
  continue f (raised e, w) = (raised e, w)

  infixl 10 ◌>>=◌ ◌>>◌
  -- opening this opens the other actions too
  unfoldable pub ◌>>=◌ : Action W A → (A → Action W B) → Action W B
  unfolding pure raise gets found atomic attempt modify
  ◌>>=◌ m f w = continue f (m w)

  abbrev pub ◌>>◌ : Action W A → Action W B → Action W B
  m >> n = m >>= λ _. n

-- `for x in xs: body`
module _ {ℓ} {W X : Type ℓ} where
  unfoldable pub for_each : List X → (X → Action W (Unit {ℓ})) → Action W (Unit {ℓ})
  for_each [] body = pure tt
  for_each (x ∷ xs) body = body x >>= λ _. for_each xs body
