-- ===== src/Action/Gives.antt =====
-- Postconditions of actions: one of the result, and one for the case of an exception.
use quota_radar.Prelude.{Bool, true, false, ◌≡◌, refl, Option, none, some, if◌then◌else◌}
use quota_radar.Action.{
  Action, Result, ok, raised, Exn, pure, raise, gets, found, atomic, modify, ◌>>=◌, continue,
  settle, or_missing, attempt, catch,
}
use quota_radar.Action.Keeps.{Keeps}
use quota_radar.Action.Returns.{Returns}

module _ {ℓ} {W A : Type ℓ} where
  abbrev pub Post : (A → W → Type ℓ) → (W → Type ℓ) → Result A × W → Type ℓ
  Post Q R (ok a, w) = Q a w
  Post Q R (raised e, w) = R w

  -- From a state with `P`, the action returns a result with `Q`, or raises in a state with `R`.
  pub record Gives (P : W → Type ℓ) (Q : A → W → Type ℓ) (R : W → Type ℓ) (m : Action W A)
      : Type ℓ where
    pub at : (w : W) → P w → Post Q R (m w)

  pub Post-both : (R : W → Type ℓ) (r : Result A × W) → R r.1 → Post (λ _. R) R r
  Post-both R (ok a, w) h = h
  Post-both R (raised e, w) h = h

  Post-state : (R : W → Type ℓ) (r : Result A × W) → Post (λ _. R) R r → R r.1
  Post-state R (ok a, w) h = h
  Post-state R (raised e, w) h = h

  -- An action that keeps `P`, where `P` is as much as an exception must leave.
  pub Gives-kept :
      {P R : W → Type ℓ} {m : Action W A} → ((w : W) → P w → R w) → Keeps P m → Gives P (λ _. P) R m
  Gives-kept {P} {R} {m} back k = record { at = λ w h. by_result (m w) (k.at w h) }
    where
      by_result : (r : Result A × W) → P r.1 → Post (λ _. P) R r
      by_result (ok a, w) h = h
      by_result (raised e, w) h = back w h

  pub Gives-pure :
      {P R : W → Type ℓ} {Q : A → W → Type ℓ} (a : A)
      → ((w : W) → P w → Q a w)
      → Gives P Q R (pure a)
  unfolding pure
  Gives-pure a h = record { at = h }

  pub Gives-raise :
      {P R : W → Type ℓ} {Q : A → W → Type ℓ} (e : Exn)
      → ((w : W) → P w → R w)
      → Gives P Q R (raise e)
  unfolding raise
  Gives-raise e h = record { at = h }

  pub Gives-if :
      {P R : W → Type ℓ} {Q : A → W → Type ℓ} (b : Bool) {m n : Action W A}
      → (b ≡ true → Gives P Q R m)
      → (b ≡ false → Gives P Q R n)
      → Gives P Q R (if b then m else n)
  Gives-if true gm gn = gm refl
  Gives-if false gm gn = gn refl

  -- A weaker precondition, and a stronger conclusion.
  pub Gives-from :
      {P P' R : W → Type ℓ} {Q : A → W → Type ℓ} {m : Action W A}
      → ((w : W) → P w → P' w)
      → Gives P' Q R m
      → Gives P Q R m
  Gives-from f g = record { at = λ w h. g.at w (f w h) }

  -- A weaker conclusion.
  pub Gives-weaken :
      {P R : W → Type ℓ} {Q Q' : A → W → Type ℓ} {m : Action W A}
      → ((a : A) (w : W) → Q a w → Q' a w)
      → Gives P Q R m
      → Gives P Q' R m
  Gives-weaken {R} {Q} {Q'} {m} f g = record { at = λ w h. weaken (m w) (g.at w h) }
    where
      weaken : (r : Result A × W) → Post Q R r → Post Q' R r
      weaken (ok a, w) h = f a w h
      weaken (raised e, w) h = h

  pub Gives-keeps : {P : W → Type ℓ} {m : Action W A} → Keeps P m → Gives P (λ _. P) P m
  Gives-keeps {P} {m} k = record { at = λ w h. Post-both P (m w) (k.at w h) }

  -- A postcondition that the result does not enter holds of the state in any case.
  pub state_after :
      {P R : W → Type ℓ} {m : Action W A} → Gives P (λ _. R) R m → (w : W) → P w → R (m w).1
  state_after {R} {m} g w h = Post-state R (m w) (g.at w h)

  pub Post-settle :
      (Q : A → W → Type ℓ) (R : W → Type ℓ) (w : W) (r : Result A × W)
      → R w
      → Post Q R r
      → Post Q R (settle w r)
  Post-settle Q R w (ok a, w') h k = k
  Post-settle Q R w (raised e, w') h k = h

  pub Gives-atomic :
      {P : W → Type ℓ} {Q : A → W → Type ℓ} {R : W → Type ℓ} {m : Action W A}
      → ((w : W) → P w → R w)
      → Gives P Q R m
      → Gives P Q R (atomic m)
  unfolding atomic
  Gives-atomic {Q} {R} {m} back g = record {
    at = λ w h. Post-settle Q R w (m w) (back w h) (g.at w h);
  }

  -- Whatever a transaction does, an exception undoes it.
  pub Gives-undone : {P : W → Type ℓ} (m : Action W A) → Gives P (λ a w. Unit) P (atomic m)
  unfolding atomic
  Gives-undone {P} m = record { at = λ w h. undone w (m w) h }
    where
      undone : (w : W) (r : Result A × W) → P w → Post (λ a v. Unit) P (settle w r)
      undone w (ok a, v) h = tt
      undone w (raised e, v) h = h

  pub Gives-attempt :
      {P : W → Type ℓ} {Q : A → W → Type ℓ} {R R' : W → Type ℓ} {m : Action W A}
      {handler : Exn → Action W A}
      → Gives P Q R m
      → ((e : Exn) → Gives R Q R' (handler e))
      → Gives P Q R' (attempt m handler)
  unfolding attempt
  Gives-attempt {Q} {R} {R'} {m} {handler} g k = record { at = λ w h. caught (m w) (g.at w h) }
    where
      caught : (r : Result A × W) → Post Q R r → Post Q R' (catch handler r)
      caught (ok a, v) h = h
      caught (raised e, v) h = (k e).at v h

  -- An action that never raises, where nothing is asked of its result.
  pub Gives-returned : {P R : W → Type ℓ} {m : Action W A} → Returns m → Gives P (λ a w. Unit) R m
  Gives-returned {R} {m} returns = record { at = λ w h. let (a, v, e) = returns.at w in rw e tt }

module _ {ℓ} {W A B : Type ℓ} where
  Post-continue :
      {Q : A → W → Type ℓ} {S : B → W → Type ℓ} {R : W → Type ℓ} (f : A → Action W B)
      (r : Result A × W)
      → ((a : A) → Gives (Q a) S R (f a))
      → Post Q R r
      → Post S R (continue f r)
  Post-continue f (ok a, w) g h = (g a).at w h
  Post-continue f (raised e, w) g h = h

  pub Gives-bind :
      {P : W → Type ℓ} {Q : A → W → Type ℓ} {S : B → W → Type ℓ} {R : W → Type ℓ} {m : Action W A}
      {f : A → Action W B}
      → Gives P Q R m
      → ((a : A) → Gives (Q a) S R (f a))
      → Gives P S R (m >>= f)
  unfolding ◌>>=◌
  Gives-bind {m} {f} gm gf = record { at = λ w h. Post-continue f (m w) gf (gm.at w h) }

  -- What is read is known of the state that it is read from.
  pub Gives-gets-bind :
      {P : W → Type ℓ} {S : B → W → Type ℓ} {R : W → Type ℓ} (f : W → A) (k : A → Action W B)
      → ((w : W) → P w → Post S R (k (f w) w))
      → Gives P S R (gets f >>= k)
  unfolding ◌>>=◌
  Gives-gets-bind f k h = record { at = h }

  -- The same of `objects.get(...)`, which raises where there is nothing.
  pub Gives-found-bind :
      {P : W → Type ℓ} {S : B → W → Type ℓ} {R : W → Type ℓ} (f : W → Option A) (k : A → Action W B)
      → ((w : W) → P w → R w)
      → ((w : W) (a : A) → P w → f w ≡ some a → Post S R (k a w))
      → Gives P S R (found f >>= k)
  unfolding ◌>>=◌
  Gives-found-bind {P} {S} {R} f k back h = record { at = λ w p. by_row w p (f w) refl }
    where
      by_row : (w : W) → P w → (o : Option A) → f w ≡ o → Post S R (continue k (or_missing o, w))
      by_row w p none e = back w p
      by_row w p (some a) e = h w a p e

module _ {ℓ} {W : Type ℓ} where
  pub Gives-modify :
      {P R : W → Type ℓ} {Q : W → Type ℓ} (f : W → W)
      → ((w : W) → P w → Q (f w))
      → Gives P (λ _. Q) R (modify f)
  unfolding modify
  Gives-modify f h = record { at = h }
