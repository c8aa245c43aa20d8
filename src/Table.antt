-- ===== src/Table.antt =====
-- A database table: rows under their primary keys, oldest first, and the next value of its
-- sequence. These are the operations that the source makes through Django's query sets.
pub mod Keys
pub mod Order
use quota_radar.Prelude.{
  ℕ, ◌+◌, ◌≤◌, ◌<◌, suc, ◌≡◌, refl, ◌≢◌, Bool, true, false, Option, none, some, List, [], ◌∷◌, ◌++◌,
  arith, ◌==◌, if◌then◌else◌,
}
use mathlib.Core.Option

abbrev pub Rows {ℓ} : Type ℓ → Type ℓ
Rows A = List (ℕ × A)

pub record Table {ℓ} (A : Type ℓ) : Type ℓ where
  pub rows : Rows A
  pub next : ℕ

module _ {ℓ} {A : Type ℓ} where
  -- `objects.filter(pk=k).first()`
  unfoldable pub find : ℕ → Rows A → Option A
  find k [] = none
  find k ((j, a) ∷ rs) = if j == k then some a else find k rs

  -- A row-wise change; every `update` is one of these.
  unfoldable pub adjust : (ℕ → A → A) → Rows A → Rows A
  adjust g [] = []
  adjust g ((j, a) ∷ rs) = (j, g j a) ∷ adjust g rs

  -- The change that is made to the row with key k only.
  abbrev pub at_pk : ℕ → (A → A) → ℕ → A → A
  at_pk k f j a = if j == k then f a else a

  -- `objects.filter(p).count()`
  unfoldable pub count : (A → Bool) → Rows A → ℕ
  count p [] = 0
  count p ((j, a) ∷ rs) = if p a then suc (count p rs) else count p rs

  -- `objects.filter(p).first()`
  unfoldable pub first : (A → Bool) → Rows A → Option (ℕ × A)
  first p [] = none
  first p ((j, a) ∷ rs) = if p a then some (j, a) else first p rs

  -- `objects.create(...)`
  unfoldable pub create : A → Table A → Table A
  create a t = record { rows = t.rows ++ ((t.next, a) ∷ []); next = t.next + 1 }

  -- `objects.filter(...).update(...)` and `row.save()`
  unfoldable pub change : (ℕ → A → A) → Table A → Table A
  change g t = record t { rows = adjust g t.rows }

  pub find-adjust :
      (g : ℕ → A → A) (k : ℕ) (rs : Rows A) → find k (adjust g rs) ≡ Option.map (g k) (find k rs)
  unfolding find adjust
  find-adjust g k [] = refl
  find-adjust g k ((j, a) ∷ rs) = ground (arith, find-adjust g k rs)

  pub count-adjust-le :
      (p : A → Bool) (g : ℕ → A → A) (rs : Rows A)
      → ((j : ℕ) (a : A) → p (g j a) ≡ true → p a ≡ true)
      → count p (adjust g rs) ≤ count p rs
  unfolding count adjust
  count-adjust-le p g [] h = omega arith
  count-adjust-le p g ((j, a) ∷ rs) h = ground (arith, count-adjust-le p g rs h, h j a)

-- No two rows have one key.
abbrev pub IsKeyed {ℓ} : {A : Type ℓ} → Rows A → Type ℓ
IsKeyed [] = Unit
IsKeyed ((j, a) ∷ rs) = (find j rs ≡ none) × IsKeyed rs

module _ {ℓ} {A : Type ℓ} where
  pub first-holds :
      (p : A → Bool) (rs : Rows A) {j : ℕ} {a : A} → first p rs ≡ some (j, a) → p a ≡ true
  unfolding first
  first-holds p [] e = cc
  first-holds p ((i, b) ∷ rs) {j} {a} e = ground (arith, first-holds p rs {j = j} {a = a})

  found-first :
      (p : A → Bool) (rs : Rows A) {j : ℕ} {a : A} → first p rs ≡ some (j, a) → find j rs ≢ none
  unfolding first find
  found-first p [] e = cc
  found-first p ((i, b) ∷ rs) {j} {a} e = ground (arith, found-first p rs {j = j} {a = a})

  -- What a query finds first is the row under its key.
  pub find-first :
      (p : A → Bool) (rs : Rows A) {j : ℕ} {a : A}
      → IsKeyed rs
      → first p rs ≡ some (j, a)
      → find j rs ≡ some a
  unfolding first find
  find-first p [] k e = cc
  find-first p ((i, b) ∷ rs) {j} {a} k e =
      ground (arith, find-first p rs {j = j} {a = a} k.1, found-first p rs {j = j} {a = a})

  pub first-adjust :
      (p : A → Bool) (g : ℕ → A → A) (rs : Rows A)
      → ((j : ℕ) (a : A) → p (g j a) ≡ p a)
      → first p (adjust g rs) ≡ Option.map (λ (r : ℕ × A). (r.0, g r.0 r.1)) (first p rs)
  unfolding first adjust
  first-adjust p g [] h = refl
  first-adjust p g ((j, a) ∷ rs) h = ground (arith, h j a, first-adjust p g rs h)
