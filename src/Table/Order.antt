-- ===== src/Table/Order.antt =====
-- Queries that select rows and order them, and how many rows they give.
use quota_radar.Prelude.{
  ℕ, ◌+◌, ◌≤◌, suc, ◌≡◌, refl, ap, ◌∙◌, ==_iff, Bool, ◌&&◌, none, some, List, [], ◌∷◌, arith, ◌==◌,
  if◌then◌else◌, true, Bool-cases, inl, inr, length, contains, All, All-implies,
}
use mathlib.Core.Option.{some-injective}
use mathlib.Core.Path.{subst}
use quota_radar.Table.{Rows, find, IsKeyed}

module _ {ℓ} {A : Type ℓ} where
  -- `objects.filter(p)`
  unfoldable pub select : (ℕ → A → Bool) → Rows A → Rows A
  select p [] = []
  select p ((k, a) ∷ rs) = let rest = select p rs in if p k a then (k, a) ∷ rest else rest

  unfoldable pub insert_by : (ℕ × A → ℕ × A → Bool) → ℕ × A → Rows A → Rows A
  insert_by before r [] = r ∷ []
  insert_by before r (s ∷ rs) =
      let rest = insert_by before r rs in if before r s then r ∷ s ∷ rs else s ∷ rest

  -- `order_by(...)`
  unfoldable pub order_by : (ℕ × A → ℕ × A → Bool) → Rows A → Rows A
  order_by before [] = []
  order_by before (r ∷ rs) = insert_by before r (order_by before rs)

  length-insert_by :
      (before : ℕ × A → ℕ × A → Bool) (r : ℕ × A) (rs : Rows A)
      → length (insert_by before r rs) ≡ suc (length rs)
  unfolding insert_by
  length-insert_by before r [] = refl
  length-insert_by before r (s ∷ rs) = ground (arith, length-insert_by before r rs)

  pub length-order_by :
      (before : ℕ × A → ℕ × A → Bool) (rs : Rows A) → length (order_by before rs) ≡ length rs
  unfolding order_by
  length-order_by before [] = refl
  length-order_by before (r ∷ rs) =
      omega (arith, length-insert_by before r (order_by before rs), length-order_by before rs)

  abbrev has_key : ℕ → ℕ → A → Bool
  has_key x k a = x == k

  select-absent : (x : ℕ) (rs : Rows A) → find x rs ≡ none → length (select (has_key x) rs) ≡ 0
  unfolding find select
  select-absent x [] e = refl
  select-absent x ((k, a) ∷ rs) e = ground (arith, select-absent x rs)

  select-key-le : (x : ℕ) (rs : Rows A) → IsKeyed rs → length (select (has_key x) rs) ≤ 1
  unfolding find select
  select-key-le x [] h = omega arith
  select-key-le x ((k, a) ∷ rs) h = ground (arith, select-key-le x rs h.1, select-absent x rs)

  select-or-le :
      (x : ℕ) (xs : List ℕ) (q : A → Bool) (rs : Rows A)
      → length (select (λ k a. contains (x ∷ xs) k && q a) rs)
        ≤ length (select (has_key x) rs) + length (select (λ k a. contains xs k && q a) rs)
  unfolding select
  select-or-le x xs q [] = omega arith
  select-or-le x xs q ((k, a) ∷ rs) = ground (arith, select-or-le x xs q rs)

  select-none : (q : A → Bool) (rs : Rows A) → length (select (λ k a. contains [] k && q a) rs) ≡ 0
  unfolding select
  select-none q [] = refl
  select-none q ((k, a) ∷ rs) = select-none q rs

  -- A query for rows under the given keys gives no more rows than there are keys.
  pub select-contains-le :
      (xs : List ℕ) (q : A → Bool) (rs : Rows A)
      → IsKeyed rs
      → length (select (λ k a. contains xs k && q a) rs) ≤ length xs
  select-contains-le [] q rs h = omega (arith, select-none q rs)
  select-contains-le (x ∷ xs) q rs h =
      omega (arith, select-or-le x xs q rs, select-key-le x rs h, select-contains-le xs q rs h)

  pub All-select {ℓ'} :
      (P : ℕ × A → Type ℓ') (p : ℕ → A → Bool) (rs : Rows A) → All P rs → All P (select p rs)
  unfolding select
  All-select P p [] h = tt
  All-select P p ((k, a) ∷ rs) h = elim (Bool-cases (p k a)) [
    | inl yes_p ↦ simp yes_p (h.0, All-select P p rs h.1)
    | inr no_p ↦ simp no_p (All-select P p rs h.1)
  ]

  -- What a query selects satisfies its condition.
  pub select-holds :
      (p : ℕ → A → Bool) (rs : Rows A) → All (λ (r : ℕ × A). p r.0 r.1 ≡ true) (select p rs)
  unfolding select
  select-holds p [] = tt
  select-holds p ((k, a) ∷ rs) = elim (Bool-cases (p k a)) [
    | inl yes_p ↦ simp yes_p (refl, select-holds p rs)
    | inr no_p ↦ simp no_p (select-holds p rs)
  ]

  All-insert_by {ℓ'} :
      (P : ℕ × A → Type ℓ') (before : ℕ × A → ℕ × A → Bool) (r : ℕ × A) (rs : Rows A)
      → P r
      → All P rs
      → All P (insert_by before r rs)
  unfolding insert_by
  All-insert_by P before r [] h hs = (h, tt)
  All-insert_by P before r (s ∷ rs) h hs = elim (Bool-cases (before r s)) [
    | inl yes_b ↦ simp yes_b (h, hs)
    | inr no_b ↦ simp no_b (hs.0, All-insert_by P before r rs h hs.1)
  ]

  pub All-order_by {ℓ'} :
      (P : ℕ × A → Type ℓ') (before : ℕ × A → ℕ × A → Bool) (rs : Rows A)
      → All P rs
      → All P (order_by before rs)
  unfolding order_by
  All-order_by P before [] h = tt
  All-order_by P before (r ∷ rs) h =
      All-insert_by P before r (order_by before rs) h.0 (All-order_by P before rs h.1)

  find-later :
      (j : ℕ) (b : A) (rs : Rows A)
      → find j rs ≡ none
      → (r : ℕ × A) → find r.0 rs ≡ some r.1
      → find r.0 ((j, b) ∷ rs) ≡ some r.1
  unfolding find
  find-later j b rs h (k, a) e = ground arith

  rows-found : (rs : Rows A) → IsKeyed rs → All (λ r. find r.0 rs ≡ some r.1) rs
  unfolding find
  rows-found [] h = tt
  rows-found ((j, b) ∷ rs) h =
      (ground arith, All-implies (find-later j b rs h.0) rs (rows-found rs h.1))

  -- What a query gives are rows of the table.
  pub query-found :
      (before : ℕ × A → ℕ × A → Bool) (p : ℕ → A → Bool) (rs : Rows A)
      → IsKeyed rs
      → All (λ r. find r.0 rs ≡ some r.1) (order_by before (select p rs))
  query-found before p rs h = All-order_by _ before _ (All-select _ p rs (rows-found rs h))

  pub query-holds :
      (before : ℕ × A → ℕ × A → Bool) (p : ℕ → A → Bool) (rs : Rows A)
      → All (λ (r : ℕ × A). p r.0 r.1 ≡ true) (order_by before (select p rs))
  query-holds before p rs = All-order_by _ before _ (select-holds p rs)

  pub query-le :
      (before : ℕ × A → ℕ × A → Bool) (xs : List ℕ) (q : A → Bool) (rs : Rows A)
      → IsKeyed rs
      → length (order_by before (select (λ k a. contains xs k && q a) rs)) ≤ length xs
  query-le before xs q rs h = omega (
    arith,
    length-order_by before (select (λ k a. contains xs k && q a) rs),
    select-contains-le xs q rs h,
  )

  insert_by-All {ℓ'} :
      (P : ℕ × A → Type ℓ') (before : ℕ × A → ℕ × A → Bool) (r : ℕ × A) (rs : Rows A)
      → All P (insert_by before r rs)
      → P r × All P rs
  unfolding insert_by
  insert_by-All P before r [] h = h
  insert_by-All P before r (s ∷ rs) h = elim (Bool-cases (before r s)) [
    | inl yes_b ↦ simp yes_b at h
    | inr no_b ↦
        let h' : P s × All P (insert_by before r rs) = simp no_b at h in
        let (head, rest) = insert_by-All P before r rs h'.1 in (head, (h'.0, rest))
  ]

  order_by-All {ℓ'} :
      (P : ℕ × A → Type ℓ') (before : ℕ × A → ℕ × A → Bool) (rs : Rows A)
      → All P (order_by before rs)
      → All P rs
  unfolding order_by
  order_by-All P before [] h = tt
  order_by-All P before (r ∷ rs) h =
      let (head, rest) = insert_by-All P before r (order_by before rs) h in
      (head, order_by-All P before rs rest)

  select-All {ℓ'} :
      (P : ℕ × A → Type ℓ') (p : ℕ → A → Bool) (rs : Rows A) (k : ℕ) (a : A)
      → All P (select p rs)
      → find k rs ≡ some a
      → p k a ≡ true
      → P (k, a)
  unfolding select find
  select-All P p [] k a h e fits = cc
  select-All P p ((j, b) ∷ rs) k a h e fits = elim (Bool-cases (j == k)) [
    | inl same ↦
        let here : j ≡ k = (==_iff j k).0 same in
        let row : b ≡ a = some-injective _ _ (simp same at e) in
        let taken : p j b ≡ true = ap (p j) row ∙ ap (λ i. p i a) here ∙ fits in
        let h' : P (j, b) × All P (select p rs) = simp taken at h in
        subst (λ (r : ℕ × A). P r) (λ i. (here i, row i)) h'.0
    | inr other ↦ elim (Bool-cases (p j b)) [
      | inl taken ↦
          let h' : P (j, b) × All P (select p rs) = simp taken at h in
          select-All P p rs k a h'.1 (simp other at e) fits
      | inr dropped ↦
          let h' : All P (select p rs) = simp dropped at h in
          select-All P p rs k a h' (simp other at e) fits
    ]
  ]

  -- A query gives every row with its condition.
  pub query-All {ℓ'} :
      (P : ℕ × A → Type ℓ') (before : ℕ × A → ℕ × A → Bool) (p : ℕ → A → Bool) (rs : Rows A) (k : ℕ)
      (a : A)
      → All P (order_by before (select p rs))
      → find k rs ≡ some a
      → p k a ≡ true
      → P (k, a)
  query-All P before p rs k a h e fits =
      select-All P p rs k a (order_by-All P before (select p rs) h) e fits
