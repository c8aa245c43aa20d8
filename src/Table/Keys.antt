-- ===== src/Table/Keys.antt =====
-- Primary keys: no two rows have one, and the sequence is ahead of them all. Counts under a change of
-- one row, and under a new row.
use mathlib.Core.Option
use quota_radar.Prelude.{
  ℕ, ◌+◌, ◌≤◌, ◌≡◌, refl, ap, ◌∙◌, Bool, none, some, [], ◌∷◌, ◌++◌, arith, ◌==◌, if◌then◌else◌,
}
use quota_radar.Table.{
  Rows, Table, find, adjust, at_pk, count, change, create, IsKeyed, find-adjust,
}

pub record IsTable {ℓ} {A : Type ℓ} (t : Table A) : Type ℓ where
  pub keyed : IsKeyed t.rows
  pub ahead : (k : ℕ) → t.next ≤ k → find k t.rows ≡ none

module _ {ℓ} {A : Type ℓ} where
  pub adjust-IsKeyed : (g : ℕ → A → A) (rs : Rows A) → IsKeyed rs → IsKeyed (adjust g rs)
  unfolding adjust
  adjust-IsKeyed g [] h = h
  adjust-IsKeyed g ((j, a) ∷ rs) h =
      (find-adjust g j rs ∙ ap (Option.map (g j)) h.0, adjust-IsKeyed g rs h.1)

  pub change-IsTable : (g : ℕ → A → A) {t : Table A} → IsTable t → IsTable (change g t)
  unfolding change
  change-IsTable g {t} h = record {
    keyed = adjust-IsKeyed g t.rows h.keyed;
    ahead = λ k le. find-adjust g k t.rows ∙ ap (Option.map (g k)) (h.ahead k le);
  }

  find-append :
      (k j : ℕ) (a : A) (rs : Rows A)
      → find k rs ≡ none
      → (j == k) ≡ Bool.false
      → find k (rs ++ ((j, a) ∷ [])) ≡ none
  unfolding find
  find-append k j a [] h e = ground arith
  find-append k j a ((i, b) ∷ rs) h e = ground (arith, find-append k j a rs)

  append-IsKeyed :
      (j : ℕ) (a : A) (rs : Rows A) → IsKeyed rs → find j rs ≡ none → IsKeyed (rs ++ ((j, a) ∷ []))
  unfolding find
  append-IsKeyed j a [] h e = (refl, tt)
  append-IsKeyed j a ((i, b) ∷ rs) h e = ground (arith, append-IsKeyed j a rs, find-append i j a rs)

  pub create-IsTable : (a : A) {t : Table A} → IsTable t → IsTable (create a t)
  unfolding create
  create-IsTable a {t} h = record {
    keyed = append-IsKeyed t.next a t.rows h.keyed (h.ahead t.next (omega arith));
    ahead = λ k le. find-append k t.next a t.rows (h.ahead k (omega arith)) (ground arith);
  }

  pub adjust-absent :
      (k : ℕ) (f : A → A) (rs : Rows A) → find k rs ≡ none → adjust (at_pk k f) rs ≡ rs
  unfolding find adjust
  adjust-absent k f [] h = refl
  adjust-absent k f ((j, a) ∷ rs) h = ground (arith, adjust-absent k f rs)

  -- One row changed: the count stays if that row counts as before.
  pub count-at_pk :
      (p : A → Bool) (k : ℕ) (f : A → A) (rs : Rows A) {a : A}
      → IsKeyed rs
      → find k rs ≡ some a
      → p (f a) ≡ p a
      → count p (adjust (at_pk k f) rs) ≡ count p rs
  unfolding find adjust count
  count-at_pk p k f [] h e same = refl
  count-at_pk p k f ((j, b) ∷ rs) {a} h e same =
      ground (arith, count-at_pk p k f rs {a = a} h.1, adjust-absent k f rs)

  -- One row changed adds one at most.
  pub count-at_pk-le :
      (p : A → Bool) (k : ℕ) (f : A → A) (rs : Rows A)
      → IsKeyed rs
      → count p (adjust (at_pk k f) rs) ≤ count p rs + 1
  unfolding find adjust count
  count-at_pk-le p k f [] h = omega arith
  count-at_pk-le p k f ((j, b) ∷ rs) h =
      ground (arith, count-at_pk-le p k f rs h.1, adjust-absent k f rs)

  count-append :
      (p : A → Bool) (j : ℕ) (a : A) (rs : Rows A)
      → count p (rs ++ ((j, a) ∷ [])) ≡ count p rs + (if p a then 1 else 0)
  unfolding count
  count-append p j a [] = ground arith
  count-append p j a ((i, b) ∷ rs) = ground (arith, count-append p j a rs)

  pub count-create :
      (p : A → Bool) (a : A) (t : Table A)
      → count p (create a t).rows ≡ count p t.rows + (if p a then 1 else 0)
  unfolding create
  count-create p a t = count-append p t.next a t.rows

  -- A change of one row that is undone.
  pub adjust-undone :
      (k : ℕ) (f g : A → A) (rs : Rows A) {a : A}
      → IsKeyed rs
      → find k rs ≡ some a
      → g (f a) ≡ a
      → adjust (at_pk k g) (adjust (at_pk k f) rs) ≡ rs
  unfolding find adjust
  adjust-undone k f g [] h e same = refl
  adjust-undone k f g ((j, b) ∷ rs) {a} h e same =
      ground (arith, adjust-undone k f g rs {a = a} h.1, adjust-absent k f rs, adjust-absent k g rs)

  find-append-some :
      (k j : ℕ) (a b : A) (rs : Rows A) → find k rs ≡ some a → find k (rs ++ ((j, b) ∷ [])) ≡ some a
  unfolding find
  find-append-some k j a b [] e = cc
  find-append-some k j a b ((i, c) ∷ rs) e = ground (arith, find-append-some k j a b rs)

  -- A new row leaves the others.
  pub find-create :
      (k : ℕ) (a b : A) (t : Table A) → find k t.rows ≡ some a → find k (create b t).rows ≡ some a
  unfolding create
  find-create k a b t e = find-append-some k t.next a b t.rows e
