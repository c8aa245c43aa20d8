-- ===== src/Prelude/Lists.antt =====
-- Lists measured by the native numbers, and the list operations of the source.
use Prim.Native.Nat.{ℕ, suc, ◌+◌}
use mathlib.Core.Path.{◌≡◌}
use mathlib.Core.Bool.{Bool, false, ◌||◌}
use mathlib.Core.List.{List, [], ◌∷◌, ◌++◌}
use native.Mathlib.Omega.{arith}
use Prim.Native.String.{String}
use mathlib.Core.Option.{Option, none, some}
use quota_radar.Prelude.Tests.{str_eq, if◌then◌else◌, ◌==◌}

module _ {ℓ} {A : Type ℓ} where
  abbrev pub length : List A → ℕ
  length [] = 0
  length (x ∷ xs) = suc (length xs)

  abbrev pub filter_by : (A → Bool) → List A → List A
  filter_by p [] = []
  filter_by p (x ∷ xs) = let rest = filter_by p xs in if p x then x ∷ rest else rest

  pub length-append : (xs ys : List A) → length (xs ++ ys) ≡ length xs + length ys
  length-append [] ys = omega arith
  length-append (x ∷ xs) ys = omega (arith, length-append xs ys)

abbrev pub All {ℓ ℓ'} : {A : Type ℓ} → (A → Type ℓ') → List A → Type ℓ'
All P [] = Unit
All P (x ∷ xs) = P x × All P xs

pub All-implies {ℓ ℓ'} :
    {A : Type ℓ} {P Q : A → Type ℓ'} → ((a : A) → P a → Q a) → (xs : List A) → All P xs → All Q xs
All-implies f [] h = tt
All-implies f (x ∷ xs) h = (f x h.0, All-implies f xs h.1)

-- `x in xs`
abbrev pub contains : List ℕ → ℕ → Bool
contains [] a = false
contains (x ∷ xs) a = x == a || contains xs a

-- `tuple(dict.fromkeys(xs))`: the first occurrence of each, in order.
pub unique_from : List ℕ → List ℕ → List ℕ
unique_from seen [] = []
unique_from seen (x ∷ xs) =
    let rest = unique_from (x ∷ seen) xs in if contains seen x then rest else x ∷ rest

unfoldable pub unique : List ℕ → List ℕ
unfolding unique_from
unique = unique_from []

-- `mapping.get(key)` of a `dict` with texts as keys, the last write first.
unfoldable pub get_item {ℓ} : {A : Type ℓ} → String → List (String × A) → Option A
get_item k [] = none
get_item k ((j, v) ∷ m) = let rest = get_item k m in if str_eq j k then some v else rest

-- `s in texts`
abbrev pub has_text : List String → String → Bool
has_text [] s = false
has_text (t ∷ ts) s = str_eq t s || has_text ts s

-- `list(dict.fromkeys(texts))`: the first occurrence of each, in order.
unfoldable pub unique_texts : List String → List String → List String
unique_texts seen [] = []
unique_texts seen (t ∷ ts) =
    let known = has_text seen t in
    let rest = unique_texts (if known then seen else t ∷ seen) ts in
    if known then rest else t ∷ rest
