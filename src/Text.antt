-- ===== src/Text.antt =====
-- Python's operations on `str` that the program uses, character by character.
pub mod Utf16
pub mod Decimal
pub mod Integer
pub mod Lines
use Prim.Native.Char.{Char, code}
use text.Mathlib.Text
use quota_radar.Text.Integer.{ℤ, signed}
use quota_radar.Prelude.{
  ℕ, ◌+◌, ◌<◌, String, Bool, true, false, ◌&&◌, ◌||◌, not, Option, none, some, List, [], ◌∷◌, ltb,
  leb, ◌==◌, if◌then◌else◌, nonempty, contains,
}

-- `c.isspace()`, on a code point
pub is_space : ℕ → Bool
is_space c =
    (leb 9 c && leb c 13)
    || (leb 28 c && leb c 32)
    || (leb 8192 c && leb c 8202)
    || contains (133 ∷ 160 ∷ 5760 ∷ 8232 ∷ 8233 ∷ 8239 ∷ 8287 ∷ 12288 ∷ []) c

pub lstrip : String → String
lstrip String.[] = ""
lstrip (String.◌∷◌ c s) = let rest = lstrip s in if is_space (code c) then rest else String.◌∷◌ c s

unfoldable pub rstrip : String → String
unfolding is_space
rstrip String.[] = ""
rstrip (String.◌∷◌ c s) =
    let rest = rstrip s in
    if is_space (code c) && not (nonempty rest) then "" else String.◌∷◌ c rest

-- `s.strip()`
unfoldable pub strip : String → String
unfolding lstrip rstrip is_space
strip s = rstrip (lstrip s)

-- The text in front of the last occurrence of `part`, `s[:s.rfind(part)]`.
unfoldable pub before_last : String → String → Option String
before_last part String.[] = if nonempty part then none else some ""
before_last part (String.◌∷◌ c s) = elim (before_last part s) [
  | some before ↦ some (String.◌∷◌ c before)
  | none ↦ if Text.starts_with (String.◌∷◌ c s) part then some "" else none
]

-- `int(s)`; `none` is its `ValueError`.
unfoldable pub int : String → Option ℤ
unfolding strip signed
int s = signed (strip s)
