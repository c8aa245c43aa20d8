-- ===== src/Text/Integer.antt =====
-- Decimal numerals: `str.isdigit`, `int(text)`, and the order of Python's texts and integers. Digits
-- other than the ASCII ones are not numerals here.
use Prim.Native.Char.{code}
use quota_radar.Prelude.{
  ℕ, ◌+◌, ◌-◌, ◌*◌, String, Bool, true, false, ◌&&◌, ◌||◌, Option, none, some, ltb, leb, ◌==◌,
  nonempty, if◌then◌else◌,
}

pub data ℤ : Type 0 where
  pos negsuc : ℕ → ℤ

abbrev pub ltz : ℤ → ℤ → Bool
ltz (ℤ.pos m) (ℤ.pos n) = ltb m n
ltz (ℤ.pos m) (ℤ.negsuc n) = false
ltz (ℤ.negsuc m) (ℤ.pos n) = true
ltz (ℤ.negsuc m) (ℤ.negsuc n) = ltb n m

abbrev pub is_digit : ℕ → Bool
is_digit c = leb 48 c && leb c 57

unfoldable all_digits : String → Bool
all_digits String.[] = true
all_digits (String.◌∷◌ c s) = is_digit (code c) && all_digits s

-- `s.isdigit()`
unfoldable pub isdigit : String → Bool
unfolding all_digits
isdigit s = nonempty s && all_digits s

-- The value read so far and whether a digit was read last: an underscore stands between digits.
pub data Scan : Type 0 where
  bad : Scan
  read : ℕ → Bool → Scan

abbrev scan_code : Scan → ℕ → Scan
scan_code Scan.bad c = Scan.bad
scan_code (Scan.read n after_digit) c =
    if is_digit c
    then Scan.read (n * 10 + (c - 48)) true
    else if c == 95 && after_digit
    then Scan.read n false
    else Scan.bad

unfoldable scan : Scan → String → Scan
scan found String.[] = found
scan found (String.◌∷◌ c s) = scan (scan_code found (code c)) s

abbrev scanned : Scan → Option ℕ
scanned (Scan.read n true) = some n
scanned _ = none

-- The number that a text of digits stands for.
unfoldable pub numeral : String → Option ℕ
unfolding scan
numeral s = scanned (scan (Scan.read 0 false) s)

abbrev negated : ℕ → ℤ
negated n = if n == 0 then ℤ.pos 0 else ℤ.negsuc (n - 1)

abbrev with_sign : (ℕ → ℤ) → Option ℕ → Option ℤ
with_sign sign none = none
with_sign sign (some n) = some (sign n)

unfoldable pub signed : String → Option ℤ
unfolding numeral
signed String.[] = none
signed (String.◌∷◌ c s) =
    if code c == 45
    then with_sign negated (numeral s)
    else if code c == 43
    then with_sign ℤ.pos (numeral s)
    else with_sign ℤ.pos (numeral (String.◌∷◌ c s))

-- `s < t` on texts, by code points
unfoldable pub text_lt : String → String → Bool
text_lt s String.[] = false
text_lt String.[] (String.◌∷◌ d t) = true
text_lt (String.◌∷◌ c s) (String.◌∷◌ d t) =
    let rest = text_lt s t in ltb (code c) (code d) || (code c == code d && rest)
