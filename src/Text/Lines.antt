-- ===== src/Text/Lines.antt =====
-- Python's `str` methods on several texts or lines: `join`, `replace`, `splitlines`.
use Prim.Native.Char.{Char, code}
use Prim.Native.String.{◌++◌ as ◌<>◌}
use text.Mathlib.Text
use quota_radar.Prelude.{
  ℕ, zero, suc, ◌-◌, String, Bool, false, ◌&&◌, ◌||◌, not, List, [], ◌∷◌, leb, ◌==◌, if◌then◌else◌,
  nonempty,
}

-- `separator.join(texts)`
unfoldable pub join : String → List String → String
join separator [] = ""
join separator (s ∷ []) = s
join separator (s ∷ t ∷ ss) = s <> (separator <> join separator (t ∷ ss))

-- `len(s)`
unfoldable pub chars : String → ℕ
chars String.[] = 0
chars (String.◌∷◌ c s) = suc (chars s)

-- What is left to do in `s.replace(old, new)`, where `skip` characters belong to the last match.
unfoldable replace_from : String → String → ℕ → String → String
replace_from old new skip String.[] = ""
replace_from old new (suc skip) (String.◌∷◌ c s) = replace_from old new skip s
replace_from old new zero (String.◌∷◌ c s) =
    let hit = Text.starts_with (String.◌∷◌ c s) old in
    let rest = replace_from old new (if hit then chars old - 1 else 0) s in
    if hit then new <> rest else String.◌∷◌ c rest

-- Between all characters, as Python replaces the empty text.
unfoldable between : String → String → String
between new String.[] = new
between new (String.◌∷◌ c s) = new <> String.◌∷◌ c (between new s)

unfoldable pub replace : String → String → String → String
unfolding replace_from between chars
replace old new s = if nonempty old then replace_from old new 0 s else between new s

-- Where `splitlines` ends a line.
abbrev is_line_end : ℕ → Bool
is_line_end c =
    (leb 10 c && leb c 13) || (leb 28 c && leb c 30) || c == 133 || c == 8232 || c == 8233

abbrev prepend : Char → List String → List String
prepend c [] = String.◌∷◌ c "" ∷ []
prepend c (line ∷ lines) = String.◌∷◌ c line ∷ lines

-- The lines of `s.splitlines()` and empty ones: "\r\n" ends two lines here, and a text that ends
-- with a line end has one more.
unfoldable pub lines : String → List String
lines String.[] = "" ∷ []
lines (String.◌∷◌ c s) =
    let rest = lines s in if is_line_end (code c) then "" ∷ rest else prepend c rest

-- `re.compile(r"[ \t]+").sub(" ", s)`; `after_blank` tells whether a blank was read last.
unfoldable squeeze_from : Bool → String → String
squeeze_from after_blank String.[] = ""
squeeze_from after_blank (String.◌∷◌ c s) =
    let blank = code c == 32 || code c == 9 in
    let rest = squeeze_from blank s in
    if not blank then String.◌∷◌ c rest else if after_blank then rest else " " <> rest

unfoldable pub squeeze : String → String
unfolding squeeze_from
squeeze = squeeze_from false

unfoldable pub nonempty_texts : List String → List String
nonempty_texts [] = []
nonempty_texts (s ∷ ss) = let rest = nonempty_texts ss in if nonempty s then s ∷ rest else rest

-- `s[:n]`
unfoldable pub take_chars : ℕ → String → String
take_chars zero s = ""
take_chars (suc n) String.[] = ""
take_chars (suc n) (String.◌∷◌ c s) = String.◌∷◌ c (take_chars n s)
