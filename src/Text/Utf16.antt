-- ===== src/Text/Utf16.antt =====
-- Text lengths as Telegram counts them (apps/advertising/markup_result.py, `utf16_length`).
use Prim.Native.Char.{code}
use text.Mathlib.TextLemmas.{nil-append, cons-append}
use Prim.Native.String.{◌++◌ as ◌<>◌}
use quota_radar.Prelude.{ℕ, ◌+◌, String, ◌≡◌, arith, ltb, if◌then◌else◌}

-- A code point above the basic plane takes two units.
unfoldable pub utf16_units : ℕ → ℕ
utf16_units c = if ltb c 0x10000 then 1 else 2

unfoldable pub utf16_length : String → ℕ
utf16_length String.[] = 0
utf16_length (String.◌∷◌ c s) = utf16_units (code c) + utf16_length s

pub utf16_length-append : (s t : String) → utf16_length (s <> t) ≡ utf16_length s + utf16_length t
unfolding utf16_length
utf16_length-append String.[] t = rw (nil-append t, utf16_length) (omega arith)
utf16_length-append (String.◌∷◌ c s) t =
    rw (cons-append c s t, utf16_length) (omega (arith, utf16_length-append s t))
