-- ===== src/Decimal.antt =====
-- Decimal texts: what the services use of JavaScript's `BigInt(text)`, `bigint.toString()`,
-- `padStart` and of the regular expressions /^\d+$/ and /^(0|[1-9]\d*)$/.
pub mod RoundTrip
use telegram_garant_contract.Common.{
  ℕ, zero, suc, ◌+◌, ◌-◌, ◌*◌, ◌/◌, ◌%◌, Bool, true, false, ◌&&◌, List, [], ◌∷◌, Text, Option, none,
  some, ltb, leb, ◌==◌, if◌then◌else◌, length, all,
}

abbrev pub is_digit : ℕ → Bool
is_digit c = leb b'0' c && leb c b'9'

-- /^\d+$/
unfoldable pub is_digits : Text → Bool
is_digits [] = false
is_digits (c ∷ s) = is_digit c && all is_digit s

-- /^(0|[1-9]\d*)$/
unfoldable pub is_canonical : Text → Bool
is_canonical [] = false
is_canonical (c ∷ []) = is_digit c
is_canonical (c ∷ d ∷ s) = leb b'1' c && leb c b'9' && all is_digit (d ∷ s)

-- `BigInt(text)` of a text of digits, with the value of the digits before it.
unfoldable pub value_from : ℕ → Text → ℕ
value_from a [] = a
value_from a (c ∷ s) = value_from (a * 10 + (c - b'0')) s

unfoldable pub value : Text → ℕ
unfolding value_from
value s = value_from 0 s

-- The digits of `n` before `out`, the last one first; each round divides by ten.
pub render : ℕ → ℕ → Text → Text
render zero n out = out
render (suc f) n out = elim (ltb n 10) [
  | true ↦ (b'0' + n) ∷ out
  | false ↦ render f (n / 10) ((b'0' + n % 10) ∷ out)
]

-- `n.toString()`; `n` rounds and one more are enough.
unfoldable pub to_text : ℕ → Text
unfolding render
to_text n = render (suc n) n []

-- `text.padStart(width, "0")`
abbrev pub zeros : ℕ → Text → Text
zeros zero s = s
zeros (suc n) s = b'0' ∷ zeros n s

unfoldable pub pad_start : ℕ → Text → Text
pad_start w s = zeros (w - length s) s
