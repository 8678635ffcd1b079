-- ===== src/Money.antt =====
-- Amounts of money as texts: services/user-service/src/modules/escrow/usdt-amount.ts (the branch on
-- texts), `nanoToDecimalTon` of modules/ops/money-ledger.service.ts, `atomicToDecimal` of
-- modules/deal/ton-jetton-transactional-application.service.ts.
pub mod RoundTrip
use telegram_garant_contract.Common.{
  ℕ, zero, suc, ◌+◌, ◌-◌, ◌*◌, ◌/◌, ◌%◌, ◌^◌, Bool, true, false, not, ◌&&◌, List, [], ◌∷◌, ◌++◌,
  Text, Option, none, some, ltb, leb, ◌==◌, if◌then◌else◌, length, all, Result, ok, err, throw_if,
  or_throw, ◌>>=◌, ◌>>◌, trim,
}
use telegram_garant_contract.Decimal.{
  is_digit, is_digits, is_canonical, value, to_text, pad_start, zeros,
}

pub data MoneyError : Type 0 where
  invalid_amount not_positive exceeds_maximum : MoneyError

-- `.replace(/0+$/, "")`: one digit, before the rest with its trailing zeros gone.
abbrev pub keep_head : ℕ → Text → Text
keep_head c [] = if c == b'0' then [] else c ∷ []
keep_head c (d ∷ t) = c ∷ d ∷ t

unfoldable pub strip_zeros : Text → Text
strip_zeros [] = []
strip_zeros (c ∷ s) = keep_head c (strip_zeros s)

-- `fraction ? `${whole}.${fraction}` : whole.toString()`
abbrev pub join_fraction : Text → Text → Text
join_fraction w [] = w
join_fraction w (c ∷ f) = w ++ (b'.' ∷ c ∷ f)

-- An amount of `n` smallest units, `decimals` of whose digits stand behind the point.
unfoldable pub decimal_text : ℕ → ℕ → Text
unfolding strip_zeros
decimal_text decimals n =
    let scale = 10 ^ decimals in
    join_fraction (to_text (n / scale)) (strip_zeros (pad_start decimals (to_text (n % scale))))

-- `nanoToDecimalTon`
unfoldable pub nano_to_decimal_ton : Text → Result MoneyError Text
unfolding is_digits decimal_text
nano_to_decimal_ton t = do
  throw_if (not (is_digits t)) MoneyError.invalid_amount
  throw_if (value t == 0) MoneyError.not_positive
  ok (decimal_text 9 (value t))

-- `positiveAtomic`: /^(0|[1-9]\d{0,77})$/ and above zero.
unfoldable pub positive_atomic : Text → Bool
unfolding is_canonical
positive_atomic t = is_canonical t && leb (length t) 78 && not (value t == 0)

-- `atomicToDecimal`; null is `none`.
unfoldable pub atomic_to_decimal : Option Text → ℕ → Result MoneyError Text
unfolding positive_atomic decimal_text
atomic_to_decimal none decimals = err MoneyError.invalid_amount
atomic_to_decimal (some t) decimals = do
  throw_if (not (positive_atomic t)) MoneyError.invalid_amount
  ok (decimal_text decimals (value t))

-- The digits that a text begins with, and what follows them.
unfoldable pub span_digits : Text → Text × Text
span_digits [] = ([], [])
span_digits (c ∷ s) =
    let rest = span_digits s in if is_digit c then (c ∷ rest.0, rest.1) else ([], c ∷ s)

-- The optional group `(?:\.(\d+))?` up to the end of the text.
abbrev pub fraction_group : Text → Option Text
fraction_group [] = some []
fraction_group (c ∷ f) = if c == b'.' && is_digits f then some f else none

-- /^(\d+)(?:\.(\d+))?$/, the groups of a match; an absent group is the empty text.
abbrev pub with_whole : Text → Option Text → Option (Text × Text)
with_whole [] f = none
with_whole (c ∷ w) none = none
with_whole (c ∷ w) (some f) = some (c ∷ w, f)

unfoldable pub match_decimal : Text → Option (Text × Text)
unfolding span_digits is_digits
match_decimal t = let groups = span_digits t in with_whole groups.0 (fraction_group groups.1)

-- `.slice(0, width).padEnd(width, "0")`
unfoldable pub fit_end : ℕ → Text → Text
fit_end zero s = []
fit_end (suc n) [] = b'0' ∷ fit_end n []
fit_end (suc n) (c ∷ s) = c ∷ fit_end n s

abbrev pub usdt_decimals : ℕ
usdt_decimals = 6

abbrev pub max_usdt : ℕ
max_usdt = 1_000_000_000

-- `BigInt(whole) * 10^6 + BigInt(fractionTruncated)`
unfoldable pub scaled : ℕ → Text × Text → ℕ
unfolding fit_end
scaled decimals groups = value groups.0 * 10 ^ decimals + value (fit_end decimals groups.1)

-- `parseUsdtToWei` of a text.
unfoldable pub parse_usdt_to_wei : Text → Result MoneyError ℕ
unfolding match_decimal scaled
parse_usdt_to_wei t = do
  groups ← or_throw (match_decimal (trim t)) MoneyError.invalid_amount
  let wei = scaled usdt_decimals groups
  throw_if (ltb (max_usdt * 10 ^ usdt_decimals) wei) MoneyError.exceeds_maximum
  ok wei
