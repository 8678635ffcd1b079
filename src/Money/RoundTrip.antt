-- ===== src/Money/RoundTrip.antt =====
-- An amount printed for the ledger and parsed as a provider's amount is the same amount.
use telegram_garant_contract.Common.{
  ℕ, zero, suc, ◌+◌, ◌-◌, ◌*◌, ◌/◌, ◌%◌, ◌^◌, ◌≤◌, ◌<◌, ◌≡◌, refl, sym, ◌∙◌, ap, ap₂, true, false,
  [], ◌∷◌, ◌++◌, Text, some, length, all, ok, arith, trim, solid, trim-solid, is_space,
}
use native.Mathlib.Nat.{mod-lt, div-add-mod', pow-suc}
use telegram_garant_contract.Decimal.{is_digit, value, value_from, to_text, pad_start, zeros}
use telegram_garant_contract.Decimal.RoundTrip.{
  value-to_text, all-to_text, length-to_text, to_text-cons,
}
use telegram_garant_contract.Money.{
  strip_zeros, join_fraction, decimal_text, span_digits, match_decimal, fit_end, scaled,
  parse_usdt_to_wei, max_usdt,
}

length-strip_zeros : (s : Text) → length (strip_zeros s) ≤ length s
unfolding strip_zeros
length-strip_zeros [] = omega arith
length-strip_zeros (c ∷ s) = ground (arith, length-strip_zeros s)

all-strip_zeros : (s : Text) → all is_digit s ≡ true → all is_digit (strip_zeros s) ≡ true
unfolding strip_zeros
all-strip_zeros [] h = refl
all-strip_zeros (c ∷ s) h = ground (arith, all-strip_zeros s)

-- Padding restores the zeros that were taken off.
fit_end-strip_zeros : (s : Text) → fit_end (length s) (strip_zeros s) ≡ s
unfolding strip_zeros fit_end
fit_end-strip_zeros [] = refl
fit_end-strip_zeros (c ∷ s) = ground (arith, fit_end-strip_zeros s)

span_digits-append :
    (w : Text) (c : ℕ) (f : Text)
    → all is_digit w ≡ true
    → is_digit c ≡ false
    → span_digits (w ++ (c ∷ f)) ≡ (w, c ∷ f)
unfolding span_digits
span_digits-append [] c f h k = ground arith
span_digits-append (d ∷ w) c f h k = ground (arith, span_digits-append w c f)

span_digits_self : (w : Text) → all is_digit w ≡ true → span_digits w ≡ (w, [])
unfolding span_digits
span_digits_self [] h = refl
span_digits_self (d ∷ w) h = ground (arith, span_digits_self w)

all-zeros : (n : ℕ) (s : Text) → all is_digit s ≡ true → all is_digit (zeros n s) ≡ true
all-zeros zero s h = h
all-zeros (suc n) s h = all-zeros n s h

length-zeros : (n : ℕ) (s : Text) → length (zeros n s) ≡ n + length s
length-zeros zero s = omega arith
length-zeros (suc n) s = omega (arith, length-zeros n s)

value_from-zeros : (n : ℕ) (s : Text) → value_from 0 (zeros n s) ≡ value_from 0 s
unfolding value_from
value_from-zeros zero s = refl
value_from-zeros (suc n) s = value_from-zeros n s

value-pad_start : (w : ℕ) (s : Text) → value (pad_start w s) ≡ value s
unfolding value pad_start
value-pad_start w s = value_from-zeros (w - length s) s

-- The digits of `m`, padded, stripped, cut and padded again, still stand for `m`.
value-fraction :
    (d m : ℕ)
    → length (to_text m) ≤ d
    → value (fit_end d (strip_zeros (pad_start d (to_text m)))) ≡ m
value-fraction d m h =
    ap (λ k. value (fit_end k (strip_zeros (pad_start d (to_text m))))) (sym full)
    ∙ ap value (fit_end-strip_zeros (pad_start d (to_text m)))
    ∙ value-pad_start d (to_text m)
    ∙ value-to_text m
  where
    full : length (pad_start d (to_text m)) ≡ d
    full = unfold pad_start in omega (arith, length-zeros (d - length (to_text m)) (to_text m))

all-fraction : (d m : ℕ) → all is_digit (strip_zeros (pad_start d (to_text m))) ≡ true
unfolding pad_start
all-fraction d m =
    all-strip_zeros _ (all-zeros (d - length (to_text m)) (to_text m) (all-to_text m))

match_groups :
    (w f : Text) (c : ℕ) (r : Text)
    → w ≡ c ∷ r
    → all is_digit w ≡ true
    → all is_digit f ≡ true
    → match_decimal (join_fraction w f) ≡ some (w, f)
unfolding match_decimal
match_groups w [] c r e h k = rw (span_digits_self w h) (ground arith)
match_groups w (d ∷ f) c r e h k = rw (span_digits-append w b'.' (d ∷ f) h refl) (ground arith)

solid-digits : (s : Text) → all is_digit s ≡ true → solid s ≡ true
unfolding is_space
solid-digits [] h = refl
solid-digits (c ∷ s) h = ground (arith, solid-digits s)

-- The printed amount is matched as its whole part and its stripped fraction.
match_decimal_text :
    (d n : ℕ)
    → match_decimal (decimal_text d n)
      ≡ some (to_text (n / 10 ^ d), strip_zeros (pad_start d (to_text (n % 10 ^ d))))
unfolding decimal_text
match_decimal_text d n =
    let (c, r, e) = to_text-cons (n / 10 ^ d) in
    match_groups (to_text (n / 10 ^ d)) _ c r e (all-to_text _) (all-fraction d (n % 10 ^ d))

solid-append : (s t : Text) → solid s ≡ true → solid t ≡ true → solid (s ++ t) ≡ true
solid-append [] t h k = k
solid-append (c ∷ s) t h k = ground (arith, solid-append s t)

solid-join_fraction :
    (w f : Text) → all is_digit w ≡ true → all is_digit f ≡ true → solid (join_fraction w f) ≡ true
unfolding is_space
solid-join_fraction w [] h k = solid-digits w h
solid-join_fraction w (c ∷ f) h k =
    solid-append w (b'.' ∷ c ∷ f) (solid-digits w h) (solid-digits (c ∷ f) k)

trim-decimal_text : (d n : ℕ) → trim (decimal_text d n) ≡ decimal_text d n
unfolding decimal_text
trim-decimal_text d n = trim-solid _ (
    solid-join_fraction (to_text (n / 10 ^ d)) (strip_zeros (pad_start d (to_text (n % 10 ^ d))))
      (all-to_text (n / 10 ^ d)) (all-fraction d (n % 10 ^ d)))

pow-pos : (d : ℕ) → 0 < 10 ^ suc d
pow-pos zero = omega arith
pow-pos (suc d) = omega (arith, pow-suc 10 (suc d), pow-pos d)

-- Whole part and fraction put together are the amount again.
scaled-decimal_text :
    (d n : ℕ)
    → scaled
        (suc d)
        (to_text (n / 10 ^ suc d), strip_zeros (pad_start (suc d) (to_text (n % 10 ^ suc d))))
      ≡ n
unfolding scaled
scaled-decimal_text d n =
    ap₂ (λ a b. a * 10 ^ suc d + b) (value-to_text (n / 10 ^ suc d))
      (value-fraction (suc d) (n % 10 ^ suc d)
        (length-to_text d (n % 10 ^ suc d) (mod-lt n (pow-pos d))))
    ∙ div-add-mod' n (10 ^ suc d)

-- An amount of the chain's smallest unit, up to the maximum of a billion USDT, that the ledger's
-- `atomicToDecimal` has printed with six decimals is parsed by `parseUsdtToWei` as the same amount:
-- neither the trailing zeros taken off nor the padding put back loses or adds a unit.
pub parse_usdt_to_wei-decimal_text :
    (n : ℕ) → n ≤ max_usdt * 10 ^ 6 → parse_usdt_to_wei (decimal_text 6 n) ≡ ok n
unfolding parse_usdt_to_wei
parse_usdt_to_wei-decimal_text n h =
    rw (trim-decimal_text 6 n)
      (rw (match_decimal_text 6 n) (rw (scaled-decimal_text 5 n) (ground arith)))
