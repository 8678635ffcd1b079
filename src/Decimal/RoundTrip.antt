-- ===== src/Decimal/RoundTrip.antt =====
-- Printing a number and reading it back, and reading a canonical text and printing it.
use telegram_garant_contract.Common.{
  ℕ, zero, suc, ◌+◌, ◌-◌, ◌*◌, ◌/◌, ◌%◌, ◌^◌, ◌≤◌, ◌<◌, ◌≡◌, refl, sym, ◌∙◌, ap, ◌⊎◌, inl, inr,
  true, ◌&&◌, [], ◌∷◌, ◌++◌, Text, leb, length, all, arith, append-nil, &&-eq-true, ap₂,
}
use native.Mathlib.Nat.{pow-suc}
use telegram_garant_contract.Decimal.{
  is_digit, is_digits, is_canonical, value_from, value, render, to_text,
}

render_small : (f n : ℕ) (out : Text) → n < 10 → render (suc f) n out ≡ (48 + n) ∷ out
unfolding render
render_small f n out h = ground arith

render_large :
    (f n : ℕ) (out : Text) → 10 ≤ n → render (suc f) n out ≡ render f (n / 10) ((48 + n % 10) ∷ out)
unfolding render
render_large f n out h = ground arith

lt_or_le : (n k : ℕ) → (n < k) ⊎ (k ≤ n)
lt_or_le n k = omega arith

value_from-render :
    (f n : ℕ) (out : Text) → n < f → value_from 0 (render f n out) ≡ value_from n out
unfolding value_from
value_from-render zero n out h = absurd (omega arith)
value_from-render (suc f) n out h = elim (lt_or_le n 10) [
  | inl small ↦ rw (render_small f n out small) (ap (λ k. value_from k out) (omega arith))
  | inr large ↦ rw (render_large f n out large) (
      value_from-render f (n / 10) ((48 + n % 10) ∷ out) (omega arith)
      ∙ ap (λ k. value_from k out) (omega arith))
]

-- `BigInt(n.toString())` is `n`.
pub value-to_text : (n : ℕ) → value (to_text n) ≡ n
unfolding value to_text
value-to_text n = value_from-render (suc n) n [] (omega arith) ∙ unfold value_from in refl

-- More fuel than the number changes nothing.
render_fuel : (f g n : ℕ) (out : Text) → n < f → n < g → render f n out ≡ render g n out
render_fuel zero g n out h k = absurd (omega arith)
render_fuel (suc f) zero n out h k = absurd (omega arith)
render_fuel (suc f) (suc g) n out h k = elim (lt_or_le n 10) [
  | inl small ↦ render_small f n out small ∙ sym (render_small g n out small)
  | inr large ↦
      render_large f n out large
      ∙ render_fuel f g (n / 10) ((48 + n % 10) ∷ out) (omega arith) (omega arith)
      ∙ sym (render_large g n out large)
]

digit_bounds : (c : ℕ) → is_digit c ≡ true → (48 ≤ c) × (c ≤ 57)
digit_bounds c h = ground arith

render_step :
    (f a c : ℕ) (out : Text)
    → 0 < a
    → is_digit c ≡ true
    → render (suc f) (a * 10 + (c - 48)) out ≡ render f a (c ∷ out)
render_step f a c out h d =
    let bounds = digit_bounds c d in
    render_large f (a * 10 + (c - 48)) out (omega arith)
    ∙ ap₂ (λ k e. render f k (e ∷ out)) (omega (arith, bounds)) (omega (arith, bounds))

render-value_from :
    (s : Text) (f a : ℕ) (out : Text)
    → 0 < a
    → all is_digit s ≡ true
    → render (length s + f) (value_from a s) out ≡ render f a (s ++ out)
unfolding value_from
render-value_from [] f a out h d = ap (λ k. render k a out) (omega arith)
render-value_from (c ∷ s) f a out h d =
    let (dc, ds) = &&-eq-true (is_digit c) (all is_digit s) d in
    ap (λ k. render k (value_from (a * 10 + (c - 48)) s) out) (omega arith)
    ∙ render-value_from s (suc f) (a * 10 + (c - 48)) out (omega arith) ds
    ∙ render_step f a c (s ++ out) h dc

one_digit : (c : ℕ) → is_digit c ≡ true → render (suc (c - 48)) (c - 48) [] ≡ c ∷ []
one_digit c h =
    let bounds = digit_bounds c h in
    render_small (c - 48) (c - 48) [] (omega (arith, bounds))
    ∙ ap (λ k. k ∷ []) (omega (arith, bounds))

value_cons : (c : ℕ) (s : Text) → value (c ∷ s) ≡ value_from (c - 48) s
unfolding value value_from
value_cons c s = ap (λ k. value_from k s) (omega arith)

canonical_render :
    (s : Text) (a : ℕ)
    → 0 < a
    → a < 10
    → all is_digit s ≡ true
    → to_text (value_from a s) ≡ (48 + a) ∷ s
unfolding to_text
canonical_render s a h k d =
    let n = value_from a s in
    render_fuel (suc n) (length s + suc n) n [] (omega arith) (omega arith)
    ∙ render-value_from s (suc n) a [] h d
    ∙ render_small n a (s ++ []) k
    ∙ ap (λ t. (48 + a) ∷ t) (append-nil s)

-- `BigInt(text).toString()` is `text` again for a canonical text, which has no leading zero.
pub to_text-value : (s : Text) → is_canonical s ≡ true → to_text (value s) ≡ s
unfolding is_canonical
to_text-value [] h = cc
to_text-value (c ∷ []) h = rw value_cons (unfold to_text value_from in one_digit c h)
to_text-value (c ∷ d ∷ s) h =
    let (first, rest) = &&-eq-true (leb b'1' c && leb c b'9') (all is_digit (d ∷ s)) h in
    let bounds : (49 ≤ c) × (c ≤ 57) = ground arith in
    rw value_cons (
      canonical_render (d ∷ s) (c - 48) (omega arith) (omega arith) rest
      ∙ ap (λ k. k ∷ d ∷ s) (omega arith))

all-render :
    (f n : ℕ) (out : Text) → n < f → all is_digit out ≡ true → all is_digit (render f n out) ≡ true
all-render zero n out h d = absurd (omega arith)
all-render (suc f) n out h d = elim (lt_or_le n 10) [
  | inl small ↦ rw (render_small f n out small) (ground arith)
  | inr large ↦
      rw (render_large f n out large)
        (all-render f (n / 10) ((48 + n % 10) ∷ out) (omega arith) (ground arith))
]

-- The text of a number consists of digits.
pub all-to_text : (n : ℕ) → all is_digit (to_text n) ≡ true
unfolding to_text
all-to_text n = all-render (suc n) n [] (omega arith) refl

render_keeps_cons : (f n c : ℕ) (out : Text) → (d : ℕ) × (s : Text) × (render f n (c ∷ out) ≡ d ∷ s)
unfolding render
render_keeps_cons zero n c out = (c, out, refl)
render_keeps_cons (suc f) n c out = elim (lt_or_le n 10) [
  | inl small ↦ (48 + n, c ∷ out, render_small f n (c ∷ out) small)
  | inr large ↦
      let (d, s, e) = render_keeps_cons f (n / 10) (48 + n % 10) (c ∷ out) in
      (d, s, render_large f n (c ∷ out) large ∙ e)
]

-- The text of a number is not empty.
pub to_text-cons : (n : ℕ) → (c : ℕ) × (s : Text) × (to_text n ≡ c ∷ s)
unfolding to_text
to_text-cons n = elim (lt_or_le n 10) [
  | inl small ↦ (48 + n, [], render_small n n [] small)
  | inr large ↦
      let (d, s, e) = render_keeps_cons n (n / 10) (48 + n % 10) [] in
      (d, s, render_large n n [] large ∙ e)
]

length-render :
    (k f n : ℕ) (out : Text) → n < 10 ^ suc k → length (render f n out) ≤ suc k + length out
unfolding render
length-render k zero n out h = omega arith
length-render zero (suc f) n out h =
    let small : n < 10 = omega (arith, pow-suc 10 0) in
    rw (render_small f n out small) (omega arith)
length-render (suc k) (suc f) n out h = elim (lt_or_le n 10) [
  | inl small ↦ rw (render_small f n out small) (omega arith)
  | inr large ↦ rw (render_large f n out large) (
      omega (
        arith,
        length-render k f (n / 10) ((48 + n % 10) ∷ out) (omega (arith, pow-suc 10 (suc k))),
      ))
]

-- A number below a power of ten has no more digits than the exponent.
pub length-to_text : (k n : ℕ) → n < 10 ^ suc k → length (to_text n) ≤ suc k
unfolding to_text
length-to_text k n h = omega (arith, length-render k (suc n) n [] h)

-- The text of a number is a numeral.
pub is_digits-to_text : (n : ℕ) → is_digits (to_text n) ≡ true
unfolding is_digits
is_digits-to_text n =
    let (c, s, e) = to_text-cons n in rw e (sym (ap (all is_digit) e) ∙ all-to_text n)
