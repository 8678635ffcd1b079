-- ===== src/Address/Canonical.antt =====
-- The canonical form of an address: what `normalizeTonAddress` returns, it returns unchanged
-- (services/user-service/src/modules/escrow/adapters/ton-address.ts).
use telegram_garant_contract.Common.{
  ℕ, zero, suc, ◌-◌, ◌*◌, ◌/◌, ◌≤◌, ◌≡◌, refl, ◌∙◌, ap, ◌⊎◌, inl, inr, Bool, true, false, List, [],
  ◌∷◌, map, Text, Option, none, some, length, all, arith, trim, trim-solid, solid,
  is_space-printable, is_space, &&-eq-true,
}
use telegram_garant_contract.Address.{
  is_lower_hex, is_hex, lower, hash_part, match_raw, normalize_trimmed, normalize_ton_address,
  from_friendly, to_hex, take, drop, workchain_text, with_hash, hex_digit, raw_groups,
  decode_base64, standard_unit,
}
use telegram_garant_contract.Decimal.{value}
use telegram_garant_contract.Money.{span_digits}

-- The 64 lower-case hexadecimal digits of an account's hash.
pub record IsHash (h : Text) : Type 0 where
  pub width : length h ≡ 64
  pub units : all is_lower_hex h ≡ true

-- `0:` or `-1:` and a hash.
pub data IsCanonical : Text → Type 0 where
  basechain : (h : Text) → IsHash h → IsCanonical (b'0' ∷ b':' ∷ h)
  masterchain : (h : Text) → IsHash h → IsCanonical (b'-' ∷ b'1' ∷ b':' ∷ h)

hex_bounds : (c : ℕ) → is_lower_hex c ≡ true → (33 ≤ c) × (c ≤ 126)
hex_bounds c h = ground arith

solid-hex : (h : Text) → all is_lower_hex h ≡ true → solid h ≡ true
solid-hex [] k = refl
solid-hex (c ∷ h) k =
    let (kc, kh) = &&-eq-true (is_lower_hex c) (all is_lower_hex h) k in
    let (low, high) = hex_bounds c kc in rw (is_space-printable c low high) (solid-hex h kh)

all-lower : (h : Text) → all is_hex h ≡ true → all is_lower_hex (map lower h) ≡ true
all-lower [] k = refl
all-lower (c ∷ h) k = ground (arith, all-lower h)

lower_self : (h : Text) → all is_lower_hex h ≡ true → map lower h ≡ h
lower_self [] k = refl
lower_self (c ∷ h) k = ground (arith, lower_self h)

all-is_hex : (h : Text) → all is_lower_hex h ≡ true → all is_hex h ≡ true
all-is_hex [] k = refl
all-is_hex (c ∷ h) k = ground (arith, all-is_hex h)

length-lower : (h : Text) → length (map lower h) ≡ length h
length-lower [] = refl
length-lower (c ∷ h) = ap suc (length-lower h)

hash_part_self : (h : Text) → length h ≡ 64 → all is_hex h ≡ true → hash_part (b':' ∷ h) ≡ some h
unfolding hash_part
hash_part_self h k u = ground arith

hash_part-hex : (r h : Text) → hash_part r ≡ some h → (length h ≡ 64) × (all is_hex h ≡ true)
unfolding hash_part
hash_part-hex [] h e = cc
hash_part-hex (c ∷ r) h e = ground arith

trim-canonical : {a : Text} → IsCanonical a → trim a ≡ a
unfolding is_space
trim-canonical (basechain h k) = trim-solid (b'0' ∷ b':' ∷ h) (solid-hex h k.units)
trim-canonical (masterchain h k) = trim-solid (b'-' ∷ b'1' ∷ b':' ∷ h) (solid-hex h k.units)

match_raw-basechain : (h : Text) → IsHash h → match_raw (b'0' ∷ b':' ∷ h) ≡ some (false, 0, h)
unfolding match_raw span_digits value
match_raw-basechain h k = rw (hash_part_self h k.width (all-is_hex h k.units))

match_raw-masterchain :
    (h : Text) → IsHash h → match_raw (b'-' ∷ b'1' ∷ b':' ∷ h) ≡ some (true, 1, h)
unfolding match_raw span_digits value
match_raw-masterchain h k = rw (hash_part_self h k.width (all-is_hex h k.units))

-- A canonical address is normalized to itself.
canonical_fixed : {a : Text} → IsCanonical a → normalize_ton_address a ≡ some a
unfolding normalize_trimmed
canonical_fixed (basechain h k) =
    unfold normalize_ton_address in
    rw (trim-canonical (basechain h k)) (rw (match_raw-basechain h k) (rw (lower_self h k.units)))
canonical_fixed (masterchain h k) =
    unfold normalize_ton_address in
    rw (trim-canonical (masterchain h k))
      (rw (match_raw-masterchain h k) (rw (lower_self h k.units)))

length-to_hex : (bs : List ℕ) → length (to_hex bs) ≡ 2 * length bs
unfolding to_hex
length-to_hex [] = omega arith
length-to_hex (b ∷ bs) = omega (arith, length-to_hex bs)

lower_hex_digit : (n : ℕ) → is_lower_hex (hex_digit n) ≡ true
lower_hex_digit n = ground arith

all-to_hex : (bs : List ℕ) → all is_lower_hex (to_hex bs) ≡ true
unfolding to_hex
all-to_hex [] = refl
all-to_hex (b ∷ bs) = rw (lower_hex_digit (b / 16), lower_hex_digit b) (all-to_hex bs)

length-take : (n : ℕ) (xs : List ℕ) → n ≤ length xs → length (take n xs) ≡ n
length-take zero xs h = refl
length-take (suc n) [] h = elim h [ ]
length-take (suc n) (x ∷ xs) h = ap suc (length-take n xs (omega arith))

length-drop : (n : ℕ) (xs : List ℕ) → length (drop n xs) ≡ length xs - n
length-drop zero xs = omega arith
length-drop (suc n) [] = omega arith
length-drop (suc n) (x ∷ xs) = omega (arith, length-drop n xs)

IsHash-of_bytes : (bytes : List ℕ) → length bytes ≡ 36 → IsHash (to_hex (take 32 (drop 2 bytes)))
IsHash-of_bytes bytes e = record {
  width = omega (
    arith,
    length-to_hex (take 32 (drop 2 bytes)),
    length-take 32 (drop 2 bytes) (omega (arith, length-drop 2 bytes)),
  );
  units = all-to_hex (take 32 (drop 2 bytes));
}

from_friendly_cases :
    (bytes : List ℕ) (a : Text)
    → from_friendly bytes ≡ some a
    → let h = to_hex (take 32 (drop 2 bytes)) in
      (length bytes ≡ 36) × ((a ≡ b'0' ∷ b':' ∷ h) ⊎ (a ≡ b'-' ∷ b'1' ∷ b':' ∷ h))
unfolding from_friendly
from_friendly_cases bytes a e = ground arith

from_friendly-IsCanonical :
    (bytes : List ℕ) (a : Text) → from_friendly bytes ≡ some a → IsCanonical a
from_friendly-IsCanonical bytes a e =
    let (l, c) = from_friendly_cases bytes a e in
    let h = IsHash-of_bytes bytes l in
    elim c [ inl q ↦ rw q (basechain _ h) | inr q ↦ rw q (masterchain _ h) ]

raw_groups-hex :
    (p : Text × Text) (n : ℕ) (h : Text)
    → raw_groups p ≡ some (n, h)
    → (length h ≡ 64) × (all is_hex h ≡ true)
raw_groups-hex ([], rest) n h e = cc
raw_groups-hex (d ∷ ds, rest) n h e = hash_part-hex rest h (ground arith)

match_raw-hex :
    (t : Text) (b : Bool) (n : ℕ) (h : Text)
    → match_raw t ≡ some (b, n, h)
    → (length h ≡ 64) × (all is_hex h ≡ true)
unfolding match_raw
match_raw-hex [] b n h e = cc
match_raw-hex (c ∷ s) b n h e =
    ground (arith, raw_groups-hex (span_digits s) n h, raw_groups-hex (span_digits (c ∷ s)) n h)

with_workchain-IsCanonical :
    (b : Bool) (n : ℕ) (h a : Text)
    → IsHash h
    → with_hash h (workchain_text b n) ≡ some a
    → IsCanonical a
with_workchain-IsCanonical b n h a k e = elim cases [
  | inl q ↦ rw q (basechain h k)
  | inr q ↦ rw q (masterchain h k)
]
  where
    cases : (a ≡ b'0' ∷ b':' ∷ h) ⊎ (a ≡ b'-' ∷ b'1' ∷ b':' ∷ h)
    cases = ground arith

normalize_trimmed-IsCanonical :
    (t : Text) (o : Option (Bool × ℕ × Text)) (a : Text)
    → match_raw t ≡ o
    → normalize_trimmed t o ≡ some a
    → IsCanonical a
unfolding normalize_trimmed
normalize_trimmed-IsCanonical t (some (b, n, h)) a m e =
    let (w, u) = match_raw-hex t b n h m in
    with_workchain-IsCanonical b n (map lower h) a
      (record { width = length-lower h ∙ w; units = all-lower h u }) e
normalize_trimmed-IsCanonical t none a m e =
    from_friendly-IsCanonical (decode_base64 (map standard_unit t)) a (ground arith)

-- Whatever `normalizeTonAddress` returns is canonical: the workchain 0 or -1, a colon and 64
-- lower-case hexadecimal digits. Normalizing it again returns it unchanged.
pub normalize_ton_address-IsCanonical :
    (address : Text) {a : Text}
    → normalize_ton_address address ≡ some a
    → IsCanonical a × (normalize_ton_address a ≡ some a)
normalize_ton_address-IsCanonical address {a} e = (shape, canonical_fixed shape)
  where
    shape : IsCanonical a
    shape =
        normalize_trimmed-IsCanonical (trim address) (match_raw (trim address)) a refl
          (unfold normalize_ton_address in ground arith)
