-- ===== src/Address.antt =====
-- services/user-service/src/modules/escrow/adapters/ton-address.ts: `normalizeTonAddress`, with the
-- parts of Node's `Buffer` that it calls (base64, hexadecimal, big-endian reads).
pub mod Canonical
use Prim.Native.Nat.{bit_xor}
use telegram_garant_contract.Common.{
  ℕ, zero, suc, ◌+◌, ◌-◌, ◌*◌, ◌/◌, ◌%◌, Bool, true, false, not, ◌&&◌, ◌||◌, List, [], ◌∷◌, ◌++◌,
  map, Text, codes, Option, none, some, ltb, leb, ◌==◌, if◌then◌else◌, length, all, trim, take,
}
use telegram_garant_contract.Decimal.{value}
use telegram_garant_contract.Money.{span_digits}

abbrev pub is_lower_hex : ℕ → Bool
is_lower_hex c = leb b'0' c && leb c b'9' || leb b'a' c && leb c b'f'

abbrev pub is_hex : ℕ → Bool
is_hex c = is_lower_hex c || leb b'A' c && leb c b'F'

-- `toLowerCase` of a text of hexadecimal digits.
abbrev pub lower : ℕ → ℕ
lower c = if leb b'A' c && leb c b'Z' then c + 32 else c

abbrev pub friendly_unit : ℕ → Bool
friendly_unit c =
    leb b'A' c && leb c b'Z'
    || leb b'a' c && leb c b'z'
    || leb b'0' c && leb c b'9'
    || c == b'+'
    || c == b'/'
    || c == b'_'
    || c == b'-'

-- `.replace(/-/g, "+").replace(/_/g, "/")`
abbrev pub standard_unit : ℕ → ℕ
standard_unit c = if c == b'-' then b'+' else if c == b'_' then b'/' else c

-- The six bits that a character of base64 stands for.
unfoldable pub sextet : ℕ → ℕ
sextet c =
    if leb b'A' c && leb c b'Z'
    then c - b'A'
    else if leb b'a' c && leb c b'z'
    then c - b'a' + 26
    else if leb b'0' c && leb c b'9'
    then c - b'0' + 52
    else if c == b'+'
    then 62
    else 63

-- `Buffer.from(text, "base64")` of whole groups of four characters.
unfoldable pub decode_base64 : Text → List ℕ
unfolding sextet
decode_base64 (a ∷ b ∷ c ∷ d ∷ s) =
    (sextet a * 4 + sextet b / 16)
    ∷ (sextet b % 16 * 16 + sextet c / 4)
    ∷ (sextet c % 4 * 64 + sextet d)
    ∷ decode_base64 s
decode_base64 _ = []

-- One round of the inner loop of `crc16Xmodem`.
abbrev pub crc_bit : ℕ → ℕ
crc_bit crc = (if leb 0x8000 crc then bit_xor (crc * 2) 0x1021 else crc * 2) % 0x10000

abbrev pub crc_byte : ℕ → ℕ
crc_byte crc = crc_bit (crc_bit (crc_bit (crc_bit (crc_bit (crc_bit (crc_bit (crc_bit crc)))))))

unfoldable pub crc16_from : ℕ → List ℕ → ℕ
crc16_from crc [] = crc
crc16_from crc (b ∷ bs) = crc16_from (crc_byte (bit_xor crc (b * 256))) bs

unfoldable pub crc16_xmodem : List ℕ → ℕ
unfolding crc16_from
crc16_xmodem bs = crc16_from 0 bs

abbrev pub hex_digit : ℕ → ℕ
hex_digit n = if ltb (n % 16) 10 then b'0' + n % 16 else b'a' + (n % 16 - 10)

-- `bytes.toString("hex")`
unfoldable pub to_hex : List ℕ → Text
to_hex [] = []
to_hex (b ∷ bs) = hex_digit (b / 16) ∷ hex_digit b ∷ to_hex bs

abbrev pub drop : ℕ → List ℕ → List ℕ
drop zero xs = xs
drop (suc n) [] = []
drop (suc n) (x ∷ xs) = drop n xs

-- `bytes[i]`, zero behind the end, where the code does not read.
abbrev pub byte_at : List ℕ → ℕ → ℕ
byte_at [] i = 0
byte_at (b ∷ bs) zero = b
byte_at (b ∷ bs) (suc i) = byte_at bs i

-- The printed workchains that are admitted: `parseInt` of "-0" is printed as 0.
abbrev pub workchain_text : Bool → ℕ → Option Text
workchain_text negative n =
    if n == 0 then some (codes "0") else if negative && n == 1 then some (codes "-1") else none

-- What follows the digits of RAW_TON_ADDRESS: a colon and 64 hexadecimal digits.
unfoldable pub hash_part : Text → Option Text
hash_part [] = none
hash_part (c ∷ h) = if c == b':' && length h == 64 && all is_hex h then some h else none

-- `RAW_TON_ADDRESS.exec(text)` behind the sign: the value of the workchain's digits and the hash.
abbrev pub raw_groups : Text × Text → Option (ℕ × Text)
raw_groups ([], rest) = none
raw_groups (d ∷ ds, rest) = elim (hash_part rest) [
  | none ↦ none
  | some h ↦ some (value (d ∷ ds), h)
]

unfoldable pub match_raw : Text → Option (Bool × ℕ × Text)
match_raw [] = none
match_raw (c ∷ s) =
    if c == b'-'
    then (elim (raw_groups (span_digits s)) [ none ↦ none | some (n, h) ↦ some (true, n, h) ])
    else (elim (raw_groups (span_digits (c ∷ s))) [
      | none ↦ none
      | some (n, h) ↦ some (false, n, h)
    ])

-- The result `${workchain}:${hash}`.
abbrev pub with_hash : Text → Option Text → Option Text
with_hash h none = none
with_hash h (some w) = some (w ++ (b':' ∷ h))

unfoldable pub from_friendly : List ℕ → Option Text
from_friendly bytes =
    let tag = byte_at bytes 0 % 128 in
    let workchain = byte_at bytes 1 in
    let hash = to_hex (take 32 (drop 2 bytes)) in
    if not (length bytes == 36)
    then none
    else if not (tag == 0x11 || tag == 0x51)
    then none
    else if not (workchain == 0 || workchain == 255)
    then none
    else if not (byte_at bytes 34 * 256 + byte_at bytes 35 == crc16_xmodem (take 34 bytes))
    then none
    else if workchain == 0
    then with_hash hash (some (codes "0"))
    else with_hash hash (some (codes "-1"))

abbrev pub is_friendly : Text → Bool
is_friendly t = length t == 48 && all friendly_unit t

-- The body behind the trim: the raw form first, then the friendly one.
unfoldable pub normalize_trimmed : Text → Option (Bool × ℕ × Text) → Option Text
normalize_trimmed t (some (negative, n, h)) = with_hash (map lower h) (workchain_text negative n)
normalize_trimmed t none =
    if is_friendly t then from_friendly (decode_base64 (map standard_unit t)) else none

abbrev pub is_empty : Text → Bool
is_empty [] = true
is_empty (c ∷ s) = false

unfoldable pub normalize_ton_address : Text → Option Text
normalize_ton_address address =
    let t = trim address in if is_empty t then none else normalize_trimmed t (match_raw t)
