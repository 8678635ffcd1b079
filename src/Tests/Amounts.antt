-- ===== src/Tests/Amounts.antt =====
-- Tests of amounts and addresses, and the theorems about them at concrete data.
use telegram_garant_contract.Common.{trim, ◌≡◌, refl, some, ok, err, codes, arith, Text}
use telegram_garant_contract.Decimal.{value, to_text, pad_start}
use telegram_garant_contract.Money.{
  parse_usdt_to_wei, nano_to_decimal_ton, decimal_text, MoneyError, match_decimal, span_digits,
  scaled,
}
use telegram_garant_contract.Money.RoundTrip.{parse_usdt_to_wei-decimal_text}
use telegram_garant_contract.Address.{
  normalize_ton_address, normalize_trimmed, match_raw, hash_part, from_friendly, decode_base64,
  crc16_xmodem, to_hex,
}
use telegram_garant_contract.Address.Canonical.{IsCanonical, normalize_ton_address-IsCanonical}

-- Digits beyond the sixth behind the point are cut off, and a sign is refused.
parses : parse_usdt_to_wei (codes " 12.3456789 ") ≡ ok 12345678
unfolding parse_usdt_to_wei match_decimal scaled value trim
parses = refl

refuses : parse_usdt_to_wei (codes "-1") ≡ err MoneyError.invalid_amount
unfolding parse_usdt_to_wei match_decimal trim
refuses = refl

prints : nano_to_decimal_ton (codes "1500000000") ≡ ok (codes "1.5")
unfolding nano_to_decimal_ton value to_text pad_start
prints = refl

-- The friendly form of the zero address.
friendly :
    normalize_ton_address (codes "EQAAAAAAAAAAAAAAAAAAAAAAAAAAAAAAAAAAAAAAAAAAAM9c")
    ≡ some (codes "0:0000000000000000000000000000000000000000000000000000000000000000")
unfolding normalize_ton_address normalize_trimmed match_raw hash_part from_friendly decode_base64
    crc16_xmodem to_hex trim span_digits
friendly = refl

parse_usdt_to_wei-decimal_text_example : parse_usdt_to_wei (decimal_text 6 1500000) ≡ ok 1500000
parse_usdt_to_wei-decimal_text_example = parse_usdt_to_wei-decimal_text 1500000 (omega arith)

abbrev zero_account : Text
zero_account = codes "0:0000000000000000000000000000000000000000000000000000000000000000"

normalize_ton_address-IsCanonical_example :
    IsCanonical zero_account × (normalize_ton_address zero_account ≡ some zero_account)
normalize_ton_address-IsCanonical_example =
    normalize_ton_address-IsCanonical (codes "EQAAAAAAAAAAAAAAAAAAAAAAAAAAAAAAAAAAAAAAAAAAAM9c")
      friendly
