-- ===== src/Tests/Fundings.antt =====
-- The funding of a native TON escrow, on concrete data and the toy instance of cells.
use telegram_garant_contract.Common.{
  false, [], ◌∷◌, Text, codes, none, some, trim, text_eq, drop_spaces, is_space, ok, ◌≡◌, refl,
}
use telegram_garant_contract.Decimal.{is_digits, value, value_from}
use telegram_garant_contract.Money.{span_digits}
use telegram_garant_contract.Address.{
  hash_part, match_raw, normalize_trimmed, normalize_ton_address,
}
use telegram_garant_contract.Native.{
  TonCenterMessage, AccountState, TonCenterTransaction, TonNativeEscrowPreparation, Validation,
  base64_units, decode_units, normalize_hash,
}
use telegram_garant_contract.Native.Validate.{check_execution, message_value, post_state}
use telegram_garant_contract.Native.Executed.{IsExecuted}
use telegram_garant_contract.Native.Funding.{
  any_boc_cell, check_fund_body, check_funded_state, check_fund_message, check_fund_payload,
  check_fund_contract, validate_funding,
}
use telegram_garant_contract.Native.Funded.{
  IsPrepared, IsFunding, IsFunded, validate_funding-IsFunded,
}
use telegram_garant_contract.Tests.Natives.{
  load, toy, preparation, transaction, escrow, buyer, code,
}

abbrev fund_text : Text
fund_text = 32 ∷ 0x66756e64 ∷ 64 ∷ 3 ∷ []

abbrev prepared : TonNativeEscrowPreparation
prepared = record preparation { payload = fund_text }

abbrev message : TonCenterMessage
message = record {
  bounced = some false;
  destination = some escrow;
  hash = none;
  source = some buyer;
  value = some (codes "1100");
  body = some fund_text;
}

abbrev state : AccountState
state = record {
  account_status = some (codes "active");
  code_hash = some code;
  data_boc = some (8 ∷ 1 ∷ 0 ∷ 1000 ∷ 64 ∷ 3 ∷ 1 ∷ 9 ∷ []);
  hash = none;
}

abbrev funding : TonCenterTransaction
funding = record transaction {
  account_state_after = some state;
  in_msg = some message;
  out_msgs = none;
  now = some 90;
}

abbrev accepted : Validation
accepted = record {
  account_address = escrow;
  transaction_lt = codes "5";
  transaction_hash = codes "h";
  masterchain_seqno = 8;
  transaction_time = some 90;
  message_hash = none;
  source_address = buyer;
  value_atomic = codes "1100";
  payload_hash = fund_text;
  post_code_hash = code;
  post_config_hash = 9 ∷ [];
  post_state_hash = none;
  post_data_hash = 8 ∷ 1 ∷ 0 ∷ 1000 ∷ 64 ∷ 3 ∷ 1 ∷ 9 ∷ [];
}

validate_funding_test : validate_funding toy funding prepared ≡ ok accepted
unfolding validate_funding check_execution check_fund_message check_fund_payload check_fund_contract
    check_fund_body check_funded_state any_boc_cell message_value post_state load normalize_hash
    base64_units decode_units normalize_ton_address trim normalize_trimmed match_raw span_digits
    hash_part text_eq is_digits value value_from drop_spaces is_space
validate_funding_test = refl

validate_funding-IsFunded_example :
    (IsExecuted funding prepared × (some (codes "active") ≡ some (codes "active")))
    × ((m : TonCenterMessage) × (some message ≡ some m)
        × IsPrepared toy m prepared
        × ((sent : Text) × IsFunding m (some 90) prepared sent))
    × IsFunded toy state prepared
validate_funding-IsFunded_example =
    validate_funding-IsFunded toy funding prepared accepted validate_funding_test
