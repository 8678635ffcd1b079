-- ===== src/Native/Funding.antt =====
-- `validateTonNativeFundingTransaction` of services/user-service/src/modules/deal/ton-center-v3.service.ts.
use telegram_garant_contract.Common.{
  ℕ, ◌%◌, Bool, false, not, ◌&&◌, ◌||◌, map, Text, codes, Option, none, some, ltb, leb, ◌==◌,
  if◌then◌else◌, length, all, text_eq, Result, ok, throw_if, or_throw, ◌>>=◌, ◌>>◌,
}
use telegram_garant_contract.Decimal.{value}
use telegram_garant_contract.Address.{is_hex, standard_unit}
use telegram_garant_contract.Native.{
  AccountState, TonCenterMessage, TonCenterTransaction, TonNativeEscrowPreparation, Reason,
  Validation, normalize_address, is_text, is_true, truthy_text, normalize_hash,
}
use telegram_garant_contract.Native.Cells.{Cells}
use telegram_garant_contract.Native.Payload.{single_root}
use telegram_garant_contract.Native.Validate.{check_execution, message_value, PostState, post_state}

-- This module's `parseSingleRootBoc`: a hexadecimal text of an even length, or base64.
unfoldable pub any_boc_cell : (c : Cells) → Option Text → Option c.Cell
any_boc_cell c t = elim (truthy_text t) [
  | none ↦ none
  | some u ↦
      if all is_hex u && length u % 2 == 0
      then single_root (c.from_hex_boc u)
      else single_root (c.from_boc (map standard_unit u))
]

abbrev pub ton_native_fund_opcode : ℕ
ton_native_fund_opcode = 0x66756e64

abbrev pub within_deadline : Option ℕ → ℕ → Bool
within_deadline none d = false
within_deadline (some now) d = leb now d

abbrev pub read_fund : {A : Type 0} → Option A → Result Reason A
read_fund o = or_throw o Reason.invalid_fund_message

unfoldable pub check_fund_body :
    (c : Cells) → c.Cell → TonNativeEscrowPreparation → Result Reason (Unit {0})
check_fund_body c body p = do
  opcode ← read_fund (c.load_uint 32 (c.begin_parse body))
  query ← read_fund (c.load_uint 64 opcode.1)
  throw_if
      (not (opcode.0 == ton_native_fund_opcode)
        || not (query.0 == p.query_id)
        || not (c.remaining_bits query.1 == 0 && c.remaining_refs query.1 == 0))
      Reason.fund_message_mismatch

unfoldable pub check_funded_state :
    (c : Cells) → AccountState → TonNativeEscrowPreparation → Result Reason PostState
check_funded_state c a p = do
  s ← post_state c (any_boc_cell c a.data_boc)
  throw_if (not (s.status == 1)) Reason.post_state_not_funded
  throw_if (not (s.funded_amount == p.buyer_total_atomic)) Reason.funded_amount_mismatch
  throw_if (not (s.last_query_id == p.query_id)) Reason.post_state_query_id_mismatch
  throw_if (not (text_eq s.config_hash p.config_hash)) Reason.config_hash_mismatch
  ok s

abbrev pub no_state : AccountState
no_state = record { account_status = none; code_hash = none; data_boc = none; hash = none }

-- `transaction.account_state_after?.` before a property.
abbrev pub or_no_state : Option AccountState → AccountState
or_no_state none = no_state
or_no_state (some a) = a

-- The tests on the inbound message, its value and its time.
unfoldable pub check_fund_message :
    TonCenterMessage → Option ℕ → TonNativeEscrowPreparation → Result Reason Text
check_fund_message inbound now p = do
  throw_if (is_true inbound.bounced) Reason.bounced_message
  throw_if (not (is_text (normalize_address inbound.source) p.buyer_address))
      Reason.buyer_address_mismatch
  throw_if (not (is_text (normalize_address inbound.destination) p.escrow_address))
      Reason.destination_mismatch
  sent ← message_value inbound
  throw_if (ltb (value sent) p.request_amount_atomic) Reason.insufficient_message_value
  throw_if (not (within_deadline now p.funding_deadline)) Reason.funding_deadline_mismatch
  ok sent

-- The body of the message, whose hash is that of the prepared payload.
unfoldable pub check_fund_payload :
    (c : Cells) → TonCenterMessage → TonNativeEscrowPreparation → Result Reason c.Cell
check_fund_payload c inbound p = do
  actual ← or_throw (any_boc_cell c inbound.body) Reason.invalid_message_body
  expected ← or_throw (any_boc_cell c (some p.payload)) Reason.invalid_message_body
  throw_if (not (text_eq (c.hash actual) (c.hash expected))) Reason.payload_mismatch
  check_fund_body c actual p
  ok actual

-- The contract behind the transaction.
unfoldable pub check_fund_contract :
    (c : Cells) → AccountState → TonNativeEscrowPreparation → Result Reason PostState
check_fund_contract c a p = do
  throw_if (not (is_text (normalize_hash a.code_hash) p.code_hash)) Reason.code_hash_mismatch
  throw_if (not (is_text a.account_status (codes "active"))) Reason.post_state_not_active
  check_funded_state c a p

unfoldable pub validate_funding :
    (c : Cells) → TonCenterTransaction → TonNativeEscrowPreparation → Result Reason Validation
validate_funding c tx p = do
  id ← check_execution tx p
  throw_if (not (is_text tx.end_status (codes "active"))) Reason.contract_not_active
  inbound ← or_throw tx.in_msg Reason.missing_inbound_message
  sent ← check_fund_message inbound tx.now p
  actual ← check_fund_payload c inbound p
  s ← check_fund_contract c (or_no_state tx.account_state_after) p
  ok (record {
    account_address = id.account;
    transaction_lt = id.lt;
    transaction_hash = id.hash;
    masterchain_seqno = id.seqno;
    transaction_time = tx.now;
    message_hash = inbound.hash;
    source_address = p.buyer_address;
    value_atomic = sent;
    payload_hash = c.hash actual;
    post_code_hash = p.code_hash;
    post_config_hash = s.config_hash;
    post_state_hash = normalize_hash (or_no_state tx.account_state_after).hash;
    post_data_hash = s.data_hash;
  })
