-- ===== src/Native.antt =====
-- The native TON escrow on the service's side: services/user-service/src/modules/deal/ton-native-lifecycle.ts
-- and the data of ton-center-v3.service.ts, ton-native-lifecycle-validator.ts and their entities. The
-- amounts, query ids and deadlines that this code has stored as decimal texts are numbers here.
pub mod Cells
pub mod Payload
pub mod RoundTrip
pub mod Validate
pub mod Funding
pub mod Funded
pub mod Executed
pub mod Intended
pub mod Accepted
pub mod Payouts
pub mod Matching
pub mod Books
use telegram_garant_contract.Common.{
  ℕ, zero, suc, ◌+◌, ◌*◌, ◌-◌, ◌/◌, ◌%◌, Bool, true, false, not, ◌&&◌, ◌||◌, List, [], ◌∷◌, map,
  Text, codes, Option, none, some, ltb, leb, ◌==◌, if◌then◌else◌, length, all, text_eq,
}
use telegram_garant_contract.Address.{
  is_hex, lower, friendly_unit, standard_unit, sextet, to_hex, normalize_ton_address,
}

pub data TonNativeLifecycleAction : Type 0 where
  mark_delivered release open_dispute refund_buyer refund_after_seller_timeout
        release_after_buyer_timeout resolve :
      TonNativeLifecycleAction

abbrev pub all_actions : List TonNativeLifecycleAction
all_actions =
    TonNativeLifecycleAction.mark_delivered ∷ TonNativeLifecycleAction.release
    ∷ TonNativeLifecycleAction.open_dispute ∷ TonNativeLifecycleAction.refund_buyer
    ∷ TonNativeLifecycleAction.refund_after_seller_timeout
    ∷ TonNativeLifecycleAction.release_after_buyer_timeout ∷ TonNativeLifecycleAction.resolve ∷ []

-- TON_NATIVE_LIFECYCLE_OPCODE
abbrev pub lifecycle_opcode : TonNativeLifecycleAction → ℕ
lifecycle_opcode TonNativeLifecycleAction.mark_delivered = 0x64656c76
lifecycle_opcode TonNativeLifecycleAction.release = 0x72656c73
lifecycle_opcode TonNativeLifecycleAction.open_dispute = 0x64737074
lifecycle_opcode TonNativeLifecycleAction.refund_buyer = 0x72656664
lifecycle_opcode TonNativeLifecycleAction.refund_after_seller_timeout = 0x73746d6f
lifecycle_opcode TonNativeLifecycleAction.release_after_buyer_timeout = 0x62746d6f
lifecycle_opcode TonNativeLifecycleAction.resolve = 0x72736c76

unfoldable pub action_eq : TonNativeLifecycleAction → TonNativeLifecycleAction → Bool
action_eq a b = lifecycle_opcode a == lifecycle_opcode b

abbrev pub is_resolve : TonNativeLifecycleAction → Bool
is_resolve TonNativeLifecycleAction.resolve = true
is_resolve _ = false

pub record TonCenterMessage : Type 0 where
  pub bounced : Option Bool
  pub destination : Option Text
  pub hash : Option Text
  pub source : Option Text
  pub value : Option Text
  pub body : Option Text

pub record ComputePhase : Type 0 where
  pub skipped : Option Bool
  pub success : Option Bool
  pub exit_code : Option ℕ

pub record ActionPhase : Type 0 where
  pub success : Option Bool
  pub valid : Option Bool
  pub result_code : Option ℕ

pub record Description : Type 0 where
  pub aborted : Option Bool
  pub compute_ph : Option ComputePhase
  pub action : Option ActionPhase

pub record AccountState : Type 0 where
  pub account_status : Option Text
  pub code_hash : Option Text
  pub data_boc : Option Text
  pub hash : Option Text

pub record TonCenterTransaction : Type 0 where
  pub account : Option Text
  pub account_state_after : Option AccountState
  pub description : Option Description
  pub emulated : Option Bool
  pub end_status : Option Text
  pub hash : Option Text
  pub in_msg : Option TonCenterMessage
  pub out_msgs : Option (List TonCenterMessage)
  pub lt : Option Text
  pub mc_block_seqno : Option ℕ
  pub now : Option ℕ

pub record TonNativeEscrowPreparation : Type 0 where
  pub deal_id : Text
  pub code_hash : Text
  pub config_hash : Text
  pub escrow_address : Text
  pub buyer_address : Text
  pub seller_address : Text
  pub treasury_address : Text
  pub buyer_total_atomic : ℕ
  pub seller_payout_atomic : ℕ
  pub platform_fee_atomic : ℕ
  pub refund_to_buyer_atomic : ℕ
  pub refund_fee_atomic : ℕ
  pub request_amount_atomic : ℕ
  pub query_id : ℕ
  pub funding_deadline : ℕ
  pub delivery_deadline : ℕ
  pub confirmation_deadline : ℕ
  pub payload : Text

pub record TonNativeLifecycleIntent : Type 0 where
  pub action : TonNativeLifecycleAction
  pub expected_from_status : ℕ
  pub expected_to_status : ℕ
  pub sender_address : Text
  pub query_id : ℕ
  pub action_value_atomic : ℕ
  pub payload_hash : Text
  pub buyer_award_atomic : Option ℕ
  pub seller_award_atomic : Option ℕ

-- The reason codes of a rejection; `resolution_award_thrown` is the error of `requiredAward` where
-- nothing catches it, and `deal_uuid_thrown` that of `uuidToUint256`.
pub data Reason : Type 0 where
  account_mismatch invalid_transaction_lt missing_transaction_hash not_masterchain_finalized
        emulated_transaction transaction_aborted_or_unknown compute_failed action_failed
        contract_not_active missing_inbound_message bounced_message buyer_address_mismatch
        intent_sender_mismatch destination_mismatch invalid_message_value insufficient_message_value
        insufficient_action_value missing_message_body intent_payload_mismatch
        invalid_lifecycle_payload action_deadline_mismatch funding_deadline_mismatch
        invalid_message_body payload_mismatch fund_message_mismatch invalid_fund_message
        code_hash_mismatch post_state_not_active post_state_trailing_data post_state_status_mismatch
        post_state_not_funded funded_amount_mismatch post_state_query_id_mismatch
        config_hash_mismatch invalid_post_state payout_count_mismatch invalid_payout_message
        invalid_payout_body payout_mismatch resolution_award_thrown deal_uuid_thrown :
      Reason

-- What a validation that accepts returns, `evidence` aside.
pub record Validation : Type 0 where
  pub account_address : Text
  pub transaction_lt : Text
  pub transaction_hash : Text
  pub masterchain_seqno : ℕ
  pub transaction_time : Option ℕ
  pub message_hash : Option Text
  pub source_address : Text
  pub value_atomic : Text
  pub payload_hash : Text
  pub post_code_hash : Text
  pub post_config_hash : Text
  pub post_state_hash : Option Text
  pub post_data_hash : Text

-- `value ? normalizeTonAddress(value) : null`
abbrev pub normalize_address : Option Text → Option Text
normalize_address none = none
normalize_address (some []) = none
normalize_address (some (c ∷ s)) = normalize_ton_address (c ∷ s)

abbrev pub is_text : Option Text → Text → Bool
is_text none t = false
is_text (some s) t = text_eq s t

abbrev pub is_true : Option Bool → Bool
is_true none = false
is_true (some b) = b

abbrev pub is_false : Option Bool → Bool
is_false none = false
is_false (some b) = not b

abbrev pub is_zero : Option ℕ → Bool
is_zero none = false
is_zero (some n) = n == 0

-- A text that is truthy.
abbrev pub truthy_text : Option Text → Option Text
truthy_text none = none
truthy_text (some []) = none
truthy_text (some (c ∷ s)) = some (c ∷ s)

-- The bytes of base64 characters in groups of four, with the shorter group at the end.
unfoldable pub decode_units : Text → List ℕ
decode_units (a ∷ b ∷ c ∷ d ∷ s) =
    (sextet a * 4 + sextet b / 16)
    ∷ (sextet b % 16 * 16 + sextet c / 4)
    ∷ (sextet c % 4 * 64 + sextet d)
    ∷ decode_units s
decode_units (a ∷ b ∷ c ∷ []) =
    (sextet a * 4 + sextet b / 16) ∷ (sextet b % 16 * 16 + sextet c / 4) ∷ []
decode_units (a ∷ b ∷ []) = (sextet a * 4 + sextet b / 16) ∷ []
decode_units _ = []

-- `Buffer.from(text, "base64")`, which passes over what is no character of base64.
unfoldable pub base64_units : Text → Text
base64_units [] = []
base64_units (c ∷ s) =
    let rest = base64_units s in if friendly_unit c then standard_unit c ∷ rest else rest

unfoldable pub normalize_hash : Option Text → Option Text
normalize_hash none = none
normalize_hash (some []) = none
normalize_hash (some (c ∷ s)) =
    let bytes = decode_units (base64_units (c ∷ s)) in
    if length (c ∷ s) == 64 && all is_hex (c ∷ s)
    then some (map lower (c ∷ s))
    else if length bytes == 32
    then some (to_hex bytes)
    else none

-- The value of a hexadecimal digit, and of a text of them.
abbrev pub hex_value : ℕ → ℕ
hex_value c = if ltb c b'A' then c - b'0' else if ltb c b'a' then c - b'A' + 10 else c - b'a' + 10

unfoldable pub hex_number : ℕ → Text → ℕ
hex_number n [] = n
hex_number n (c ∷ s) = hex_number (n * 16 + hex_value c) s

unfoldable pub without_dashes : Text → Text
without_dashes [] = []
without_dashes (c ∷ s) = let rest = without_dashes s in if c == b'-' then rest else c ∷ rest

-- `uuidToUint256`; none is the throw.
unfoldable pub uuid_to_uint256 : Text → Option ℕ
uuid_to_uint256 t =
    let hex = without_dashes t in
    if length hex == 32 && all is_hex hex then some (hex_number 0 hex) else none
