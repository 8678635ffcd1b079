-- ===== src/Native/Validate.antt =====
-- `validateTonNativeLifecycleTransaction` of
-- services/user-service/src/modules/deal/ton-native-lifecycle-validator.ts. A rejection is an error with
-- its reason code; the partial result that the code returns with it is left out.
use telegram_garant_contract.Common.{
  ℕ, Bool, true, false, not, ◌&&◌, List, [], Text, codes, Option, none, some, ltb, leb, ◌==◌,
  if◌then◌else◌, text_eq, Result, ok, err, throw_if, or_throw, ◌>>=◌, ◌>>◌,
}
use telegram_garant_contract.Decimal.{is_digits, value}
use telegram_garant_contract.Native.{
  TonNativeLifecycleAction, action_eq, is_resolve, TonCenterMessage, ComputePhase, ActionPhase,
  AccountState, TonCenterTransaction, TonNativeEscrowPreparation, TonNativeLifecycleIntent, Reason,
  Validation, normalize_address, is_text, is_true, is_false, is_zero, truthy_text, normalize_hash,
}
use telegram_garant_contract.Native.Cells.{Cells}
use telegram_garant_contract.Native.Payload.{PayloadError, Awards, LifecyclePayload, parse_payload}
use telegram_garant_contract.Native.Payouts.{boc_cell, validate_payouts}

abbrev pub compute_succeeded : Option ComputePhase → Bool
compute_succeeded none = false
compute_succeeded (some c) = not (is_true c.skipped) && (is_true c.success && is_zero c.exit_code)

abbrev pub action_succeeded : Option ActionPhase → Bool
action_succeeded none = true
action_succeeded (some a) = is_true a.success && (is_true a.valid && is_zero a.result_code)

-- The identity of the transaction.
pub record Identity : Type 0 where
  pub account : Text
  pub lt : Text
  pub hash : Text
  pub seqno : ℕ

-- The tests that both validators begin with, up to the action phase.
unfoldable pub check_execution :
    TonCenterTransaction → TonNativeEscrowPreparation → Result Reason Identity
check_execution tx p = do
  throw_if (not (is_text (normalize_address tx.account) p.escrow_address)) Reason.account_mismatch
  lt ← or_throw (truthy_text tx.lt) Reason.invalid_transaction_lt
  throw_if (not (is_digits lt)) Reason.invalid_transaction_lt
  hash ← or_throw (truthy_text tx.hash) Reason.missing_transaction_hash
  seqno ← or_throw tx.mc_block_seqno Reason.not_masterchain_finalized
  throw_if (seqno == 0) Reason.not_masterchain_finalized
  throw_if (is_true tx.emulated) Reason.emulated_transaction
  d ← or_throw tx.description Reason.transaction_aborted_or_unknown
  throw_if (not (is_false d.aborted)) Reason.transaction_aborted_or_unknown
  throw_if (not (compute_succeeded d.compute_ph)) Reason.compute_failed
  throw_if (not (action_succeeded d.action)) Reason.action_failed
  ok (record { account = p.escrow_address; lt = lt; hash = hash; seqno = seqno })

-- A value that is there and numeric.
unfoldable pub message_value : TonCenterMessage → Result Reason Text
message_value m = do
  t ← or_throw (truthy_text m.value) Reason.invalid_message_value
  throw_if (not (is_digits t)) Reason.invalid_message_value
  ok t

abbrev pub award_test : Option ℕ → ℕ → Result Reason Bool
award_test none n = err Reason.invalid_lifecycle_payload
award_test (some m) n = ok (n == m)

-- The awards of a resolution against the intent's; a missing award of the intent throws and is caught.
unfoldable pub match_awards : Option Awards → TonNativeLifecycleIntent → Result Reason (Unit {0})
match_awards none i = award_test i.buyer_award_atomic 0 >>= λ b. err Reason.intent_payload_mismatch
match_awards (some w) i = do
  buyer ← award_test i.buyer_award_atomic w.buyer_award
  throw_if (not buyer) Reason.intent_payload_mismatch
  seller ← award_test i.seller_award_atomic w.seller_award
  throw_if (not seller) Reason.intent_payload_mismatch

unfoldable pub match_intent : LifecyclePayload → TonNativeLifecycleIntent → Result Reason (Unit {0})
match_intent parsed i = do
  throw_if (not (action_eq parsed.action i.action)) Reason.intent_payload_mismatch
  throw_if (not (parsed.query_id == i.query_id)) Reason.intent_payload_mismatch
  throw_if (not (text_eq parsed.hash i.payload_hash)) Reason.intent_payload_mismatch
  if is_resolve i.action then match_awards parsed.awards i else ok tt

abbrev pub parsed_or_invalid : Result PayloadError LifecyclePayload → Result Reason LifecyclePayload
parsed_or_invalid (ok v) = ok v
parsed_or_invalid (err e) = err Reason.invalid_lifecycle_payload

abbrev pub dispute_deadline : TonNativeLifecycleIntent → TonNativeEscrowPreparation → ℕ
dispute_deadline i p =
    if i.expected_from_status == 1 then p.delivery_deadline else p.confirmation_deadline

abbrev pub timing_of :
    TonNativeLifecycleAction → TonNativeLifecycleIntent → ℕ → TonNativeEscrowPreparation → Bool
timing_of TonNativeLifecycleAction.mark_delivered i now p = leb now p.delivery_deadline
timing_of TonNativeLifecycleAction.release i now p = leb now p.confirmation_deadline
timing_of TonNativeLifecycleAction.open_dispute i now p = leb now (dispute_deadline i p)
timing_of TonNativeLifecycleAction.refund_after_seller_timeout i now p = ltb p.delivery_deadline now
timing_of TonNativeLifecycleAction.release_after_buyer_timeout i now p =
    ltb p.confirmation_deadline now
timing_of TonNativeLifecycleAction.refund_buyer i now p = true
timing_of TonNativeLifecycleAction.resolve i now p = true

unfoldable pub matches_committed_timing :
    TonNativeLifecycleIntent → Option ℕ → TonNativeEscrowPreparation → Bool
matches_committed_timing i none p = false
matches_committed_timing i (some now) p = timing_of i.action i now p

pub record PostState : Type 0 where
  pub status : ℕ
  pub funded_amount : ℕ
  pub last_query_id : ℕ
  pub config_hash : Text
  pub data_hash : Text

abbrev pub read_post : {A : Type 0} → Option A → Result Reason A
read_post o = or_throw o Reason.invalid_post_state

-- The contract's data behind the transaction.
unfoldable pub post_state : (c : Cells) → Option c.Cell → Result Reason PostState
post_state c boc = do
  data_cell ← read_post boc
  status ← read_post (c.load_uint 8 (c.begin_parse data_cell))
  funded ← read_post (c.load_coins status.1)
  query ← read_post (c.load_uint 64 funded.1)
  config ← read_post (c.load_ref query.1)
  throw_if (not (c.remaining_bits config.1 == 0 && c.remaining_refs config.1 == 0))
      Reason.post_state_trailing_data
  ok (record {
    status = status.0;
    funded_amount = funded.0;
    last_query_id = query.0;
    config_hash = c.hash config.0;
    data_hash = c.hash data_cell;
  })

unfoldable pub check_post_state :
    (c : Cells)
    → AccountState
    → TonNativeEscrowPreparation
    → TonNativeLifecycleIntent
    → Result Reason PostState
check_post_state c a p i = do
  s ← post_state c (boc_cell c a.data_boc)
  throw_if (not (s.status == i.expected_to_status)) Reason.post_state_status_mismatch
  throw_if (not (s.funded_amount == p.buyer_total_atomic)) Reason.funded_amount_mismatch
  throw_if (not (s.last_query_id == i.query_id)) Reason.post_state_query_id_mismatch
  throw_if (not (text_eq s.config_hash p.config_hash)) Reason.config_hash_mismatch
  ok s

abbrev pub or_empty : Option (List TonCenterMessage) → List TonCenterMessage
or_empty none = []
or_empty (some ms) = ms

-- The contract is active behind the transaction.
unfoldable pub check_active : TonCenterTransaction → Result Reason AccountState
check_active tx = do
  throw_if (not (is_text tx.end_status (codes "active"))) Reason.contract_not_active
  a ← or_throw tx.account_state_after Reason.contract_not_active
  throw_if (not (is_text a.account_status (codes "active"))) Reason.contract_not_active
  ok a

-- The tests on the inbound message and its value.
unfoldable pub check_inbound :
    TonCenterMessage → TonNativeEscrowPreparation → TonNativeLifecycleIntent → Result Reason Text
check_inbound inbound p i = do
  throw_if (is_true inbound.bounced) Reason.bounced_message
  throw_if (not (is_text (normalize_address inbound.source) i.sender_address))
      Reason.intent_sender_mismatch
  throw_if (not (is_text (normalize_address inbound.destination) p.escrow_address))
      Reason.destination_mismatch
  sent ← message_value inbound
  throw_if (ltb (value sent) i.action_value_atomic) Reason.insufficient_action_value
  ok sent

-- The payload of the inbound message, which is the intent's.
unfoldable pub read_intent :
    (c : Cells) → TonCenterMessage → TonNativeLifecycleIntent → Result Reason LifecyclePayload
read_intent c inbound i = do
  body ← or_throw (truthy_text inbound.body) Reason.missing_message_body
  parsed ← parsed_or_invalid (parse_payload c body)
  match_intent parsed i
  ok parsed

unfoldable pub validate_lifecycle :
    (c : Cells)
    → TonCenterTransaction
    → TonNativeEscrowPreparation
    → TonNativeLifecycleIntent
    → Result Reason Validation
validate_lifecycle c tx p i = do
  id ← check_execution tx p
  a ← check_active tx
  inbound ← or_throw tx.in_msg Reason.missing_inbound_message
  sent ← check_inbound inbound p i
  parsed ← read_intent c inbound i
  throw_if (not (matches_committed_timing i tx.now p)) Reason.action_deadline_mismatch
  throw_if (not (is_text (normalize_hash a.code_hash) p.code_hash)) Reason.code_hash_mismatch
  s ← check_post_state c a p i
  validate_payouts c (or_empty tx.out_msgs) i p
  ok (record {
    account_address = id.account;
    transaction_lt = id.lt;
    transaction_hash = id.hash;
    masterchain_seqno = id.seqno;
    transaction_time = tx.now;
    message_hash = inbound.hash;
    source_address = i.sender_address;
    value_atomic = sent;
    payload_hash = parsed.hash;
    post_code_hash = p.code_hash;
    post_config_hash = s.config_hash;
    post_state_hash = normalize_hash a.hash;
    post_data_hash = s.data_hash;
  })
