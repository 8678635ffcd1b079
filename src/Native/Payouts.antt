-- ===== src/Native/Payouts.antt =====
-- `validatePayouts` of services/user-service/src/modules/deal/ton-native-lifecycle-validator.ts: the
-- outgoing messages of a transaction are the payouts that the action asks for.
use telegram_garant_contract.Common.{
  ℕ, Bool, not, ◌&&◌, ◌||◌, List, [], ◌∷◌, map, Text, Option, none, some, ◌==◌, if◌then◌else◌,
  length, text_eq, Result, ok, throw_if, or_throw, ◌>>=◌, ◌>>◌,
}
use telegram_garant_contract.Decimal.{is_digits, value}
use telegram_garant_contract.Address.{standard_unit}
use telegram_garant_contract.Native.{
  TonNativeLifecycleAction, TonCenterMessage, TonNativeEscrowPreparation, TonNativeLifecycleIntent,
  Reason, normalize_address, is_text, is_true, truthy_text, uuid_to_uint256,
}
use telegram_garant_contract.Native.Cells.{Cells}
use telegram_garant_contract.Native.Payload.{single_root}

pub record Payout : Type 0 where
  pub destination : Text
  pub value : ℕ
  pub kind : ℕ

abbrev pub payout_seller : ℕ
payout_seller = 1

abbrev pub payout_buyer : ℕ
payout_buyer = 2

abbrev pub payout_treasury : ℕ
payout_treasury = 3

abbrev pub payout_notification_opcode : ℕ
payout_notification_opcode = 0x7061796f

abbrev pub treasury_payout : TonNativeEscrowPreparation → ℕ → Payout
treasury_payout p n = record { destination = p.treasury_address; value = n; kind = payout_treasury }

abbrev pub seller_payout : TonNativeEscrowPreparation → ℕ → Payout
seller_payout p n = record { destination = p.seller_address; value = n; kind = payout_seller }

abbrev pub buyer_payout : TonNativeEscrowPreparation → ℕ → Payout
buyer_payout p n = record { destination = p.buyer_address; value = n; kind = payout_buyer }

abbrev pub release_payouts : TonNativeEscrowPreparation → List Payout
release_payouts p =
    seller_payout p p.seller_payout_atomic ∷ treasury_payout p p.platform_fee_atomic ∷ []

abbrev pub refund_payouts : TonNativeEscrowPreparation → List Payout
refund_payouts p =
    buyer_payout p p.refund_to_buyer_atomic ∷ treasury_payout p p.refund_fee_atomic ∷ []

abbrev pub resolution_payouts : TonNativeEscrowPreparation → ℕ → ℕ → List Payout
resolution_payouts p buyer seller =
    buyer_payout p buyer ∷ seller_payout p seller ∷ treasury_payout p p.platform_fee_atomic ∷ []

unfoldable pub expected_payouts :
    TonNativeLifecycleAction
    → TonNativeLifecycleIntent
    → TonNativeEscrowPreparation
    → Result Reason (List Payout)
expected_payouts TonNativeLifecycleAction.release i p = ok (release_payouts p)
expected_payouts TonNativeLifecycleAction.release_after_buyer_timeout i p = ok (release_payouts p)
expected_payouts TonNativeLifecycleAction.refund_buyer i p = ok (refund_payouts p)
expected_payouts TonNativeLifecycleAction.refund_after_seller_timeout i p = ok (refund_payouts p)
expected_payouts TonNativeLifecycleAction.resolve i p = do
  buyer ← or_throw i.buyer_award_atomic Reason.resolution_award_thrown
  seller ← or_throw i.seller_award_atomic Reason.resolution_award_thrown
  ok (resolution_payouts p buyer seller)
expected_payouts TonNativeLifecycleAction.mark_delivered i p = ok []
expected_payouts TonNativeLifecycleAction.open_dispute i p = ok []

-- `expected.filter((item) => item.value > 0n)`
unfoldable pub non_zero : List Payout → List Payout
non_zero [] = []
non_zero (e ∷ es) = let rest = non_zero es in if e.value == 0 then rest else e ∷ rest

pub record Notification : Type 0 where
  pub query_id : ℕ
  pub deal_id : ℕ
  pub kind : ℕ

abbrev pub boc_cell : (c : Cells) → Option Text → Option c.Cell
boc_cell c t = elim (truthy_text t) [
  | none ↦ none
  | some u ↦ single_root (c.from_boc (map standard_unit u))
]

abbrev pub read_uint : (c : Cells) → ℕ → c.Slice → Result Reason (ℕ × c.Slice)
read_uint c w s = or_throw (c.load_uint w s) Reason.invalid_payout_body

-- `parsePayoutNotification` under its catch.
unfoldable pub parse_notification : (c : Cells) → Option Text → Result Reason Notification
parse_notification c body = do
  cell ← or_throw (boc_cell c body) Reason.invalid_payout_body
  opcode ← read_uint c 32 (c.begin_parse cell)
  query ← read_uint c 64 opcode.1
  deal ← read_uint c 256 query.1
  kind ← read_uint c 8 deal.1
  throw_if
      (not (opcode.0 == payout_notification_opcode)
        || not (c.remaining_bits kind.1 == 0 && c.remaining_refs kind.1 == 0))
      Reason.invalid_payout_body
  ok (record { query_id = query.0; deal_id = deal.0; kind = kind.0 })

unfoldable pub payout_eq : Payout → Payout → Bool
payout_eq e f = text_eq e.destination f.destination && (e.value == f.value && e.kind == f.kind)

abbrev pub keep_first : Payout → Option (List Payout) → Option (List Payout)
keep_first f none = none
keep_first f (some rest) = some (f ∷ rest)

-- `findIndex` of an equal payout and `splice` of it.
unfoldable pub take_out : Payout → List Payout → Option (List Payout)
take_out e [] = none
take_out e (f ∷ fs) =
    let rest = take_out e fs in if payout_eq e f then some fs else keep_first f rest

-- The value of a message that is sound as a payout of the escrow.
unfoldable pub payout_value : TonNativeEscrowPreparation → TonCenterMessage → Result Reason ℕ
payout_value p m = do
  throw_if (not (is_text (normalize_address m.source) p.escrow_address))
      Reason.invalid_payout_message
  throw_if (is_true m.bounced) Reason.invalid_payout_message
  value_text ← or_throw m.value Reason.invalid_payout_message
  throw_if (not (is_digits value_text)) Reason.invalid_payout_message
  ok (value value_text)

-- The payout that a message makes: no destination equals none that is expected.
abbrev pub message_payout : Option Text → ℕ → ℕ → Option Payout
message_payout none value kind = none
message_payout (some d) value kind = some (record { destination = d; value = value; kind = kind })

abbrev pub take_out_of : List Payout → Option Payout → Option (List Payout)
take_out_of unmatched none = none
take_out_of unmatched (some e) = take_out e unmatched

-- One round of the loop; it returns what is still unmatched.
unfoldable pub match_message :
    (c : Cells)
    → TonNativeLifecycleIntent
    → TonNativeEscrowPreparation
    → TonCenterMessage
    → List Payout
    → Result Reason (List Payout)
match_message c i p m unmatched = do
  n ← payout_value p m
  notification ← parse_notification c m.body
  rest ←
      or_throw
        (take_out_of unmatched
          (message_payout (normalize_address m.destination) n notification.kind))
        Reason.payout_mismatch
  throw_if (not (notification.query_id == i.query_id)) Reason.payout_mismatch
  deal ← or_throw (uuid_to_uint256 p.deal_id) Reason.deal_uuid_thrown
  throw_if (not (notification.deal_id == deal)) Reason.payout_mismatch
  ok rest

unfoldable pub match_messages :
    (c : Cells)
    → TonNativeLifecycleIntent
    → TonNativeEscrowPreparation
    → List TonCenterMessage
    → List Payout
    → Result Reason (List Payout)
match_messages c i p [] unmatched = ok unmatched
match_messages c i p (m ∷ ms) unmatched = do
  rest ← match_message c i p m unmatched
  match_messages c i p ms rest

unfoldable pub validate_payouts :
    (c : Cells)
    → List TonCenterMessage
    → TonNativeLifecycleIntent
    → TonNativeEscrowPreparation
    → Result Reason (Unit {0})
validate_payouts c messages i p = do
  expected ← expected_payouts i.action i p
  throw_if (not (length messages == length (non_zero expected))) Reason.payout_count_mismatch
  rest ← match_messages c i p messages (non_zero expected)
  throw_if (not (length rest == 0)) Reason.payout_mismatch
