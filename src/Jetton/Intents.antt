-- ===== src/Jetton/Intents.antt =====
-- services/user-service/src/modules/deal/ton-jetton-action-intent.service.ts: who may ask for which action on
-- a Jetton escrow, and when. The two rows that `lockedBy` reads are arguments of `create_locked`.
use telegram_garant_contract.Common.{
  ℕ, ◌+◌, Bool, true, false, not, ◌&&◌, ◌||◌, List, [], ◌∷◌, ◌++◌, Text, Option, none, some, ltb,
  leb, ◌==◌, if◌then◌else◌, any, text_eq, Result, ok, err, throw_if, ◌>>=◌, ◌>>◌,
}
use telegram_garant_contract.Breaker.{BreakerError, Scope, Operation, Tables, assert_allowed}
use telegram_garant_contract.Ledger.{LedgerError, big_int}
use telegram_garant_contract.Jetton.{
  TonJettonAction, TonJettonEscrowWatchStatus, watch_eq, TonJettonEscrowPreparation,
  TonJettonActionIntent, TonJettonEscrowWatch,
}
use telegram_garant_contract.Jetton.Postings.{is_option_text}

pub record TonJettonActionIntentInput : Type 0 where
  pub preparation_id : Text
  pub action : TonJettonAction
  pub requester_id : Text
  pub sender_address : Text
  pub payload : Text
  pub now_seconds : ℕ

pub record ParsedActionBody : Type 0 where
  pub query_id : Text
  pub payload_hash : Text
  pub settlement_id : Option Text
  pub buyer_award_atomic : Option Text
  pub seller_award_atomic : Option Text

pub data IntentError : Type 0 where
  wrong_state unauthorized delivery_deadline_passed dispute_deadline_passed
        confirmation_deadline_passed delivery_deadline_not_reached confirmation_deadline_not_reached
        resolution_conservation_failed query_id_conflict not_an_integer :
      IntentError
  circuit_open : BreakerError → IntentError

abbrev pub require_any_state :
    TonJettonEscrowWatchStatus → List TonJettonEscrowWatchStatus → Result IntentError (Unit {0})
require_any_state w expected =
    throw_if (not (any (λ s. watch_eq s w) expected)) IntentError.wrong_state

abbrev pub require_state :
    TonJettonEscrowWatchStatus → TonJettonEscrowWatchStatus → Result IntentError (Unit {0})
require_state w expected = throw_if (not (watch_eq expected w)) IntentError.wrong_state

abbrev pub require_any_sender : Text → List Text → Result IntentError (Unit {0})
require_any_sender actual expected =
    throw_if (not (any (λ s. text_eq s actual) expected)) IntentError.unauthorized

abbrev pub require_sender : Text → Text → Result IntentError (Unit {0})
require_sender actual expected = throw_if (not (text_eq expected actual)) IntentError.unauthorized

abbrev pub integer_or_throw : Result LedgerError ℕ → Result IntentError ℕ
integer_or_throw (ok n) = ok n
integer_or_throw (err e) = err IntentError.not_an_integer

-- `BigInt(text)`, and `BigInt(text!)` of a text that may be null.
abbrev pub integer : Text → Result IntentError ℕ
integer t = integer_or_throw (big_int t)

abbrev pub award : Option Text → Result IntentError ℕ
award none = err IntentError.not_an_integer
award (some t) = integer t

abbrev pub parties : TonJettonEscrowPreparation → List Text
parties p = p.buyer_address ∷ p.seller_address ∷ []

-- The conservation of a resolution.
unfoldable pub check_resolution :
    ParsedActionBody → TonJettonEscrowPreparation → Result IntentError (Unit {0})
check_resolution b p = do
  buyer ← award b.buyer_award_atomic
  seller ← award b.seller_award_atomic
  fee ← integer p.platform_fee_atomic
  total ← integer p.buyer_total_atomic
  throw_if (not (buyer + seller + fee == total)) IntentError.resolution_conservation_failed

-- The cases of `assertActionAllowed`, with the two deadlines read.
unfoldable pub allowed_action :
    TonJettonAction
    → TonJettonActionIntentInput
    → ParsedActionBody
    → TonJettonEscrowPreparation
    → TonJettonEscrowWatchStatus
    → ℕ
    → ℕ
    → Result IntentError TonJettonEscrowWatchStatus
allowed_action TonJettonAction.mark_delivered i b p w delivery confirmation = do
  require_state w TonJettonEscrowWatchStatus.funded
  require_sender i.sender_address p.seller_address
  throw_if (ltb delivery i.now_seconds) IntentError.delivery_deadline_passed
  ok TonJettonEscrowWatchStatus.delivered
allowed_action TonJettonAction.open_dispute i b p w delivery confirmation = do
  require_any_state w
      (TonJettonEscrowWatchStatus.funded ∷ TonJettonEscrowWatchStatus.delivered ∷ [])
  require_any_sender i.sender_address (parties p)
  throw_if
      (watch_eq w TonJettonEscrowWatchStatus.funded && ltb delivery i.now_seconds
        || watch_eq w TonJettonEscrowWatchStatus.delivered && ltb confirmation i.now_seconds)
      IntentError.dispute_deadline_passed
  ok TonJettonEscrowWatchStatus.disputed
allowed_action TonJettonAction.release i b p w delivery confirmation = do
  require_state w TonJettonEscrowWatchStatus.delivered
  require_sender i.sender_address p.buyer_address
  throw_if (ltb confirmation i.now_seconds) IntentError.confirmation_deadline_passed
  ok TonJettonEscrowWatchStatus.settlement_pending
allowed_action TonJettonAction.refund_buyer i b p w delivery confirmation = do
  require_any_state w
      (TonJettonEscrowWatchStatus.funded ∷ TonJettonEscrowWatchStatus.delivered ∷ [])
  require_sender i.sender_address p.seller_address
  ok TonJettonEscrowWatchStatus.settlement_pending
allowed_action TonJettonAction.refund_after_seller_timeout i b p w delivery confirmation = do
  require_state w TonJettonEscrowWatchStatus.funded
  require_any_sender i.sender_address (parties p)
  throw_if (leb i.now_seconds delivery) IntentError.delivery_deadline_not_reached
  ok TonJettonEscrowWatchStatus.settlement_pending
allowed_action TonJettonAction.release_after_buyer_timeout i b p w delivery confirmation = do
  require_state w TonJettonEscrowWatchStatus.delivered
  require_any_sender i.sender_address (parties p)
  throw_if (leb i.now_seconds confirmation) IntentError.confirmation_deadline_not_reached
  ok TonJettonEscrowWatchStatus.settlement_pending
allowed_action TonJettonAction.resolve i b p w delivery confirmation = do
  require_state w TonJettonEscrowWatchStatus.disputed
  require_sender i.sender_address p.arbitrator_address
  check_resolution b p
  ok TonJettonEscrowWatchStatus.settlement_pending
allowed_action TonJettonAction.reconcile_attempt i b p w delivery confirmation = do
  require_state w TonJettonEscrowWatchStatus.settlement_pending
  require_sender i.sender_address p.reconciliation_address
  ok TonJettonEscrowWatchStatus.recovery_required
allowed_action TonJettonAction.retry_failed_legs i b p w delivery confirmation = do
  require_state w TonJettonEscrowWatchStatus.recovery_required
  require_sender i.sender_address p.reconciliation_address
  ok TonJettonEscrowWatchStatus.settlement_pending
allowed_action TonJettonAction.finalize_settlement i b p w delivery confirmation = do
  require_state w TonJettonEscrowWatchStatus.settlement_pending
  require_sender i.sender_address p.reconciliation_address
  ok TonJettonEscrowWatchStatus.settled_finalized

unfoldable pub assert_action_allowed :
    TonJettonActionIntentInput
    → ParsedActionBody
    → TonJettonEscrowPreparation
    → TonJettonEscrowWatch
    → Result IntentError TonJettonEscrowWatchStatus
assert_action_allowed i b p w = do
  delivery ← integer p.delivery_deadline
  confirmation ← integer p.confirmation_deadline
  allowed_action i.action i b p w.status delivery confirmation

abbrev pub moves_funds : TonJettonAction → Bool
moves_funds TonJettonAction.release = true
moves_funds TonJettonAction.refund_buyer = true
moves_funds TonJettonAction.refund_after_seller_timeout = true
moves_funds TonJettonAction.release_after_buyer_timeout = true
moves_funds TonJettonAction.resolve = true
moves_funds TonJettonAction.retry_failed_legs = true
moves_funds _ = false

abbrev pub or_intent_circuit : Result BreakerError (Unit {0}) → Result IntentError (Unit {0})
or_intent_circuit (ok u) = ok u
or_intent_circuit (err e) = err (IntentError.circuit_open e)

unfoldable pub check_egress : Bool → Tables → Result IntentError (Unit {0})
check_egress false t = ok tt
check_egress true t = or_intent_circuit (assert_allowed Scope.ton Operation.egress t)

-- The opcodes of the actions; equal actions are those with equal opcodes.
abbrev pub opcode : TonJettonAction → ℕ
opcode TonJettonAction.mark_delivered = 0x64656c76
opcode TonJettonAction.release = 0x72656c73
opcode TonJettonAction.open_dispute = 0x64737074
opcode TonJettonAction.refund_buyer = 0x72656664
opcode TonJettonAction.refund_after_seller_timeout = 0x73746d6f
opcode TonJettonAction.release_after_buyer_timeout = 0x62746d6f
opcode TonJettonAction.resolve = 0x72736c76
opcode TonJettonAction.reconcile_attempt = 0x72636e63
opcode TonJettonAction.retry_failed_legs = 0x72747279
opcode TonJettonAction.finalize_settlement = 0x666e6c7a

-- `findOne` by the preparation and the query id.
unfoldable pub find_intent : Text → Text → List TonJettonActionIntent → Option TonJettonActionIntent
find_intent preparation query [] = none
find_intent preparation query (i ∷ is) =
    let rest = find_intent preparation query is in
    if text_eq i.preparation_id preparation && text_eq i.query_id query then some i else rest

-- No property of the candidate differs; it has no id.
unfoldable pub same_intent : TonJettonActionIntent → TonJettonActionIntent → Bool
same_intent i j =
    text_eq i.preparation_id j.preparation_id
    && text_eq i.deal_id j.deal_id
    && opcode i.action == opcode j.action
    && watch_eq i.expected_from_status j.expected_from_status
    && watch_eq i.expected_to_status j.expected_to_status
    && text_eq i.requester_id j.requester_id
    && text_eq i.sender_address j.sender_address
    && text_eq i.query_id j.query_id
    && text_eq i.payload j.payload
    && text_eq i.payload_hash j.payload_hash
    && is_option_text i.settlement_id j.settlement_id
    && is_option_text i.buyer_award_atomic j.buyer_award_atomic
    && is_option_text i.seller_award_atomic j.seller_award_atomic

-- The candidate; the database gives its id.
abbrev pub candidate :
    Text
    → TonJettonActionIntentInput
    → ParsedActionBody
    → TonJettonEscrowPreparation
    → TonJettonEscrowWatch
    → TonJettonEscrowWatchStatus
    → TonJettonActionIntent
candidate id i b p w to = record {
  id = id;
  preparation_id = p.id;
  deal_id = p.deal_id;
  action = i.action;
  expected_from_status = w.status;
  expected_to_status = to;
  requester_id = i.requester_id;
  sender_address = i.sender_address;
  query_id = b.query_id;
  payload = i.payload;
  payload_hash = b.payload_hash;
  settlement_id = b.settlement_id;
  buyer_award_atomic = b.buyer_award_atomic;
  seller_award_atomic = b.seller_award_atomic;
}

pub data IntentResult : Type 0 where
  created replayed : TonJettonActionIntent → IntentResult

abbrev pub create_found :
    TonJettonActionIntent
    → List TonJettonActionIntent
    → Option TonJettonActionIntent
    → Result IntentError (IntentResult × List TonJettonActionIntent)
create_found new intents none = ok (IntentResult.created new, intents ++ (new ∷ []))
create_found new intents (some existing) =
    throw_if (not (same_intent existing new)) IntentError.query_id_conflict
    >> ok (IntentResult.replayed existing, intents)

unfoldable pub create_locked :
    Text
    → Tables
    → TonJettonActionIntentInput
    → ParsedActionBody
    → TonJettonEscrowPreparation
    → TonJettonEscrowWatch
    → List TonJettonActionIntent
    → Result IntentError (IntentResult × List TonJettonActionIntent)
create_locked id t i b p w intents = do
  to ← assert_action_allowed i b p w
  check_egress (moves_funds i.action) t
  create_found (candidate id i b p w to) intents (find_intent p.id b.query_id intents)
