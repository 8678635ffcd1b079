-- ===== src/Tests/Jettons.antt =====
-- Tests of the Jetton application, and the theorems about it at concrete events.
use telegram_garant_contract.Common.{
  ℕ, true, false, [], ◌∷◌, Text, codes, Option, none, some, text_eq, ok, err, is_ok, ◌≡◌, refl,
  arith,
}
use telegram_garant_contract.Decimal.{
  is_canonical, is_digits, value, value_from, to_text, pad_start,
}
use telegram_garant_contract.Money.{span_digits, atomic_to_decimal, positive_atomic, decimal_text}
use telegram_garant_contract.Address.{hash_part, match_raw}
use telegram_garant_contract.Deal.{DealStatus, Deal, status_eq}
use telegram_garant_contract.Deal.Entity.{can_transition_to}
use telegram_garant_contract.Breaker.{
  Scope, CircuitState, Operation, Breaker, Tables, scope_eq, assert_allowed,
}
use telegram_garant_contract.Ledger.{big_int}
use telegram_garant_contract.Jetton.{
  TonJettonChainEventKind, TonJettonAction, TonJettonEscrowWatchStatus, TonJettonSettlementOutcome,
  TonJettonPayoutLeg, TonJettonChainEvent, TonJettonApplicationDirective,
  TonJettonEscrowPreparation, TonJettonActionIntent, TonJettonEscrowWatch, ApplyError, Business,
}
use telegram_garant_contract.Jetton.Postings.{
  column_text, to_seller, payout_entry, expected_payout, planned_payout, post_payout, post_expected,
  insert_ledger, find_entry, apply_ledger,
}
use telegram_garant_contract.Jetton.Shape.{is_raw_address, validate_movement_shape}
use telegram_garant_contract.Jetton.Apply.{
  check_bindings, load_and_validate_intent, check_circuit, deal_status_after, move_deal,
  consume_intent, find_consumption, watch_status_after, apply_locked,
}
use telegram_garant_contract.Jetton.Laws.{agrees, apply_locked-agrees}
use telegram_garant_contract.Jetton.Settled.{
  settled_from, settlement_finalized_from, apply_locked-closed,
}
use telegram_garant_contract.Jetton.Once.{apply_ledger_refused}
use telegram_garant_contract.Jetton.Paid.{IsPaid, apply_locked-IsPaid}

abbrev pub preparation : TonJettonEscrowPreparation
preparation = record {
  id = codes "p1";
  deal_id = codes "d1";
  buyer_address = codes "b";
  seller_address = codes "0:3333333333333333333333333333333333333333333333333333333333333333";
  arbitrator_address = codes "x";
  treasury_address = codes "t";
  reconciliation_address = codes "r";
  asset_code = codes "USDT";
  asset_decimals = 6;
  buyer_total_atomic = codes "5000000";
  seller_payout_atomic = codes "4950000";
  platform_fee_atomic = codes "50000";
  refund_to_buyer_atomic = codes "5000000";
  refund_fee_atomic = codes "0";
  delivery_deadline = codes "100";
  confirmation_deadline = codes "200";
}

abbrev pub event : TonJettonChainEventKind → Option Text → TonJettonChainEvent
event kind intent = record {
  id = codes "e1";
  preparation_id = codes "p1";
  action_intent_id = intent;
  event_kind = kind;
  network = codes "-3";
  account_address = codes "a";
  transaction_lt = codes "9";
  transaction_hash = codes "h";
  masterchain_seqno = 7;
}

abbrev paying : TonJettonChainEvent
paying = event TonJettonChainEventKind.payout_leg_reconciled none

abbrev seller_leg : TonJettonApplicationDirective
seller_leg = record {
  event_kind = TonJettonChainEventKind.payout_leg_reconciled;
  settlement_outcome = some TonJettonSettlementOutcome.release;
  payout_leg = some TonJettonPayoutLeg.seller;
  amount_atomic = some (codes "4950000");
  destination_address =
      some (codes "0:3333333333333333333333333333333333333333333333333333333333333333");
  verification_evidence_hash = codes "v";
}

abbrev finalized : TonJettonChainEvent
finalized = event TonJettonChainEventKind.settlement_finalized (some (codes "i1"))

abbrev pub final_directive : TonJettonSettlementOutcome → TonJettonApplicationDirective
final_directive o = record {
  event_kind = TonJettonChainEventKind.settlement_finalized;
  settlement_outcome = some o;
  payout_leg = none;
  amount_atomic = none;
  destination_address = none;
  verification_evidence_hash = codes "v";
}

abbrev pub intent : TonJettonActionIntent
intent = record {
  id = codes "i1";
  preparation_id = codes "p1";
  deal_id = codes "d1";
  action = TonJettonAction.release;
  expected_from_status = TonJettonEscrowWatchStatus.delivered;
  expected_to_status = TonJettonEscrowWatchStatus.settlement_pending;
  requester_id = codes "u1";
  sender_address = codes "b";
  query_id = codes "1";
  payload = codes "q";
  payload_hash = codes "h";
  settlement_id = some (codes "1");
  buyer_award_atomic = none;
  seller_award_atomic = none;
}

abbrev closed : Scope → Breaker
closed s = record {
  scope = s;
  state = CircuitState.closed;
  incident_kind = none;
  reason_code = none;
  asset_code = none;
  discrepancy_atomic = none;
  evidence_hash = none;
  tripped_at = none;
  revision = 0;
}

abbrev pub circuit : Tables
circuit = record { breakers = closed Scope.global ∷ closed Scope.ton ∷ []; audits = [] }

abbrev pub deal : DealStatus → Option ℕ → ℕ → Deal
deal s funded updated = record {
  id = codes "d1";
  status = s;
  buyer_id = codes "u1";
  seller_id = some (codes "u2");
  arbitrator_id = none;
  accepted_at = none;
  paid_at = none;
  completed_at = none;
  cancelled_at = none;
  disputed_at = none;
  funded_at = funded;
  updated_at = updated;
  cancel_reason = none;
  refund_reason = none;
}

abbrev pub watch : TonJettonEscrowWatchStatus → TonJettonEscrowWatch
watch s = record {
  preparation_id = codes "p1";
  deal_id = codes "d1";
  network = codes "-3";
  account_address = codes "a";
  status = s;
  consecutive_failures = 2;
  last_error = none;
  last_applied_at = none;
}

abbrev pub settling : DealStatus → Business
settling s = record {
  deal = deal s (some 5) 5;
  watch = watch TonJettonEscrowWatchStatus.settlement_pending;
  ledger = [];
  consumptions = [];
}

abbrev after_release : Business
after_release = record {
  deal = deal DealStatus.completed (some 5) 9;
  watch = record (watch TonJettonEscrowWatchStatus.settled_finalized) {
    consecutive_failures = 0;
    last_applied_at = some 9;
  };
  ledger = [];
  consumptions = record { intent_id = codes "i1"; event_id = codes "e1" } ∷ [];
}

release_test :
    apply_locked 9 circuit finalized preparation
      (final_directive TonJettonSettlementOutcome.release)
      (some intent)
      (settling DealStatus.pending_confirmation)
    ≡ ok after_release
unfolding apply_locked check_bindings load_and_validate_intent check_circuit apply_ledger
    deal_status_after move_deal consume_intent find_consumption watch_status_after text_eq
    can_transition_to status_eq
release_test = refl

-- A refund of a deal that was never delivered.
refund_test :
    apply_locked 9 circuit finalized preparation
      (final_directive TonJettonSettlementOutcome.refund)
      (some intent)
      (settling DealStatus.in_progress)
    ≡ err ApplyError.deal_transition_invalid
unfolding apply_locked check_bindings load_and_validate_intent check_circuit apply_ledger
    deal_status_after move_deal consume_intent find_consumption watch_status_after text_eq
    can_transition_to status_eq
refund_test = refl

abbrev after_payout : Business
after_payout = record {
  deal = deal DealStatus.pending_confirmation (some 5) 5;
  watch = record (watch TonJettonEscrowWatchStatus.settlement_pending) {
    consecutive_failures = 0;
    last_applied_at = some 9;
  };
  ledger =
      payout_entry paying preparation seller_leg (to_seller preparation (codes "4950000"))
        (codes "4.95")
      ∷ [];
  consumptions = [];
}

payout_test :
    apply_locked 9 circuit paying preparation seller_leg none
      (settling DealStatus.pending_confirmation)
    ≡ ok after_payout
unfolding apply_locked check_bindings load_and_validate_intent check_circuit assert_allowed scope_eq
    apply_ledger post_payout expected_payout planned_payout post_expected insert_ledger find_entry
    big_int atomic_to_decimal positive_atomic decimal_text is_canonical is_digits value value_from
    to_text pad_start deal_status_after move_deal consume_intent find_consumption watch_status_after
    text_eq can_transition_to status_eq
payout_test = refl

apply_locked-agrees_example :
    agrees TonJettonEscrowWatchStatus.settled_finalized DealStatus.completed ≡ true
apply_locked-agrees_example =
    apply_locked-agrees 9 circuit finalized preparation
      (final_directive TonJettonSettlementOutcome.release) (some intent)
      (settling DealStatus.pending_confirmation) after_release
      (unfold agrees in unfold status_eq in refl) release_test

settlement_finalized_from_example :
    DealStatus.pending_confirmation ≡ settled_from TonJettonSettlementOutcome.release
settlement_finalized_from_example =
    settlement_finalized_from 9 circuit finalized preparation
      (final_directive TonJettonSettlementOutcome.release) (some intent)
      (settling DealStatus.pending_confirmation) after_release TonJettonSettlementOutcome.release
      (unfold agrees in unfold status_eq in refl) refl refl release_test

apply_locked-closed_example :
    is_ok (
      apply_locked 10 circuit finalized preparation
        (final_directive TonJettonSettlementOutcome.release)
        (some intent)
        after_release)
    ≡ false
apply_locked-closed_example =
    apply_locked-closed 10 circuit finalized preparation
      (final_directive TonJettonSettlementOutcome.release) (some intent) after_release (omega arith)

shape_test : validate_movement_shape seller_leg ≡ ok tt
unfolding validate_movement_shape positive_atomic is_canonical is_raw_address match_raw span_digits
    hash_part value value_from
shape_test = refl

apply_locked-IsPaid_example :
    (assert_allowed Scope.ton Operation.egress circuit ≡ ok tt)
    × ((found : Option TonJettonActionIntent) × (load_and_validate_intent paying preparation none
          ≡ ok found)
        × IsPaid paying preparation seller_leg found after_payout.ledger)
apply_locked-IsPaid_example =
    apply_locked-IsPaid 9 circuit paying preparation seller_leg none
      (settling DealStatus.pending_confirmation) after_payout refl refl shape_test payout_test

posting_test : apply_ledger paying preparation seller_leg none [] ≡ ok after_payout.ledger
unfolding apply_ledger post_payout expected_payout planned_payout post_expected insert_ledger
    find_entry big_int atomic_to_decimal positive_atomic decimal_text is_canonical is_digits value
    value_from to_text pad_start text_eq
posting_test = refl

apply_ledger_refused_example :
    apply_ledger paying preparation seller_leg none after_payout.ledger
    ≡ err ApplyError.ledger_idempotency_conflict
apply_ledger_refused_example =
    apply_ledger_refused paying preparation seller_leg none []
      (payout_entry paying preparation seller_leg (to_seller preparation (codes "4950000"))
        (codes "4.95"))
      posting_test (omega arith)

column_test : column_text (codes "4.95") ≡ codes "4.950000000000000000"
unfolding column_text span_digits
column_test = refl
