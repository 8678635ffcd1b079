-- ===== src/Tests/Refunds.antt =====
-- A refund of a Jetton escrow whose seller did not deliver in time, on concrete data.
use telegram_garant_contract.Common.{true, List, [], ◌∷◌, codes, none, some, text_eq, ok, ◌≡◌, refl}
use telegram_garant_contract.Decimal.{is_digits, value, value_from}
use telegram_garant_contract.Deal.{DealStatus, status_eq}
use telegram_garant_contract.Breaker.{assert_allowed, scope_eq}
use telegram_garant_contract.Ledger.{big_int}
use telegram_garant_contract.Jetton.{
  TonJettonChainEventKind, TonJettonAction, TonJettonEscrowWatchStatus, TonJettonSettlementOutcome,
  TonJettonChainEvent, TonJettonApplicationDirective, TonJettonActionIntent, Business,
}
use telegram_garant_contract.Jetton.Postings.{apply_ledger}
use telegram_garant_contract.Jetton.Apply.{
  check_bindings, load_and_validate_intent, check_circuit, deal_status_after, move_deal,
  consume_intent, find_consumption, watch_status_after, apply_locked,
}
use telegram_garant_contract.Jetton.Laws.{agrees}
use telegram_garant_contract.Jetton.Stuck.{Reach, is_settling}
use telegram_garant_contract.Jetton.Intents.{
  TonJettonActionIntentInput, ParsedActionBody, allowed_action, assert_action_allowed,
  create_locked, check_egress, find_intent, candidate, IntentResult,
}
use telegram_garant_contract.Jetton.Undelivered.{timeout_refund_stuck}
use telegram_garant_contract.Jetton.Replay.{create_locked-replayed}
use telegram_garant_contract.Tests.Jettons.{
  preparation, event, circuit, deal, watch, intent, final_directive,
}

abbrev request : TonJettonActionIntentInput
request = record {
  preparation_id = codes "p1";
  action = TonJettonAction.refund_after_seller_timeout;
  requester_id = codes "u1";
  sender_address = codes "b";
  payload = codes "q";
  now_seconds = 150;
}

abbrev body : ParsedActionBody
body = record {
  query_id = codes "2";
  payload_hash = codes "h";
  settlement_id = some (codes "1");
  buyer_award_atomic = none;
  seller_award_atomic = none;
}

abbrev funded : Business
funded = record {
  deal = deal DealStatus.in_progress (some 5) 5;
  watch = watch TonJettonEscrowWatchStatus.funded;
  ledger = [];
  consumptions = [];
}

abbrev pending : TonJettonEscrowWatchStatus
pending = TonJettonEscrowWatchStatus.settlement_pending

allowed_test : assert_action_allowed request body preparation funded.watch ≡ ok pending
unfolding assert_action_allowed allowed_action big_int is_digits value value_from text_eq
allowed_test = refl

abbrev refunding : TonJettonApplicationDirective
refunding = record (final_directive TonJettonSettlementOutcome.refund) {
  event_kind = TonJettonChainEventKind.settlement_started;
}

abbrev started : TonJettonChainEvent
started = event TonJettonChainEventKind.settlement_started (some (codes "i1"))

abbrev after_start : Business
after_start = record {
  deal = deal DealStatus.in_progress (some 5) 5;
  watch = record (watch pending) { consecutive_failures = 0; last_applied_at = some 9 };
  ledger = [];
  consumptions = record { intent_id = codes "i1"; event_id = codes "e1" } ∷ [];
}

start_test :
    apply_locked 9 circuit started preparation refunding (some intent) funded ≡ ok after_start
unfolding apply_locked check_bindings load_and_validate_intent check_circuit apply_ledger
    deal_status_after move_deal consume_intent find_consumption watch_status_after text_eq status_eq
start_test = refl

abbrev bounced : TonJettonApplicationDirective
bounced = record {
  event_kind = TonJettonChainEventKind.recovery_required;
  settlement_outcome = none;
  payout_leg = none;
  amount_atomic = none;
  destination_address = none;
  verification_evidence_hash = codes "v";
}

abbrev recovering : TonJettonChainEvent
recovering = event TonJettonChainEventKind.recovery_required none

abbrev after_bounce : Business
after_bounce = record after_start {
  watch = record (watch TonJettonEscrowWatchStatus.recovery_required) {
    consecutive_failures = 0;
    last_applied_at = some 10;
  };
}

bounce_test :
    apply_locked 10 circuit recovering preparation bounced none after_start ≡ ok after_bounce
unfolding apply_locked check_bindings load_and_validate_intent check_circuit apply_ledger
    deal_status_after move_deal consume_intent find_consumption watch_status_after text_eq status_eq
bounce_test = refl

funded_agrees : agrees TonJettonEscrowWatchStatus.funded DealStatus.in_progress ≡ true
unfolding agrees status_eq
funded_agrees = refl

timeout_refund_stuck_example :
    (is_settling after_bounce.watch.status ≡ true)
    × (after_bounce.deal.status ≡ DealStatus.in_progress)
timeout_refund_stuck_example =
    timeout_refund_stuck request body preparation pending 9 circuit started preparation refunding
      (some intent) funded after_start after_bounce refl allowed_test funded_agrees refl start_test
      (Reach.next 10 circuit recovering preparation bounced none bounce_test Reach.here)

create_test :
    create_locked (codes "i2") circuit request body preparation funded.watch []
    ≡ ok (
      IntentResult.created (candidate (codes "i2") request body preparation funded.watch pending),
      candidate (codes "i2") request body preparation funded.watch pending ∷ [],
    )
unfolding create_locked check_egress find_intent assert_allowed scope_eq assert_action_allowed
    allowed_action big_int is_digits value value_from text_eq
create_test = refl

abbrev first : TonJettonActionIntent
first = candidate (codes "i2") request body preparation funded.watch pending

create_locked-replayed_example :
    ((more : List TonJettonActionIntent) × (first ∷ [] ≡ more))
    × (find_intent (codes "p1") (codes "2") (first ∷ []) ≡ some first)
    × (create_locked (codes "i3") circuit request body preparation funded.watch (first ∷ [])
        ≡ ok (IntentResult.replayed first, first ∷ []))
create_locked-replayed_example =
    create_locked-replayed (codes "i2") (codes "i3") circuit request body preparation funded.watch
      [] (first ∷ []) (IntentResult.created first) create_test
