-- ===== src/Jetton.antt =====
-- The data of the Jetton escrow on the service's side: the entities ton-jetton-chain-event.entity.ts,
-- ton-jetton-escrow-watch.entity.ts, ton-jetton-action-intent.entity.ts and
-- ton-jetton-escrow-preparation.entity.ts, and the directive of
-- ton-jetton-transactional-application.service.ts, all under services/user-service/src/modules/deal.
pub mod Shape
pub mod Postings
pub mod Apply
pub mod Laws
pub mod Settled
pub mod Once
pub mod Owed
pub mod Paid
pub mod Intents
pub mod Undelivered
pub mod Replay
pub mod Stuck
use telegram_garant_contract.Common.{ℕ, Bool, true, false, List, [], ◌∷◌, Text, codes, Option, ◌==◌}
use telegram_garant_contract.Deal.{Deal}
use telegram_garant_contract.Ledger.{Book}
use telegram_garant_contract.Money.{MoneyError}
use telegram_garant_contract.Breaker.{BreakerError}

pub data TonJettonChainEventKind : Type 0 where
  funding_confirmed mark_delivered open_dispute settlement_started payout_leg_reconciled
        settlement_finalized recovery_required :
      TonJettonChainEventKind

abbrev pub kind_name : TonJettonChainEventKind → Text
kind_name TonJettonChainEventKind.funding_confirmed = codes "funding_confirmed"
kind_name TonJettonChainEventKind.mark_delivered = codes "mark_delivered"
kind_name TonJettonChainEventKind.open_dispute = codes "open_dispute"
kind_name TonJettonChainEventKind.settlement_started = codes "settlement_started"
kind_name TonJettonChainEventKind.payout_leg_reconciled = codes "payout_leg_reconciled"
kind_name TonJettonChainEventKind.settlement_finalized = codes "settlement_finalized"
kind_name TonJettonChainEventKind.recovery_required = codes "recovery_required"

pub data TonJettonEscrowWatchStatus : Type 0 where
  awaiting_funding funded delivered disputed settlement_pending recovery_required settled_finalized
        manual_review superseded :
      TonJettonEscrowWatchStatus

abbrev pub watch_rank : TonJettonEscrowWatchStatus → ℕ
watch_rank TonJettonEscrowWatchStatus.awaiting_funding = 0
watch_rank TonJettonEscrowWatchStatus.funded = 1
watch_rank TonJettonEscrowWatchStatus.delivered = 2
watch_rank TonJettonEscrowWatchStatus.disputed = 3
watch_rank TonJettonEscrowWatchStatus.settlement_pending = 4
watch_rank TonJettonEscrowWatchStatus.recovery_required = 5
watch_rank TonJettonEscrowWatchStatus.settled_finalized = 6
watch_rank TonJettonEscrowWatchStatus.manual_review = 7
watch_rank TonJettonEscrowWatchStatus.superseded = 8

-- `===` on the statuses of a watch.
abbrev pub watch_eq : TonJettonEscrowWatchStatus → TonJettonEscrowWatchStatus → Bool
watch_eq s t = watch_rank s == watch_rank t

pub data TonJettonAction : Type 0 where
  mark_delivered release open_dispute refund_buyer refund_after_seller_timeout
        release_after_buyer_timeout resolve reconcile_attempt retry_failed_legs
        finalize_settlement :
      TonJettonAction

pub data TonJettonSettlementOutcome : Type 0 where
  release refund resolution : TonJettonSettlementOutcome

abbrev pub outcome_name : TonJettonSettlementOutcome → Text
outcome_name TonJettonSettlementOutcome.release = codes "release"
outcome_name TonJettonSettlementOutcome.refund = codes "refund"
outcome_name TonJettonSettlementOutcome.resolution = codes "resolution"

pub data TonJettonPayoutLeg : Type 0 where
  buyer seller treasury : TonJettonPayoutLeg

abbrev pub leg_name : TonJettonPayoutLeg → Text
leg_name TonJettonPayoutLeg.buyer = codes "buyer"
leg_name TonJettonPayoutLeg.seller = codes "seller"
leg_name TonJettonPayoutLeg.treasury = codes "treasury"

pub record TonJettonChainEvent : Type 0 where
  pub id : Text
  pub preparation_id : Text
  pub action_intent_id : Option Text
  pub event_kind : TonJettonChainEventKind
  pub network : Text
  pub account_address : Text
  pub transaction_lt : Text
  pub transaction_hash : Text
  pub masterchain_seqno : ℕ

pub record TonJettonApplicationDirective : Type 0 where
  pub event_kind : TonJettonChainEventKind
  pub settlement_outcome : Option TonJettonSettlementOutcome
  pub payout_leg : Option TonJettonPayoutLeg
  pub amount_atomic : Option Text
  pub destination_address : Option Text
  pub verification_evidence_hash : Text

pub record TonJettonEscrowPreparation : Type 0 where
  pub id : Text
  pub deal_id : Text
  pub buyer_address : Text
  pub seller_address : Text
  pub arbitrator_address : Text
  pub treasury_address : Text
  pub reconciliation_address : Text
  pub asset_code : Text
  pub asset_decimals : ℕ
  pub buyer_total_atomic : Text
  pub seller_payout_atomic : Text
  pub platform_fee_atomic : Text
  pub refund_to_buyer_atomic : Text
  pub refund_fee_atomic : Text
  pub delivery_deadline : Text
  pub confirmation_deadline : Text

pub record TonJettonActionIntent : Type 0 where
  pub id : Text
  pub preparation_id : Text
  pub deal_id : Text
  pub action : TonJettonAction
  pub expected_from_status : TonJettonEscrowWatchStatus
  pub expected_to_status : TonJettonEscrowWatchStatus
  pub requester_id : Text
  pub sender_address : Text
  pub query_id : Text
  pub payload : Text
  pub payload_hash : Text
  pub settlement_id : Option Text
  pub buyer_award_atomic : Option Text
  pub seller_award_atomic : Option Text

pub record TonJettonActionIntentConsumption : Type 0 where
  pub intent_id : Text
  pub event_id : Text

pub record TonJettonEscrowWatch : Type 0 where
  pub preparation_id : Text
  pub deal_id : Text
  pub network : Text
  pub account_address : Text
  pub status : TonJettonEscrowWatchStatus
  pub consecutive_failures : ℕ
  pub last_error : Option Text
  pub last_applied_at : Option ℕ

pub data ApplyError : Type 0 where
  deal_binding_mismatch event_watch_binding_mismatch action_intent_required
        action_intent_binding_mismatch action_intent_already_consumed funding_ledger_amount_mismatch
        payout_ledger_binding_mismatch ledger_idempotency_conflict payout_plan_missing
        resolution_plan_missing payout_leg_not_in_plan settlement_outcome_missing
        watch_transition_invalid deal_transition_invalid payout_evidence_invalid
        funding_evidence_invalid movement_invalid not_an_integer :
      ApplyError
  ledger_amount_invalid : MoneyError → ApplyError
  circuit_open : BreakerError → ApplyError

-- What the handler of an event writes: the rows of the deal and of the watch, and two tables.
pub record Business : Type 0 where
  pub deal : Deal
  pub watch : TonJettonEscrowWatch
  pub ledger : Book
  pub consumptions : List TonJettonActionIntentConsumption
