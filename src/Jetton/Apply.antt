-- ===== src/Jetton/Apply.antt =====
-- `applyLocked` of services/user-service/src/modules/deal/ton-jetton-transactional-application.service.ts. The
-- rows that `lockOne` reads are arguments, and so is the directive that the verifier returns; an error
-- rolls the transaction back, so what was written before it is not kept.
use telegram_garant_contract.Common.{
  ℕ, Bool, true, false, not, ◌||◌, List, [], ◌∷◌, ◌++◌, Text, Option, none, some, if◌then◌else◌,
  any, text_eq, Result, ok, err, throw_if, ◌>>=◌, ◌>>◌,
}
use telegram_garant_contract.Deal.{DealStatus, Deal, status_eq}
use telegram_garant_contract.Deal.Entity.{can_transition_to}
use telegram_garant_contract.Breaker.{BreakerError, Scope, Operation, Tables, assert_allowed}
use telegram_garant_contract.Native.{truthy_text}
use telegram_garant_contract.Jetton.{
  TonJettonChainEventKind, TonJettonEscrowWatchStatus, watch_eq, TonJettonSettlementOutcome,
  TonJettonChainEvent, TonJettonApplicationDirective, TonJettonEscrowPreparation,
  TonJettonActionIntent, TonJettonActionIntentConsumption, TonJettonEscrowWatch, ApplyError,
  Business,
}
use telegram_garant_contract.Jetton.Postings.{apply_ledger}
use telegram_garant_contract.Jetton.Shape.{is_none}

-- The kinds that need an action intent, which are those that consume one.
abbrev pub requires_intent : TonJettonChainEventKind → Bool
requires_intent TonJettonChainEventKind.mark_delivered = true
requires_intent TonJettonChainEventKind.open_dispute = true
requires_intent TonJettonChainEventKind.settlement_started = true
requires_intent TonJettonChainEventKind.settlement_finalized = true
requires_intent _ = false

-- The intent that was read, where its bindings hold.
abbrev pub bound_intent :
    TonJettonEscrowPreparation
    → Option TonJettonActionIntent
    → Result ApplyError (Option TonJettonActionIntent)
bound_intent p none = err ApplyError.action_intent_binding_mismatch
bound_intent p (some i) =
    throw_if (not (text_eq i.preparation_id p.id) || not (text_eq i.deal_id p.deal_id))
      ApplyError.action_intent_binding_mismatch
    >> ok (some i)

abbrev pub load_named :
    Option Text
    → TonJettonChainEventKind
    → TonJettonEscrowPreparation
    → Option TonJettonActionIntent
    → Result ApplyError (Option TonJettonActionIntent)
load_named none kind p found =
    throw_if (requires_intent kind) ApplyError.action_intent_required >> ok none
load_named (some id) kind p found = bound_intent p found

unfoldable pub load_and_validate_intent :
    TonJettonChainEvent
    → TonJettonEscrowPreparation
    → Option TonJettonActionIntent
    → Result ApplyError (Option TonJettonActionIntent)
load_and_validate_intent e p found =
    load_named (truthy_text e.action_intent_id) e.event_kind p found

abbrev pub or_circuit : Result BreakerError (Unit {0}) → Result ApplyError (Unit {0})
or_circuit (ok u) = ok u
or_circuit (err e) = err (ApplyError.circuit_open e)

abbrev pub assert_circuit : Operation → Tables → Result ApplyError (Unit {0})
assert_circuit op t = or_circuit (assert_allowed Scope.ton op t)

unfoldable pub check_circuit : TonJettonChainEventKind → Tables → Result ApplyError (Unit {0})
check_circuit TonJettonChainEventKind.funding_confirmed t = assert_circuit Operation.funding t
check_circuit TonJettonChainEventKind.payout_leg_reconciled t = assert_circuit Operation.egress t
check_circuit _ t = ok tt

abbrev pub outcome_status : Option TonJettonSettlementOutcome → Result ApplyError DealStatus
outcome_status (some TonJettonSettlementOutcome.release) = ok DealStatus.completed
outcome_status (some TonJettonSettlementOutcome.refund) = ok DealStatus.refunded
outcome_status (some TonJettonSettlementOutcome.resolution) = ok DealStatus.dispute_resolved
outcome_status none = err ApplyError.settlement_outcome_missing

unfoldable pub deal_status_after :
    TonJettonChainEventKind
    → TonJettonApplicationDirective
    → DealStatus
    → Result ApplyError DealStatus
deal_status_after TonJettonChainEventKind.funding_confirmed d s = ok DealStatus.in_progress
deal_status_after TonJettonChainEventKind.mark_delivered d s = ok DealStatus.pending_confirmation
deal_status_after TonJettonChainEventKind.open_dispute d s = ok DealStatus.disputed
deal_status_after TonJettonChainEventKind.settlement_finalized d s =
    outcome_status d.settlement_outcome
deal_status_after _ d s = ok s

abbrev pub or_now : Option ℕ → ℕ → Option ℕ
or_now none now = some now
or_now (some t) now = some t

abbrev pub funded_at_after : TonJettonChainEventKind → ℕ → Deal → Option ℕ
funded_at_after TonJettonChainEventKind.funding_confirmed now deal = or_now deal.funded_at now
funded_at_after _ now deal = deal.funded_at

-- The deal with its new status; saving it sets its update date.
abbrev pub saved_deal : TonJettonChainEventKind → ℕ → DealStatus → Deal → Deal
saved_deal kind now next deal = record deal {
  status = next;
  funded_at = funded_at_after kind now deal;
  updated_at = now;
}

unfoldable pub move_deal : TonJettonChainEventKind → ℕ → DealStatus → Deal → Result ApplyError Deal
move_deal kind now next deal =
    if status_eq next deal.status
    then ok deal
    else (throw_if (not (can_transition_to deal.status next)) ApplyError.deal_transition_invalid
        >> ok (saved_deal kind now next deal))

unfoldable pub find_consumption :
    Text → List TonJettonActionIntentConsumption → Option TonJettonActionIntentConsumption
find_consumption id [] = none
find_consumption id (c ∷ cs) =
    let rest = find_consumption id cs in if text_eq c.intent_id id then some c else rest

abbrev pub consume_found :
    TonJettonActionIntent
    → TonJettonChainEvent
    → List TonJettonActionIntentConsumption
    → Option TonJettonActionIntentConsumption
    → Result ApplyError (List TonJettonActionIntentConsumption)
consume_found i e cs none = ok (cs ++ (record { intent_id = i.id; event_id = e.id } ∷ []))
consume_found i e cs (some existing) =
    throw_if (not (text_eq existing.event_id e.id)) ApplyError.action_intent_already_consumed
    >> ok cs

-- `consumeIntent`, for an event that consumes its intent.
unfoldable pub consume_intent :
    Option TonJettonActionIntent
    → TonJettonChainEvent
    → List TonJettonActionIntentConsumption
    → Result ApplyError (List TonJettonActionIntentConsumption)
consume_intent none e cs = ok cs
consume_intent (some i) e cs =
    if requires_intent e.event_kind then consume_found i e cs (find_consumption i.id cs) else ok cs

-- The table `expected` of `watchStatusAfter`.
abbrev pub expected_statuses : TonJettonChainEventKind → List TonJettonEscrowWatchStatus
expected_statuses TonJettonChainEventKind.funding_confirmed =
    TonJettonEscrowWatchStatus.awaiting_funding ∷ []
expected_statuses TonJettonChainEventKind.mark_delivered = TonJettonEscrowWatchStatus.funded ∷ []
expected_statuses TonJettonChainEventKind.open_dispute =
    TonJettonEscrowWatchStatus.funded ∷ TonJettonEscrowWatchStatus.delivered ∷ []
expected_statuses TonJettonChainEventKind.settlement_started =
    TonJettonEscrowWatchStatus.funded ∷ TonJettonEscrowWatchStatus.delivered
    ∷ TonJettonEscrowWatchStatus.disputed ∷ []
expected_statuses TonJettonChainEventKind.payout_leg_reconciled =
    TonJettonEscrowWatchStatus.settlement_pending ∷ TonJettonEscrowWatchStatus.recovery_required
    ∷ []
expected_statuses TonJettonChainEventKind.settlement_finalized =
    TonJettonEscrowWatchStatus.settlement_pending ∷ []
expected_statuses TonJettonChainEventKind.recovery_required =
    TonJettonEscrowWatchStatus.settlement_pending ∷ []

abbrev pub next_watch_status :
    TonJettonChainEventKind
    → TonJettonApplicationDirective
    → Result ApplyError TonJettonEscrowWatchStatus
next_watch_status TonJettonChainEventKind.funding_confirmed d = ok TonJettonEscrowWatchStatus.funded
next_watch_status TonJettonChainEventKind.mark_delivered d = ok TonJettonEscrowWatchStatus.delivered
next_watch_status TonJettonChainEventKind.open_dispute d = ok TonJettonEscrowWatchStatus.disputed
next_watch_status TonJettonChainEventKind.settlement_started d =
    ok TonJettonEscrowWatchStatus.settlement_pending
next_watch_status TonJettonChainEventKind.payout_leg_reconciled d =
    ok TonJettonEscrowWatchStatus.settlement_pending
next_watch_status TonJettonChainEventKind.recovery_required d =
    ok TonJettonEscrowWatchStatus.recovery_required
next_watch_status TonJettonChainEventKind.settlement_finalized d =
    throw_if (is_none d.settlement_outcome) ApplyError.settlement_outcome_missing
    >> ok TonJettonEscrowWatchStatus.settled_finalized

unfoldable pub watch_status_after :
    TonJettonChainEventKind
    → TonJettonApplicationDirective
    → TonJettonEscrowWatchStatus
    → Result ApplyError TonJettonEscrowWatchStatus
watch_status_after kind d current =
    throw_if (not (any (λ s. watch_eq s current) (expected_statuses kind)))
      ApplyError.watch_transition_invalid
    >> next_watch_status kind d

abbrev pub saved_watch :
    ℕ → TonJettonEscrowWatchStatus → TonJettonEscrowWatch → TonJettonEscrowWatch
saved_watch now s w = record w {
  status = s;
  consecutive_failures = 0;
  last_error = none;
  last_applied_at = some now;
}

-- The rows that were read belong together.
unfoldable pub check_bindings :
    TonJettonChainEvent → TonJettonEscrowPreparation → Business → Result ApplyError (Unit {0})
check_bindings e p b = do
  throw_if (not (text_eq b.deal.id b.watch.deal_id)) ApplyError.deal_binding_mismatch
  throw_if
      (not (text_eq e.account_address b.watch.account_address)
        || not (text_eq e.network b.watch.network))
      ApplyError.event_watch_binding_mismatch

-- `applyLocked` from the bindings of the rows on.
unfoldable pub apply_locked :
    ℕ
    → Tables
    → TonJettonChainEvent
    → TonJettonEscrowPreparation
    → TonJettonApplicationDirective
    → Option TonJettonActionIntent
    → Business
    → Result ApplyError Business
apply_locked now t e p d found b = do
  check_bindings e p b
  intent ← load_and_validate_intent e p found
  check_circuit d.event_kind t
  ledger ← apply_ledger e p d intent b.ledger
  next ← deal_status_after e.event_kind d b.deal.status
  deal ← move_deal e.event_kind now next b.deal
  consumptions ← consume_intent intent e b.consumptions
  status ← watch_status_after e.event_kind d b.watch.status
  ok (record {
    deal = deal;
    watch = saved_watch now status b.watch;
    ledger = ledger;
    consumptions = consumptions;
  })
