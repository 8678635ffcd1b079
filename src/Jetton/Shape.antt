-- ===== src/Jetton/Shape.antt =====
-- `validateMovementShape` of services/user-service/src/modules/deal/ton-jetton-transactional-application.service.ts.
use telegram_garant_contract.Common.{
  Bool, true, false, not, ◌||◌, Text, Option, none, some, all, Result, throw_if,
}
use telegram_garant_contract.Money.{positive_atomic}
use telegram_garant_contract.Address.{is_lower_hex, match_raw}
use telegram_garant_contract.Jetton.{
  TonJettonChainEventKind, TonJettonApplicationDirective, ApplyError,
}

-- RAW_ADDRESS: a raw address with lower-case digits.
unfoldable pub is_raw_address : Text → Bool
is_raw_address t = elim (match_raw t) [
  | none ↦ false
  | some (minus, workchain, hash) ↦ all is_lower_hex hash
]

abbrev pub is_none : {A : Type 0} → Option A → Bool
is_none none = true
is_none (some a) = false

abbrev pub holds : {A : Type 0} → (A → Bool) → Option A → Bool
holds p none = false
holds p (some a) = p a

-- `validateMovementShape`
abbrev pub has_movement_shape :
    TonJettonChainEventKind → TonJettonApplicationDirective → Result ApplyError (Unit {0})
has_movement_shape TonJettonChainEventKind.payout_leg_reconciled d =
    throw_if
      (is_none d.settlement_outcome
        || is_none d.payout_leg
        || not (holds positive_atomic d.amount_atomic)
        || not (holds is_raw_address d.destination_address))
      ApplyError.payout_evidence_invalid
has_movement_shape TonJettonChainEventKind.funding_confirmed d =
    throw_if
      (not (is_none d.settlement_outcome)
        || not (is_none d.payout_leg)
        || not (holds positive_atomic d.amount_atomic)
        || not (is_none d.destination_address))
      ApplyError.funding_evidence_invalid
has_movement_shape TonJettonChainEventKind.settlement_started d =
    throw_if
      (not (is_none d.payout_leg)
        || not (is_none d.amount_atomic)
        || not (is_none d.destination_address)
        || is_none d.settlement_outcome)
      ApplyError.movement_invalid
has_movement_shape TonJettonChainEventKind.settlement_finalized d =
    throw_if
      (not (is_none d.payout_leg)
        || not (is_none d.amount_atomic)
        || not (is_none d.destination_address)
        || is_none d.settlement_outcome)
      ApplyError.movement_invalid
has_movement_shape _ d =
    throw_if
      (not (is_none d.payout_leg)
        || not (is_none d.amount_atomic)
        || not (is_none d.destination_address)
        || not (is_none d.settlement_outcome))
      ApplyError.movement_invalid

unfoldable pub validate_movement_shape :
    TonJettonApplicationDirective → Result ApplyError (Unit {0})
validate_movement_shape d = has_movement_shape d.event_kind d
