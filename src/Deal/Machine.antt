-- ===== src/Deal/Machine.antt =====
-- The class `DealStateMachine` of services/user-service/src/modules/deal/fsm/deal-state-machine.ts.
-- The two `new Date()` of a transition are the arguments `at` (its action) and `now`.
pub mod Edges
pub mod Laws
pub mod History
use telegram_garant_contract.Common.{
  ℕ, Bool, true, false, not, ◌&&◌, Option, none, some, List, [], ◌∷◌, codes, truthy, is_some,
  Result, ok, err, if◌then◌else◌,
}
use telegram_garant_contract.Deal.{Deal, DealStatus, DealEventType, status_eq}

pub record StateTransition : Type 0 where
  pub source : DealStatus
  pub target : DealStatus
  pub event : DealEventType
  pub guard : Option (Deal → Bool)
  pub action : Option (ℕ → Deal → Deal)

pub data TransitionError : Type 0 where
  invalid_transition guard_failed : TransitionError

-- A row with neither guard nor action.
abbrev row : DealStatus → DealStatus → DealEventType → StateTransition
row s t e = record { source = s; target = t; event = e; guard = none; action = none }

abbrev guarded : (Deal → Bool) → StateTransition → StateTransition
guarded g t = record t { guard = some g }

abbrev acting : (ℕ → Deal → Deal) → StateTransition → StateTransition
acting a t = record t { action = some a }

abbrev has_seller : Deal → Bool
has_seller d = truthy d.seller_id

abbrev has_arbitrator : Deal → Bool
has_arbitrator d = truthy d.arbitrator_id

abbrev is_unpaid : Deal → Bool
is_unpaid d = not (is_some d.paid_at)

abbrev set_accepted_at : ℕ → Deal → Deal
set_accepted_at t d = record d { accepted_at = some t }

abbrev set_paid_at : ℕ → Deal → Deal
set_paid_at t d = record d { paid_at = some t }

abbrev set_disputed_at : ℕ → Deal → Deal
set_disputed_at t d = record d { disputed_at = some t }

abbrev set_completed_at : ℕ → Deal → Deal
set_completed_at t d = record d { completed_at = some t }

abbrev set_payment_timeout : ℕ → Deal → Deal
set_payment_timeout t d = record d {
  cancelled_at = some t;
  cancel_reason = some (codes "Payment timeout");
}

-- The static table `transitions`, in the source's order.
unfoldable pub transitions : List StateTransition
unfolding status_eq
transitions =
    guarded has_seller
      (row DealStatus.draft DealStatus.pending_acceptance DealEventType.deal_created)
    ∷ row DealStatus.draft DealStatus.cancelled DealEventType.deal_cancelled
    ∷ acting set_accepted_at (
        row DealStatus.pending_acceptance DealStatus.pending_payment
          DealEventType.counterparty_accepted)
    ∷ row DealStatus.pending_acceptance DealStatus.cancelled DealEventType.counterparty_rejected
    ∷ row DealStatus.pending_acceptance DealStatus.cancelled DealEventType.deal_cancelled
    ∷ acting set_paid_at
        (row DealStatus.pending_payment DealStatus.in_progress DealEventType.payment_received)
    ∷ guarded is_unpaid
        (row DealStatus.pending_payment DealStatus.cancelled DealEventType.deal_cancelled)
    ∷ row DealStatus.pending_payment DealStatus.refunded DealEventType.deal_refunded
    ∷ row DealStatus.in_progress DealStatus.pending_confirmation DealEventType.seller_started
    ∷ acting set_disputed_at
        (row DealStatus.in_progress DealStatus.disputed DealEventType.dispute_opened)
    ∷ guarded has_arbitrator
        (row DealStatus.in_progress DealStatus.frozen DealEventType.dispute_opened)
    ∷ row DealStatus.in_progress DealStatus.refunded DealEventType.deal_refunded
    ∷ acting set_completed_at
        (row DealStatus.pending_confirmation DealStatus.completed DealEventType.buyer_confirmed)
    ∷ acting set_disputed_at
        (row DealStatus.pending_confirmation DealStatus.disputed DealEventType.dispute_opened)
    ∷ row DealStatus.pending_confirmation DealStatus.refunded DealEventType.buyer_rejected
    ∷ row DealStatus.disputed DealStatus.dispute_resolved DealEventType.dispute_resolved
    ∷ guarded has_arbitrator
        (row DealStatus.disputed DealStatus.frozen DealEventType.dispute_opened)
    ∷ acting set_completed_at
        (row DealStatus.dispute_resolved DealStatus.completed DealEventType.dispute_decided_seller)
    ∷ row DealStatus.dispute_resolved DealStatus.refunded DealEventType.dispute_decided_buyer
    ∷ row DealStatus.frozen DealStatus.in_progress DealEventType.deal_unfrozen
    ∷ row DealStatus.frozen DealStatus.refunded DealEventType.deal_refunded
    ∷ acting set_payment_timeout (
        guarded is_unpaid
          (row DealStatus.pending_payment DealStatus.cancelled DealEventType.payment_expired))
    ∷ acting set_completed_at
        (row DealStatus.pending_confirmation DealStatus.completed DealEventType.auto_confirmed)
    ∷ []

-- `transitions.find((t) => t.from === from && t.to === to)`
abbrev pub find_row : DealStatus → DealStatus → List StateTransition → Option StateTransition
find_row s t [] = none
find_row s t (r ∷ rs) =
    if status_eq r.source s && status_eq r.target t then some r else find_row s t rs

-- `!t.guard || t.guard(deal)`
abbrev pub passes : Option (Deal → Bool) → Deal → Bool
passes none d = true
passes (some g) d = g d

abbrev perform : Option (ℕ → Deal → Deal) → ℕ → Deal → Deal
perform none t d = d
perform (some a) t d = a t d

-- What `canTransition` answers for the row found.
abbrev pub answer : Deal → Option StateTransition → Bool
answer d none = false
answer d (some r) = passes r.guard d

-- What `transition` does with the row found.
abbrev pub fire : ℕ → ℕ → Deal → DealStatus → Option StateTransition → Result TransitionError Deal
fire at now d t none = err TransitionError.invalid_transition
fire at now d t (some r) =
    if passes r.guard d
    then ok (record (perform r.action at d) { status = t; updated_at = now })
    else err TransitionError.guard_failed

unfoldable pub can_transition : Deal → DealStatus → Bool
can_transition d t = answer d (find_row d.status t transitions)

unfoldable pub transition : ℕ → ℕ → Deal → DealStatus → Result TransitionError Deal
transition at now d t = fire at now d t (find_row d.status t transitions)

-- The `filter` of `getAvailableTransitions`, then its `map`; `s` is `deal.status`.
abbrev pub available_rows : Deal → DealStatus → List StateTransition → List DealStatus
available_rows d s [] = []
available_rows d s (r ∷ rs) =
    let rest = available_rows d s rs in
    if status_eq r.source s && passes r.guard d then r.target ∷ rest else rest

unfoldable pub available_transitions : Deal → List DealStatus
available_transitions d = available_rows d d.status transitions

unfoldable pub is_final_status : DealStatus → Bool
is_final_status DealStatus.completed = true
is_final_status DealStatus.cancelled = true
is_final_status DealStatus.refunded = true
is_final_status _ = false

unfoldable pub is_active_status : DealStatus → Bool
unfolding is_final_status
is_active_status s = not (is_final_status s)
