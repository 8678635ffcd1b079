-- ===== src/Deal/Machine/Edges.antt =====
-- The rows of the table that `DealStateMachine` searches, as a relation
-- (services/user-service/src/modules/deal/fsm/deal-state-machine.ts).
use telegram_garant_contract.Common.{
  ℕ, Bool, true, false, Option, none, some, ◌≡◌, refl, ◌↔◌, arith, truthy, is_some, is_ok,
}
use telegram_garant_contract.Deal.{Deal, DealStatus}
use telegram_garant_contract.Deal.Machine.{
  StateTransition, can_transition, transition, answer, fire, find_row, transitions,
}

-- A row of the table that is open to the deal `d`, with the row's guard where it has one.
pub data Edge (d : Deal) : DealStatus → DealStatus → Type 0 where
  submit : truthy d.seller_id ≡ true → Edge d DealStatus.draft DealStatus.pending_acceptance
  discard : Edge d DealStatus.draft DealStatus.cancelled
  accept : Edge d DealStatus.pending_acceptance DealStatus.pending_payment
  decline : Edge d DealStatus.pending_acceptance DealStatus.cancelled
  pay : Edge d DealStatus.pending_payment DealStatus.in_progress
  give_up : d.paid_at ≡ none → Edge d DealStatus.pending_payment DealStatus.cancelled
  refund_pending : Edge d DealStatus.pending_payment DealStatus.refunded
  ship : Edge d DealStatus.in_progress DealStatus.pending_confirmation
  dispute_progress : Edge d DealStatus.in_progress DealStatus.disputed
  freeze_progress : truthy d.arbitrator_id ≡ true → Edge d DealStatus.in_progress DealStatus.frozen
  refund_progress : Edge d DealStatus.in_progress DealStatus.refunded
  confirm : Edge d DealStatus.pending_confirmation DealStatus.completed
  dispute_delivery : Edge d DealStatus.pending_confirmation DealStatus.disputed
  refund_delivery : Edge d DealStatus.pending_confirmation DealStatus.refunded
  resolve : Edge d DealStatus.disputed DealStatus.dispute_resolved
  freeze_dispute : truthy d.arbitrator_id ≡ true → Edge d DealStatus.disputed DealStatus.frozen
  award_seller : Edge d DealStatus.dispute_resolved DealStatus.completed
  award_buyer : Edge d DealStatus.dispute_resolved DealStatus.refunded
  unfreeze : Edge d DealStatus.frozen DealStatus.in_progress
  refund_frozen : Edge d DealStatus.frozen DealStatus.refunded

unpaid→none : (o : Option ℕ) → is_some o ≡ false → o ≡ none
unpaid→none o h = ground arith

abbrev admits : Deal → DealStatus → DealStatus → Bool
admits d s t = answer d (find_row s t transitions)

admits→Edge : (d : Deal) (s t : DealStatus) → admits d s t ≡ true → Edge d s t
unfolding transitions
admits→Edge d DealStatus.draft DealStatus.pending_acceptance h = submit h
admits→Edge d DealStatus.draft DealStatus.cancelled h = discard
admits→Edge d DealStatus.pending_acceptance DealStatus.pending_payment h = accept
admits→Edge d DealStatus.pending_acceptance DealStatus.cancelled h = decline
admits→Edge d DealStatus.pending_payment DealStatus.in_progress h = pay
admits→Edge d DealStatus.pending_payment DealStatus.cancelled h =
    give_up (unpaid→none d.paid_at (ground arith))
admits→Edge d DealStatus.pending_payment DealStatus.refunded h = refund_pending
admits→Edge d DealStatus.in_progress DealStatus.pending_confirmation h = ship
admits→Edge d DealStatus.in_progress DealStatus.disputed h = dispute_progress
admits→Edge d DealStatus.in_progress DealStatus.frozen h = freeze_progress h
admits→Edge d DealStatus.in_progress DealStatus.refunded h = refund_progress
admits→Edge d DealStatus.pending_confirmation DealStatus.completed h = confirm
admits→Edge d DealStatus.pending_confirmation DealStatus.disputed h = dispute_delivery
admits→Edge d DealStatus.pending_confirmation DealStatus.refunded h = refund_delivery
admits→Edge d DealStatus.disputed DealStatus.dispute_resolved h = resolve
admits→Edge d DealStatus.disputed DealStatus.frozen h = freeze_dispute h
admits→Edge d DealStatus.dispute_resolved DealStatus.completed h = award_seller
admits→Edge d DealStatus.dispute_resolved DealStatus.refunded h = award_buyer
admits→Edge d DealStatus.frozen DealStatus.in_progress h = unfreeze
admits→Edge d DealStatus.frozen DealStatus.refunded h = refund_frozen
admits→Edge d _ _ h = cc

Edge→admits : (d : Deal) {s t : DealStatus} → Edge d s t → admits d s t ≡ true
unfolding transitions
Edge→admits d (submit h) = h
Edge→admits d (give_up h) = rw h
Edge→admits d (freeze_progress h) = h
Edge→admits d (freeze_dispute h) = h
Edge→admits d _ = refl

-- `canTransition` answers true exactly along the rows of the table.
can_transition-Edge : (d : Deal) (t : DealStatus) → (can_transition d t ≡ true) ↔ Edge d d.status t
unfolding can_transition
can_transition-Edge d t = (admits→Edge d d.status t, Edge→admits d)

fire_cases :
    (at now : ℕ) (d : Deal) (t : DealStatus) (o : Option StateTransition)
    → is_ok (fire at now d t o) ≡ answer d o
fire_cases at now d t none = refl
fire_cases at now d t (some r) = ground arith

-- `transition` succeeds exactly where `canTransition` answers true.
is_ok-transition :
    (at now : ℕ) (d : Deal) (t : DealStatus) → is_ok (transition at now d t) ≡ can_transition d t
unfolding can_transition transition
is_ok-transition at now d t = fire_cases at now d t (find_row d.status t transitions)

-- `transition` succeeds exactly along the rows of the table, and throws on every other pair.
pub transition-Edge :
    (at now : ℕ) (d : Deal) (t : DealStatus)
    → (is_ok (transition at now d t) ≡ true) ↔ Edge d d.status t
transition-Edge at now d t = rw is_ok-transition (can_transition-Edge d t)
