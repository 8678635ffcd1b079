-- ===== src/Tests/Deals.antt =====
-- Tests of the state machine of deals, and the theorems about it at concrete deals.
use telegram_garant_contract.Common.{
  ℕ, true, false, none, some, [], ◌∷◌, ◌&&◌, if◌then◌else◌, ◌≡◌, refl, codes, ok, err, is_some, ◌≢◌,
}
use telegram_garant_contract.Deal.{Deal, DealStatus, status_eq}
use telegram_garant_contract.Deal.Entity.{can_transition_to, can_transition_to-find_row}
use telegram_garant_contract.Deal.Machine.{
  transition, available_transitions, TransitionError, transitions, find_row, is_final_status,
  is_active_status,
}
use telegram_garant_contract.Deal.Machine.Laws.{Applied, transition-Applied, final_status_absorbs}
use telegram_garant_contract.Deal.Machine.History.{
  Reach, IsPaidRight, Reach-IsPaidRight, Reach-paid_at, Moves, Moves-final_status,
}

abbrev draft_deal : Deal
draft_deal = record {
  id = codes "d1";
  status = DealStatus.draft;
  buyer_id = codes "buyer";
  seller_id = some (codes "seller");
  arbitrator_id = none;
  accepted_at = none;
  paid_at = none;
  completed_at = none;
  cancelled_at = none;
  disputed_at = none;
  funded_at = none;
  updated_at = 0;
  cancel_reason = none;
  refund_reason = none;
}

abbrev waiting_deal : Deal
waiting_deal = record draft_deal { status = DealStatus.pending_payment; accepted_at = some 5 }

abbrev paid_deal : Deal
paid_deal = record waiting_deal {
  status = DealStatus.in_progress;
  paid_at = some 7;
  updated_at = 8;
}

abbrev shipped_deal : Deal
shipped_deal = record paid_deal { status = DealStatus.pending_confirmation; updated_at = 10 }

pays : transition 7 8 waiting_deal DealStatus.in_progress ≡ ok paid_deal
unfolding transition transitions
pays = refl

ships : transition 9 10 paid_deal DealStatus.pending_confirmation ≡ ok shipped_deal
unfolding transition transitions
ships = refl

needs_arbitrator : transition 1 2 paid_deal DealStatus.frozen ≡ err TransitionError.guard_failed
unfolding transition transitions
needs_arbitrator = refl

lists :
    available_transitions paid_deal
    ≡ DealStatus.pending_confirmation ∷ DealStatus.disputed ∷ DealStatus.refunded ∷ []
unfolding available_transitions transitions
lists = refl

history : Reach waiting_deal shipped_deal
history =
    Reach.move 9 10 DealStatus.pending_confirmation
      (Reach.move 7 8 DealStatus.in_progress Reach.here pays) ships

transition-Applied_example : Applied 7 8 waiting_deal DealStatus.in_progress paid_deal
transition-Applied_example = transition-Applied 7 8 waiting_deal DealStatus.in_progress pays

final_status_absorbs_example :
    ((is_final_status DealStatus.pending_confirmation ≡ true)
      → (available_transitions shipped_deal ≡ [])
        × ((at now : ℕ) (t : DealStatus)
            → transition at now shipped_deal t ≡ err TransitionError.invalid_transition))
    × ((is_active_status DealStatus.pending_confirmation ≡ true)
        → available_transitions shipped_deal ≢ [])
final_status_absorbs_example = final_status_absorbs shipped_deal

Reach-IsPaidRight_example : IsPaidRight shipped_deal
Reach-IsPaidRight_example = Reach-IsPaidRight {d = waiting_deal} refl history

Reach-paid_at_example : shipped_deal.paid_at ≡ some 7
Reach-paid_at_example =
    Reach-paid_at {d = paid_deal} 7 refl refl
      (Reach.move 9 10 DealStatus.pending_confirmation Reach.here ships)

Moves-final_status_example : (e : Deal) × Moves shipped_deal e × (is_final_status e.status ≡ true)
Moves-final_status_example = Moves-final_status 11 12 shipped_deal

can_transition_to-find_row_example :
    can_transition_to DealStatus.in_progress DealStatus.refunded ≡ (
      if status_eq DealStatus.in_progress DealStatus.pending_acceptance
        && status_eq DealStatus.refunded DealStatus.in_progress
      then true
      else if status_eq DealStatus.in_progress DealStatus.in_progress
          && status_eq DealStatus.refunded DealStatus.refunded
      then false
      else is_some (find_row DealStatus.in_progress DealStatus.refunded transitions))
can_transition_to-find_row_example =
    can_transition_to-find_row DealStatus.in_progress DealStatus.refunded
