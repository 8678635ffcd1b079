-- ===== src/Deal/Machine/Laws.antt =====
-- What a transition of `DealStateMachine` writes, the listing of the available statuses, and the
-- final statuses (services/user-service/src/modules/deal/fsm/deal-state-machine.ts).
use telegram_garant_contract.Common.{
  ℕ, Bool, true, some, List, [], ◌∷◌, ◌≡◌, ◌≢◌, refl, ◌↔◌, arith, Has, any, ◌∙◌, sym, ok, err,
  if◌then◌else◌, ◌&&◌,
}
use telegram_garant_contract.Deal.{Deal, DealStatus, status_eq}
use telegram_garant_contract.Deal.Machine.{
  StateTransition, can_transition, transition, answer, fire, find_row, transitions, passes,
  TransitionError, available_rows, available_transitions, is_final_status, is_active_status,
}

-- The timestamps that a move between two statuses leaves, written without the table.
pub record Applied (at now : ℕ) (d : Deal) (t : DealStatus) (e : Deal) : Type 0 where
  pub moved : e.status ≡ t
  pub touched : e.updated_at ≡ now
  pub parties : (e.id ≡ d.id) × (e.buyer_id ≡ d.buyer_id) × (e.seller_id ≡ d.seller_id)
  pub arbitrator : e.arbitrator_id ≡ d.arbitrator_id
  pub accepted :
      e.accepted_at ≡ (if status_eq t DealStatus.pending_payment then some at else d.accepted_at)
  pub paid : e.paid_at ≡ (
      if status_eq d.status DealStatus.pending_payment && status_eq t DealStatus.in_progress
      then some at
      else d.paid_at)
  pub completed :
      e.completed_at ≡ (if status_eq t DealStatus.completed then some at else d.completed_at)
  pub disputed :
      e.disputed_at ≡ (if status_eq t DealStatus.disputed then some at else d.disputed_at)
  pub cancelled : (e.cancelled_at ≡ d.cancelled_at) × (e.cancel_reason ≡ d.cancel_reason)
  pub funded : e.funded_at ≡ d.funded_at

fire-Applied :
    (at now : ℕ) (d e : Deal) (s t : DealStatus)
    → d.status ≡ s
    → fire at now d t (find_row s t transitions) ≡ ok e
    → Applied at now d t e
unfolding transitions
fire-Applied at now d e DealStatus.draft t q h = ground arith
fire-Applied at now d e _ t q h = ground arith

-- A transition that succeeds moves to the status asked for, stamps the dates that belong to that
-- move, and leaves the parties, the arbitrator and every other date as they were.
pub transition-Applied :
    (at now : ℕ) (d : Deal) (t : DealStatus) {e : Deal}
    → transition at now d t ≡ ok e
    → Applied at now d t e
unfolding transition
transition-Applied at now d t {e} h = fire-Applied at now d e d.status t refl h

status_eq_refl : (s : DealStatus) → status_eq s s ≡ true
unfolding status_eq
status_eq_refl DealStatus.draft = refl
status_eq_refl _ = refl

-- Some row between the two statuses has a guard that holds.
abbrev some_row : Deal → DealStatus → DealStatus → List StateTransition → Bool
some_row d s t = any (λ r. status_eq r.source s && status_eq r.target t && passes r.guard d)

Has-available_rows→some_row :
    (d : Deal) (s t : DealStatus) (rs : List StateTransition)
    → Has t (available_rows d s rs)
    → some_row d s t rs ≡ true
Has-available_rows→some_row d s t [] h = absurd h
Has-available_rows→some_row d s t (r ∷ rs) h =
    ground (arith, status_eq_refl t, Has-available_rows→some_row d s t rs)

pub status_eq→eq : (s t : DealStatus) → status_eq s t ≡ true → s ≡ t
unfolding status_eq
status_eq→eq DealStatus.draft t h = ground arith
status_eq→eq _ t h = ground arith

answer→Has-available_rows :
    (d : Deal) (s t : DealStatus) (rs : List StateTransition)
    → answer d (find_row s t rs) ≡ true
    → Has t (available_rows d s rs)
answer→Has-available_rows d s t [] h = cc
answer→Has-available_rows d s t (r ∷ rs) h =
    ground (arith, status_eq→eq r.target t, answer→Has-available_rows d s t rs)

-- Rows between the same two statuses have the same guard, so the first one speaks for all.
some_row-transitions :
    (d : Deal) (s t : DealStatus) → some_row d s t transitions ≡ answer d (find_row s t transitions)
unfolding transitions
some_row-transitions d DealStatus.draft DealStatus.draft = refl
some_row-transitions d _ _ = ground arith

-- A status is listed by `getAvailableTransitions` exactly if `canTransition` accepts it, although
-- one keeps every row that fits and the other stops at the first.
pub Has-available_transitions :
    (d : Deal) (t : DealStatus) → Has t (available_transitions d) ↔ (can_transition d t ≡ true)
unfolding available_transitions can_transition
Has-available_transitions d t = (
  λ h.
      sym (some_row-transitions d d.status t)
      ∙ Has-available_rows→some_row d d.status t transitions h,
  answer→Has-available_rows d d.status t transitions,
)

stuck :
    (at now : ℕ) (d : Deal) (s t : DealStatus)
    → is_final_status s ≡ true
    → fire at now d t (find_row s t transitions) ≡ err TransitionError.invalid_transition
unfolding transitions is_final_status
stuck at now d DealStatus.completed t f = refl
stuck at now d DealStatus.cancelled t f = refl
stuck at now d DealStatus.refunded t f = refl
stuck at now d _ t f = cc

none_left :
    (d : Deal) (s : DealStatus) → is_final_status s ≡ true → available_rows d s transitions ≡ []
unfolding transitions is_final_status
none_left d DealStatus.completed f = refl
none_left d DealStatus.cancelled f = refl
none_left d DealStatus.refunded f = refl
none_left d _ f = cc

leaves :
    (d : Deal) (s : DealStatus) → is_active_status s ≡ true → available_rows d s transitions ≢ []
unfolding transitions is_active_status
leaves d DealStatus.draft f = ground arith
leaves d _ f = ground arith

-- In a final status every request is refused as an invalid transition and nothing is listed as
-- available; in an active status something is listed.
pub final_status_absorbs :
    (d : Deal)
    → ((is_final_status d.status ≡ true)
        → (available_transitions d ≡ [])
          × ((at now : ℕ) (t : DealStatus)
              → transition at now d t ≡ err TransitionError.invalid_transition))
      × ((is_active_status d.status ≡ true) → available_transitions d ≢ [])
unfolding transition available_transitions
final_status_absorbs d =
    (λ f. (none_left d d.status f, λ at now t. stuck at now d d.status t f), leaves d d.status)
