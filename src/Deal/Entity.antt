-- ===== src/Deal/Entity.antt =====
-- The methods of the entity `Deal` that speak of its status
-- (services/user-service/src/modules/deal/entities/deal.entity.ts), and its table of transitions
-- beside that of `DealStateMachine`.
use telegram_garant_contract.Common.{
  ℕ, Bool, true, false, ◌&&◌, Option, none, some, List, [], ◌∷◌, ◌≡◌, arith, any, if◌then◌else◌,
  is_some,
}
use telegram_garant_contract.Deal.{DealStatus, status_eq}
use telegram_garant_contract.Deal.Machine.{transitions, find_row}

pub data DealSide : Type 0 where
  buyer seller : DealSide

unfoldable pub can_be_cancelled : DealStatus → Bool
can_be_cancelled DealStatus.draft = true
can_be_cancelled DealStatus.pending_acceptance = true
can_be_cancelled DealStatus.pending_payment = true
can_be_cancelled _ = false

unfoldable pub can_be_confirmed : DealStatus → Bool
unfolding status_eq
can_be_confirmed s = status_eq s DealStatus.pending_confirmation

unfoldable pub can_be_disputed : DealStatus → Bool
can_be_disputed DealStatus.in_progress = true
can_be_disputed DealStatus.pending_confirmation = true
can_be_disputed _ = false

unfoldable pub active_side : DealStatus → Option DealSide
active_side DealStatus.pending_payment = some buyer
active_side DealStatus.in_progress = some seller
active_side DealStatus.pending_confirmation = some buyer
active_side _ = none

-- The row of `canTransitionTo` for a status.
abbrev pub targets : DealStatus → List DealStatus
targets DealStatus.draft = DealStatus.pending_acceptance ∷ DealStatus.cancelled ∷ []
targets DealStatus.pending_acceptance =
    DealStatus.in_progress ∷ DealStatus.pending_payment ∷ DealStatus.cancelled ∷ []
targets DealStatus.pending_payment =
    DealStatus.in_progress ∷ DealStatus.cancelled ∷ DealStatus.refunded ∷ []
targets DealStatus.in_progress =
    DealStatus.pending_confirmation ∷ DealStatus.disputed ∷ DealStatus.frozen ∷ []
targets DealStatus.pending_confirmation =
    DealStatus.completed ∷ DealStatus.disputed ∷ DealStatus.refunded ∷ []
targets DealStatus.completed = []
targets DealStatus.cancelled = []
targets DealStatus.refunded = []
targets DealStatus.disputed = DealStatus.dispute_resolved ∷ DealStatus.frozen ∷ []
targets DealStatus.dispute_resolved = DealStatus.completed ∷ DealStatus.refunded ∷ []
targets DealStatus.frozen = DealStatus.in_progress ∷ DealStatus.refunded ∷ []

unfoldable pub can_transition_to : DealStatus → DealStatus → Bool
unfolding status_eq
can_transition_to s t = any (λ u. status_eq u t) (targets s)

-- The entity's table and the machine's have the same pairs of statuses, guards aside, but for two:
-- the entity lets an unaccepted deal go in progress and the machine does not, and the machine lets a
-- deal in progress be refunded and the entity does not.
pub can_transition_to-find_row :
    (s t : DealStatus)
    → can_transition_to s t ≡ (
        if status_eq s DealStatus.pending_acceptance && status_eq t DealStatus.in_progress
        then true
        else if status_eq s DealStatus.in_progress && status_eq t DealStatus.refunded
        then false
        else is_some (find_row s t transitions))
unfolding can_transition_to transitions
can_transition_to-find_row DealStatus.draft t = ground arith
can_transition_to-find_row _ t = ground arith

-- `canBeCancelled` holds exactly where the machine has a row into the cancelled status,
-- `canBeConfirmed` only where it has one into the completed status, and `canBeDisputed` exactly where
-- it has one into the disputed status.
pub entity_tests :
    (s : DealStatus)
    → (can_be_cancelled s ≡ is_some (find_row s DealStatus.cancelled transitions))
      × (can_be_disputed s ≡ is_some (find_row s DealStatus.disputed transitions))
      × ((can_be_confirmed s ≡ true) → is_some (find_row s DealStatus.completed transitions) ≡ true)
unfolding can_be_cancelled can_be_disputed can_be_confirmed transitions
entity_tests DealStatus.draft = ground arith
entity_tests _ = ground arith

-- `getStatusProgress`: the place in the ordinary course, in whole per cent.
unfoldable pub status_progress : DealStatus → ℕ
status_progress DealStatus.pending_acceptance = 20
status_progress DealStatus.pending_payment = 40
status_progress DealStatus.in_progress = 60
status_progress DealStatus.pending_confirmation = 80
status_progress DealStatus.completed = 100
status_progress _ = 0
