-- ===== src/Deal/Machine/History.antt =====
-- Histories of a deal under `DealStateMachine`
-- (services/user-service/src/modules/deal/fsm/deal-state-machine.ts): transitions of the machine, and
-- between them writes of other fields, which leave the status and the date of payment alone. Services
-- that write the status themselves are not steps here: the application of Jetton events
-- (ton-jetton-transactional-application.service.ts, modelled in Jetton) moves a deal to in progress and
-- leaves paidAt null, and deal.service.ts writes some statuses without the machine.
use telegram_garant_contract.Common.{
  ℕ, true, Option, none, some, ◌≡◌, refl, sym, ◌∙◌, arith, ok, subst, is_ok→ok, is_some,
}
use telegram_garant_contract.Deal.{Deal, DealStatus}
use telegram_garant_contract.Deal.Machine.{transition, is_final_status, transitions, fire, find_row}
use telegram_garant_contract.Deal.Machine.Edges.{Edge, transition-Edge}
use telegram_garant_contract.Deal.Machine.Laws.{transition-Applied}

-- Transitions of the machine, and writes that leave status and date of payment alone.
pub data Reach (d : Deal) : Deal → Type 0 where
  here : Reach d d
  move :
      {e f : Deal} (at now : ℕ) (t : DealStatus)
      → Reach d e
      → transition at now e t ≡ ok f
      → Reach d f
  edit : {e f : Deal} → Reach d e → f.status ≡ e.status → f.paid_at ≡ e.paid_at → Reach d f

-- What a status says of the date of payment: none before the payment and after a cancellation,
-- some one from the payment on. A refunded deal may be either.
abbrev pub PaidFor : DealStatus → Option ℕ → Type 0
PaidFor DealStatus.draft p = p ≡ none
PaidFor DealStatus.pending_acceptance p = p ≡ none
PaidFor DealStatus.pending_payment p = p ≡ none
PaidFor DealStatus.cancelled p = p ≡ none
PaidFor DealStatus.refunded p = Unit
PaidFor _ p = is_some p ≡ true

abbrev pub IsPaidRight : Deal → Type 0
IsPaidRight d = PaidFor d.status d.paid_at

PaidFor-fire :
    (at now : ℕ) (d e : Deal) (s t : DealStatus)
    → PaidFor s d.paid_at
    → fire at now d t (find_row s t transitions) ≡ ok e
    → PaidFor t e.paid_at
unfolding transitions
PaidFor-fire at now d e DealStatus.draft t p h = ground arith
PaidFor-fire at now d e _ t p h = ground arith

transition-IsPaidRight :
    (at now : ℕ) (d e : Deal) (t : DealStatus)
    → IsPaidRight d
    → transition at now d t ≡ ok e
    → IsPaidRight e
unfolding transition
transition-IsPaidRight at now d e t p h =
    subst (λ s. PaidFor s e.paid_at) (sym (transition-Applied at now d t h).moved)
      (PaidFor-fire at now d e d.status t p h)

-- If the date of payment of a deal agrees with its status, it does so after every sequence of
-- transitions of the machine and of writes that leave status and date of payment alone: it is null
-- before the payment and in a cancelled deal, and set in a deal that is in progress, awaits
-- confirmation, is disputed, resolved, frozen or completed.
pub Reach-IsPaidRight : {d e : Deal} → IsPaidRight d → Reach d e → IsPaidRight e
Reach-IsPaidRight p here = p
Reach-IsPaidRight p (move {e} {f} at now t r h) =
    transition-IsPaidRight at now e f t (Reach-IsPaidRight p r) h
Reach-IsPaidRight p (edit {e} {f} r s q) =
    subst (PaidFor f.status) (sym q)
      (subst (λ u. PaidFor u e.paid_at) (sym s) (Reach-IsPaidRight p r))

paid_once :
    (at now : ℕ) (d e : Deal) (s t : DealStatus) (w : ℕ)
    → PaidFor s d.paid_at
    → d.paid_at ≡ some w
    → fire at now d t (find_row s t transitions) ≡ ok e
    → e.paid_at ≡ some w
unfolding transitions
paid_once at now d e DealStatus.draft t w p q h = ground arith
paid_once at now d e _ t w p q h = ground arith

-- If the date of payment of a deal agrees with its status and is set, no later transition of the
-- machine replaces or clears it, whatever freezing and unfreezing lies between; the writes between the
-- transitions leave status and date of payment alone.
pub Reach-paid_at :
    {d e : Deal} (w : ℕ) → IsPaidRight d → d.paid_at ≡ some w → Reach d e → e.paid_at ≡ some w
unfolding transition
Reach-paid_at w p q here = q
Reach-paid_at w p q (move {e} {f} at now t r h) =
    paid_once at now e f e.status t w (Reach-IsPaidRight p r) (Reach-paid_at w p q r) h
Reach-paid_at w p q (edit {e} {f} r s u) = u ∙ Reach-paid_at w p q r

-- Transitions of the machine and nothing else, the first one first.
pub data Moves : Deal → Deal → Type 0 where
  stay : {d : Deal} → Moves d d
  step_to :
      {d e f : Deal} (at now : ℕ) (t : DealStatus)
      → transition at now d t ≡ ok e
      → Moves e f
      → Moves d f

-- A transition along a row of the table, made.
step :
    (at now : ℕ) (d : Deal) {s t : DealStatus}
    → d.status ≡ s
    → Edge d s t
    → (e : Deal) × (transition at now d t ≡ ok e) × (e.status ≡ t)
step at now d {s} {t} q g =
    let edge = subst (λ u. Edge d u t) (sym q) g in
    let (e, h) = is_ok→ok (transition at now d t) ((transition-Edge at now d t).1 edge) in
    (e, h, (transition-Applied at now d t h).moved)

one_step :
    (at now : ℕ) (d : Deal) {s : DealStatus} (t : DealStatus)
    → is_final_status t ≡ true
    → d.status ≡ s
    → Edge d s t
    → (e : Deal) × Moves d e × (is_final_status e.status ≡ true)
one_step at now d t f q g =
    let (e, h, m) = step at now d q g in (e, Moves.step_to at now t h stay, rw m f)

ends :
    (at now : ℕ) (d : Deal) (s : DealStatus)
    → d.status ≡ s
    → (e : Deal) × Moves d e × (is_final_status e.status ≡ true)
unfolding is_final_status
ends at now d DealStatus.draft q = one_step at now d _ refl q Edge.discard
ends at now d DealStatus.pending_acceptance q = one_step at now d _ refl q Edge.decline
ends at now d DealStatus.pending_payment q = one_step at now d _ refl q Edge.refund_pending
ends at now d DealStatus.in_progress q = one_step at now d _ refl q Edge.refund_progress
ends at now d DealStatus.pending_confirmation q = one_step at now d _ refl q Edge.refund_delivery
ends at now d DealStatus.dispute_resolved q = one_step at now d _ refl q Edge.award_buyer
ends at now d DealStatus.frozen q = one_step at now d _ refl q Edge.refund_frozen
ends at now d DealStatus.disputed q =
    let (e, h, m) = step at now d q Edge.resolve in
    let (f, r, z) = one_step at now e DealStatus.refunded refl m Edge.award_buyer in
    (f, Moves.step_to at now DealStatus.dispute_resolved h r, z)
ends at now d DealStatus.completed q = (d, stay, rw q)
ends at now d DealStatus.cancelled q = (d, stay, rw q)
ends at now d DealStatus.refunded q = (d, stay, rw q)

-- From every deal, whatever its status and its other fields, transitions of the machine alone lead to a
-- final status.
pub Moves-final_status :
    (at now : ℕ) (d : Deal) → (e : Deal) × Moves d e × (is_final_status e.status ≡ true)
Moves-final_status at now d = ends at now d d.status refl
