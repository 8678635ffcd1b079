-- ===== src/Jetton/Stuck.antt =====
-- The histories of applied events
-- (services/user-service/src/modules/deal/ton-jetton-transactional-application.service.ts).
use telegram_garant_contract.Common.{
  ℕ, Bool, true, false, ◌||◌, Option, none, some, any, ok, ok-injective, ◌≡◌, refl, sym, ◌∙◌, subst,
  arith, ◌⊎◌, inl, inr,
}
use telegram_garant_contract.Deal.{DealStatus, status_eq}
use telegram_garant_contract.Deal.Entity.{can_transition_to}
use telegram_garant_contract.Breaker.{Tables}
use telegram_garant_contract.Jetton.{
  TonJettonChainEventKind, TonJettonEscrowWatchStatus, watch_eq, TonJettonSettlementOutcome,
  TonJettonChainEvent, TonJettonApplicationDirective, TonJettonEscrowPreparation,
  TonJettonActionIntent, Business,
}
use telegram_garant_contract.Jetton.Apply.{
  outcome_status, deal_status_after, expected_statuses, next_watch_status, apply_locked,
}
use telegram_garant_contract.Jetton.Laws.{
  apply_locked-Applied, move_deal-status, watch_status_after-ok,
}

-- What is reached by applying events, of any kinds, at any times and under any states of the breakers.
pub data Reach : Business → Business → Type 0 where
  here : {b : Business} → Reach b b
  next :
      {b c after : Business} (now : ℕ) (t : Tables) (e : TonJettonChainEvent)
      (p : TonJettonEscrowPreparation) (d : TonJettonApplicationDirective)
      (found : Option TonJettonActionIntent)
      → apply_locked now t e p d found b ≡ ok c
      → Reach c after
      → Reach b after

-- The settlement has begun and is not final.
abbrev pub is_settling : TonJettonEscrowWatchStatus → Bool
is_settling w =
    watch_eq w TonJettonEscrowWatchStatus.settlement_pending
    || watch_eq w TonJettonEscrowWatchStatus.recovery_required

in_progress-unsettled :
    (o : Option TonJettonSettlementOutcome) (n : DealStatus)
    → outcome_status o ≡ ok n
    → ((n ≡ DealStatus.in_progress) ⊎ (can_transition_to DealStatus.in_progress n ≡ true))
    → ⊥
unfolding can_transition_to status_eq
in_progress-unsettled none n h c = cc
in_progress-unsettled (some o) n h c = pick o n h c
  where
    false_true : false ≡ true → ⊥
    false_true h = cc

    pick :
        (o : TonJettonSettlementOutcome) (n : DealStatus)
        → outcome_status (some o) ≡ ok n
        → ((n ≡ DealStatus.in_progress) ⊎ (can_transition_to DealStatus.in_progress n ≡ true))
        → ⊥
    pick TonJettonSettlementOutcome.release n h (inl q) = cc
    pick TonJettonSettlementOutcome.release n h (inr q) =
        false_true
          (subst (λ x. can_transition_to DealStatus.in_progress x ≡ true) (sym (ok-injective h)) q)
    pick _ n h (inl q) = cc
    pick _ n h (inr q) =
        false_true
          (subst (λ x. can_transition_to DealStatus.in_progress x ≡ true) (sym (ok-injective h)) q)

stuck_step :
    (kind : TonJettonChainEventKind) (d : TonJettonApplicationDirective)
    (w u : TonJettonEscrowWatchStatus) (n : DealStatus)
    → is_settling w ≡ true
    → deal_status_after kind d DealStatus.in_progress ≡ ok n
    → ((n ≡ DealStatus.in_progress) ⊎ (can_transition_to DealStatus.in_progress n ≡ true))
    → any (λ x. watch_eq x w) (expected_statuses kind) ≡ true
    → next_watch_status kind d ≡ ok u
    → (is_settling u ≡ true) × (n ≡ DealStatus.in_progress)
unfolding deal_status_after
stuck_step TonJettonChainEventKind.funding_confirmed d w u n a h c m k = absurd (no w a m)
  where
    no :
        (w : TonJettonEscrowWatchStatus)
        → is_settling w ≡ true
        → any (λ x. watch_eq x w) (expected_statuses TonJettonChainEventKind.funding_confirmed)
          ≡ true
        → ⊥
    no w a m = ground arith
stuck_step TonJettonChainEventKind.mark_delivered d w u n a h c m k = absurd (no w a m)
  where
    no :
        (w : TonJettonEscrowWatchStatus)
        → is_settling w ≡ true
        → any (λ x. watch_eq x w) (expected_statuses TonJettonChainEventKind.mark_delivered) ≡ true
        → ⊥
    no w a m = ground arith
stuck_step TonJettonChainEventKind.open_dispute d w u n a h c m k = absurd (no w a m)
  where
    no :
        (w : TonJettonEscrowWatchStatus)
        → is_settling w ≡ true
        → any (λ x. watch_eq x w) (expected_statuses TonJettonChainEventKind.open_dispute) ≡ true
        → ⊥
    no w a m = ground arith
stuck_step TonJettonChainEventKind.settlement_started d w u n a h c m k = absurd (no w a m)
  where
    no :
        (w : TonJettonEscrowWatchStatus)
        → is_settling w ≡ true
        → any (λ x. watch_eq x w) (expected_statuses TonJettonChainEventKind.settlement_started)
          ≡ true
        → ⊥
    no w a m = ground arith
stuck_step TonJettonChainEventKind.payout_leg_reconciled d w u n a h c m k =
    (subst (λ x. is_settling x ≡ true) (ok-injective k) refl, sym (ok-injective h))
stuck_step TonJettonChainEventKind.recovery_required d w u n a h c m k =
    (subst (λ x. is_settling x ≡ true) (ok-injective k) refl, sym (ok-injective h))
stuck_step TonJettonChainEventKind.settlement_finalized d w u n a h c m k =
    absurd (in_progress-unsettled d.settlement_outcome n h c)

-- An event that is applied to a deal in progress whose settlement has begun leaves it so.
apply_locked-stuck :
    (now : ℕ) (t : Tables) (e : TonJettonChainEvent) (p : TonJettonEscrowPreparation)
    (d : TonJettonApplicationDirective) (found : Option TonJettonActionIntent) (b after : Business)
    → is_settling b.watch.status ≡ true
    → b.deal.status ≡ DealStatus.in_progress
    → apply_locked now t e p d found b ≡ ok after
    → (is_settling after.watch.status ≡ true) × (after.deal.status ≡ DealStatus.in_progress)
apply_locked-stuck now t e p d found b after w s h =
    let r = apply_locked-Applied now t e p d found b after h in
    let (m, k) = watch_status_after-ok e.event_kind d b.watch.status after.watch.status r.watched in
    let (q, c) = move_deal-status e.event_kind now r.next b.deal after.deal r.moved in
    let (x, y) =
      stuck_step e.event_kind d b.watch.status after.watch.status r.next w
        (subst (λ z. deal_status_after e.event_kind d z ≡ ok r.next) s r.aimed)
        (subst (λ z. (r.next ≡ z) ⊎ (can_transition_to z r.next ≡ true)) s c) m k in
    (x, q ∙ y)

-- A deal that is in progress when the settlement of its escrow begins stays in progress, and its settlement
-- unfinished, in every history of applied events: no event ever completes, refunds or resolves it.
pub in_progress_stuck :
    (b after : Business)
    → is_settling b.watch.status ≡ true
    → b.deal.status ≡ DealStatus.in_progress
    → Reach b after
    → (is_settling after.watch.status ≡ true) × (after.deal.status ≡ DealStatus.in_progress)
in_progress_stuck b after w s Reach.here = (w, s)
in_progress_stuck b after w s (Reach.next {c = c} now t e p d found h r) =
    let (x, y) = apply_locked-stuck now t e p d found b c w s h in in_progress_stuck c after x y r
