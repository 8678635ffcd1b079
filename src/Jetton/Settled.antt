-- ===== src/Jetton/Settled.antt =====
-- The statuses before a Jetton escrow is settled, and the events behind that
-- (services/user-service/src/modules/deal/ton-jetton-transactional-application.service.ts).
use telegram_garant_contract.Common.{
  ℕ, true, false, ◌&&◌, Option, some, ltb, any, Result, ok, err, is_ok, ok-injective, ◌≡◌, ◌≤◌,
  refl, sym, ◌∙◌, subst, arith, ◌⊎◌, inl, inr,
}
use telegram_garant_contract.Deal.{DealStatus, status_eq}
use telegram_garant_contract.Deal.Entity.{can_transition_to}
use telegram_garant_contract.Breaker.{Tables}
use telegram_garant_contract.Jetton.{
  TonJettonChainEventKind, TonJettonEscrowWatchStatus, watch_eq, watch_rank,
  TonJettonSettlementOutcome, TonJettonChainEvent, TonJettonApplicationDirective,
  TonJettonEscrowPreparation, TonJettonActionIntent, ApplyError, Business,
}
use telegram_garant_contract.Jetton.Apply.{
  outcome_status, deal_status_after, expected_statuses, apply_locked,
}
use telegram_garant_contract.Jetton.Laws.{
  apply_locked-Applied, agrees, agrees-pending, move_deal-status, watch_status_after-ok,
}

-- The status that a deal has before it is settled with an outcome.
abbrev pub settled_from : TonJettonSettlementOutcome → DealStatus
settled_from TonJettonSettlementOutcome.resolution = DealStatus.disputed
settled_from _ = DealStatus.pending_confirmation

abbrev final_status : TonJettonSettlementOutcome → DealStatus
final_status TonJettonSettlementOutcome.release = DealStatus.completed
final_status TonJettonSettlementOutcome.refund = DealStatus.refunded
final_status TonJettonSettlementOutcome.resolution = DealStatus.dispute_resolved

outcome_status-final :
    (o : TonJettonSettlementOutcome) → outcome_status (some o) ≡ ok (final_status o)
outcome_status-final TonJettonSettlementOutcome.release = refl
outcome_status-final _ = refl

moved_from :
    (o : TonJettonSettlementOutcome) (s : DealStatus)
    → agrees TonJettonEscrowWatchStatus.settlement_pending s ≡ true
    → can_transition_to s (final_status o) ≡ true
    → s ≡ settled_from o
unfolding agrees status_eq can_transition_to
moved_from TonJettonSettlementOutcome.release DealStatus.draft a c = ground arith
moved_from TonJettonSettlementOutcome.release _ a c = ground arith
moved_from TonJettonSettlementOutcome.refund DealStatus.draft a c = ground arith
moved_from TonJettonSettlementOutcome.refund _ a c = ground arith
moved_from TonJettonSettlementOutcome.resolution DealStatus.draft a c = ground arith
moved_from TonJettonSettlementOutcome.resolution _ a c = ground arith

-- No settled status is one of a deal whose settlement is open.
not_settled :
    (o : TonJettonSettlementOutcome)
    → agrees TonJettonEscrowWatchStatus.settlement_pending (final_status o) ≡ true
    → ⊥
unfolding agrees status_eq
not_settled TonJettonSettlementOutcome.release a = cc
not_settled _ a = cc

settled_source :
    (o : TonJettonSettlementOutcome) (s n : DealStatus)
    → outcome_status (some o) ≡ ok n
    → agrees TonJettonEscrowWatchStatus.settlement_pending s ≡ true
    → ((n ≡ s) ⊎ (can_transition_to s n ≡ true))
    → s ≡ settled_from o
settled_source o s n h a c =
    let final : n ≡ final_status o = sym (ok-injective (sym (outcome_status-final o) ∙ h)) in
    elim c [
      | inl same ↦ absurd (
          not_settled o (
            subst (λ x. agrees TonJettonEscrowWatchStatus.settlement_pending x ≡ true)
              (sym same ∙ final) a))
      | inr may ↦ moved_from o s a (subst (λ x. can_transition_to s x ≡ true) final may)
    ]

-- Where the statuses of deal and watch agree, a settlement is finalised with a release or a refund only for
-- a deal that awaits confirmation, and with a resolution only for a disputed one: for a deal that is still
-- in progress, a release and a refund throw.
pub settlement_finalized_from :
    (now : ℕ) (t : Tables) (e : TonJettonChainEvent) (p : TonJettonEscrowPreparation)
    (d : TonJettonApplicationDirective) (found : Option TonJettonActionIntent) (b after : Business)
    (o : TonJettonSettlementOutcome)
    → agrees b.watch.status b.deal.status ≡ true
    → e.event_kind ≡ TonJettonChainEventKind.settlement_finalized
    → d.settlement_outcome ≡ some o
    → apply_locked now t e p d found b ≡ ok after
    → b.deal.status ≡ settled_from o
settlement_finalized_from now t e p d found b after o a k q h =
    let r = apply_locked-Applied now t e p d found b after h in
    let (m, _) = watch_status_after-ok e.event_kind d b.watch.status after.watch.status r.watched in
    let (_, c) = move_deal-status e.event_kind now r.next b.deal after.deal r.moved in
    let aimed = subst (λ x. deal_status_after x d b.deal.status ≡ ok r.next) k r.aimed in
    settled_source o b.deal.status r.next
      (subst (λ x. outcome_status x ≡ ok r.next) q (unfold deal_status_after in aimed))
      (agrees-pending b.watch.status b.deal.status
        (pending b.watch.status
          (subst (λ x. any (λ s. watch_eq s b.watch.status) (expected_statuses x) ≡ true) k m))
        a)
      c
  where
    pending :
        (w : TonJettonEscrowWatchStatus)
        → any (λ s. watch_eq s w) (expected_statuses TonJettonChainEventKind.settlement_finalized)
          ≡ true
        → (ltb 0 (watch_rank w) && ltb (watch_rank w) 6) ≡ true
    pending w h = ground arith

-- No event can be applied to an escrow that is settled, superseded or in manual review.
pub apply_locked-closed :
    (now : ℕ) (t : Tables) (e : TonJettonChainEvent) (p : TonJettonEscrowPreparation)
    (d : TonJettonApplicationDirective) (found : Option TonJettonActionIntent) (b : Business)
    → 6 ≤ watch_rank b.watch.status
    → is_ok (apply_locked now t e p d found b) ≡ false
apply_locked-closed now t e p d found b w = pick (apply_locked now t e p d found b) refl
  where
    closed :
        (kind : TonJettonChainEventKind)
        → any (λ s. watch_eq s b.watch.status) (expected_statuses kind) ≡ false
    closed TonJettonChainEventKind.funding_confirmed = ground arith
    closed _ = ground arith

    pick : (r : Result ApplyError Business) → apply_locked now t e p d found b ≡ r → is_ok r ≡ false
    pick (err x) h = refl
    pick (ok after) h =
        let r = apply_locked-Applied now t e p d found b after h in
        sym (watch_status_after-ok e.event_kind d b.watch.status after.watch.status r.watched).0
        ∙ closed e.event_kind
