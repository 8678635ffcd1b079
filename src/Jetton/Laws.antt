-- ===== src/Jetton/Laws.antt =====
-- What an applied Jetton event does to the deal and to the watch
-- (services/user-service/src/modules/deal/ton-jetton-transactional-application.service.ts).
use telegram_garant_contract.Common.{
  not-false, ℕ, Bool, true, false, not, ◌&&◌, ◌||◌, Option, none, some, ltb, if◌then◌else◌, any,
  Result, ok, throw_if, ◌>>◌, >>=-eq-ok, throw_if-eq-ok, ok-injective, ◌≡◌, refl, sym, ap, ◌∙◌,
  subst, arith, ◌⊎◌, inl, inr,
}
use telegram_garant_contract.Deal.{DealStatus, Deal, status_eq}
use telegram_garant_contract.Deal.Entity.{can_transition_to}
use telegram_garant_contract.Deal.Machine.Laws.{status_eq→eq}
use telegram_garant_contract.Breaker.{Tables}
use telegram_garant_contract.Jetton.{
  TonJettonChainEventKind, TonJettonEscrowWatchStatus, watch_eq, watch_rank,
  TonJettonSettlementOutcome, TonJettonChainEvent, TonJettonApplicationDirective,
  TonJettonEscrowPreparation, TonJettonActionIntent, ApplyError, Business,
}
use telegram_garant_contract.Jetton.Postings.{apply_ledger}
use telegram_garant_contract.Jetton.Shape.{is_none}
use telegram_garant_contract.Jetton.Apply.{
  check_bindings, load_and_validate_intent, check_circuit, outcome_status, deal_status_after,
  saved_deal, move_deal, consume_intent, expected_statuses, next_watch_status, watch_status_after,
  apply_locked,
}

-- The steps of an application that succeeds.
pub record Applied (now : ℕ) (t : Tables) (e : TonJettonChainEvent) (p : TonJettonEscrowPreparation)
    (d : TonJettonApplicationDirective) (found : Option TonJettonActionIntent) (b after : Business)
    : Type 0 where
  pub bound : check_bindings e p b ≡ ok tt
  pub intent : Option TonJettonActionIntent
  pub loaded : load_and_validate_intent e p found ≡ ok intent
  pub allowed : check_circuit d.event_kind t ≡ ok tt
  pub posted : apply_ledger e p d intent b.ledger ≡ ok after.ledger
  pub next : DealStatus
  pub aimed : deal_status_after e.event_kind d b.deal.status ≡ ok next
  pub moved : move_deal e.event_kind now next b.deal ≡ ok after.deal
  pub consumed : consume_intent intent e b.consumptions ≡ ok after.consumptions
  pub watched : watch_status_after e.event_kind d b.watch.status ≡ ok after.watch.status

pub apply_locked-Applied :
    (now : ℕ) (t : Tables) (e : TonJettonChainEvent) (p : TonJettonEscrowPreparation)
    (d : TonJettonApplicationDirective) (found : Option TonJettonActionIntent) (b after : Business)
    → apply_locked now t e p d found b ≡ ok after
    → Applied now t e p d found b after
unfolding apply_locked
apply_locked-Applied now t e p d found b after h =
    let (u, hu, h₁) = >>=-eq-ok (check_bindings e p b) _ {b = after} h in
    let (i, hi, h₂) = >>=-eq-ok (load_and_validate_intent e p found) _ {b = after} h₁ in
    let (v, hv, h₃) = >>=-eq-ok (check_circuit d.event_kind t) _ {b = after} h₂ in
    let (l, hl, h₄) = >>=-eq-ok (apply_ledger e p d i b.ledger) _ {b = after} h₃ in
    let (n, hn, h₅) = >>=-eq-ok (deal_status_after e.event_kind d b.deal.status) _ {b = after} h₄ in
    let (m, hm, h₆) = >>=-eq-ok (move_deal e.event_kind now n b.deal) _ {b = after} h₅ in
    let (c, hc, h₇) = >>=-eq-ok (consume_intent i e b.consumptions) _ {b = after} h₆ in
    let (s, hs, h₈) =
      >>=-eq-ok (watch_status_after e.event_kind d b.watch.status) _ {b = after} h₇ in
    subst (Applied now t e p d found b) (ok-injective h₈) (record {
      bound = hu;
      intent = i;
      loaded = hi;
      allowed = hv;
      posted = hl;
      next = n;
      aimed = hn;
      moved = hm;
      consumed = hc;
      watched = hs;
    })

-- The status of the deal agrees with that of the watch.
unfoldable pub agrees : TonJettonEscrowWatchStatus → DealStatus → Bool
agrees TonJettonEscrowWatchStatus.funded s = status_eq s DealStatus.in_progress
agrees TonJettonEscrowWatchStatus.delivered s = status_eq s DealStatus.pending_confirmation
agrees TonJettonEscrowWatchStatus.disputed s = status_eq s DealStatus.disputed
agrees TonJettonEscrowWatchStatus.settlement_pending s =
    status_eq s DealStatus.in_progress
    || status_eq s DealStatus.pending_confirmation
    || status_eq s DealStatus.disputed
agrees TonJettonEscrowWatchStatus.recovery_required s =
    status_eq s DealStatus.in_progress
    || status_eq s DealStatus.pending_confirmation
    || status_eq s DealStatus.disputed
agrees TonJettonEscrowWatchStatus.settled_finalized s =
    status_eq s DealStatus.completed
    || status_eq s DealStatus.refunded
    || status_eq s DealStatus.dispute_resolved
agrees _ s = true

-- A deal that was moved has the status that was aimed at, which its own status permits.
pub move_deal-status :
    (kind : TonJettonChainEventKind) (now : ℕ) (next : DealStatus) (deal after : Deal)
    → move_deal kind now next deal ≡ ok after
    → (after.status ≡ next) × ((next ≡ deal.status) ⊎ (can_transition_to deal.status next ≡ true))
unfolding move_deal
move_deal-status kind now next deal after h = pick (status_eq next deal.status) refl h
  where
    step : Result ApplyError Deal
    step =
        throw_if (not (can_transition_to deal.status next)) ApplyError.deal_transition_invalid
        >> ok (saved_deal kind now next deal)

    pick :
        (c : Bool)
        → status_eq next deal.status ≡ c
        → (if c then ok deal else step) ≡ ok after
        → (after.status ≡ next)
          × ((next ≡ deal.status) ⊎ (can_transition_to deal.status next ≡ true))
    pick true same k =
        let here : next ≡ deal.status = status_eq→eq next deal.status same in
        (sym (ap (λ (x : Deal). x.status) (ok-injective k)) ∙ sym here, inl here)
    pick false other k =
        let (x, m) =
          throw_if-eq-ok (not (can_transition_to deal.status next))
            ApplyError.deal_transition_invalid (ok (saved_deal kind now next deal)) {b = after} k in
        (sym (ap (λ (x : Deal). x.status) (ok-injective m)), inr (not-false _ x))

pub watch_status_after-ok :
    (kind : TonJettonChainEventKind) (d : TonJettonApplicationDirective)
    (w u : TonJettonEscrowWatchStatus)
    → watch_status_after kind d w ≡ ok u
    → (any (λ s. watch_eq s w) (expected_statuses kind) ≡ true) × (next_watch_status kind d ≡ ok u)
unfolding watch_status_after
watch_status_after-ok kind d w u h =
    let (x, k) =
      throw_if-eq-ok (not (any (λ s. watch_eq s w) (expected_statuses kind)))
        ApplyError.watch_transition_invalid (next_watch_status kind d) {b = u} h in
    (not-false _ x, k)

-- What agrees with a watch whose settlement is open.
pub agrees-pending :
    (w : TonJettonEscrowWatchStatus) (s : DealStatus)
    → (ltb 0 (watch_rank w) && ltb (watch_rank w) 6) ≡ true
    → agrees w s ≡ true
    → agrees TonJettonEscrowWatchStatus.settlement_pending s ≡ true
unfolding agrees
agrees-pending TonJettonEscrowWatchStatus.awaiting_funding s r h = ground arith
agrees-pending _ s r h = ground arith

outcome_status-agrees :
    (o : Option TonJettonSettlementOutcome) (n : DealStatus)
    → outcome_status o ≡ ok n
    → agrees TonJettonEscrowWatchStatus.settled_finalized n ≡ true
unfolding agrees status_eq
outcome_status-agrees none n h = cc
outcome_status-agrees (some TonJettonSettlementOutcome.release) n h =
    subst (λ x. agrees TonJettonEscrowWatchStatus.settled_finalized x ≡ true) (ok-injective h) refl
outcome_status-agrees (some TonJettonSettlementOutcome.refund) n h =
    subst (λ x. agrees TonJettonEscrowWatchStatus.settled_finalized x ≡ true) (ok-injective h) refl
outcome_status-agrees (some TonJettonSettlementOutcome.resolution) n h =
    subst (λ x. agrees TonJettonEscrowWatchStatus.settled_finalized x ≡ true) (ok-injective h) refl

both :
    {u v : TonJettonEscrowWatchStatus} {s n : DealStatus}
    → u ≡ v
    → s ≡ n
    → agrees u s ≡ true
    → agrees v n ≡ true
both {u} {v} {s} {n} p q h = subst (λ x. agrees v x ≡ true) q (subst (λ x. agrees x s ≡ true) p h)

step_agrees :
    (kind : TonJettonChainEventKind) (d : TonJettonApplicationDirective)
    (w u : TonJettonEscrowWatchStatus) (s n : DealStatus)
    → agrees w s ≡ true
    → deal_status_after kind d s ≡ ok n
    → any (λ x. watch_eq x w) (expected_statuses kind) ≡ true
    → next_watch_status kind d ≡ ok u
    → agrees u n ≡ true
unfolding deal_status_after status_eq
step_agrees TonJettonChainEventKind.funding_confirmed d w u s n a h m k =
    both (ok-injective k) (ok-injective h) (unfold agrees in refl)
step_agrees TonJettonChainEventKind.mark_delivered d w u s n a h m k =
    both (ok-injective k) (ok-injective h) (unfold agrees in refl)
step_agrees TonJettonChainEventKind.open_dispute d w u s n a h m k =
    both (ok-injective k) (ok-injective h) (unfold agrees in refl)
step_agrees TonJettonChainEventKind.settlement_started d w u s n a h m k =
    both (ok-injective k) (ok-injective h) (agrees-pending w s (ground arith) a)
step_agrees TonJettonChainEventKind.payout_leg_reconciled d w u s n a h m k =
    both (ok-injective k) (ok-injective h) (agrees-pending w s (ground arith) a)
step_agrees TonJettonChainEventKind.recovery_required d w u s n a h m k =
    both (ok-injective k) (ok-injective h) (unfold agrees in agrees-pending w s (ground arith) a)
step_agrees TonJettonChainEventKind.settlement_finalized d w u s n a h m k =
    let (x, q) =
      throw_if-eq-ok (is_none d.settlement_outcome) ApplyError.settlement_outcome_missing
        (ok TonJettonEscrowWatchStatus.settled_finalized) {b = u} k in
    both (ok-injective q) refl (outcome_status-agrees d.settlement_outcome n h)

-- An applied event keeps the agreement of the deal's status with the watch's: a funded escrow is in
-- progress, a delivered one awaits confirmation, a disputed one is disputed, one that is being settled or
-- recovered is one of these, and a settled one is completed, refunded or resolved.
pub apply_locked-agrees :
    (now : ℕ) (t : Tables) (e : TonJettonChainEvent) (p : TonJettonEscrowPreparation)
    (d : TonJettonApplicationDirective) (found : Option TonJettonActionIntent) (b after : Business)
    → agrees b.watch.status b.deal.status ≡ true
    → apply_locked now t e p d found b ≡ ok after
    → agrees after.watch.status after.deal.status ≡ true
apply_locked-agrees now t e p d found b after a h =
    let r = apply_locked-Applied now t e p d found b after h in
    let (m, k) = watch_status_after-ok e.event_kind d b.watch.status after.watch.status r.watched in
    let (s, _) = move_deal-status e.event_kind now r.next b.deal after.deal r.moved in
    both refl (sym s) (
      step_agrees e.event_kind d b.watch.status after.watch.status b.deal.status r.next a r.aimed m
        k)
