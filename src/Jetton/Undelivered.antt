-- ===== src/Jetton/Undelivered.antt =====
-- The intents of ton-jetton-action-intent.service.ts beside the events of
-- ton-jetton-transactional-application.service.ts (services/user-service/src/modules/deal).
use telegram_garant_contract.Common.{
  ℕ, true, not, Option, ok, >>=-eq-ok, throw_if-eq-ok, ok-injective, not-false, ◌≡◌, refl, sym, ◌∙◌,
  subst,
}
use telegram_garant_contract.Deal.{DealStatus}
use telegram_garant_contract.Deal.Machine.Laws.{status_eq→eq}
use telegram_garant_contract.Breaker.{Tables}
use telegram_garant_contract.Jetton.{
  TonJettonChainEventKind, TonJettonAction, TonJettonEscrowWatchStatus, watch_eq,
  TonJettonChainEvent, TonJettonApplicationDirective, TonJettonEscrowPreparation,
  TonJettonActionIntent, TonJettonEscrowWatch, Business,
}
use telegram_garant_contract.Jetton.Apply.{deal_status_after, next_watch_status, apply_locked}
use telegram_garant_contract.Jetton.Laws.{
  apply_locked-Applied, agrees, move_deal-status, watch_status_after-ok,
}
use telegram_garant_contract.Jetton.Stuck.{Reach, is_settling, in_progress_stuck}
use telegram_garant_contract.Jetton.Intents.{
  TonJettonActionIntentInput, ParsedActionBody, IntentError, integer, allowed_action,
  assert_action_allowed,
}

timeout-funded :
    (i : TonJettonActionIntentInput) (b : ParsedActionBody) (p : TonJettonEscrowPreparation)
    (w : TonJettonEscrowWatch) (to : TonJettonEscrowWatchStatus)
    → i.action ≡ TonJettonAction.refund_after_seller_timeout
    → assert_action_allowed i b p w ≡ ok to
    → watch_eq TonJettonEscrowWatchStatus.funded w.status ≡ true
unfolding assert_action_allowed allowed_action
timeout-funded i b p w to a h =
    let (x, _, h₁) = >>=-eq-ok (integer p.delivery_deadline) _ {b = to} h in
    let (y, _, h₂) = >>=-eq-ok (integer p.confirmation_deadline) _ {b = to} h₁ in
    let (m, _) =
      throw_if-eq-ok (not (watch_eq TonJettonEscrowWatchStatus.funded w.status))
        IntentError.wrong_state _ {b = to}
        (subst (λ z. allowed_action z i b p w.status x y ≡ ok to) a h₂) in
    not-false _ m

funded-in_progress :
    (w : TonJettonEscrowWatchStatus) (s : DealStatus)
    → watch_eq TonJettonEscrowWatchStatus.funded w ≡ true
    → agrees w s ≡ true
    → s ≡ DealStatus.in_progress
unfolding agrees
funded-in_progress TonJettonEscrowWatchStatus.funded s m a = status_eq→eq s DealStatus.in_progress a
funded-in_progress _ s m a = cc

-- Where the statuses of deal and watch agree and a refund is asked for because the seller did not deliver in
-- time, then once the settlement has started the deal stays in progress, and its settlement unfinished, in
-- every history of applied events.
pub timeout_refund_stuck :
    (i : TonJettonActionIntentInput) (body : ParsedActionBody) (q : TonJettonEscrowPreparation)
    (to : TonJettonEscrowWatchStatus) (now : ℕ) (t : Tables) (e : TonJettonChainEvent)
    (p : TonJettonEscrowPreparation) (d : TonJettonApplicationDirective)
    (found : Option TonJettonActionIntent) (b c after : Business)
    → i.action ≡ TonJettonAction.refund_after_seller_timeout
    → assert_action_allowed i body q b.watch ≡ ok to
    → agrees b.watch.status b.deal.status ≡ true
    → e.event_kind ≡ TonJettonChainEventKind.settlement_started
    → apply_locked now t e p d found b ≡ ok c
    → Reach c after
    → (is_settling after.watch.status ≡ true) × (after.deal.status ≡ DealStatus.in_progress)
timeout_refund_stuck i body q to now t e p d found b c after a h g k s r =
    let x = apply_locked-Applied now t e p d found b c s in
    let deal : b.deal.status ≡ DealStatus.in_progress =
      funded-in_progress b.watch.status b.deal.status (timeout-funded i body q b.watch to a h) g in
    let (_, n) = watch_status_after-ok e.event_kind d b.watch.status c.watch.status x.watched in
    let (moved, _) = move_deal-status e.event_kind now x.next b.deal c.deal x.moved in
    let aim = subst (λ z. deal_status_after z d b.deal.status ≡ ok x.next) k x.aimed in
    let same : b.deal.status ≡ x.next = unfold deal_status_after in ok-injective aim in
    let pending : TonJettonEscrowWatchStatus.settlement_pending ≡ c.watch.status =
      ok-injective (subst (λ z. next_watch_status z d ≡ ok c.watch.status) k n) in
    in_progress_stuck c after (subst (λ z. is_settling z ≡ true) pending refl)
      (moved ∙ sym same ∙ deal) r
