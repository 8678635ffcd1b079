-- ===== src/Jetton/Owed.antt =====
-- The payouts that `expectedPayout` plans, beside what the preparation and the intent owe
-- (services/user-service/src/modules/deal/ton-jetton-transactional-application.service.ts).
use telegram_garant_contract.Common.{
  codes, or_throw, or_throw-eq-ok, Text, Option, none, some, ok, >>=-eq-ok, ok-injective, ◌≡◌, refl,
  subst,
}
use telegram_garant_contract.Native.Executed.{truthy_text→some}
use telegram_garant_contract.Jetton.{
  TonJettonSettlementOutcome, TonJettonPayoutLeg, TonJettonApplicationDirective,
  TonJettonEscrowPreparation, TonJettonActionIntent, ApplyError,
}
use telegram_garant_contract.Jetton.Postings.{
  ExpectedPayout, buyer_award, seller_award, planned_payout, expected_payout,
}

-- What is owed at the end of an escrow, by outcome and leg: the amount, the address and the ledger account.
pub data IsOwed (p : TonJettonEscrowPreparation) (i : Option TonJettonActionIntent)
    : TonJettonSettlementOutcome → TonJettonPayoutLeg → Text → Text → Text → Type 0 where
  released :
      IsOwed p i TonJettonSettlementOutcome.release TonJettonPayoutLeg.seller p.seller_payout_atomic
        p.seller_address
        (codes "external_seller_usdt_ton")
  release_fee :
      IsOwed p i TonJettonSettlementOutcome.release TonJettonPayoutLeg.treasury
        p.platform_fee_atomic p.treasury_address
        (codes "platform_treasury_usdt_ton")
  refunded :
      IsOwed p i TonJettonSettlementOutcome.refund TonJettonPayoutLeg.buyer p.refund_to_buyer_atomic
        p.buyer_address
        (codes "external_buyer_usdt_ton")
  refund_fee :
      IsOwed p i TonJettonSettlementOutcome.refund TonJettonPayoutLeg.treasury p.refund_fee_atomic
        p.treasury_address
        (codes "platform_treasury_usdt_ton")
  awarded_to_buyer :
      (j : TonJettonActionIntent) (award : Text)
      → i ≡ some j
      → j.buyer_award_atomic ≡ some award
      → IsOwed p i TonJettonSettlementOutcome.resolution TonJettonPayoutLeg.buyer award
          p.buyer_address
          (codes "external_buyer_usdt_ton")
  awarded_to_seller :
      (j : TonJettonActionIntent) (award : Text)
      → i ≡ some j
      → j.seller_award_atomic ≡ some award
      → IsOwed p i TonJettonSettlementOutcome.resolution TonJettonPayoutLeg.seller award
          p.seller_address
          (codes "external_seller_usdt_ton")
  resolution_fee :
      IsOwed p i TonJettonSettlementOutcome.resolution TonJettonPayoutLeg.treasury
        p.platform_fee_atomic p.treasury_address
        (codes "platform_treasury_usdt_ton")

-- A planned payout is what is owed.
abbrev pub AsOwed :
    TonJettonEscrowPreparation
    → Option TonJettonActionIntent
    → TonJettonSettlementOutcome
    → TonJettonPayoutLeg
    → ExpectedPayout
    → Type 0
AsOwed p i o l x = IsOwed p i o l x.amount_atomic x.destination_address x.credit_account

buyer_award-some :
    (i : Option TonJettonActionIntent) (t : Text)
    → buyer_award i ≡ some t
    → (j : TonJettonActionIntent) × (i ≡ some j) × (j.buyer_award_atomic ≡ some t)
buyer_award-some none t h = cc
buyer_award-some (some j) t h = (j, refl, truthy_text→some j.buyer_award_atomic t h)

seller_award-some :
    (i : Option TonJettonActionIntent) (t : Text)
    → seller_award i ≡ some t
    → (j : TonJettonActionIntent) × (i ≡ some j) × (j.seller_award_atomic ≡ some t)
seller_award-some none t h = cc
seller_award-some (some j) t h = (j, refl, truthy_text→some j.seller_award_atomic t h)

planned_payout-AsOwed :
    (p : TonJettonEscrowPreparation) (i : Option TonJettonActionIntent)
    (o : TonJettonSettlementOutcome) (l : TonJettonPayoutLeg) (x : ExpectedPayout)
    → planned_payout p i o l ≡ ok x
    → AsOwed p i o l x
unfolding planned_payout
planned_payout-AsOwed p i TonJettonSettlementOutcome.release TonJettonPayoutLeg.seller x h =
    subst (AsOwed p i TonJettonSettlementOutcome.release TonJettonPayoutLeg.seller) (ok-injective h)
      IsOwed.released
planned_payout-AsOwed p i TonJettonSettlementOutcome.release TonJettonPayoutLeg.treasury x h =
    subst (AsOwed p i TonJettonSettlementOutcome.release TonJettonPayoutLeg.treasury)
      (ok-injective h) IsOwed.release_fee
planned_payout-AsOwed p i TonJettonSettlementOutcome.refund TonJettonPayoutLeg.buyer x h =
    subst (AsOwed p i TonJettonSettlementOutcome.refund TonJettonPayoutLeg.buyer) (ok-injective h)
      IsOwed.refunded
planned_payout-AsOwed p i TonJettonSettlementOutcome.refund TonJettonPayoutLeg.treasury x h =
    subst (AsOwed p i TonJettonSettlementOutcome.refund TonJettonPayoutLeg.treasury)
      (ok-injective h) IsOwed.refund_fee
planned_payout-AsOwed p i TonJettonSettlementOutcome.resolution TonJettonPayoutLeg.treasury x h =
    subst (AsOwed p i TonJettonSettlementOutcome.resolution TonJettonPayoutLeg.treasury)
      (ok-injective h) IsOwed.resolution_fee
planned_payout-AsOwed p i TonJettonSettlementOutcome.resolution TonJettonPayoutLeg.buyer x h =
    let (t, ht, k) =
      >>=-eq-ok (or_throw (buyer_award i) ApplyError.resolution_plan_missing) _ {b = x} h in
    let (j, q, r) =
      buyer_award-some i t (or_throw-eq-ok (buyer_award i) ApplyError.resolution_plan_missing ht) in
    subst (AsOwed p i TonJettonSettlementOutcome.resolution TonJettonPayoutLeg.buyer)
      (ok-injective k) (IsOwed.awarded_to_buyer j t q r)
planned_payout-AsOwed p i TonJettonSettlementOutcome.resolution TonJettonPayoutLeg.seller x h =
    let (t, ht, k) =
      >>=-eq-ok (or_throw (seller_award i) ApplyError.resolution_plan_missing) _ {b = x} h in
    let (j, q, r) =
      seller_award-some i t
        (or_throw-eq-ok (seller_award i) ApplyError.resolution_plan_missing ht) in
    subst (AsOwed p i TonJettonSettlementOutcome.resolution TonJettonPayoutLeg.seller)
      (ok-injective k) (IsOwed.awarded_to_seller j t q r)
planned_payout-AsOwed p i TonJettonSettlementOutcome.release TonJettonPayoutLeg.buyer x h = cc
planned_payout-AsOwed p i TonJettonSettlementOutcome.refund TonJettonPayoutLeg.seller x h = cc

pub expected_payout-AsOwed :
    (p : TonJettonEscrowPreparation) (i : Option TonJettonActionIntent)
    (d : TonJettonApplicationDirective) (x : ExpectedPayout)
    → expected_payout p i d ≡ ok x
    → (o : TonJettonSettlementOutcome) × (d.settlement_outcome ≡ some o)
      × ((l : TonJettonPayoutLeg) × (d.payout_leg ≡ some l) × AsOwed p i o l x)
unfolding expected_payout
expected_payout-AsOwed p i d x h =
    let (o, ho, h₁) =
      >>=-eq-ok (or_throw d.settlement_outcome ApplyError.payout_plan_missing) _ {b = x} h in
    let (l, hl, h₂) =
      >>=-eq-ok (or_throw d.payout_leg ApplyError.payout_plan_missing) _ {b = x} h₁ in
    (
      o,
      or_throw-eq-ok d.settlement_outcome ApplyError.payout_plan_missing ho,
      (
        l,
        or_throw-eq-ok d.payout_leg ApplyError.payout_plan_missing hl,
        planned_payout-AsOwed p i o l x h₂,
      ),
    )
