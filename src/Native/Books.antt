-- ===== src/Native/Books.antt =====
-- `applyLockedEvent` of services/user-service/src/modules/deal/ton-native-lifecycle-ingestion.service.ts: the
-- entry of an accepted event that ends the escrow.
use mathlib.Core.List.Perm
use mathlib.Core.List.{Perm}
use telegram_garant_contract.Common.{
  some-injective, ℕ, List, [], ◌∷◌, map, Text, Option, none, some, ◌==◌, if◌then◌else◌, ok,
  or_throw, >>=-eq-ok, or_throw-eq-ok, ok-injective, ◌≡◌, refl, sym, ap, ◌∙◌, subst, codes,
  Bool-cases, inl, inr,
}
use telegram_garant_contract.Decimal.{value, to_text}
use telegram_garant_contract.Decimal.RoundTrip.{value-to_text, is_digits-to_text}
use telegram_garant_contract.Native.{
  TonNativeLifecycleAction, TonCenterTransaction, TonNativeEscrowPreparation,
  TonNativeLifecycleIntent, Reason, Validation,
}
use telegram_garant_contract.Native.Cells.{Cells}
use telegram_garant_contract.Native.Payouts.{
  Payout, expected_payouts, non_zero, release_payouts, refund_payouts, resolution_payouts,
}
use telegram_garant_contract.Native.Matching.{Pays}
use telegram_garant_contract.Native.Validate.{or_empty, validate_lifecycle}
use telegram_garant_contract.Native.Accepted.{validate_lifecycle-Accepted}
use telegram_garant_contract.Ledger.Settlement.{
  RecordNativeTonSettlementEntry, Ending, ending, Movement, required_atomic, movements, to_buyer,
  to_seller, to_platform,
}

-- The stored chain event.
pub record TonNativeChainEvent : Type 0 where
  pub id : Text
  pub deal_id : Text
  pub transaction_hash : Text
  pub transaction_lt : Text

abbrev pub text_of : Option ℕ → Option Text
text_of none = none
text_of (some n) = some (to_text n)

-- The argument of `this.ledger.recordNativeTonSettlement`.
unfoldable pub settlement_entry :
    TonNativeChainEvent
    → TonNativeEscrowPreparation
    → TonNativeLifecycleIntent
    → RecordNativeTonSettlementEntry
settlement_entry event p i = record {
  chain_event_id = event.id;
  deal_id = event.deal_id;
  action = i.action;
  buyer_address = p.buyer_address;
  seller_address = p.seller_address;
  treasury_address = p.treasury_address;
  seller_payout_atomic = to_text p.seller_payout_atomic;
  platform_fee_atomic = to_text p.platform_fee_atomic;
  refund_to_buyer_atomic = to_text p.refund_to_buyer_atomic;
  refund_fee_atomic = to_text p.refund_fee_atomic;
  buyer_award_atomic = text_of i.buyer_award_atomic;
  seller_award_atomic = text_of i.seller_award_atomic;
  transaction_hash = event.transaction_hash;
  transaction_lt = event.transaction_lt;
}

abbrev pub Transfer : Type 0
Transfer = Text × ℕ

-- Who gets how much by a movement of the ledger, and by a payout of the contract.
abbrev pub moved : Movement → Transfer
moved m = (m.destination, value m.amount_atomic)

abbrev pub paid : Payout → Transfer
paid e = (e.destination, e.value)

-- The transfers that are not of amount zero.
unfoldable pub not_empty : List Transfer → List Transfer
not_empty [] = []
not_empty (t ∷ ts) = let rest = not_empty ts in if t.1 == 0 then rest else t ∷ rest

not_empty-paid : (es : List Payout) → not_empty (map paid es) ≡ map paid (non_zero es)
unfolding not_empty non_zero
not_empty-paid [] = refl
not_empty-paid (e ∷ es) = elim (Bool-cases (e.value == 0)) [
  | inl z ↦ rw z (not_empty-paid es)
  | inr n ↦ rw n (ap (λ ts. paid e ∷ ts) (not_empty-paid es))
]

required_atomic-to_text : (n : ℕ) → required_atomic (some (to_text n)) ≡ ok (to_text n)
unfolding required_atomic
required_atomic-to_text n = rw (is_digits-to_text n) refl

-- The movements of the entry of an action are its payouts.
abbrev Books :
    TonNativeChainEvent
    → TonNativeEscrowPreparation
    → TonNativeLifecycleIntent
    → Ending
    → List Payout
    → Type 0
Books event p i k es =
    (ms : List Movement) × (movements (settlement_entry event p i) k ≡ ok ms)
    × (map moved ms ≡ map paid es)

released-Books :
    (event : TonNativeChainEvent) (p : TonNativeEscrowPreparation) (i : TonNativeLifecycleIntent)
    → Books event p i Ending.released (release_payouts p)
unfolding movements settlement_entry
released-Books event p i =
    (_, refl, rw (value-to_text p.seller_payout_atomic, value-to_text p.platform_fee_atomic) refl)

refunded-Books :
    (event : TonNativeChainEvent) (p : TonNativeEscrowPreparation) (i : TonNativeLifecycleIntent)
    → Books event p i Ending.refunded (refund_payouts p)
unfolding movements settlement_entry
refunded-Books event p i =
    (_, refl, rw (value-to_text p.refund_to_buyer_atomic, value-to_text p.refund_fee_atomic) refl)

resolved-Books :
    (event : TonNativeChainEvent) (p : TonNativeEscrowPreparation) (i : TonNativeLifecycleIntent)
    (b s : ℕ)
    → i.buyer_award_atomic ≡ some b
    → i.seller_award_atomic ≡ some s
    → Books event p i Ending.resolved (resolution_payouts p b s)
unfolding movements settlement_entry
resolved-Books event p i b s hb hs = (
  to_buyer (settlement_entry event p i) (codes "buyer-award") (to_text b)
      ∷ to_seller (settlement_entry event p i) (codes "seller-award") (to_text s)
      ∷ to_platform (settlement_entry event p i) (to_text p.platform_fee_atomic)
      ∷ [],
  rw (hb, hs, required_atomic-to_text b, required_atomic-to_text s) refl,
  rw (value-to_text b, value-to_text s, value-to_text p.platform_fee_atomic) refl,
)

rebook :
    (event : TonNativeChainEvent) (p : TonNativeEscrowPreparation) (i : TonNativeLifecycleIntent)
    {k l : Ending} {es fs : List Payout}
    → k ≡ l
    → es ≡ fs
    → Books event p i k es
    → Books event p i l fs
rebook event p i {k} {l} {es} {fs} a b w =
    subst (Books event p i l) b (subst (λ x. Books event p i x es) a w)

expected_payouts-Books :
    (event : TonNativeChainEvent) (p : TonNativeEscrowPreparation) (i : TonNativeLifecycleIntent)
    (a : TonNativeLifecycleAction) (k : Ending) (es : List Payout)
    → ending a ≡ some k
    → expected_payouts a i p ≡ ok es
    → Books event p i k es
unfolding expected_payouts
expected_payouts-Books event p i TonNativeLifecycleAction.mark_delivered k es e h = cc
expected_payouts-Books event p i TonNativeLifecycleAction.open_dispute k es e h = cc
expected_payouts-Books event p i TonNativeLifecycleAction.release k es e h =
    rebook event p i (some-injective e) (ok-injective h) (released-Books event p i)
expected_payouts-Books event p i TonNativeLifecycleAction.release_after_buyer_timeout k es e h =
    rebook event p i (some-injective e) (ok-injective h) (released-Books event p i)
expected_payouts-Books event p i TonNativeLifecycleAction.refund_buyer k es e h =
    rebook event p i (some-injective e) (ok-injective h) (refunded-Books event p i)
expected_payouts-Books event p i TonNativeLifecycleAction.refund_after_seller_timeout k es e h =
    rebook event p i (some-injective e) (ok-injective h) (refunded-Books event p i)
expected_payouts-Books event p i TonNativeLifecycleAction.resolve k es e h =
    let (b, hb, h₁) =
      >>=-eq-ok (or_throw i.buyer_award_atomic Reason.resolution_award_thrown) _ {b = es} h in
    let (s, hs, h₂) =
      >>=-eq-ok (or_throw i.seller_award_atomic Reason.resolution_award_thrown) _ {b = es} h₁ in
    rebook event p i (some-injective e) (ok-injective h₂) (
      resolved-Books event p i b s
        (or_throw-eq-ok i.buyer_award_atomic Reason.resolution_award_thrown hb)
        (or_throw-eq-ok i.seller_award_atomic Reason.resolution_award_thrown hs))

-- Where a transaction that ends the escrow is accepted, the entry that `applyLockedEvent` hands to the
-- ledger has movements, and those of them that are not of amount zero are, up to order, the transfers that
-- the outgoing messages of the transaction make: the same amounts to the same destinations.
pub settlement_entry_books :
    (c : Cells) (tx : TonCenterTransaction) (event : TonNativeChainEvent)
    (p : TonNativeEscrowPreparation) (i : TonNativeLifecycleIntent) (v : Validation) (k : Ending)
    → validate_lifecycle c tx p i ≡ ok v
    → ending i.action ≡ some k
    → (es : List Payout) × Pays c i p (or_empty tx.out_msgs) es
      × ((ms : List Movement) × (movements (settlement_entry event p i) k ≡ ok ms)
          × Perm (not_empty (map moved ms)) (map paid es))
settlement_entry_books c tx event p i v k h e =
    let a = validate_lifecycle-Accepted c tx p i v h in
    let (ms, hm, same) = expected_payouts-Books event p i i.action k a.expected e a.planned in
    (
      a.payouts,
      a.paid,
      (
        ms,
        hm,
        subst (λ ts. Perm ts (map paid a.payouts))
            (sym (ap not_empty same ∙ not_empty-paid a.expected)) (Perm.map paid a.as_planned),
      ),
    )
