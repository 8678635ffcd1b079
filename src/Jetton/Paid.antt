-- ===== src/Jetton/Paid.antt =====
-- The payout legs that are applied, the plan of the preparation and the ledger
-- (services/user-service/src/modules/deal/ton-jetton-transactional-application.service.ts).
use telegram_garant_contract.Common.{
  codes, sym, text_eq→eq, ◌++◌, text_eq, inl, inr, ◌⊎◌, ◌==◌, ◌&&◌, if◌then◌else◌, leb, length, ℕ,
  Bool, true, false, not, ◌||◌, [], ◌∷◌, Text, Option, some, Result, ok, err, throw_if, >>=-eq-ok,
  throw_if-eq-ok, ok-injective, ◌≡◌, refl, subst, arith,
}
use telegram_garant_contract.Decimal.{is_digits, is_canonical, value}
use telegram_garant_contract.Money.{positive_atomic}
use telegram_garant_contract.Breaker.{BreakerError, Scope, Operation, Tables, assert_allowed}
use telegram_garant_contract.Ledger.{LedgerError, big_int, MoneyLedgerEntry, Book}
use telegram_garant_contract.Native.{is_text}
use telegram_garant_contract.Native.Executed.{is_text→some}
use telegram_garant_contract.Jetton.{
  TonJettonChainEventKind, TonJettonSettlementOutcome, TonJettonPayoutLeg, TonJettonChainEvent,
  TonJettonApplicationDirective, TonJettonEscrowPreparation, TonJettonActionIntent, ApplyError,
  Business,
}
use telegram_garant_contract.Jetton.Postings.{
  column_text, jetton_key, leg_text, insert_ledger, zero_test, find_entry, same_posting,
  ExpectedPayout, expected_payout, ledger_amount, is_zero_atomic, payout_entry, post_expected,
  unless_empty, post_payout, post_kind, apply_ledger,
}
use telegram_garant_contract.Jetton.Apply.{
  load_and_validate_intent, or_circuit, check_circuit, apply_locked,
}
use telegram_garant_contract.Jetton.Laws.{apply_locked-Applied}
use telegram_garant_contract.Jetton.Shape.{
  has_movement_shape, is_none, holds, is_raw_address, validate_movement_shape,
}
use telegram_garant_contract.Jetton.Once.{insert_ledger-found}
use telegram_garant_contract.Jetton.Owed.{AsOwed, expected_payout-AsOwed}

-- The entry moves the amount from the deal's escrow to the payout's account, as the text that is written or
-- as a text that the column gives back as it.
pub record IsPayoutEntry (p : TonJettonEscrowPreparation) (x : ExpectedPayout) (decimal : Text)
    (f : MoneyLedgerEntry) : Type 0 where
  pub deal : f.deal_id ≡ p.deal_id
  pub debited : f.debit_account ≡ codes "escrow:ton:" ++ p.deal_id
  pub credited : f.credit_account ≡ x.credit_account
  pub amount : (f.amount ≡ decimal) ⊎ (column_text f.amount ≡ decimal)
  pub currency : f.currency ≡ p.asset_code
  pub kind : f.entry_type ≡ codes "jetton_escrow_payout_reconciled"

payout_entry-IsPayoutEntry :
    (e : TonJettonChainEvent) (p : TonJettonEscrowPreparation) (d : TonJettonApplicationDirective)
    (x : ExpectedPayout) (decimal : Text)
    → IsPayoutEntry p x decimal (payout_entry e p d x decimal)
payout_entry-IsPayoutEntry e p d x decimal = record {
  deal = refl;
  debited = refl;
  credited = refl;
  amount = inl refl;
  currency = refl;
  kind = refl;
}

same_posting-IsPayoutEntry :
    (e : TonJettonChainEvent) (p : TonJettonEscrowPreparation) (d : TonJettonApplicationDirective)
    (x : ExpectedPayout) (decimal : Text) (f : MoneyLedgerEntry)
    → same_posting f (payout_entry e p d x decimal) ≡ true
    → IsPayoutEntry p x decimal f
unfolding same_posting
same_posting-IsPayoutEntry e p d x decimal f h =
    let g = payout_entry e p d x decimal in
    let (t₁, t₂, t₃, t₄, t₅, t₆) =
      six (text_eq f.deal_id g.deal_id) (text_eq f.debit_account g.debit_account)
        (text_eq f.credit_account g.credit_account) (text_eq (column_text f.amount) g.amount)
        (text_eq f.currency g.currency) (text_eq f.entry_type g.entry_type) h in
    record {
      deal = text_eq→eq f.deal_id g.deal_id t₁;
      debited = text_eq→eq f.debit_account g.debit_account t₂;
      credited = text_eq→eq f.credit_account g.credit_account t₃;
      amount = inr (text_eq→eq (column_text f.amount) g.amount t₄);
      currency = text_eq→eq f.currency g.currency t₅;
      kind = text_eq→eq f.entry_type g.entry_type t₆;
    }
  where
    six :
        (a b c d e f : Bool)
        → (a && (b && (c && (d && (e && f))))) ≡ true
        → (a ≡ true) × (b ≡ true) × (c ≡ true) × (d ≡ true) × (e ≡ true) × (f ≡ true)
    six a b c d e f h = ground arith

-- The ledger has an entry of the payout under the event's key for the leg.
abbrev pub IsPosted :
    TonJettonChainEvent
    → TonJettonEscrowPreparation
    → TonJettonApplicationDirective
    → ExpectedPayout
    → Text
    → Book
    → Type 0
IsPosted e p d x decimal book =
    (f : MoneyLedgerEntry) × (find_entry (jetton_key e.id (leg_text d.payout_leg)) book ≡ some f)
    × IsPayoutEntry p x decimal f

post-IsPosted :
    (e : TonJettonChainEvent) (p : TonJettonEscrowPreparation) (d : TonJettonApplicationDirective)
    (x : ExpectedPayout) (decimal : Text) (book after : Book)
    → insert_ledger (payout_entry e p d x decimal) book ≡ ok after
    → IsPosted e p d x decimal after
post-IsPosted e p d x decimal book after h =
    let (f, q, c) = insert_ledger-found (payout_entry e p d x decimal) book after h in
    elim c [
      | inl same ↦ (
        f,
        q,
        subst (IsPayoutEntry p x decimal) (sym same) (payout_entry-IsPayoutEntry e p d x decimal),
      )
      | inr same ↦ (f, q, same_posting-IsPayoutEntry e p d x decimal f same)
    ]

-- The payout that a directive names is what is owed for its outcome and its leg, and the ledger has its entry.
pub record IsPaid (e : TonJettonChainEvent) (p : TonJettonEscrowPreparation)
    (d : TonJettonApplicationDirective) (i : Option TonJettonActionIntent) (book : Book)
    : Type 0 where
  pub planned : ExpectedPayout
  pub outcome : TonJettonSettlementOutcome
  pub of_outcome : d.settlement_outcome ≡ some outcome
  pub leg : TonJettonPayoutLeg
  pub of_leg : d.payout_leg ≡ some leg
  pub owed : AsOwed p i outcome leg planned
  pub amount : d.amount_atomic ≡ some planned.amount_atomic
  pub destination : d.destination_address ≡ some planned.destination_address
  pub decimal : Text
  pub printed : ledger_amount (some planned.amount_atomic) p.asset_decimals ≡ ok decimal
  pub posted : IsPosted e p d planned decimal book

-- A positive amount is no zero.
positive-is_zero : (t : Text) → positive_atomic t ≡ true → is_zero_atomic t ≡ ok true → ⊥
unfolding positive_atomic is_canonical big_int
positive-is_zero [] h k = cc
positive-is_zero (c ∷ s) h k = pick (is_digits (c ∷ s)) k
  where
    clash : (n : ℕ) (b : Bool) → (b && not (n == 0)) ≡ true → (n == 0) ≡ true → ⊥
    clash n b p q = ground arith

    pick :
        (b : Bool)
        → zero_test (if b then ok (value (c ∷ s)) else err (LedgerError.not_an_integer (c ∷ s)))
          ≡ ok true
        → ⊥
    pick true k =
        clash (value (c ∷ s)) (is_canonical (c ∷ s) && leb (length (c ∷ s)) 78) h (ok-injective k)
    pick false k = cc

shape-positive :
    (d : TonJettonApplicationDirective) (t : Text)
    → d.event_kind ≡ TonJettonChainEventKind.payout_leg_reconciled
    → d.amount_atomic ≡ some t
    → validate_movement_shape d ≡ ok tt
    → positive_atomic t ≡ true
unfolding validate_movement_shape
shape-positive d t k q h =
    let shape : has_movement_shape TonJettonChainEventKind.payout_leg_reconciled d ≡ ok tt =
      subst (λ x. has_movement_shape x d ≡ ok tt) k h in
    subst (λ x. holds positive_atomic x ≡ true) q
      (fine (is_none d.settlement_outcome) (is_none d.payout_leg)
        (holds positive_atomic d.amount_atomic) (holds is_raw_address d.destination_address) shape)
  where
    fine :
        (a b c e : Bool)
        → throw_if (a || b || not c || not e) ApplyError.payout_evidence_invalid ≡ ok tt
        → c ≡ true
    fine a b true e h = refl
    fine a b false e h = ground arith

post_payout-IsPaid :
    (e : TonJettonChainEvent) (p : TonJettonEscrowPreparation) (d : TonJettonApplicationDirective)
    (i : Option TonJettonActionIntent) (book after : Book)
    → ((t : Text) → d.amount_atomic ≡ some t → is_zero_atomic t ≡ ok true → ⊥)
    → post_payout e p d i book ≡ ok after
    → IsPaid e p d i after
unfolding post_payout post_expected
post_payout-IsPaid e p d i book after positive h =
    let (x, hx, h₁) = >>=-eq-ok (expected_payout p i d) _ {b = after} h in
    let (m, h₂) =
      throw_if-eq-ok
        (not (is_text d.amount_atomic x.amount_atomic)
          || not (is_text d.destination_address x.destination_address))
        ApplyError.payout_ledger_binding_mismatch _ {b = after} h₁ in
    let (z, hz, h₃) = >>=-eq-ok (is_zero_atomic x.amount_atomic) _ {b = after} h₂ in
    let amount = is_text→some d.amount_atomic x.amount_atomic (
      left (is_text d.amount_atomic x.amount_atomic)
        (is_text d.destination_address x.destination_address) m) in
    let (a, ha, k) = posted x z hz (positive x.amount_atomic amount) h₃ in
    let (o, ho, (l, hl, owed)) = expected_payout-AsOwed p i d x hx in
    record {
      planned = x;
      outcome = o;
      of_outcome = ho;
      leg = l;
      of_leg = hl;
      owed = owed;
      amount = amount;
      destination = is_text→some d.destination_address x.destination_address (
          right (is_text d.amount_atomic x.amount_atomic)
            (is_text d.destination_address x.destination_address) m);
      decimal = a;
      printed = ha;
      posted = k;
    }
  where
    left : (a b : Bool) → (not a || not b) ≡ false → a ≡ true
    left a b q = ground arith

    right : (a b : Bool) → (not a || not b) ≡ false → b ≡ true
    right a b q = ground arith

    posted :
        (x : ExpectedPayout) (z : Bool)
        → is_zero_atomic x.amount_atomic ≡ ok z
        → (is_zero_atomic x.amount_atomic ≡ ok true → ⊥)
        → unless_empty z book (post_expected e p d x book) ≡ ok after
        → (decimal : Text) × (ledger_amount (some x.amount_atomic) p.asset_decimals ≡ ok decimal)
          × IsPosted e p d x decimal after
    posted x true q n k = absurd (n q)
    posted x false q n k =
        let (a, ha, k₁) =
          >>=-eq-ok (ledger_amount (some x.amount_atomic) p.asset_decimals) _ {b = after} k in
        (a, ha, post-IsPosted e p d x a book after k₁)

check_circuit-egress :
    (t : Tables)
    → check_circuit TonJettonChainEventKind.payout_leg_reconciled t ≡ ok tt
    → assert_allowed Scope.ton Operation.egress t ≡ ok tt
unfolding check_circuit
check_circuit-egress t h = pick (assert_allowed Scope.ton Operation.egress t) refl h
  where
    pick :
        (r : Result BreakerError (Unit {0}))
        → assert_allowed Scope.ton Operation.egress t ≡ r
        → or_circuit r ≡ ok tt
        → assert_allowed Scope.ton Operation.egress t ≡ ok tt
    pick (ok u) q k = q
    pick (err x) q k = cc

-- Where a directive of the shape that the verifier checks reports a reconciled payout leg, and it is applied,
-- the breakers of TON allow egress; its amount and its destination are what the preparation, and for a
-- resolution the intent, owe for its outcome and its leg; and the ledger has an entry under the event's key
-- for the leg that moves the amount from the deal's escrow to the account of who is owed.
pub apply_locked-IsPaid :
    (now : ℕ) (t : Tables) (e : TonJettonChainEvent) (p : TonJettonEscrowPreparation)
    (d : TonJettonApplicationDirective) (found : Option TonJettonActionIntent) (b after : Business)
    → e.event_kind ≡ TonJettonChainEventKind.payout_leg_reconciled
    → d.event_kind ≡ TonJettonChainEventKind.payout_leg_reconciled
    → validate_movement_shape d ≡ ok tt
    → apply_locked now t e p d found b ≡ ok after
    → (assert_allowed Scope.ton Operation.egress t ≡ ok tt)
      × ((intent : Option TonJettonActionIntent) × (load_and_validate_intent e p found ≡ ok intent)
          × IsPaid e p d intent after.ledger)
apply_locked-IsPaid now t e p d found b after ke kd w h =
    let r = apply_locked-Applied now t e p d found b after h in
    let posted : post_kind e.event_kind e p d r.intent b.ledger ≡ ok after.ledger =
      unfold apply_ledger in r.posted in
    (
      check_circuit-egress t (subst (λ k. check_circuit k t ≡ ok tt) kd r.allowed),
      (
        r.intent,
        r.loaded,
        post_payout-IsPaid e p d r.intent b.ledger after.ledger
            (λ t q. positive-is_zero t (shape-positive d t kd q w))
            (subst (λ k. post_kind k e p d r.intent b.ledger ≡ ok after.ledger) ke posted),
      ),
    )
