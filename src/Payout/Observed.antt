-- ===== src/Payout/Observed.antt =====
-- `applyTonJettonPayoutObservation` returns checked plans
-- (services/user-service/src/modules/escrow/adapters/ton-jetton-payout-state.ts).
use telegram_garant_contract.Common.{
  not-false, ℕ, Bool, true, false, not, List, [], ◌∷◌, Text, Option, none, some, ltb, length, ◌≡◌,
  refl, ◌∙◌, subst, arith, any, last?, text_eq, ok, or_throw, >>=-eq-ok, throw_if-eq-ok,
  or_throw-eq-ok, ok-injective, inl, inr, Bool-cases,
}
use telegram_garant_contract.Address.{normalize_ton_address}
use telegram_garant_contract.Payout.{
  PayoutKind, PayoutError, Attempt, Leg, Plan, Observation, uint64, write_last, require_leg,
  is_transaction_id, kind_eq, max_attempts_per_leg,
}
use telegram_garant_contract.Payout.Validate.{check_legs, validated_clone}
use telegram_garant_contract.Payout.Advance.{
  with_leg, observe_attempt, binds, is_latest, after_observation, apply_observation,
}
use telegram_garant_contract.Payout.Checked.{
  check_legs-LegChecked, IsChecked, validated_clone-IsChecked,
}
use telegram_garant_contract.Payout.Kept.{Replaces, check_legs-write_leg, sum-write_leg}
use telegram_garant_contract.Payout.Attempts.{
  check_attempts-write_last, observe_attempt-Updates, length-write_last, last-fits,
}

pub with_leg-IsChecked :
    (E : Text → Bool) (p : Plan) (k : PayoutKind) (l m : Leg)
    → ((u v : Text) → text_eq u v ≡ true → E u ≡ true → E v ≡ true)
    → Replaces E p.settlement_id l m
    → any (λ (n : Leg). any (λ (a : Attempt). E a.query_id) n.attempts) p.legs ≡ false
    → require_leg p.legs k ≡ ok l
    → IsChecked p
    → IsChecked (with_leg p m)
with_leg-IsChecked E p k l m c w f q h =
    let sums = λ (n : ℕ). sum-write_leg p.legs k l m n w.kind w.amount q in
    record {
      header = rw (sums 0).1 h.header;
      total = h.total;
      summed = (sums 0).0 ∙ h.summed;
      conserved = h.conserved;
      checked =
          check_legs-write_leg E p.settlement_id p.legs [] [] k l m c w (λ u e. refl) f q h.checked;
      derived = refl;
    }

any-false : (xs : List Attempt) → any (λ (a : Attempt). false) xs ≡ false
any-false [] = refl
any-false (a ∷ rest) = any-false rest

no_legs-false :
    (ls : List Leg) → any (λ (n : Leg). any (λ (a : Attempt). false) n.attempts) ls ≡ false
no_legs-false [] = refl
no_legs-false (l ∷ ls) = rw (any-false l.attempts) (no_legs-false ls)

-- The steps of `apply_observation` where it returns.
pub record Observed (p : Plan) (o : Observation) (q : Plan) : Type 0 where
  pub checked : IsChecked p
  pub id : is_transaction_id o.transaction_id ≡ true
  pub leg : Leg
  pub found : require_leg p.legs o.kind ≡ ok leg
  pub bound : binds (normalize_ton_address o.destination) o.amount_atomic leg ≡ true
  pub query : ℕ
  pub uint : uint64 o.query_id PayoutError.invalid_query_id ≡ ok query
  pub attempt : Attempt
  pub last : last? leg.attempts ≡ some attempt
  pub latest : is_latest o attempt ≡ true
  pub next : Option Attempt
  pub observed : observe_attempt o.type o.transaction_id attempt ≡ ok next
  pub result : after_observation p leg next ≡ q

pub apply_observation-Observed :
    (p : Plan) (o : Observation) (q : Plan)
    → apply_observation p o ≡ ok q
    → (c : Plan) × (validated_clone p ≡ ok c) × Observed c o q
unfolding apply_observation
apply_observation-Observed p o q h =
    let (c, hc, h₁) = >>=-eq-ok (validated_clone p) _ {b = q} h in
    let (i, h₂) =
      throw_if-eq-ok (not (is_transaction_id o.transaction_id)) PayoutError.invalid_transaction_id _
        {b = q} h₁ in
    let (l, hl, h₃) = >>=-eq-ok (require_leg c.legs o.kind) _ {b = q} h₂ in
    let (b, h₄) =
      throw_if-eq-ok (not (binds (normalize_ton_address o.destination) o.amount_atomic l))
        PayoutError.payout_leg_mismatch _ {b = q} h₃ in
    let (n, hn, h₅) = >>=-eq-ok (uint64 o.query_id PayoutError.invalid_query_id) _ {b = q} h₄ in
    let (a, ha, h₆) =
      >>=-eq-ok (or_throw (last? l.attempts) PayoutError.stale_or_unknown_attempt) _ {b = q} h₅ in
    let (s, h₇) =
      throw_if-eq-ok (not (is_latest o a)) PayoutError.stale_or_unknown_attempt _ {b = q} h₆ in
    let (x, hx, h₈) = >>=-eq-ok (observe_attempt o.type o.transaction_id a) _ {b = q} h₇ in
    (
      c,
      hc,
      record {
        checked = validated_clone-IsChecked p hc;
        id = not-false _ i;
        leg = l;
        found = hl;
        bound = not-false _ b;
        query = n;
        uint = hn;
        attempt = a;
        last = or_throw-eq-ok (last? l.attempts) PayoutError.stale_or_unknown_attempt ha;
        latest = not-false _ s;
        next = x;
        observed = hx;
        result = ok-injective h₈;
      },
    )

require_leg-few :
    (settlement : Text) (ls : List Leg) (ks : List PayoutKind) (s : List Text) (out : List Leg)
    (k : PayoutKind) (l : Leg)
    → check_legs settlement ls ks s ≡ ok out
    → require_leg ls k ≡ ok l
    → ltb max_attempts_per_leg (length l.attempts) ≡ false
unfolding require_leg
require_leg-few settlement [] ks s out k l h q = cc
require_leg-few settlement (m ∷ ls) ks s out k l h q =
    let c = check_legs-LegChecked settlement m ls ks s out h in
    elim (Bool-cases (kind_eq m.kind k)) [
      | inl here ↦
          let same : m ≡ l = ground arith in
          subst (λ x. ltb max_attempts_per_leg (length x.attempts) ≡ false) same c.few
      | inr later ↦
          require_leg-few settlement ls (m.kind ∷ ks) c.seen' c.rest k l c.others (ground arith)
    ]

after_observation-IsChecked :
    (p : Plan) (o : Observation) (l : Leg) (a : Attempt) (next : Option Attempt)
    → IsChecked p
    → is_transaction_id o.transaction_id ≡ true
    → require_leg p.legs o.kind ≡ ok l
    → last? l.attempts ≡ some a
    → observe_attempt o.type o.transaction_id a ≡ ok next
    → IsChecked (after_observation p l next)
after_observation-IsChecked p o l a none c i f e h = c
after_observation-IsChecked p o l a (some b) c i f e h =
    with_leg-IsChecked (λ u. false) p o.kind l (record l { attempts = write_last b l.attempts })
      (λ u v e₁ e₂. e₂)
      (record {
        kind = refl;
        destination = refl;
        amount = refl;
        few =
            rw (length-write_last b l.attempts)
              (require_leg-few p.settlement_id p.legs [] [] p.legs o.kind l c.checked f);
        grows = λ s s' free t. (
          s',
          check_attempts-write_last p.settlement_id l.kind 0 l.attempts a b s s' e
              (observe_attempt-Updates p.settlement_id l.kind _ o.type o.transaction_id a b i
                (last-fits p.settlement_id l.kind 0 l.attempts a s s' e t).1 h)
              t,
          λ u. ground arith,
        );
      })
      (no_legs-false p.legs) f c

pub apply_observation-IsChecked :
    (p : Plan) (o : Observation) (q : Plan) → apply_observation p o ≡ ok q → IsChecked q
apply_observation-IsChecked p o q h =
    let (c, hc, d) = apply_observation-Observed p o q h in
    subst IsChecked d.result (
      after_observation-IsChecked c o d.leg d.attempt d.next d.checked d.id d.found d.last
        d.observed)
