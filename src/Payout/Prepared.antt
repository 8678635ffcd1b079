-- ===== src/Payout/Prepared.antt =====
-- `prepareTonJettonPayoutAttempt` returns checked plans
-- (services/user-service/src/modules/escrow/adapters/ton-jetton-payout-state.ts).
use telegram_garant_contract.Common.{
  not-false, ℕ, ◌+◌, Bool, true, false, not, ◌||◌, List, [], ◌∷◌, ◌++◌, Text, ltb, leb,
  if◌then◌else◌, length, ◌≡◌, refl, sym, ap, ◌∙◌, subst, arith, any, last?, text_eq, text_eq_refl,
  text_eq→eq, Result, ok, is_ok, >>=-eq-ok, throw_if-eq-ok, ok-injective, ◌⊎◌, inl, inr, Bool-cases,
  length-append,
}
use telegram_garant_contract.Decimal.{is_canonical, value, to_text}
use telegram_garant_contract.Decimal.RoundTrip.{to_text-value}
use telegram_garant_contract.Payout.{
  PayoutKind, PayoutError, Attempt, Leg, Plan, uint64, attempt_key, has_text, require_leg, kind_eq,
  max_attempts_per_leg, max_uint64,
}
use telegram_garant_contract.Payout.Validate.{attempt_fits, evidence_fits, validated_clone}
use telegram_garant_contract.Payout.Advance.{
  with_leg, new_attempt, uses_query, is_prepared_as, is_not_retryable, add_attempt, prepare_attempt,
}
use telegram_garant_contract.Payout.Checked.{IsChecked, validated_clone-IsChecked}
use telegram_garant_contract.Payout.Kept.{check_attempts-Free}
use telegram_garant_contract.Payout.Attempts.{check_attempts-append}
use telegram_garant_contract.Payout.Observed.{with_leg-IsChecked}

pub uint64-to_text :
    (t : Text) (e f : PayoutError) (n : ℕ)
    → uint64 t e ≡ ok n
    → (to_text n ≡ t) × (is_ok (uint64 t f) ≡ true)
unfolding uint64
uint64-to_text t e f n h =
    let (c, h₁) = throw_if-eq-ok (not (is_canonical t)) e _ {b = n} h in
    let (u, h₂) = throw_if-eq-ok (ltb max_uint64 (value t)) e _ {b = n} h₁ in
    (sym (ap to_text (ok-injective h₂)) ∙ to_text-value t (not-false _ c), rw (c, u) refl)

-- The steps of `prepare_attempt` where it returns: the plan as it is, or with one attempt more.
pub record Prepared (p : Plan) (k : PayoutKind) (t : Text) (q : Plan) : Type 0 where
  pub checked : IsChecked p
  pub query : ℕ
  pub uint : uint64 t PayoutError.invalid_query_id ≡ ok query
  pub leg : Leg
  pub found : require_leg p.legs k ≡ ok leg
  pub outcome :
      ((is_prepared_as t (last? leg.attempts) ≡ true) × (p ≡ q)) ⊎ (add_attempt p leg query ≡ ok q)

pub prepare_attempt-Prepared :
    (p : Plan) (k : PayoutKind) (t : Text) (q : Plan)
    → prepare_attempt p k t ≡ ok q
    → (c : Plan) × (validated_clone p ≡ ok c) × Prepared c k t q
unfolding prepare_attempt
prepare_attempt-Prepared p k t q h =
    let (c, hc, h₁) = >>=-eq-ok (validated_clone p) _ {b = q} h in
    let (n, hn, h₂) = >>=-eq-ok (uint64 t PayoutError.invalid_query_id) _ {b = q} h₁ in
    let (l, hl, h₃) = >>=-eq-ok (require_leg c.legs k) _ {b = q} h₂ in
    let same = (uint64-to_text t PayoutError.invalid_query_id PayoutError.invalid_plan n hn).0 in
    (
      c,
      hc,
      record {
        checked = validated_clone-IsChecked p hc;
        query = n;
        uint = hn;
        leg = l;
        found = hl;
        outcome = elim (Bool-cases (is_prepared_as (to_text n) (last? l.attempts))) [
          | inl here ↦ inl (
            subst (λ u. is_prepared_as u (last? l.attempts) ≡ true) same here,
            ok-injective (branch _ _ _ h₃ here),
          )
          | inr later ↦ inr (other _ _ _ h₃ later)
        ];
      },
    )
  where
    branch :
        (b : Bool) (x y : Result PayoutError Plan) {z : Result PayoutError Plan}
        → (if b then x else y) ≡ z
        → b ≡ true
        → x ≡ z
    branch b x y h e = ground arith

    other :
        (b : Bool) (x y : Result PayoutError Plan) {z : Result PayoutError Plan}
        → (if b then x else y) ≡ z
        → b ≡ false
        → y ≡ z
    other b x y h e = ground arith

leg_queries :
    (E : Text → Bool) (ls : List Leg) (k : PayoutKind) (l : Leg)
    → any (λ (n : Leg). any (λ (a : Attempt). E a.query_id) n.attempts) ls ≡ false
    → require_leg ls k ≡ ok l
    → any (λ (a : Attempt). E a.query_id) l.attempts ≡ false
unfolding require_leg
leg_queries E [] k l f q = cc
leg_queries E (m ∷ ls) k l f q = elim (Bool-cases (kind_eq m.kind k)) [
  | inl here ↦
      let same : m ≡ l = ground arith in
      subst (λ (x : Leg). any (λ (a : Attempt). E a.query_id) x.attempts ≡ false) same
        (ground arith)
  | inr later ↦ leg_queries E ls k l (ground arith) (ground arith)
]

new-fits :
    (settlement : Text) (k : PayoutKind) (n query : ℕ)
    → is_ok (uint64 (to_text query) PayoutError.invalid_plan) ≡ true
    → attempt_fits settlement k n true (new_attempt settlement k (n + 1) query) ≡ true
unfolding attempt_fits evidence_fits
new-fits settlement k n query u =
    rw (u, text_eq_refl (attempt_key settlement k (n + 1))) (ground arith)

-- What `add_attempt` has tested where it returns.
pub record Added (p : Plan) (l : Leg) (query : ℕ) (q : Plan) : Type 0 where
  pub retryable : is_not_retryable (last? l.attempts) ≡ false
  pub few : leb max_attempts_per_leg (length l.attempts) ≡ false
  pub fresh : uses_query (to_text query) p.legs ≡ false
  pub result :
      with_leg p (record l {
        attempts =
            l.attempts ++ (new_attempt p.settlement_id l.kind (length l.attempts + 1) query ∷ []);
      })
      ≡ q

pub add_attempt-Added :
    (p : Plan) (l : Leg) (query : ℕ) (q : Plan) → add_attempt p l query ≡ ok q → Added p l query q
unfolding add_attempt
add_attempt-Added p l query q h =
    let (r, h₁) =
      throw_if-eq-ok (is_not_retryable (last? l.attempts)) PayoutError.leg_not_retryable _ {b = q}
        h in
    let (f, h₂) =
      throw_if-eq-ok (leb max_attempts_per_leg (length l.attempts))
        PayoutError.attempt_limit_reached _ {b = q} h₁ in
    let (u, h₃) =
      throw_if-eq-ok (uses_query (to_text query) p.legs) PayoutError.query_id_reused _ {b = q} h₂ in
    record { retryable = r; few = f; fresh = u; result = ok-injective h₃ }

add_attempt-IsChecked :
    (p : Plan) (k : PayoutKind) (l : Leg) (query : ℕ) (q : Plan)
    → IsChecked p
    → is_ok (uint64 (to_text query) PayoutError.invalid_plan) ≡ true
    → require_leg p.legs k ≡ ok l
    → add_attempt p l query ≡ ok q
    → IsChecked q
add_attempt-IsChecked p k l query q c u f h =
    let d = add_attempt-Added p l query q h in
    let t = to_text query in
    let a = new_attempt p.settlement_id l.kind (length l.attempts + 1) query in
    let E : Text → Bool = λ v. text_eq v t in
    let closed : (v w : Text) → text_eq v w ≡ true → E v ≡ true → E w ≡ true =
      λ v w e e'. subst (λ x. text_eq x t ≡ true) (text_eq→eq v w e) e' in
    subst IsChecked d.result (
      with_leg-IsChecked E p k l (record l { attempts = l.attempts ++ (a ∷ []) }) closed
        (record {
          kind = refl;
          destination = refl;
          amount = refl;
          few = rw (length-append l.attempts (a ∷ [])) (few (length l.attempts) d.few);
          grows = λ s s' free g.
              let clean =
                check_attempts-Free E p.settlement_id l.kind 0 l.attempts s s' free
                  (leg_queries E p.legs k l d.fresh f) closed g in
              (
                t ∷ s',
                check_attempts-append p.settlement_id l.kind 0 l.attempts a s s' d.retryable
                    (subst (λ n. attempt_fits p.settlement_id l.kind n true a ≡ true) (omega arith)
                      (new-fits p.settlement_id l.kind (length l.attempts) query u))
                    (clean t (text_eq_refl t)) g,
                λ v. swap (text_eq v t) (has_text v s'),
              );
        })
        d.fresh f c)
  where
    few : (n : ℕ) → leb max_attempts_per_leg n ≡ false → ltb max_attempts_per_leg (n + 1) ≡ false
    few n h = ground arith

    swap : (a b : Bool) → (a || b) ≡ (b || a)
    swap a b = ground arith

pub prepare_attempt-IsChecked :
    (p : Plan) (k : PayoutKind) (t : Text) (q : Plan) → prepare_attempt p k t ≡ ok q → IsChecked q
prepare_attempt-IsChecked p k t q h =
    let (c, hc, d) = prepare_attempt-Prepared p k t q h in
    let (same, u) =
      uint64-to_text t PayoutError.invalid_query_id PayoutError.invalid_plan d.query d.uint in
    elim d.outcome [
      | inl here ↦ subst IsChecked here.1 d.checked
      | inr added ↦
          add_attempt-IsChecked c k d.leg d.query q d.checked
            (subst (λ x. is_ok (uint64 x PayoutError.invalid_plan) ≡ true) (sym same) u) d.found
            added
    ]
