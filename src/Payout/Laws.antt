-- ===== src/Payout/Laws.antt =====
-- What the operations on a payout plan guarantee to a caller that retries
-- (services/user-service/src/modules/escrow/adapters/ton-jetton-payout-state.ts).
use telegram_garant_contract.Common.{
  ℕ, ◌+◌, true, false, List, [], ◌∷◌, ◌++◌, Text, Option, none, some, length, ◌≡◌, refl, sym, ap,
  ◌∙◌, subst, arith, last?, text_eq, text_eq_refl, Result, ok, err, is_ok, ◌⊎◌, ok-injective, inl,
  inr,
}
use telegram_garant_contract.Decimal.{to_text}
use telegram_garant_contract.Address.{normalize_ton_address}
use telegram_garant_contract.Payout.{
  PayoutKind, PayoutError, AttemptStatus, ObservationType, Attempt, Leg, Plan, Observation, uint64,
  write_last, require_leg,
}
use telegram_garant_contract.Payout.Validate.{validated_clone}
use telegram_garant_contract.Payout.Advance.{
  with_leg, new_attempt, is_prepared_as, is_not_retryable, prepare_attempt, observe_attempt, binds,
  is_latest, after_observation, apply_observation,
}
use telegram_garant_contract.Payout.Checked.{IsChecked, IsChecked-validated_clone}
use telegram_garant_contract.Payout.Kept.{require_leg-write_leg}
use telegram_garant_contract.Payout.Attempts.{last?-write_last, last?-append}
use telegram_garant_contract.Payout.Observed.{
  Observed, apply_observation-Observed, apply_observation-IsChecked,
}
use telegram_garant_contract.Payout.Prepared.{
  prepare_attempt-Prepared, prepare_attempt-IsChecked, add_attempt-Added, uint64-to_text,
}

-- The plan that `prepare_attempt` returns is accepted by `validated_clone` as it is.
pub prepare_attempt_valid :
    (p : Plan) (k : PayoutKind) (t : Text) (q : Plan)
    → prepare_attempt p k t ≡ ok q
    → validated_clone q ≡ ok q
prepare_attempt_valid p k t q h = IsChecked-validated_clone q (prepare_attempt-IsChecked p k t q h)

-- The plan that `apply_observation` returns is accepted by `validated_clone` as it is.
pub apply_observation_valid :
    (p : Plan) (o : Observation) (q : Plan)
    → apply_observation p o ≡ ok q
    → validated_clone q ≡ ok q
apply_observation_valid p o q h = IsChecked-validated_clone q (apply_observation-IsChecked p o q h)

Observed-apply_observation :
    (p : Plan) (o : Observation) (q : Plan) → Observed p o q → apply_observation p o ≡ ok q
unfolding apply_observation
Observed-apply_observation p o q d =
    rw
      (
        IsChecked-validated_clone p d.checked,
        d.id,
        d.found,
        d.bound,
        d.uint,
        d.last,
        d.latest,
        d.observed,
      )
      (ap ok d.result)

observe_twice :
    (t : ObservationType) (tx : Text) (a b : Attempt)
    → observe_attempt t tx a ≡ ok (some b)
    → observe_attempt t tx b ≡ ok none
unfolding observe_attempt
observe_twice ObservationType.was_submitted tx a b h = ground (arith, text_eq_refl tx)
observe_twice ObservationType.was_confirmed tx a b h = ground (arith, text_eq_refl tx)
observe_twice ObservationType.was_bounced tx a b h = ground (arith, text_eq_refl tx)

binds-attempts :
    (x : Option Text) (t : Text) (l : Leg) (as' : List Attempt)
    → binds x t l ≡ true
    → binds x t (record l { attempts = as' }) ≡ true
binds-attempts none t l as' h = h
binds-attempts (some d) t l as' h = h

observe-latest :
    (o : Observation) (a b : Attempt)
    → observe_attempt o.type o.transaction_id a ≡ ok (some b)
    → is_latest o a ≡ true
    → is_latest o b ≡ true
unfolding observe_attempt
observe-latest o a b h l = ground arith

after_observation_again :
    (p : Plan) (o : Observation) (q : Plan) (d : Observed p o q) (next : Option Attempt)
    → d.next ≡ next
    → IsChecked q
    → Observed q o q
after_observation_again p o q d none e c =
    let same : p ≡ q = ap (after_observation p d.leg) (sym e) ∙ d.result in
    subst (λ x. Observed x o q) same d
after_observation_again p o q d (some b) e c =
    let m : Leg = record d.leg { attempts = write_last b d.leg.attempts } in
    let same : with_leg p m ≡ q = ap (after_observation p d.leg) (sym e) ∙ d.result in
    let h : observe_attempt o.type o.transaction_id d.attempt ≡ ok (some b) =
      d.observed ∙ ap ok e in
    let l = observe-latest o d.attempt b h d.latest in
    let again : Observed (with_leg p m) o (with_leg p m) = record {
      checked = subst IsChecked (sym same) c;
      id = d.id;
      leg = m;
      found = require_leg-write_leg p.legs o.kind d.leg m refl d.found;
      bound =
          binds-attempts (normalize_ton_address o.destination) o.amount_atomic d.leg
            (write_last b d.leg.attempts) d.bound;
      query = d.query;
      uint = d.uint;
      attempt = b;
      last = last?-write_last b d.attempt d.leg.attempts d.last;
      latest = l;
      next = none;
      observed = observe_twice o.type o.transaction_id d.attempt b h;
      result = refl;
    } in
    subst (λ x. Observed x o x) same again

-- An observation that was applied can be applied again: the plan stays as it is.
pub apply_observation_twice :
    (p : Plan) (o : Observation) (q : Plan)
    → apply_observation p o ≡ ok q
    → apply_observation q o ≡ ok q
apply_observation_twice p o q h =
    let (c, hc, d) = apply_observation-Observed p o q h in
    Observed-apply_observation q o q
      (after_observation_again c o q d d.next refl (apply_observation-IsChecked p o q h))

reprepare :
    (p : Plan) (k : PayoutKind) (t : Text) (n : ℕ) (l : Leg)
    → IsChecked p
    → uint64 t PayoutError.invalid_query_id ≡ ok n
    → require_leg p.legs k ≡ ok l
    → is_prepared_as t (last? l.attempts) ≡ true
    → prepare_attempt p k t ≡ ok p
unfolding prepare_attempt
reprepare p k t n l c u f i =
    let same = (uint64-to_text t PayoutError.invalid_query_id PayoutError.invalid_plan n u).0 in
    let i' : is_prepared_as (to_text n) (last? l.attempts) ≡ true =
      subst (λ x. is_prepared_as x (last? l.attempts) ≡ true) (sym same) i in
    rw (IsChecked-validated_clone p c, u, f, i') refl

-- A query that was prepared can be prepared again: no second attempt is added.
pub prepare_attempt_twice :
    (p : Plan) (k : PayoutKind) (t : Text) (q : Plan)
    → prepare_attempt p k t ≡ ok q
    → prepare_attempt q k t ≡ ok q
prepare_attempt_twice p k t q h =
    let (c, hc, d) = prepare_attempt-Prepared p k t q h in
    let checked = prepare_attempt-IsChecked p k t q h in
    elim d.outcome [
      | inl here ↦
          reprepare q k t d.query d.leg checked d.uint
            (subst (λ x. require_leg x.legs k ≡ ok d.leg) here.1 d.found) here.0
      | inr added ↦
          let a = add_attempt-Added c d.leg d.query q added in
          let n = new_attempt c.settlement_id d.leg.kind (length d.leg.attempts + 1) d.query in
          let m : Leg = record d.leg { attempts = d.leg.attempts ++ (n ∷ []) } in
          let same =
            (uint64-to_text t PayoutError.invalid_query_id PayoutError.invalid_plan d.query
              d.uint).0 in
          reprepare q k t d.query m checked d.uint
            (subst (λ x. require_leg x.legs k ≡ ok m) a.result
              (require_leg-write_leg c.legs k d.leg m refl d.found))
            (rw (last?-append d.leg.attempts n)
              (subst (λ x. text_eq x t ≡ true) (sym same) (text_eq_refl t)))
    ]

-- While the latest attempt of a leg is submitted or confirmed, no attempt can be prepared for it: the
-- leg is not paid a second time.
pub prepare_attempt_blocked :
    (p : Plan) (k : PayoutKind) (t : Text) (l : Leg) (a : Attempt)
    → validated_clone p ≡ ok p
    → require_leg p.legs k ≡ ok l
    → last? l.attempts ≡ some a
    → (a.status ≡ AttemptStatus.submitted) ⊎ (a.status ≡ AttemptStatus.confirmed)
    → is_ok (prepare_attempt p k t) ≡ false
prepare_attempt_blocked p k t l a v f e s = never (prepare_attempt p k t) λ q h.
    let (c, hc, d) = prepare_attempt-Prepared p k t q h in
    let same : c ≡ p = ok-injective (sym hc ∙ v) in
    let leg : d.leg ≡ l = ok-injective (sym d.found ∙ ap (λ x. require_leg x.legs k) same ∙ f) in
    let last : last? d.leg.attempts ≡ some a = ap (λ x. last? x.attempts) leg ∙ e in
    elim d.outcome [
      | inl here ↦ not_prepared t a s (subst (λ x. is_prepared_as t x ≡ true) last here.0)
      | inr added ↦ not_retryable a s (
          subst (λ x. is_not_retryable x ≡ false) last
            (add_attempt-Added c d.leg d.query q added).retryable)
    ]
  where
    never : {A : Type 0} (r : Result PayoutError A) → ((q : A) → r ≡ ok q → ⊥) → is_ok r ≡ false
    never (ok q) h = absurd (h q refl)
    never (err e) h = refl

    not_prepared :
        (t : Text) (a : Attempt)
        → (a.status ≡ AttemptStatus.submitted) ⊎ (a.status ≡ AttemptStatus.confirmed)
        → is_prepared_as t (some a) ≡ true
        → ⊥
    not_prepared t a s h = ground arith

    not_retryable :
        (a : Attempt)
        → (a.status ≡ AttemptStatus.submitted) ⊎ (a.status ≡ AttemptStatus.confirmed)
        → is_not_retryable (some a) ≡ false
        → ⊥
    not_retryable a s h = ground arith
