-- ===== src/Payout/Checked.antt =====
-- The plans that `validatedClone` returns, described without its control flow
-- (services/user-service/src/modules/escrow/adapters/ton-jetton-payout-state.ts).
use telegram_garant_contract.Common.{
  not-false, ℕ, suc, ◌+◌, Bool, true, false, not, ◌||◌, List, [], ◌∷◌, Text, some, ltb, ◌==◌,
  length, subst, fun_ext, ◌≡◌, refl, sym, ap, ◌∙◌, arith, ok, or_throw, ◌>>=◌, >>=-eq-ok,
  throw_if-eq-ok, or_throw-eq-ok, ok-injective,
}
use telegram_garant_contract.Address.{normalize_ton_address}
use telegram_garant_contract.Address.Canonical.{normalize_ton_address-IsCanonical}
use telegram_garant_contract.Payout.{
  PayoutKind, PayoutError, PlanStatus, Leg, Plan, is_settlement_id, positive_atomic, derive_status,
  has_kind, max_attempts_per_leg,
}
use telegram_garant_contract.Payout.Validate.{
  check_attempts, check_legs, sum_legs, plan_status_eq, validated_clone,
}

-- The first test of `validatedClone`.
abbrev pub header_fails : Plan → Bool
header_fails p =
    not (p.schema_version == 1)
    || (not (is_settlement_id p.settlement_id) || (ltb (length p.legs) 1 || ltb 3 (length p.legs)))

-- A plan that `validatedClone` accepts and returns as it is.
pub record IsChecked (p : Plan) : Type 0 where
  pub header : header_fails p ≡ false
  pub total : ℕ
  pub summed : sum_legs p.legs 0 ≡ ok total
  pub conserved : positive_atomic p.expected_total_atomic PayoutError.invalid_plan ≡ ok total
  pub checked : check_legs p.settlement_id p.legs [] [] ≡ ok p.legs
  pub derived : p.status ≡ derive_status p.legs

plan_status_eq→eq : (s t : PlanStatus) → plan_status_eq s t ≡ true → s ≡ t
unfolding plan_status_eq
plan_status_eq→eq s t h = ground arith

plan_status_eq_refl : (s : PlanStatus) → plan_status_eq s s ≡ true
unfolding plan_status_eq
plan_status_eq_refl PlanStatus.pending = refl
plan_status_eq_refl _ = refl

-- What a leg that was checked is: itself with its destination normalized.
pub record LegChecked (settlement : Text) (l : Leg) (ls : List Leg) (kinds : List PayoutKind)
    (seen : List Text) (out : List Leg) : Type 0 where
  pub destination : Text
  pub normal : normalize_ton_address l.destination ≡ some destination
  pub new_kind : has_kind l.kind kinds ≡ false
  pub few : ltb max_attempts_per_leg (length l.attempts) ≡ false
  pub seen' : List Text
  pub attempts : check_attempts settlement l.kind 0 l.attempts seen ≡ ok seen'
  pub rest : List Leg
  pub others : check_legs settlement ls (l.kind ∷ kinds) seen' ≡ ok rest
  pub result : record l { destination = destination } ∷ rest ≡ out

pub check_legs-LegChecked :
    (settlement : Text) (l : Leg) (ls : List Leg) (kinds : List PayoutKind) (seen : List Text)
    (out : List Leg)
    → check_legs settlement (l ∷ ls) kinds seen ≡ ok out
    → LegChecked settlement l ls kinds seen out
unfolding check_legs
check_legs-LegChecked settlement l ls kinds seen out h =
    let (d, hd, h₁) =
      >>=-eq-ok (or_throw (normalize_ton_address l.destination) PayoutError.invalid_plan) _
        {b = out} h in
    let (k, h₂) = throw_if-eq-ok (has_kind l.kind kinds) PayoutError.invalid_plan _ {b = out} h₁ in
    let (f, h₃) =
      throw_if-eq-ok (ltb max_attempts_per_leg (length l.attempts)) PayoutError.invalid_plan _
        {b = out} h₂ in
    let (s, hs, h₄) =
      >>=-eq-ok (check_attempts settlement l.kind 0 l.attempts seen) _ {b = out} h₃ in
    let (r, hr, h₅) = >>=-eq-ok (check_legs settlement ls (l.kind ∷ kinds) s) _ {b = out} h₄ in
    record {
      destination = d;
      normal = or_throw-eq-ok (normalize_ton_address l.destination) PayoutError.invalid_plan hd;
      new_kind = k;
      few = f;
      seen' = s;
      attempts = hs;
      rest = r;
      others = hr;
      result = ok-injective h₅;
    }

-- The other way round.
pub LegChecked-check_legs :
    (settlement : Text) (l : Leg) (ls : List Leg) (kinds : List PayoutKind) (seen : List Text)
    (out : List Leg)
    → LegChecked settlement l ls kinds seen out
    → check_legs settlement (l ∷ ls) kinds seen ≡ ok out
unfolding check_legs
LegChecked-check_legs settlement l ls kinds seen out c =
    rw (c.normal, c.new_kind, c.few, c.attempts, c.others) (ap ok c.result)

-- Checked legs are checked again with the same outcome.
check_legs_twice :
    (settlement : Text) (ls : List Leg) (kinds : List PayoutKind) (seen : List Text)
    (out : List Leg)
    → check_legs settlement ls kinds seen ≡ ok out
    → check_legs settlement out kinds seen ≡ ok out
check_legs_twice settlement [] kinds seen out h =
    unfold check_legs in
    (let e = ok-injective h in subst (λ o. check_legs settlement o kinds seen ≡ ok o) e refl)
check_legs_twice settlement (l ∷ ls) kinds seen out h =
    let c = check_legs-LegChecked settlement l ls kinds seen out h in
    subst (λ o. check_legs settlement o kinds seen ≡ ok o) c.result
      (LegChecked-check_legs settlement (record l { destination = c.destination }) c.rest kinds seen
        (record l { destination = c.destination } ∷ c.rest)
        (record {
          destination = c.destination;
          normal = (normalize_ton_address-IsCanonical l.destination c.normal).1;
          new_kind = c.new_kind;
          few = c.few;
          seen' = c.seen';
          attempts = c.attempts;
          rest = c.rest;
          others = check_legs_twice settlement ls (l.kind ∷ kinds) c.seen' c.rest c.others;
          result = refl;
        }))

sum-check_legs :
    (settlement : Text) (ls : List Leg) (kinds : List PayoutKind) (seen : List Text)
    (out : List Leg) (n : ℕ)
    → check_legs settlement ls kinds seen ≡ ok out
    → (sum_legs out n ≡ sum_legs ls n) × (length out ≡ length ls)
unfolding sum_legs
sum-check_legs settlement [] kinds seen out n h =
    unfold check_legs in
    (let e = ok-injective h in
      subst (λ o. (sum_legs o n ≡ sum_legs [] n) × (length o ≡ 0)) e (refl, refl))
sum-check_legs settlement (l ∷ ls) kinds seen out n h =
    let c = check_legs-LegChecked settlement l ls kinds seen out h in
    let same = λ (k : ℕ). sum-check_legs settlement ls (l.kind ∷ kinds) c.seen' c.rest k c.others in
    subst (λ o. (sum_legs o n ≡ sum_legs (l ∷ ls) n) × (length o ≡ suc (length ls))) c.result
      (
        ap (λ f. positive_atomic l.amount_atomic PayoutError.invalid_plan >>= f)
            (fun_ext λ k. (same (n + k)).0),
        ap suc (same n).1,
      )

-- What `validatedClone` has tested where it returns.
pub validated_clone-IsChecked : (p : Plan) {q : Plan} → validated_clone p ≡ ok q → IsChecked q
unfolding validated_clone
validated_clone-IsChecked p {q} h =
    let (a, h₁) = throw_if-eq-ok (header_fails p) PayoutError.invalid_plan _ {b = q} h in
    let (t, ht, h₂) = >>=-eq-ok (sum_legs p.legs 0) _ {b = q} h₁ in
    let (e, he, h₃) =
      >>=-eq-ok (positive_atomic p.expected_total_atomic PayoutError.invalid_plan) _ {b = q} h₂ in
    let (te, h₄) = throw_if-eq-ok (not (t == e)) PayoutError.invalid_plan _ {b = q} h₃ in
    let (ls, hl, h₅) = >>=-eq-ok (check_legs p.settlement_id p.legs [] []) _ {b = q} h₄ in
    let (s, h₆) =
      throw_if-eq-ok (not (plan_status_eq p.status (derive_status ls))) PayoutError.invalid_plan _
        {b = q} h₅ in
    let sums = sum-check_legs p.settlement_id p.legs [] [] ls 0 hl in
    let same : t ≡ e = ground arith in
    subst IsChecked (ok-injective h₆) (record {
      header = rw sums.1 a;
      total = t;
      summed = sums.0 ∙ ht;
      conserved = he ∙ ap ok (sym same);
      checked = check_legs_twice p.settlement_id p.legs [] [] ls hl;
      derived = plan_status_eq→eq p.status (derive_status ls) (not-false _ s);
    })

-- A checked plan is returned as it is.
pub IsChecked-validated_clone : (p : Plan) → IsChecked p → validated_clone p ≡ ok p
unfolding validated_clone
IsChecked-validated_clone p c =
    let same : plan_status_eq p.status (derive_status p.legs) ≡ true =
      subst (λ s. plan_status_eq p.status s ≡ true) c.derived (plan_status_eq_refl p.status) in
    let equal : (c.total == c.total) ≡ true = ground arith in
    rw c.header (rw c.summed (rw c.conserved (rw equal (rw c.checked (rw same)))))
