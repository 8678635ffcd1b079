-- ===== src/Payout/Completed.antt =====
-- What a completed plan says of its legs
-- (services/user-service/src/modules/escrow/adapters/ton-jetton-payout-state.ts).
use telegram_garant_contract.Common.{
  ℕ, Bool, true, false, List, [], ◌∷◌, Text, Option, none, some, if◌then◌else◌, ◌≡◌, refl, sym, ◌∙◌,
  arith, all, last?, ok, All, any, is_some, &&-eq-true,
}
use telegram_garant_contract.Payout.{
  PayoutKind, PlanStatus, AttemptStatus, Attempt, Leg, Plan, derive_status, latest_status,
  is_confirmed, is_bounced,
}
use telegram_garant_contract.Payout.Validate.{
  attempt_fits, evidence_fits, validated_clone, check_legs, has_id,
}
use telegram_garant_contract.Payout.Checked.{validated_clone-IsChecked, check_legs-LegChecked}
use telegram_garant_contract.Payout.Attempts.{last-fits}

-- Each leg has a latest attempt that is confirmed, with the final transaction's id.
pub record IsPaid (l : Leg) : Type 0 where
  pub attempt : Attempt
  pub last : last? l.attempts ≡ some attempt
  pub confirmed : attempt.status ≡ AttemptStatus.confirmed
  pub submission : has_id attempt.submission_transaction_id ≡ true
  pub final : has_id attempt.final_transaction_id ≡ true

confirmed-latest :
    (l : Leg)
    → is_confirmed (latest_status l) ≡ true
    → (a : Attempt) × (last? l.attempts ≡ some a) × (a.status ≡ AttemptStatus.confirmed)
confirmed-latest l h = latest (last? l.attempts) refl h
  where
    latest :
        (o : Option Attempt)
        → last? l.attempts ≡ o
        → is_confirmed (elim o [ none ↦ none | some a ↦ some a.status ]) ≡ true
        → (a : Attempt) × (last? l.attempts ≡ some a) × (a.status ≡ AttemptStatus.confirmed)
    latest none e h = cc
    latest (some a) e h = (a, e, ground arith)

fits-evidence :
    (settlement : Text) (k : PayoutKind) (n : ℕ) (a : Attempt)
    → attempt_fits settlement k n true a ≡ true
    → a.status ≡ AttemptStatus.confirmed
    → (has_id a.submission_transaction_id ≡ true) × (has_id a.final_transaction_id ≡ true)
unfolding attempt_fits evidence_fits
fits-evidence settlement k n a h s = ground arith

all-IsPaid :
    (settlement : Text) (ls : List Leg) (ks : List PayoutKind) (s : List Text) (out : List Leg)
    → check_legs settlement ls ks s ≡ ok out
    → all (λ l. is_confirmed (latest_status l)) ls ≡ true
    → All IsPaid ls
all-IsPaid settlement [] ks s out h c = tt
all-IsPaid settlement (l ∷ ls) ks s out h c =
    let d = check_legs-LegChecked settlement l ls ks s out h in
    let (here, later) = &&-eq-true _ _ c in
    let (a, e, st) = confirmed-latest l here in
    let (m, f) = last-fits settlement l.kind 0 l.attempts a s d.seen' e d.attempts in
    let (sub, fin) = fits-evidence settlement l.kind m a f st in
    (
      record { attempt = a; last = e; confirmed = st; submission = sub; final = fin },
      all-IsPaid settlement ls (l.kind ∷ ks) d.seen' d.rest d.others later,
    )

derive-completed :
    (ls : List Leg)
    → PlanStatus.completed ≡ derive_status ls
    → all (λ l. is_confirmed (latest_status l)) ls ≡ true
unfolding derive_status
derive-completed ls h =
    select (all (λ l. is_confirmed (latest_status l)) ls)
      (any (λ l. is_bounced (latest_status l)) ls) (any (λ l. is_some (latest_status l)) ls) h
  where
    select :
        (a b c : Bool)
        → PlanStatus.completed ≡ (
            if a
            then PlanStatus.completed
            else if b
            then PlanStatus.recovery_required
            else if c
            then PlanStatus.in_progress
            else PlanStatus.pending)
        → a ≡ true
    select true b c h = refl
    select false true c h = cc
    select false false true h = cc
    select false false false h = cc

-- Where `validated_clone` returns a plan that is completed, the latest attempt of each leg is confirmed
-- and has well-formed ids of both of its transactions.
pub validated_clone-completed :
    (p q : Plan) → validated_clone p ≡ ok q → q.status ≡ PlanStatus.completed → All IsPaid q.legs
validated_clone-completed p q h s =
    let c = validated_clone-IsChecked p h in
    all-IsPaid q.settlement_id q.legs [] [] q.legs c.checked
      (derive-completed q.legs (sym s ∙ c.derived))
