-- ===== src/Payout/Validate.antt =====
-- `validatedClone` of
-- services/user-service/src/modules/escrow/adapters/ton-jetton-payout-state.ts: every operation on a
-- plan begins with it.
use telegram_garant_contract.Common.{
  ℕ, suc, ◌+◌, Bool, true, false, not, ◌&&◌, ◌||◌, List, [], ◌∷◌, Text, Option, none, some, ltb,
  ◌==◌, length, is_some, text_eq, Result, ok, throw_if, or_throw, is_ok, ◌>>=◌, ◌>>◌,
}
use telegram_garant_contract.Address.{normalize_ton_address}
use telegram_garant_contract.Payout.{
  PayoutKind, PayoutError, PlanStatus, AttemptStatus, Attempt, Leg, Plan, is_settlement_id,
  is_transaction_id, positive_atomic, uint64, attempt_key, derive_status, has_kind, has_text,
  max_attempts_per_leg,
}

-- `typeof id === "string" && TRANSACTION_ID.test(id)`
abbrev pub has_id : Option Text → Bool
has_id none = false
has_id (some t) = is_transaction_id t

-- The transaction ids that an attempt of a status has.
unfoldable pub evidence_fits : AttemptStatus → Option Text → Option Text → Bool
evidence_fits AttemptStatus.prepared submission final = not (is_some submission || is_some final)
evidence_fits AttemptStatus.submitted submission final = has_id submission && not (is_some final)
evidence_fits AttemptStatus.confirmed submission final = has_id submission && has_id final
evidence_fits AttemptStatus.bounced submission final = has_id submission && has_id final

abbrev pub status_bounced : AttemptStatus → Bool
status_bounced AttemptStatus.bounced = true
status_bounced _ = false

abbrev pub is_last : List Attempt → Bool
is_last [] = true
is_last (a ∷ rest) = false

-- The tests on one attempt but that on the query ids seen before; `index` counts from zero.
unfoldable pub attempt_fits : Text → PayoutKind → ℕ → Bool → Attempt → Bool
unfolding evidence_fits
attempt_fits settlement kind index final a =
    is_ok (uint64 a.query_id PayoutError.invalid_plan)
    && (a.attempt == index + 1
        && (text_eq a.idempotency_key (attempt_key settlement kind (index + 1))
            && ((final || status_bounced a.status)
                && evidence_fits a.status a.submission_transaction_id a.final_transaction_id)))

-- The inner loop; it returns the query ids seen.
unfoldable pub check_attempts :
    Text → PayoutKind → ℕ → List Attempt → List Text → Result PayoutError (List Text)
check_attempts settlement kind index [] seen = ok seen
check_attempts settlement kind index (a ∷ rest) seen = do
  throw_if (not (attempt_fits settlement kind index (is_last rest) a)) PayoutError.invalid_plan
  throw_if (has_text a.query_id seen) PayoutError.invalid_plan
  check_attempts settlement kind (suc index) rest (a.query_id ∷ seen)

-- The outer loop, with the sets `kinds` and `queryIds`; it returns the legs with their destinations
-- normalized.
unfoldable pub check_legs :
    Text → List Leg → List PayoutKind → List Text → Result PayoutError (List Leg)
check_legs settlement [] kinds seen = ok []
check_legs settlement (l ∷ ls) kinds seen = do
  destination ← or_throw (normalize_ton_address l.destination) PayoutError.invalid_plan
  throw_if (has_kind l.kind kinds) PayoutError.invalid_plan
  throw_if (ltb max_attempts_per_leg (length l.attempts)) PayoutError.invalid_plan
  seen' ← check_attempts settlement l.kind 0 l.attempts seen
  rest ← check_legs settlement ls (l.kind ∷ kinds) seen'
  ok (record l { destination = destination } ∷ rest)

-- The `reduce` over the legs' amounts.
unfoldable pub sum_legs : List Leg → ℕ → Result PayoutError ℕ
sum_legs [] total = ok total
sum_legs (l ∷ ls) total = do
  amount ← positive_atomic l.amount_atomic PayoutError.invalid_plan
  sum_legs ls (total + amount)

unfoldable pub plan_status_eq : PlanStatus → PlanStatus → Bool
plan_status_eq PlanStatus.pending PlanStatus.pending = true
plan_status_eq PlanStatus.in_progress PlanStatus.in_progress = true
plan_status_eq PlanStatus.recovery_required PlanStatus.recovery_required = true
plan_status_eq PlanStatus.completed PlanStatus.completed = true
plan_status_eq _ _ = false

unfoldable pub validated_clone : Plan → Result PayoutError Plan
validated_clone p = do
  throw_if
      (not (p.schema_version == 1)
        || (not (is_settlement_id p.settlement_id)
            || (ltb (length p.legs) 1 || ltb 3 (length p.legs))))
      PayoutError.invalid_plan
  total ← sum_legs p.legs 0
  expected ← positive_atomic p.expected_total_atomic PayoutError.invalid_plan
  throw_if (not (total == expected)) PayoutError.invalid_plan
  legs ← check_legs p.settlement_id p.legs [] []
  throw_if (not (plan_status_eq p.status (derive_status legs))) PayoutError.invalid_plan
  ok (record p { legs = legs })
