-- ===== src/Payout/Advance.antt =====
-- `prepareTonJettonPayoutAttempt` and `applyTonJettonPayoutObservation` of
-- services/user-service/src/modules/escrow/adapters/ton-jetton-payout-state.ts.
use telegram_garant_contract.Common.{
  ℕ, ◌+◌, Bool, true, false, not, ◌&&◌, List, [], ◌∷◌, ◌++◌, Text, Option, none, some, leb, ◌==◌,
  if◌then◌else◌, length, last?, any, text_eq, Result, ok, err, throw_if, or_throw, ◌>>=◌, ◌>>◌,
}
use telegram_garant_contract.Decimal.{to_text}
use telegram_garant_contract.Address.{normalize_ton_address}
use telegram_garant_contract.Payout.{
  PayoutKind, PayoutError, AttemptStatus, ObservationType, Attempt, Leg, Plan, Observation,
  is_transaction_id, uint64, attempt_key, derive_status, require_leg, write_leg, write_last,
  max_attempts_per_leg,
}
use telegram_garant_contract.Payout.Validate.{validated_clone}

-- `plan.status = deriveStatus(plan)` after a write to a leg.
abbrev pub with_leg : Plan → Leg → Plan
with_leg p l =
    let legs = write_leg l p.legs in record p { legs = legs; status = derive_status legs }

abbrev pub new_attempt : Text → PayoutKind → ℕ → ℕ → Attempt
new_attempt settlement kind n query = record {
  attempt = n;
  idempotency_key = attempt_key settlement kind n;
  query_id = to_text query;
  status = AttemptStatus.prepared;
  submission_transaction_id = none;
  final_transaction_id = none;
}

-- Some attempt of some leg has the query id.
abbrev pub uses_query : Text → List Leg → Bool
uses_query q legs = any (λ l. any (λ a. text_eq a.query_id q) l.attempts) legs

-- `latest?.status === "prepared" && latest.queryId === query.toString()`
abbrev pub is_prepared_as : Text → Option Attempt → Bool
is_prepared_as q none = false
is_prepared_as q (some a) = elim a.status [
  | AttemptStatus.prepared ↦ text_eq a.query_id q
  | _ ↦ false
]

-- `latest && latest.status !== "bounced"`
abbrev pub is_not_retryable : Option Attempt → Bool
is_not_retryable none = false
is_not_retryable (some a) = elim a.status [ AttemptStatus.bounced ↦ false | _ ↦ true ]

-- The part of `prepareTonJettonPayoutAttempt` behind the leg's lookup.
unfoldable pub add_attempt : Plan → Leg → ℕ → Result PayoutError Plan
add_attempt p l query = do
  throw_if (is_not_retryable (last? l.attempts)) PayoutError.leg_not_retryable
  throw_if (leb max_attempts_per_leg (length l.attempts)) PayoutError.attempt_limit_reached
  throw_if (uses_query (to_text query) p.legs) PayoutError.query_id_reused
  ok (
      with_leg p (record l {
        attempts =
            l.attempts ++ (new_attempt p.settlement_id l.kind (length l.attempts + 1) query ∷ []);
      }))

unfoldable pub prepare_attempt : Plan → PayoutKind → Text → Result PayoutError Plan
prepare_attempt input kind query_id = do
  p ← validated_clone input
  query ← uint64 query_id PayoutError.invalid_query_id
  l ← require_leg p.legs kind
  if is_prepared_as (to_text query) (last? l.attempts) then ok p else add_attempt p l query

-- The transition of the latest attempt: `none` where the plan is returned as it is.
abbrev pub same_id : Option Text → Text → Bool
same_id none t = false
same_id (some s) t = text_eq s t

unfoldable pub observe_attempt :
    ObservationType → Text → Attempt → Result PayoutError (Option Attempt)
observe_attempt ObservationType.was_submitted tx a = elim a.status [
  | AttemptStatus.submitted ↦
      if same_id a.submission_transaction_id tx
      then ok none
      else err PayoutError.invalid_payout_transition
  | AttemptStatus.prepared ↦
      ok (some (record a { status = AttemptStatus.submitted; submission_transaction_id = some tx }))
  | _ ↦ err PayoutError.invalid_payout_transition
]
observe_attempt ObservationType.was_confirmed tx a = elim a.status [
  | AttemptStatus.confirmed ↦
      if same_id a.final_transaction_id tx
      then ok none
      else err PayoutError.invalid_payout_transition
  | AttemptStatus.submitted ↦
      ok (some (record a { status = AttemptStatus.confirmed; final_transaction_id = some tx }))
  | _ ↦ err PayoutError.invalid_payout_transition
]
observe_attempt ObservationType.was_bounced tx a = elim a.status [
  | AttemptStatus.bounced ↦
      if same_id a.final_transaction_id tx
      then ok none
      else err PayoutError.invalid_payout_transition
  | AttemptStatus.submitted ↦
      ok (some (record a { status = AttemptStatus.bounced; final_transaction_id = some tx }))
  | _ ↦ err PayoutError.invalid_payout_transition
]

-- The observed destination, normalized, and amount are those of the leg.
abbrev pub binds : Option Text → Text → Leg → Bool
binds none amount l = false
binds (some d) amount l = text_eq d l.destination && text_eq amount l.amount_atomic

-- The observation is about the latest attempt.
abbrev pub is_latest : Observation → Attempt → Bool
is_latest o a = a.attempt == o.attempt && text_eq a.query_id o.query_id

abbrev pub after_observation : Plan → Leg → Option Attempt → Plan
after_observation p l none = p
after_observation p l (some a) = with_leg p (record l { attempts = write_last a l.attempts })

unfoldable pub apply_observation : Plan → Observation → Result PayoutError Plan
apply_observation input o = do
  p ← validated_clone input
  throw_if (not (is_transaction_id o.transaction_id)) PayoutError.invalid_transaction_id
  l ← require_leg p.legs o.kind
  throw_if (not (binds (normalize_ton_address o.destination) o.amount_atomic l))
      PayoutError.payout_leg_mismatch
  _ ← uint64 o.query_id PayoutError.invalid_query_id
  a ← or_throw (last? l.attempts) PayoutError.stale_or_unknown_attempt
  throw_if (not (is_latest o a)) PayoutError.stale_or_unknown_attempt
  next ← observe_attempt o.type o.transaction_id a
  ok (after_observation p l next)
