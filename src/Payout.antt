-- ===== src/Payout.antt =====
-- services/user-service/src/modules/escrow/adapters/ton-jetton-payout-state.ts: the plan of the Jetton
-- transfers that settle an escrow, and the state of every attempt. A plan is a value: the operations
-- return a new one or throw.
pub mod Create
pub mod Validate
pub mod Advance
pub mod Checked
pub mod Kept
pub mod Attempts
pub mod Observed
pub mod Prepared
pub mod Laws
pub mod Completed
use telegram_garant_contract.Common.{
  ℕ, zero, suc, ◌+◌, ◌-◌, ◌^◌, Bool, true, false, not, ◌&&◌, ◌||◌, List, [], ◌∷◌, ◌++◌, map, Text,
  codes, Option, none, some, ltb, leb, ◌==◌, if◌then◌else◌, length, last?, any, all, is_some,
  text_eq, Result, ok, err, throw_if, or_throw, ◌>>=◌, ◌>>◌,
}
use telegram_garant_contract.Decimal.{is_canonical, value, to_text}
use telegram_garant_contract.Address.{normalize_ton_address}

pub data PayoutKind : Type 0 where
  buyer seller treasury : PayoutKind

pub data AttemptStatus : Type 0 where
  prepared submitted confirmed bounced : AttemptStatus

pub data PlanStatus : Type 0 where
  pending in_progress recovery_required completed : PlanStatus

pub data ObservationType : Type 0 where
  was_submitted was_confirmed was_bounced : ObservationType

pub data PayoutError : Type 0 where
  invalid_settlement_id invalid_expected_total invalid_leg_count invalid_or_duplicate_leg
        invalid_destination invalid_leg_amount payout_conservation_mismatch empty_payout
        invalid_query_id leg_not_retryable attempt_limit_reached query_id_reused
        invalid_transaction_id payout_leg_mismatch stale_or_unknown_attempt
        invalid_payout_transition invalid_plan unknown_payout_leg :
      PayoutError

pub record Attempt : Type 0 where
  pub attempt : ℕ
  pub idempotency_key : Text
  pub query_id : Text
  pub status : AttemptStatus
  pub submission_transaction_id : Option Text
  pub final_transaction_id : Option Text

pub record Leg : Type 0 where
  pub kind : PayoutKind
  pub destination : Text
  pub amount_atomic : Text
  pub attempts : List Attempt

pub record Plan : Type 0 where
  pub schema_version : ℕ
  pub settlement_id : Text
  pub expected_total_atomic : Text
  pub status : PlanStatus
  pub legs : List Leg

pub record Observation : Type 0 where
  pub kind : PayoutKind
  pub attempt : ℕ
  pub query_id : Text
  pub destination : Text
  pub amount_atomic : Text
  pub type : ObservationType
  pub transaction_id : Text

-- A leg of the input of `createTonJettonPayoutPlan`.
pub record RawLeg : Type 0 where
  pub kind : PayoutKind
  pub destination : Text
  pub amount_atomic : Text

unfoldable pub kind_eq : PayoutKind → PayoutKind → Bool
kind_eq buyer buyer = true
kind_eq seller seller = true
kind_eq treasury treasury = true
kind_eq _ _ = false

abbrev id_unit : ℕ → Bool
id_unit c =
    leb b'a' c && leb c b'z'
    || leb b'A' c && leb c b'Z'
    || leb b'0' c && leb c b'9'
    || c == b'.'
    || c == b'_'
    || c == b':'
    || c == b'-'

-- SETTLEMENT_ID and TRANSACTION_ID.
unfoldable pub is_settlement_id : Text → Bool
is_settlement_id t = leb 1 (length t) && leb (length t) 128 && all id_unit t

unfoldable pub is_transaction_id : Text → Bool
is_transaction_id t =
    leb 1 (length t) && leb (length t) 256 && all (λ c. id_unit c || c == b'+' || c == b'/') t

abbrev pub max_uint64 : ℕ
max_uint64 = 2 ^ 64 - 1

abbrev pub max_attempts_per_leg : ℕ
max_attempts_per_leg = 16

unfoldable pub non_negative_atomic : Text → PayoutError → Result PayoutError ℕ
non_negative_atomic t e = if is_canonical t then ok (value t) else err e

unfoldable pub positive_atomic : Text → PayoutError → Result PayoutError ℕ
unfolding non_negative_atomic
positive_atomic t e = do parsed ← non_negative_atomic t e; throw_if (parsed == 0) e; ok parsed

unfoldable pub uint64 : Text → PayoutError → Result PayoutError ℕ
uint64 t e = do
  throw_if (not (is_canonical t)) e
  throw_if (ltb max_uint64 (value t)) e
  ok (value t)

unfoldable pub payout_order : PayoutKind → ℕ
payout_order buyer = 0
payout_order seller = 1
payout_order treasury = 2

-- `${settlementId}:${kind}:${attempt}`
abbrev pub kind_text : PayoutKind → Text
kind_text buyer = codes "buyer"
kind_text seller = codes "seller"
kind_text treasury = codes "treasury"

unfoldable pub attempt_key : Text → PayoutKind → ℕ → Text
attempt_key settlement kind n = settlement ++ (b':' ∷ (kind_text kind ++ (b':' ∷ to_text n)))

abbrev pub latest_status : Leg → Option AttemptStatus
latest_status l = elim (last? l.attempts) [ none ↦ none | some a ↦ some a.status ]

abbrev pub is_confirmed : Option AttemptStatus → Bool
is_confirmed o = elim o [ some s ↦ elim s [ confirmed ↦ true | _ ↦ false ] | none ↦ false ]

abbrev pub is_bounced : Option AttemptStatus → Bool
is_bounced o = elim o [ some s ↦ elim s [ bounced ↦ true | _ ↦ false ] | none ↦ false ]

unfoldable pub derive_status : List Leg → PlanStatus
derive_status legs =
    if all (λ l. is_confirmed (latest_status l)) legs
    then completed
    else if any (λ l. is_bounced (latest_status l)) legs
    then recovery_required
    else if any (λ l. is_some (latest_status l)) legs
    then in_progress
    else pending

-- `new Set().has`
abbrev pub has_kind : PayoutKind → List PayoutKind → Bool
has_kind k ks = any (kind_eq k) ks

abbrev pub has_text : Text → List Text → Bool
has_text t ts = any (text_eq t) ts

unfoldable pub require_leg : List Leg → PayoutKind → Result PayoutError Leg
unfolding kind_eq
require_leg [] kind = err unknown_payout_leg
require_leg (l ∷ ls) kind =
    let rest = require_leg ls kind in if kind_eq l.kind kind then ok l else rest

-- A write to the object that `requireLeg` found in the plan.
unfoldable pub write_leg : Leg → List Leg → List Leg
write_leg new [] = []
write_leg new (l ∷ ls) = if kind_eq l.kind new.kind then new ∷ ls else l ∷ write_leg new ls

-- A write to `leg.attempts.at(-1)`.
unfoldable pub write_last : Attempt → List Attempt → List Attempt
write_last new [] = []
write_last new (a ∷ []) = new ∷ []
write_last new (a ∷ b ∷ rest) = a ∷ write_last new (b ∷ rest)
