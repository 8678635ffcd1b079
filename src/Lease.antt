-- ===== src/Lease.antt =====
-- services/user-service/src/modules/payment/payment-operation.service.ts and its entity: the leases on
-- the payments that are being relayed. The table is a list of rows, newest first; each SQL statement is a
-- function on it. The clock, the ids and the lease's length are arguments.
pub mod Statements
pub mod Keys
pub mod Interleavings
pub mod Claims
pub mod Holding
pub mod Ownership
use telegram_garant_contract.Common.{
  ℕ, zero, suc, ◌+◌, ◌≤◌, Bool, true, false, not, ◌&&◌, ◌||◌, List, [], ◌∷◌, Text, codes, Option,
  none, some, leb, ◌==◌, if◌then◌else◌, any, text_eq, Result, ok, err, take,
}

pub data OperationStatus : Type 0 where
  processing completed failed_retryable manual_review : OperationStatus

pub record PaymentOperation : Type 0 where
  pub id : Text
  pub provider : Text
  pub event_key : Text
  pub operation_type : Text
  pub payment_id : Option Text
  pub deal_id : Option Text
  pub status : OperationStatus
  pub attempts : ℕ
  pub lease_owner : Option Text
  pub lease_expires_at : Option ℕ
  pub transfer_tx_hash : Option Text
  pub notify_tx_hash : Option Text
  pub last_error_code : Option Text
  pub last_error : Option Text

abbrev pub Table : Type 0
Table = List PaymentOperation

pub record FundingOperationRef : Type 0 where
  pub provider : Text
  pub event_key : Text
  pub payment_id : Text
  pub deal_id : Text

-- What one process is: its random `leaseOwner`, and `leaseMs`.
pub record Worker : Type 0 where
  pub owner : Text
  pub lease_ms : ℕ

pub data LeaseError : Type 0 where
  lease_lost : Text → LeaseError
  unreadable_after_conflict row_not_found : LeaseError

abbrev pub fund_escrow_operation : Text
fund_escrow_operation = codes "fund_escrow"

abbrev pub max_claim_retries : ℕ
max_claim_retries = 3

-- The unique key (provider, eventKey, operationType).
abbrev pub has_key : FundingOperationRef → PaymentOperation → Bool
has_key r o =
    text_eq o.provider r.provider
    && (text_eq o.event_key r.event_key && text_eq o.operation_type fund_escrow_operation)

abbrev pub has_id : Text → PaymentOperation → Bool
has_id id o = text_eq o.id id

-- SQL's `"leaseOwner" = :owner`, which a null fails.
abbrev pub is_held_by : Text → PaymentOperation → Bool
is_held_by owner o = elim o.lease_owner [ none ↦ false | some w ↦ text_eq w owner ]

abbrev pub has_expired : ℕ → Option ℕ → Bool
has_expired now none = false
has_expired now (some t) = leb t now

-- The condition of the compare-and-swap in `claimFunding`.
abbrev pub may_take : ℕ → PaymentOperation → Bool
may_take now o = elim o.status [
  | OperationStatus.failed_retryable ↦ true
  | OperationStatus.processing ↦ has_expired now o.lease_expires_at
  | _ ↦ false
]

abbrev pub is_terminal : OperationStatus → Bool
is_terminal OperationStatus.completed = true
is_terminal OperationStatus.manual_review = true
is_terminal _ = false

abbrev pub is_processing : OperationStatus → Bool
is_processing OperationStatus.processing = true
is_processing _ = false

-- `UPDATE ... SET ... WHERE ...`: every row of the condition is changed.
unfoldable pub update_where :
    (PaymentOperation → Bool) → (PaymentOperation → PaymentOperation) → Table → Table
update_where c f [] = []
update_where c f (o ∷ os) = if c o then f o ∷ update_where c f os else o ∷ update_where c f os

-- `result.affected`
unfoldable pub affected : (PaymentOperation → Bool) → Table → ℕ
affected c [] = 0
affected c (o ∷ os) = if c o then suc (affected c os) else affected c os

unfoldable pub find_where : (PaymentOperation → Bool) → Table → Option PaymentOperation
find_where c [] = none
find_where c (o ∷ os) = let rest = find_where c os in if c o then some o else rest
