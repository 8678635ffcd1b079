-- ===== src/Lease/Claims.antt =====
-- The operations of `PaymentOperationService`
-- (services/user-service/src/modules/payment/payment-operation.service.ts): each is a chain of statements
-- between which the other processes may run. A failure of the database other than the unique violation
-- is rethrown by the source and is not modelled.
use telegram_garant_contract.Common.{
  ℕ, zero, suc, Bool, true, false, List, Text, Option, none, some, ◌==◌, Result, ok, err,
  if◌then◌else◌,
}
use telegram_garant_contract.Lease.{
  OperationStatus, PaymentOperation, Table, FundingOperationRef, Worker, LeaseError, has_key,
  has_id, is_terminal, affected, find_where, update_where,
}
use telegram_garant_contract.Lease.Statements.{
  Statement, Event, run_all, failed_with, new_operation, takes, owns, renews, renewed, run, insert,
  completed_with,
}

-- What one call of `claimFunding` meets: its clock, the id of a new row, and what the other processes do
-- before it reads the row, before it takes it over and before it reads it again.
pub record Surroundings : Type 0 where
  pub now : ℕ
  pub new_id : Text
  pub before_read : List Event
  pub before_update : List Event
  pub before_reread : List Event

pub record FundingClaim : Type 0 where
  pub claimed : Bool
  pub operation : PaymentOperation

abbrev pub reread : Bool → Text → Table → Result LeaseError FundingClaim
reread claimed id table = elim (find_where (has_id id) table) [
  | none ↦ err LeaseError.row_not_found
  | some o ↦ ok (record { claimed = claimed; operation = o })
]

-- The compare-and-swap on the row that was read, and what follows it.
unfoldable pub take_over :
    Worker → Surroundings → PaymentOperation → Table → Result LeaseError FundingClaim × Table
take_over w s existing table =
    let after = run_all s.before_reread (run w s.now (Statement.takes_over existing.id) table) in
    (reread (affected (takes existing.id s.now) table == 1) existing.id after, after)

-- A terminal row is returned, another one is taken over if it may be.
unfoldable pub claim_existing :
    Worker → Surroundings → PaymentOperation → Table → Result LeaseError FundingClaim × Table
claim_existing w s existing table =
    let update = take_over w s existing (run_all s.before_update table) in
    if is_terminal existing.status
    then (ok (record { claimed = false; operation = existing }), table)
    else update

-- The read of the row that the insertion met; `otherwise` is what follows where there is none.
unfoldable pub claim_read :
    Worker
    → FundingOperationRef
    → Surroundings
    → Table
    → Result LeaseError FundingClaim × Table
    → Result LeaseError FundingClaim × Table
claim_read w r s table otherwise = elim (find_where (has_key r) table) [
  | none ↦ otherwise
  | some existing ↦ claim_existing w s existing table
]

-- What follows the insertion.
abbrev pub after_insert :
    Worker
    → FundingOperationRef
    → Surroundings
    → Table
    → (Table → Result LeaseError FundingClaim × Table)
    → Option Table
    → Result LeaseError FundingClaim × Table
after_insert w r s table otherwise none =
    let t = run_all s.before_read table in claim_read w r s t (otherwise t)
after_insert w r s table otherwise (some t) =
    (ok (record { claimed = true; operation = new_operation w r s.new_id s.now }), t)

unfoldable pub claim_attempt :
    Worker
    → FundingOperationRef
    → Surroundings
    → Table
    → (Table → Result LeaseError FundingClaim × Table)
    → Result LeaseError FundingClaim × Table
claim_attempt w r s table otherwise =
    after_insert w r s table otherwise (insert w r s.new_id s.now table)

-- `claimFunding`, where `retries` is what `retryCount` leaves of the maximum; each retry meets
-- surroundings of its own.
unfoldable pub claim_funding :
    Worker
    → FundingOperationRef
    → (ℕ → Surroundings)
    → ℕ
    → Table
    → Result LeaseError FundingClaim × Table
claim_funding w r at zero table =
    claim_attempt w r (at zero) table (λ t. (err LeaseError.unreadable_after_conflict, t))
claim_funding w r at (suc n) table =
    claim_attempt w r (at (suc n)) table (λ t. claim_funding w r at n t)

-- `assertLeaseUpdate` behind an update.
unfoldable pub assert_lease_update :
    Text
    → (PaymentOperation → Bool)
    → (PaymentOperation → PaymentOperation)
    → Table
    → Result LeaseError (Unit {0}) × Table
assert_lease_update id c f table = (
  if affected c table == 1 then ok tt else err (LeaseError.lease_lost id),
  update_where c f table,
)

unfoldable pub mark_completed :
    Worker → Text → Option Text → Option Text → Table → Result LeaseError (Unit {0}) × Table
mark_completed w id transfer notify table =
    assert_lease_update id (owns id w.owner) (completed_with transfer notify) table

unfoldable pub mark_retryable_failure :
    Worker → Text → Text → Text → Table → Result LeaseError (Unit {0}) × Table
mark_retryable_failure w id code message table =
    assert_lease_update id (owns id w.owner)
      (failed_with OperationStatus.failed_retryable code message) table

unfoldable pub mark_manual_review :
    Worker → Text → Text → Text → Table → Result LeaseError (Unit {0}) × Table
mark_manual_review w id code message table =
    assert_lease_update id (owns id w.owner)
      (failed_with OperationStatus.manual_review code message) table

unfoldable pub renew_lease : Worker → Text → ℕ → Table → Result LeaseError (Unit {0}) × Table
renew_lease w id now table = assert_lease_update id (renews id w.owner) (renewed w now) table
