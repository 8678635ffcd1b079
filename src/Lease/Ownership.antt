-- ===== src/Lease/Ownership.antt =====
-- What happens to a worker that lost its lease on a payment operation
-- (services/user-service/src/modules/payment/payment-operation.service.ts).
use telegram_garant_contract.Common.{
  ℕ, Bool, false, ◌&&◌, [], ◌∷◌, Text, Option, ◌≡◌, refl, ap, arith, All, err,
}
use telegram_garant_contract.Lease.{
  OperationStatus, PaymentOperation, Table, Worker, LeaseError, has_id, is_held_by, is_processing,
  affected, update_where,
}
use telegram_garant_contract.Lease.Statements.{owns, renews, renewed, completed_with, failed_with}
use telegram_garant_contract.Lease.Claims.{
  assert_lease_update, mark_completed, mark_retryable_failure, mark_manual_review, renew_lease,
}

unaffected :
    (c : PaymentOperation → Bool) (f : PaymentOperation → PaymentOperation) (table : Table)
    → All (λ o. c o ≡ false) table
    → (affected c table ≡ 0) × (update_where c f table ≡ table)
unfolding affected update_where
unaffected c f [] h = (refl, refl)
unaffected c f (o ∷ os) (h, hs) = let (n, e) = unaffected c f os hs in rw h (n, ap (λ t. o ∷ t) e)

lost :
    (id : Text) (c : PaymentOperation → Bool) (f : PaymentOperation → PaymentOperation)
    (table : Table)
    → All (λ o. c o ≡ false) table
    → assert_lease_update id c f table ≡ (err (LeaseError.lease_lost id), table)
unfolding assert_lease_update
lost id c f table h = let (n, e) = unaffected c f table h in rw (n, e) refl

-- The row of the id, if there is one, is not the worker's.
abbrev pub IsStale : Worker → Text → Table → Type 0
IsStale w id table = All (λ o. owns id w.owner o ≡ false) table

not-renews :
    (w : Worker) (id : Text) (table : Table)
    → IsStale w id table
    → All (λ o. renews id w.owner o ≡ false) table
not-renews w id [] h = tt
not-renews w id (o ∷ os) (h, hs) = (
  drop_status (has_id id o) (is_held_by w.owner o) (is_processing o.status) h,
  not-renews w id os hs,
)
  where
    drop_status : (a b c : Bool) → (a && b) ≡ false → (a && (b && c)) ≡ false
    drop_status a b c h = ground arith

-- A worker whose lease on an operation is lost changes nothing: completing it, failing it, parking it
-- for review and renewing its lease throw the lease error of the id and leave the table as it was.
pub stale_worker_changes_nothing :
    (w : Worker) (id : Text) (table : Table)
    → IsStale w id table
    → ((transfer notify : Option Text)
        → mark_completed w id transfer notify table ≡ (err (LeaseError.lease_lost id), table))
      × ((code message : Text)
          → mark_retryable_failure w id code message table
            ≡ (err (LeaseError.lease_lost id), table))
      × ((code message : Text)
          → mark_manual_review w id code message table ≡ (err (LeaseError.lease_lost id), table))
      × ((now : ℕ) → renew_lease w id now table ≡ (err (LeaseError.lease_lost id), table))
unfolding mark_completed mark_retryable_failure mark_manual_review renew_lease
stale_worker_changes_nothing w id table h = (
  λ transfer notify. lost id (owns id w.owner) (completed_with transfer notify) table h,
  λ code message.
      lost id (owns id w.owner) (failed_with OperationStatus.failed_retryable code message) table h,
  λ code message.
      lost id (owns id w.owner) (failed_with OperationStatus.manual_review code message) table h,
  λ now. lost id (renews id w.owner) (renewed w now) table (not-renews w id table h),
)
