-- ===== src/Lease/Statements.antt =====
-- The statements of `PaymentOperationService`
-- (services/user-service/src/modules/payment/payment-operation.service.ts), and what they keep.
use telegram_garant_contract.Common.{
  ℕ, ◌+◌, Bool, false, ◌&&◌, List, [], ◌∷◌, Text, Option, none, some, if◌then◌else◌, any, take, ◌≡◌,
  refl, ap, Has, All, ◌⊎◌, inl, inr, Bool-cases, is_some,
}
use telegram_garant_contract.Lease.{
  OperationStatus, PaymentOperation, Table, FundingOperationRef, Worker, has_key, has_id,
  is_held_by, may_take, is_processing, fund_escrow_operation, update_where,
}

-- The row that `claimFunding` saves.
abbrev pub new_operation : Worker → FundingOperationRef → Text → ℕ → PaymentOperation
new_operation w r id now = record {
  id = id;
  provider = r.provider;
  event_key = r.event_key;
  operation_type = fund_escrow_operation;
  payment_id = some r.payment_id;
  deal_id = some r.deal_id;
  status = OperationStatus.processing;
  attempts = 1;
  lease_owner = some w.owner;
  lease_expires_at = some (now + w.lease_ms);
  transfer_tx_hash = none;
  notify_tx_hash = none;
  last_error_code = none;
  last_error = none;
}

-- `repo.save(repo.create(...))`; `none` is the unique violation.
unfoldable pub insert : Worker → FundingOperationRef → Text → ℕ → Table → Option Table
insert w r id now table =
    if any (has_key r) table then none else some (new_operation w r id now ∷ table)

abbrev pub takes : Text → ℕ → PaymentOperation → Bool
takes id now o = has_id id o && may_take now o

abbrev pub taken : Worker → ℕ → PaymentOperation → PaymentOperation
taken w now o = record o {
  status = OperationStatus.processing;
  attempts = o.attempts + 1;
  lease_owner = some w.owner;
  lease_expires_at = some (now + w.lease_ms);
  last_error = none;
  last_error_code = none;
}

abbrev pub owns : Text → Text → PaymentOperation → Bool
owns id owner o = has_id id o && is_held_by owner o

abbrev pub completed_with : Option Text → Option Text → PaymentOperation → PaymentOperation
completed_with transfer notify o = record o {
  status = OperationStatus.completed;
  transfer_tx_hash = transfer;
  notify_tx_hash = notify;
  lease_owner = none;
  lease_expires_at = none;
  last_error = none;
  last_error_code = none;
}

-- The updates of `markRetryableFailure` and `markManualReview`, of the error's code and message.
abbrev pub failed_with : OperationStatus → Text → Text → PaymentOperation → PaymentOperation
failed_with status code message o = record o {
  status = status;
  lease_owner = none;
  lease_expires_at = none;
  last_error_code = some (take 64 code);
  last_error = some (take 1000 message);
}

abbrev pub renews : Text → Text → PaymentOperation → Bool
renews id owner o = has_id id o && (is_held_by owner o && is_processing o.status)

abbrev pub renewed : Worker → ℕ → PaymentOperation → PaymentOperation
renewed w now o = record o { lease_expires_at = some (now + w.lease_ms) }

-- One statement of one worker, with the time it runs at.
pub data Statement : Type 0 where
  inserts : FundingOperationRef → Text → Statement
  takes_over : Text → Statement
  completes : Text → Option Text → Option Text → Statement
  fails : Text → Text → Text → Statement
  parks : Text → Text → Text → Statement
  renews_lease : Text → Statement

-- A statement that is refused leaves the table as it was.
abbrev pub or_as_before : Table → Option Table → Table
or_as_before table none = table
or_as_before table (some t) = t

unfoldable pub run : Worker → ℕ → Statement → Table → Table
unfolding update_where
run w now (Statement.inserts r id) table = or_as_before table (insert w r id now table)
run w now (Statement.takes_over id) table = update_where (takes id now) (taken w now) table
run w now (Statement.completes id transfer notify) table =
    update_where (owns id w.owner) (completed_with transfer notify) table
run w now (Statement.fails id code message) table =
    update_where (owns id w.owner) (failed_with OperationStatus.failed_retryable code message) table
run w now (Statement.parks id code message) table =
    update_where (owns id w.owner) (failed_with OperationStatus.manual_review code message) table
run w now (Statement.renews_lease id) table = update_where (renews id w.owner) (renewed w now) table

-- Statements of any workers, one after the other.
pub record Event : Type 0 where
  pub worker : Worker
  pub now : ℕ
  pub statement : Statement

unfoldable pub run_all : List Event → Table → Table
run_all [] table = table
run_all (e ∷ es) table = run_all es (run e.worker e.now e.statement table)

pub insert-cases :
    (w : Worker) (r : FundingOperationRef) (id : Text) (now : ℕ) (table : Table)
    → (insert w r id now table ≡ none)
      ⊎ (insert w r id now table ≡ some (new_operation w r id now ∷ table))
unfolding insert
insert-cases w r id now table = elim (Bool-cases (any (has_key r) table)) [
  | inl known ↦ inl (rw known refl)
  | inr new ↦ inr (rw new refl)
]

-- A row is held exactly while it is processed.
abbrev pub IsHeld : PaymentOperation → Type 0
IsHeld o = is_some o.lease_owner ≡ is_processing o.status

pub Has-update_where :
    (c : PaymentOperation → Bool) (f : PaymentOperation → PaymentOperation) (o : PaymentOperation)
    (table : Table)
    → c o ≡ false
    → Has o table
    → Has o (update_where c f table)
unfolding update_where
Has-update_where c f o [] k h = h
Has-update_where c f o (p ∷ ps) k (inl e) = rw (ap c e) (rw k (inl e))
Has-update_where c f o (p ∷ ps) k (inr h) = elim (Bool-cases (c p)) [
  | inl applies ↦ rw applies (inr (Has-update_where c f o ps k h))
  | inr other ↦ rw other (inr (Has-update_where c f o ps k h))
]

pub All-update_where :
    (P : PaymentOperation → Type 0) (c : PaymentOperation → Bool)
    (f : PaymentOperation → PaymentOperation) (table : Table)
    → ((o : PaymentOperation) → P o → P (f o))
    → All P table
    → All P (update_where c f table)
unfolding update_where
All-update_where P c f [] k h = h
All-update_where P c f (o ∷ os) k (h, hs) = elim (Bool-cases (c o)) [
  | inl applies ↦ rw applies (k o h, All-update_where P c f os k hs)
  | inr other ↦ rw other (h, All-update_where P c f os k hs)
]
