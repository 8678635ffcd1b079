-- ===== src/Lease/Interleavings.antt =====
-- Sequences of statements of several workers on the table of payment operations
-- (services/user-service/src/modules/payment/payment-operation.service.ts).
use telegram_garant_contract.Common.{
  ℕ, ◌<◌, Bool, true, false, ◌&&◌, List, [], ◌∷◌, Text, some, text_eq, text_eq→eq, ◌≡◌, ◌≢◌, refl,
  sym, subst, arith, Has, All, inl, inr, Bool-cases,
}
use telegram_garant_contract.Lease.{
  OperationStatus, PaymentOperation, Table, Worker, has_id, is_held_by, may_take, is_terminal,
}
use telegram_garant_contract.Lease.Statements.{
  Statement, Event, takes, taken, owns, completed_with, failed_with, renews, renewed, run, run_all,
  insert-cases, or_as_before, IsHeld, Has-update_where, All-update_where,
}

-- Each statement keeps rows held exactly while they are processed.
run-IsHeld :
    (w : Worker) (now : ℕ) (st : Statement) (table : Table)
    → All IsHeld table
    → All IsHeld (run w now st table)
unfolding run
run-IsHeld w now (Statement.inserts r id) table h = elim (insert-cases w r id now table) [
  | inl known ↦ subst (λ x. All IsHeld (or_as_before table x)) (sym known) h
  | inr new ↦ subst (λ x. All IsHeld (or_as_before table x)) (sym new) (refl, h)
]
run-IsHeld w now (Statement.takes_over id) table h =
    All-update_where IsHeld (takes id now) (taken w now) table (λ o k. refl) h
run-IsHeld w now (Statement.completes id transfer notify) table h =
    All-update_where IsHeld (owns id w.owner) (completed_with transfer notify) table (λ o k. refl) h
run-IsHeld w now (Statement.fails id code message) table h =
    All-update_where IsHeld (owns id w.owner)
      (failed_with OperationStatus.failed_retryable code message) table (λ o k. refl) h
run-IsHeld w now (Statement.parks id code message) table h =
    All-update_where IsHeld (owns id w.owner)
      (failed_with OperationStatus.manual_review code message) table (λ o k. refl) h
run-IsHeld w now (Statement.renews_lease id) table h =
    All-update_where IsHeld (renews id w.owner) (renewed w now) table (λ o k. k) h

-- A row that no update of the statement applies to stays in the table.
abbrev Untouched : Worker → ℕ → PaymentOperation → Type 0
Untouched w now o = (may_take now o ≡ false) × (is_held_by w.owner o ≡ false)

and-false : (a b : Bool) → b ≡ false → (a && b) ≡ false
and-false a b h = ground arith

run-Untouched :
    (w : Worker) (now : ℕ) (st : Statement) (o : PaymentOperation) (table : Table)
    → Untouched w now o
    → Has o table
    → Has o (run w now st table)
unfolding run
run-Untouched w now (Statement.inserts r id) o table u h = elim (insert-cases w r id now table) [
  | inl known ↦ subst (λ x. Has o (or_as_before table x)) (sym known) h
  | inr new ↦ subst (λ x. Has o (or_as_before table x)) (sym new) (inr h)
]
run-Untouched w now (Statement.takes_over id) o table (u, v) h =
    Has-update_where (takes id now) (taken w now) o table (and-false _ _ u) h
run-Untouched w now (Statement.completes id transfer notify) o table (u, v) h =
    Has-update_where (owns id w.owner) (completed_with transfer notify) o table (and-false _ _ v) h
run-Untouched w now (Statement.fails id code message) o table (u, v) h =
    Has-update_where (owns id w.owner) (failed_with OperationStatus.failed_retryable code message) o
      table (and-false _ _ v) h
run-Untouched w now (Statement.parks id code message) o table (u, v) h =
    Has-update_where (owns id w.owner) (failed_with OperationStatus.manual_review code message) o
      table (and-false _ _ v) h
run-Untouched w now (Statement.renews_lease id) o table (u, v) h =
    Has-update_where (renews id w.owner) (renewed w now) o table
      (and-false (has_id id o) _ (rw v refl)) h

All-Has : (o : PaymentOperation) (table : Table) → All IsHeld table → Has o table → IsHeld o
All-Has o [] h k = absurd k
All-Has o (p ∷ ps) (h, hs) (inl e) = subst IsHeld e h
All-Has o (p ∷ ps) (h, hs) (inr k) = All-Has o ps hs k

terminal-Untouched :
    (w : Worker) (now : ℕ) (o : PaymentOperation)
    → IsHeld o
    → is_terminal o.status ≡ true
    → Untouched w now o
terminal-Untouched w now o h t = (ground arith, ground arith)

-- In a table whose rows are held exactly while they are processed, a row that is completed or parked for
-- manual review is in the table as it was after any statements of any workers at any times.
pub run_all-terminal :
    (es : List Event) (o : PaymentOperation) (table : Table)
    → All IsHeld table
    → is_terminal o.status ≡ true
    → Has o table
    → Has o (run_all es table)
unfolding run_all
run_all-terminal [] o table s t h = h
run_all-terminal (e ∷ es) o table s t h =
    run_all-terminal es o (run e.worker e.now e.statement table)
      (run-IsHeld e.worker e.now e.statement table s) t
      (run-Untouched e.worker e.now e.statement o table
        (terminal-Untouched e.worker e.now o (All-Has o table s h) t) h)

-- The statement is of another worker than `owner`, before the time.
abbrev pub IsForeign : Text → ℕ → Event → Type 0
IsForeign owner expires e = (owner ≢ e.worker.owner) × (e.now < expires)

held-Untouched :
    (w : Worker) (now : ℕ) (o : PaymentOperation) (owner : Text) (expires : ℕ)
    → o.status ≡ OperationStatus.processing
    → o.lease_owner ≡ some owner
    → o.lease_expires_at ≡ some expires
    → owner ≢ w.owner
    → now < expires
    → Untouched w now o
held-Untouched w now o owner expires s l x n t =
    (rw (s, x) (ground arith), rw l (differs owner w.owner n))
  where
    differs : (s t : Text) → s ≢ t → text_eq s t ≡ false
    differs s t n = elim (Bool-cases (text_eq s t)) [
      | inl same ↦ absurd (n (text_eq→eq s t same))
      | inr other ↦ other
    ]

-- A row that is processed under a lease is in the table as it was after any statements of workers other
-- than the lease's owner at times before the lease expires.
pub run_all-exclusive :
    (es : List Event) (o : PaymentOperation) (table : Table) (owner : Text) (expires : ℕ)
    → o.status ≡ OperationStatus.processing
    → o.lease_owner ≡ some owner
    → o.lease_expires_at ≡ some expires
    → All (IsForeign owner expires) es
    → Has o table
    → Has o (run_all es table)
unfolding run_all
run_all-exclusive [] o table owner expires s l x f h = h
run_all-exclusive (e ∷ es) o table owner expires s l x (f, fs) h =
    run_all-exclusive es o (run e.worker e.now e.statement table) owner expires s l x fs (
      run-Untouched e.worker e.now e.statement o table
        (held-Untouched e.worker e.now o owner expires s l x f.0 f.1) h)
