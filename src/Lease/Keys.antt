-- ===== src/Lease/Keys.antt =====
-- Ids and keys of the payment operations
-- (services/user-service/src/modules/payment/payment-operation.service.ts): the database gives each id to
-- one row, and no statement changes the id of a row or its key.
use telegram_garant_contract.Common.{
  ℕ, Bool, true, false, List, [], ◌∷◌, Text, some, if◌then◌else◌, ◌≡◌, refl, sym, subst, Has, All,
  inl, inr, some-injective,
}
use telegram_garant_contract.Lease.{
  OperationStatus, PaymentOperation, Table, FundingOperationRef, Worker, has_key, find_where,
}
use telegram_garant_contract.Lease.Statements.{
  Statement, Event, new_operation, takes, taken, owns, completed_with, failed_with, renews, renewed,
  run, run_all, insert-cases, or_as_before, All-update_where,
}

pub find_where-some :
    (c : PaymentOperation → Bool) (table : Table) (o : PaymentOperation)
    → find_where c table ≡ some o
    → (c o ≡ true) × Has o table
unfolding find_where
find_where-some c [] o h = cc
find_where-some c (p ∷ ps) o h = pick (c p) refl h (find_where-some c ps o)
  where
    pick :
        (b : Bool)
        → c p ≡ b
        → (if b then some p else find_where c ps) ≡ some o
        → (find_where c ps ≡ some o → (c o ≡ true) × Has o ps)
        → (c o ≡ true) × Has o (p ∷ ps)
    pick true q k ih = (subst (λ x. c x ≡ true) (some-injective k) q, inl (some-injective k))
    pick false q k ih = let (a, m) = ih k in (a, inr m)

pub All-at :
    (P : PaymentOperation → Type 0) (o : PaymentOperation) (table : Table)
    → All P table
    → Has o table
    → P o
All-at P o [] h k = absurd k
All-at P o (p ∷ ps) (h, hs) (inl e) = subst P e h
All-at P o (p ∷ ps) (h, hs) (inr k) = All-at P o ps hs k

-- `of_ref` tells of an id whether it was given to a row of the key of `r`.
module _ (r : FundingOperationRef) (of_ref : Text → Bool) where
  abbrev pub IsKeyed : PaymentOperation → Type 0
  IsKeyed o = has_key r o ≡ of_ref o.id

  -- A row that is inserted has an id of its key.
  abbrev pub IsKeyedStatement : Worker → ℕ → Statement → Type 0
  IsKeyedStatement w now (Statement.inserts s id) = IsKeyed (new_operation w s id now)
  IsKeyedStatement w now _ = Unit

  abbrev pub IsKeyedEvent : Event → Type 0
  IsKeyedEvent e = IsKeyedStatement e.worker e.now e.statement

  run-IsKeyed :
      (w : Worker) (now : ℕ) (st : Statement) (table : Table)
      → IsKeyedStatement w now st
      → All IsKeyed table
      → All IsKeyed (run w now st table)
  unfolding run
  run-IsKeyed w now (Statement.inserts s id) table k h = elim (insert-cases w s id now table) [
    | inl known ↦ subst (λ x. All IsKeyed (or_as_before table x)) (sym known) h
    | inr new ↦ subst (λ x. All IsKeyed (or_as_before table x)) (sym new) (k, h)
  ]
  run-IsKeyed w now (Statement.takes_over id) table k h =
      All-update_where IsKeyed (takes id now) (taken w now) table (λ o q. q) h
  run-IsKeyed w now (Statement.completes id transfer notify) table k h =
      All-update_where IsKeyed (owns id w.owner) (completed_with transfer notify) table (λ o q. q) h
  run-IsKeyed w now (Statement.fails id code message) table k h =
      All-update_where IsKeyed (owns id w.owner)
        (failed_with OperationStatus.failed_retryable code message) table (λ o q. q) h
  run-IsKeyed w now (Statement.parks id code message) table k h =
      All-update_where IsKeyed (owns id w.owner)
        (failed_with OperationStatus.manual_review code message) table (λ o q. q) h
  run-IsKeyed w now (Statement.renews_lease id) table k h =
      All-update_where IsKeyed (renews id w.owner) (renewed w now) table (λ o q. q) h

  pub run_all-IsKeyed :
      (es : List Event) (table : Table)
      → All IsKeyedEvent es
      → All IsKeyed table
      → All IsKeyed (run_all es table)
  unfolding run_all
  run_all-IsKeyed [] table k h = h
  run_all-IsKeyed (e ∷ es) table (k, ks) h =
      run_all-IsKeyed es (run e.worker e.now e.statement table) ks
        (run-IsKeyed e.worker e.now e.statement table k h)
