-- ===== src/Lease/Holding.antt =====
-- What a worker may rely on that claims a payment operation
-- (services/user-service/src/modules/payment/payment-operation.service.ts).
use telegram_garant_contract.Common.{
  ℕ, zero, suc, ◌+◌, Bool, true, false, ◌&&◌, [], ◌∷◌, Text, Option, none, some, ◌==◌, ◌≡◌, refl,
  sym, ap, subst, ok-injective, text_eq→eq, text_eq_refl, ◌∙◌, arith, Has, All, Result, ok, err,
  inl, inr, Bool-cases, if◌then◌else◌,
}
use telegram_garant_contract.Lease.{
  OperationStatus, PaymentOperation, Table, FundingOperationRef, Worker, LeaseError, has_key,
  fund_escrow_operation, may_take, has_id, is_terminal, affected, find_where, update_where,
}
use telegram_garant_contract.Lease.Keys.{
  find_where-some, All-at, IsKeyed, IsKeyedEvent, run_all-IsKeyed,
}
use telegram_garant_contract.Lease.Statements.{
  Statement, new_operation, takes, taken, run, run_all, insert-cases,
}
use telegram_garant_contract.Lease.Claims.{
  Surroundings, FundingClaim, reread, take_over, claim_existing, claim_read, after_insert,
  claim_attempt, claim_funding,
}
use telegram_garant_contract.Lease.Interleavings.{IsForeign, run_all-exclusive}

-- The table has a row of the ref's key and of the id, which the worker processes under a lease until the
-- time.
pub record Holds (w : Worker) (r : FundingOperationRef) (id : Text) (expires : ℕ) (table : Table)
    : Type 0 where
  pub row : PaymentOperation
  pub stored : Has row table
  pub identified : row.id ≡ id
  pub keyed : has_key r row ≡ true
  pub processed : row.status ≡ OperationStatus.processing
  pub owned : row.lease_owner ≡ some w.owner
  pub leased : row.lease_expires_at ≡ some expires

-- What the others do around one attempt: they insert rows whose ids are of their keys, and between the
-- update and the second read they are other workers, before the new lease expires.
pub record IsOrdinary (w : Worker) (r : FundingOperationRef) (of_ref : Text → Bool)
    (s : Surroundings) : Type 0 where
  pub keyed_read : All (IsKeyedEvent r of_ref) s.before_read
  pub keyed_update : All (IsKeyedEvent r of_ref) s.before_update
  pub foreign : All (IsForeign w.owner (s.now + w.lease_ms)) s.before_reread

-- A claim that succeeds comes with a lease on the operation that it returns, from one of the calls' clocks.
abbrev Claimed :
    Worker
    → FundingOperationRef
    → (ℕ → Surroundings)
    → Result LeaseError FundingClaim × Table
    → Type 0
Claimed w r at (x, table) =
    (c : FundingClaim)
    → x ≡ ok c
    → c.claimed ≡ true
    → (n : ℕ) × Holds w r c.operation.id ((at n).now + w.lease_ms) table

updated-row :
    (P : PaymentOperation → Type 0) (c : PaymentOperation → Bool)
    (f : PaymentOperation → PaymentOperation) (table : Table)
    → All P table
    → (affected c table == 1) ≡ true
    → (o : PaymentOperation) × Has (f o) (update_where c f table) × (c o ≡ true) × P o
unfolding affected update_where
updated-row P c f [] k h = cc
updated-row P c f (o ∷ os) (k, ks) h = elim (Bool-cases (c o)) [
  | inl applies ↦ (o, rw applies (inl refl), applies, k)
  | inr other ↦
      let (p, m, a, q) = updated-row P c f os ks (ground arith) in (p, rw other (inr m), a, q)
]

claimed-reread :
    (b : Bool) (id : Text) (table : Table) (c : FundingClaim)
    → reread b id table ≡ ok c
    → c.claimed ≡ true
    → (b ≡ true) × (c.operation.id ≡ id)
claimed-reread b id table c h k = found (find_where (has_id id) table) refl h
  where
    found :
        (o : Option PaymentOperation)
        → find_where (has_id id) table ≡ o
        → (elim o [
          | none ↦ err LeaseError.row_not_found
          | some p ↦ ok (record { claimed = b; operation = p })
        ])
          ≡ ok c
        → (b ≡ true) × (c.operation.id ≡ id)
    found none q h = cc
    found (some p) q h =
        let same : record { claimed = b; operation = p } ≡ c = ok-injective h in
        let (t, _) = find_where-some (has_id id) table p q in
        (
          ap (λ (x : FundingClaim). x.claimed) same ∙ k,
          ap (λ (x : FundingClaim). x.operation.id) (sym same) ∙ text_eq→eq p.id id t,
        )

module _ (w : Worker) (r : FundingOperationRef) (of_ref : Text → Bool) (at : ℕ → Surroundings) where
  take_over-Claimed :
      (n : ℕ) (o : PaymentOperation) (table : Table)
      → IsOrdinary w r of_ref (at n)
      → of_ref o.id ≡ true
      → All (IsKeyed r of_ref) table
      → Claimed w r at (take_over w (at n) o table)
  unfolding take_over run
  take_over-Claimed n o table f q ks c e k =
      let s = at n in
      let update = run w s.now (Statement.takes_over o.id) table in
      let (b, i) = claimed-reread _ o.id (run_all s.before_reread update) c e k in
      let (p, h, t, m) =
        updated-row (IsKeyed r of_ref) (takes o.id s.now) (taken w s.now) table ks b in
      let same : p.id ≡ o.id = text_eq→eq p.id o.id (left (has_id o.id p) (may_take s.now p) t) in
      (
        n,
        record {
          row = taken w s.now p;
          stored =
              run_all-exclusive s.before_reread (taken w s.now p) update w.owner
                (s.now + w.lease_ms) refl refl refl f.foreign h;
          identified = same ∙ sym i;
          keyed = m ∙ ap of_ref same ∙ q;
          processed = refl;
          owned = refl;
          leased = refl;
        },
      )
    where
      left : (a b : Bool) → (a && b) ≡ true → a ≡ true
      left a b h = ground arith

  claim_existing-Claimed :
      (n : ℕ) (o : PaymentOperation) (table : Table)
      → IsOrdinary w r of_ref (at n)
      → of_ref o.id ≡ true
      → All (IsKeyed r of_ref) table
      → Claimed w r at (claim_existing w (at n) o table)
  unfolding claim_existing
  claim_existing-Claimed n o table f q ks =
      select (is_terminal o.status) (λ c e k. cc)
        (take_over-Claimed n o (run_all (at n).before_update table) f q
          (run_all-IsKeyed r of_ref (at n).before_update table f.keyed_update ks))
    where
      select :
          (b : Bool) {x y : Result LeaseError FundingClaim × Table}
          → Claimed w r at x
          → Claimed w r at y
          → Claimed w r at (if b then x else y)
      select true h k = h
      select false h k = k

  claim_read-Claimed :
      (n : ℕ) (table : Table) (otherwise : Result LeaseError FundingClaim × Table)
      → IsOrdinary w r of_ref (at n)
      → All (IsKeyed r of_ref) table
      → Claimed w r at otherwise
      → Claimed w r at (claim_read w r (at n) table otherwise)
  unfolding claim_read
  claim_read-Claimed n table otherwise f ks h = read (find_where (has_key r) table) refl
    where
      read :
          (o : Option PaymentOperation)
          → find_where (has_key r) table ≡ o
          → Claimed w r at
              (elim o [ none ↦ otherwise | some existing ↦ claim_existing w (at n) existing table ])
      read none q = h
      read (some o) q =
          let (t, m) = find_where-some (has_key r) table o q in
          let known : of_ref o.id ≡ true = sym (All-at (IsKeyed r of_ref) o table ks m) ∙ t in
          claim_existing-Claimed n o table f known ks

  claim_attempt-Claimed :
      (n : ℕ) (table : Table) (otherwise : Table → Result LeaseError FundingClaim × Table)
      → IsOrdinary w r of_ref (at n)
      → All (IsKeyed r of_ref) table
      → ((t : Table) → All (IsKeyed r of_ref) t → Claimed w r at (otherwise t))
      → Claimed w r at (claim_attempt w r (at n) table otherwise)
  unfolding claim_attempt
  claim_attempt-Claimed n table otherwise f ks h =
      elim (insert-cases w r (at n).new_id (at n).now table) [
        | inl known ↦
            let t = run_all (at n).before_read table in
            let kt = run_all-IsKeyed r of_ref (at n).before_read table f.keyed_read ks in
            subst (λ x. Claimed w r at (after_insert w r (at n) table otherwise x)) (sym known)
              (claim_read-Claimed n t (otherwise t) f kt (h t kt))
        | inr new ↦
            subst (λ x. Claimed w r at (after_insert w r (at n) table otherwise x)) (sym new)
              λ c e k. (
                n,
                record {
                  row = new_operation w r (at n).new_id (at n).now;
                  stored = inl refl;
                  identified = ap (λ (x : FundingClaim). x.operation.id) (ok-injective e);
                  keyed = own_key;
                  processed = refl;
                  owned = refl;
                  leased = refl;
                },
              )
      ]
    where
      own_key : has_key r (new_operation w r (at n).new_id (at n).now) ≡ true
      own_key =
          rw (text_eq_refl r.provider, text_eq_refl r.event_key, text_eq_refl fund_escrow_operation)
            refl

  claim_funding-Claimed :
      (retries : ℕ) (table : Table)
      → ((n : ℕ) → IsOrdinary w r of_ref (at n))
      → All (IsKeyed r of_ref) table
      → Claimed w r at (claim_funding w r at retries table)
  unfolding claim_funding
  claim_funding-Claimed zero table f ks =
      claim_attempt-Claimed zero table _ (f zero) ks λ t kt c e k. cc
  claim_funding-Claimed (suc n) table f ks =
      claim_attempt-Claimed (suc n) table _ (f (suc n)) ks λ t kt. claim_funding-Claimed n t f kt

-- Where a claim succeeds, the table has a row of the ref's key and of the id of the operation that is
-- returned, which is processed and leased to the claimant from the time of one of its attempts. The others
-- may run any statements before the first read and before the update, but rows have and get ids of their
-- keys alone, and their statements between the update and the second read are of other workers and before
-- the new lease expires. The number of retries is arbitrary.
pub claim_funding-Holds :
    (w : Worker) (r : FundingOperationRef) (of_ref : Text → Bool) (at : ℕ → Surroundings)
    (retries : ℕ) (table after : Table) (c : FundingClaim)
    → ((n : ℕ) → IsOrdinary w r of_ref (at n))
    → All (IsKeyed r of_ref) table
    → claim_funding w r at retries table ≡ (ok c, after)
    → c.claimed ≡ true
    → (n : ℕ) × Holds w r c.operation.id ((at n).now + w.lease_ms) after
claim_funding-Holds w r of_ref at retries table after c f ks h k =
    subst (Claimed w r at) h (claim_funding-Claimed w r of_ref at retries table f ks) c refl k
