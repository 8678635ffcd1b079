-- ===== src/Breaker/Isolation.antt =====
-- What a trip of the circuit breaker blocks, and what it leaves running
-- (services/user-service/src/modules/safety/settlement-circuit-breaker.service.ts).
use telegram_garant_contract.Common.{
  ℕ, true, false, List, [], ◌∷◌, Option, none, some, ◌≡◌, ◌≢◌, ◌↔◌, ◌⊎◌, refl, arith, is_ok, ◌++◌,
  ok, >>=-eq-ok, Bool-cases, ◌||◌, if◌then◌else◌, inl, inr, or_throw, sym, ap, ap₂, ◌∙◌, subst,
  ◌>>=◌,
}
use telegram_garant_contract.Breaker.{
  Scope, CircuitState, Breaker, Tables, Incident, Operation, BreakerError, scope_eq, find_scope,
  save_breaker, judge, assert_allowed, trip_row, trip_locked, validate_common, audit_row,
}

scope_eq_refl : (s : Scope) → scope_eq s s ≡ true
unfolding scope_eq
scope_eq_refl Scope.ton = refl
scope_eq_refl _ = refl

scope_eq→eq : (s u : Scope) → scope_eq s u ≡ true → s ≡ u
unfolding scope_eq
scope_eq→eq s u h = ground arith

none_ne : {b : Breaker} → ◌≡◌ {A = Option Breaker} none (some b) → ⊥
none_ne h = cc

judge-closed :
    (s : Scope) (op : Operation) (o p : Option Breaker)
    → (is_ok (judge s op o p) ≡ true) ↔ (
        (g : Breaker) × (c : Breaker) × (o ≡ some g)
        × (p ≡ some c)
        × (g.state ≡ CircuitState.closed)
        × (c.state ≡ CircuitState.closed))
judge-closed s op none p = (λ h. cc, λ k. absurd (none_ne k.2))
judge-closed s op (some g) none = (λ h. cc, λ k. absurd (none_ne k.3))
judge-closed s op (some g) (some c) =
    (λ h. (g, c, refl, refl, ground arith, ground arith), λ k. ground (arith, k.2, k.3, k.4, k.5))

-- Money may move on a chain exactly if the rows of the chain and of the global scope are both there
-- and both closed: a missing row blocks.
pub assert_allowed-closed :
    (s : Scope) (op : Operation) (t : Tables)
    → (is_ok (assert_allowed s op t) ≡ true) ↔ (
        (g : Breaker) × (c : Breaker) × (find_scope Scope.global t.breakers ≡ some g)
        × (find_scope s t.breakers ≡ some c)
        × (g.state ≡ CircuitState.closed)
        × (c.state ≡ CircuitState.closed))
unfolding assert_allowed
assert_allowed-closed s op t =
    judge-closed s op (find_scope Scope.global t.breakers) (find_scope s t.breakers)

find_scope-save_same :
    (b : Breaker) (bs : List Breaker) (c : Breaker)
    → find_scope b.scope bs ≡ some c
    → find_scope b.scope (save_breaker b bs) ≡ some b
find_scope-save_same b [] c h = cc
find_scope-save_same b (d ∷ bs) c h =
    ground (arith, scope_eq_refl b.scope, find_scope-save_same b bs c)

find_scope-save_other :
    (s : Scope) (b : Breaker) (bs : List Breaker)
    → b.scope ≢ s
    → find_scope s (save_breaker b bs) ≡ find_scope s bs
find_scope-save_other s b [] h = refl
find_scope-save_other s b (d ∷ bs) h = ground (
  arith,
  scope_eq→eq d.scope b.scope,
  scope_eq→eq d.scope s,
  scope_eq→eq b.scope s,
  find_scope-save_other s b bs h,
)

find_scope-scope :
    (s : Scope) (bs : List Breaker) (b : Breaker) → find_scope s bs ≡ some b → b.scope ≡ s
find_scope-scope s [] b h = cc
find_scope-scope s (d ∷ bs) b h = ground (arith, scope_eq→eq d.scope s, find_scope-scope s bs b)

-- What a trip that succeeds has read and written.
pub record Tripped (now : ℕ) (i : Incident) (t u : Tables) : Type 0 where
  pub row : Breaker
  pub found : find_scope i.scope t.breakers ≡ some row
  pub saved : u.breakers ≡ save_breaker (trip_row now i row) t.breakers
  pub logged : u.audits ≡ t.audits ++ (audit_row i row ∷ [])

trip_found :
    (now : ℕ) (i : Incident) (t u : Tables) (e : BreakerError) (o : Option Breaker)
    → find_scope i.scope t.breakers ≡ o
    → (or_throw o e >>= λ b. ok (record {
      breakers = save_breaker (trip_row now i b) t.breakers;
      audits = t.audits ++ (audit_row i b ∷ []);
    }))
      ≡ ok u
    → Tripped now i t u
trip_found now i t u e none q k = cc
trip_found now i t u e (some b) q k = record {
  row = b;
  found = q;
  saved = ground arith;
  logged = ground arith;
}

pub trip_locked-Tripped :
    (now : ℕ) (i : Incident) (t : Tables) {u : Tables}
    → trip_locked now i t ≡ ok u
    → Tripped now i t u
unfolding trip_locked
trip_locked-Tripped now i t {u} h =
    let (_, _, k) =
      >>=-eq-ok (validate_common i.reason_code i.evidence_hash i.actor_id) _ {b = u} h in
    trip_found now i t u _ (find_scope i.scope t.breakers) refl k

-- The row of the scope is tripped afterwards.
pub Tripped-row :
    (now : ℕ) (i : Incident) (t u : Tables) (w : Tripped now i t u)
    → find_scope i.scope u.breakers ≡ some (trip_row now i w.row)
unfolding trip_row
Tripped-row now i t u w =
    let same = find_scope-scope i.scope t.breakers w.row w.found in
    rw w.saved (
      subst
        (λ s.
          find_scope s (save_breaker (trip_row now i w.row) t.breakers)
          ≡ some (trip_row now i w.row))
        same
        (find_scope-save_same (trip_row now i w.row) t.breakers w.row
          (subst (λ s. find_scope s t.breakers ≡ some w.row) (sym same) w.found)))

judge_chain_tripped :
    (s : Scope) (op : Operation) (o : Option Breaker) (c : Breaker)
    → c.state ≡ CircuitState.tripped
    → is_ok (judge s op o (some c)) ≡ false
judge_chain_tripped s op none c h = refl
judge_chain_tripped s op (some g) c h = ground arith

judge_global_tripped :
    (s : Scope) (op : Operation) (g : Breaker) (o : Option Breaker)
    → g.state ≡ CircuitState.tripped
    → is_ok (judge s op (some g) o) ≡ false
judge_global_tripped s op g none h = refl
judge_global_tripped s op g (some c) h = ground arith

-- After a trip that succeeds nothing may move on the chain that tripped, neither funding nor
-- egress, and after a trip of the global scope nothing may move on any chain.
pub trip_locked_blocks :
    (now : ℕ) (i : Incident) (t : Tables) {u : Tables} (s : Scope) (op : Operation)
    → trip_locked now i t ≡ ok u
    → (i.scope ≡ s) ⊎ (i.scope ≡ Scope.global)
    → is_ok (assert_allowed s op u) ≡ false
unfolding assert_allowed trip_row
trip_locked_blocks now i t {u} s op h c =
    let w = trip_locked-Tripped now i t h in
    let row = Tripped-row now i t u w in
    elim c [
      | inl e ↦
          let found : find_scope s u.breakers ≡ some (trip_row now i w.row) =
            subst (λ k. find_scope k u.breakers ≡ some (trip_row now i w.row)) e row in
          rw found (
            judge_chain_tripped s op (find_scope Scope.global u.breakers) (trip_row now i w.row)
              refl)
      | inr e ↦
          let found : find_scope Scope.global u.breakers ≡ some (trip_row now i w.row) =
            subst (λ k. find_scope k u.breakers ≡ some (trip_row now i w.row)) e row in
          rw found (judge_global_tripped s op (trip_row now i w.row) (find_scope s u.breakers) refl)
    ]

-- A trip of one chain leaves the other chain's verdict as it was.
untouched :
    (now : ℕ) (i : Incident) (t u : Tables) (w : Tripped now i t u) (k : Scope)
    → i.scope ≢ k
    → find_scope k u.breakers ≡ find_scope k t.breakers
untouched now i t u w k q =
    ap (find_scope k) w.saved
    ∙ find_scope-save_other k (trip_row now i w.row) t.breakers
        (unfold trip_row in λ e. q (sym (find_scope-scope i.scope t.breakers w.row w.found) ∙ e))

trip_locked_spares :
    (now : ℕ) (i : Incident) (t : Tables) {u : Tables} (s : Scope) (op : Operation)
    → trip_locked now i t ≡ ok u
    → i.scope ≢ s
    → i.scope ≢ Scope.global
    → assert_allowed s op u ≡ assert_allowed s op t
unfolding assert_allowed
trip_locked_spares now i t {u} s op h n m =
    let w = trip_locked-Tripped now i t h in
    ap₂ (judge s op) (untouched now i t u w Scope.global m) (untouched now i t u w s n)

differs : (s u : Scope) → scope_eq s u ≡ false → s ≢ u
differs s u h e =
    let same : scope_eq s u ≡ true = subst (λ k. scope_eq s k ≡ true) e (scope_eq_refl s) in cc

-- After a trip that succeeds, money may move on a chain exactly if the trip was neither of the chain
-- itself nor global and money might move there before it; for funding and egress alike.
pub trip_locked_isolates :
    (now : ℕ) (i : Incident) (t : Tables) {u : Tables} (s : Scope) (op : Operation)
    → trip_locked now i t ≡ ok u
    → is_ok (assert_allowed s op u) ≡ (
        if scope_eq i.scope s || scope_eq i.scope Scope.global
        then false
        else is_ok (assert_allowed s op t))
trip_locked_isolates now i t s op h = elim (Bool-cases (scope_eq i.scope s)) [
  | inl own ↦ rw own (trip_locked_blocks now i t s op h (inl (scope_eq→eq i.scope s own)))
  | inr other ↦ elim (Bool-cases (scope_eq i.scope Scope.global)) [
    | inl all_chains ↦
        rw (other, all_chains)
          (trip_locked_blocks now i t s op h (inr (scope_eq→eq i.scope Scope.global all_chains)))
    | inr one_chain ↦
        rw (other, one_chain)
          (ap is_ok (
            trip_locked_spares now i t s op h (differs i.scope s other)
              (differs i.scope Scope.global one_chain)))
  ]
]
