-- ===== src/Native/Executed.antt =====
-- What the tests on a transaction establish that both validators make: its execution
-- (services/user-service/src/modules/deal/ton-native-lifecycle-validator.ts and ton-center-v3.service.ts).
use telegram_garant_contract.Common.{
  ℕ, ◌<◌, Bool, true, false, not, ◌&&◌, [], ◌∷◌, Text, codes, Option, none, some, ◌==◌, text_eq→eq,
  ok, or_throw, >>=-eq-ok, throw_if-eq-ok, or_throw-eq-ok, ok-injective, not-false, ◌≡◌, refl, ap,
  subst, arith,
}
use telegram_garant_contract.Decimal.{is_digits}
use telegram_garant_contract.Native.{
  TonCenterMessage, ComputePhase, ActionPhase, Description, AccountState, TonCenterTransaction,
  TonNativeEscrowPreparation, Reason, normalize_address, is_text, is_true, is_false, is_zero,
  truthy_text,
}
use telegram_garant_contract.Native.Validate.{
  Identity, compute_succeeded, action_succeeded, check_execution, message_value, check_active,
}

pub is_text→some : (o : Option Text) (t : Text) → is_text o t ≡ true → o ≡ some t
is_text→some none t h = cc
is_text→some (some s) t h = ap some (text_eq→eq s t h)

pub truthy_text→some : (o : Option Text) (t : Text) → truthy_text o ≡ some t → o ≡ some t
truthy_text→some none t h = cc
truthy_text→some (some []) t h = cc
truthy_text→some (some (c ∷ s)) t h = h

pub is_same : (a b : ℕ) → not (a == b) ≡ false → a ≡ b
is_same a b h = ground arith

-- The compute phase ran and ended without an error.
pub record HasComputed (c : ComputePhase) : Type 0 where
  pub ran : is_true c.skipped ≡ false
  pub succeeded : c.success ≡ some true
  pub exited : c.exit_code ≡ some 0

-- The action phase, where there is one, ended without an error.
abbrev pub HasActed : Option ActionPhase → Type 0
HasActed none = Unit
HasActed (some a) = (a.success ≡ some true) × (a.valid ≡ some true) × (a.result_code ≡ some 0)

is_true→some : (o : Option Bool) → is_true o ≡ true → o ≡ some true
is_true→some none h = cc
is_true→some (some b) h = ap some h

is_false→some : (o : Option Bool) → is_false o ≡ true → o ≡ some false
is_false→some none h = cc
is_false→some (some true) h = cc
is_false→some (some false) h = refl

is_zero→some : (o : Option ℕ) → is_zero o ≡ true → o ≡ some 0
is_zero→some none h = cc
is_zero→some (some n) h = ap some (zero_of n h)
  where
    zero_of : (n : ℕ) → (n == 0) ≡ true → n ≡ 0
    zero_of n h = ground arith

compute_succeeded-HasComputed :
    (o : Option ComputePhase)
    → compute_succeeded o ≡ true
    → (c : ComputePhase) × (o ≡ some c) × HasComputed c
compute_succeeded-HasComputed none h = cc
compute_succeeded-HasComputed (some c) h =
    let (r, s, z) = three (is_true c.skipped) (is_true c.success) (is_zero c.exit_code) h in
    (
      c,
      refl,
      record { ran = r; succeeded = is_true→some c.success s; exited = is_zero→some c.exit_code z },
    )
  where
    three : (a b c : Bool) → (not a && (b && c)) ≡ true → (a ≡ false) × (b ≡ true) × (c ≡ true)
    three a b c h = ground arith

action_succeeded-HasActed : (o : Option ActionPhase) → action_succeeded o ≡ true → HasActed o
action_succeeded-HasActed none h = tt
action_succeeded-HasActed (some a) h =
    let (s, v, z) = three (is_true a.success) (is_true a.valid) (is_zero a.result_code) h in
    (is_true→some a.success s, is_true→some a.valid v, is_zero→some a.result_code z)
  where
    three : (a b c : Bool) → (a && (b && c)) ≡ true → (a ≡ true) × (b ≡ true) × (c ≡ true)
    three a b c h = ground arith

-- The transaction is one of the escrow's account, in a masterchain block, not emulated, not aborted, and
-- without an error in its phases.
pub record IsExecuted (tx : TonCenterTransaction) (p : TonNativeEscrowPreparation) : Type 0 where
  pub account : normalize_address tx.account ≡ some p.escrow_address
  pub lt : Text
  pub timed : tx.lt ≡ some lt
  pub numeric : is_digits lt ≡ true
  pub hash : Text
  pub hashed : tx.hash ≡ some hash
  pub seqno : ℕ
  pub block : tx.mc_block_seqno ≡ some seqno
  pub finalised : 0 < seqno
  pub real : is_true tx.emulated ≡ false
  pub description : Description
  pub described : tx.description ≡ some description
  pub kept : description.aborted ≡ some false
  pub compute : ComputePhase
  pub computes : description.compute_ph ≡ some compute
  pub computed : HasComputed compute
  pub acted : HasActed description.action

pub check_execution-IsExecuted :
    (tx : TonCenterTransaction) (p : TonNativeEscrowPreparation) (id : Identity)
    → check_execution tx p ≡ ok id
    → IsExecuted tx p
unfolding check_execution
check_execution-IsExecuted tx p id h =
    let (g, h₁) =
      throw_if-eq-ok (not (is_text (normalize_address tx.account) p.escrow_address))
        Reason.account_mismatch _ {b = id} h in
    let (lt, hl, h₂) =
      >>=-eq-ok (or_throw (truthy_text tx.lt) Reason.invalid_transaction_lt) _ {b = id} h₁ in
    let (n, h₃) = throw_if-eq-ok (not (is_digits lt)) Reason.invalid_transaction_lt _ {b = id} h₂ in
    let (hash, hh, h₄) =
      >>=-eq-ok (or_throw (truthy_text tx.hash) Reason.missing_transaction_hash) _ {b = id} h₃ in
    let (seqno, hs, h₅) =
      >>=-eq-ok (or_throw tx.mc_block_seqno Reason.not_masterchain_finalized) _ {b = id} h₄ in
    let (z, h₆) = throw_if-eq-ok (seqno == 0) Reason.not_masterchain_finalized _ {b = id} h₅ in
    let (e, h₇) = throw_if-eq-ok (is_true tx.emulated) Reason.emulated_transaction _ {b = id} h₆ in
    let (d, hd, h₈) =
      >>=-eq-ok (or_throw tx.description Reason.transaction_aborted_or_unknown) _ {b = id} h₇ in
    let (a, h₉) =
      throw_if-eq-ok (not (is_false d.aborted)) Reason.transaction_aborted_or_unknown _ {b = id}
        h₈ in
    let (c, h₁₀) =
      throw_if-eq-ok (not (compute_succeeded d.compute_ph)) Reason.compute_failed _ {b = id} h₉ in
    let (b, _) =
      throw_if-eq-ok (not (action_succeeded d.action)) Reason.action_failed _ {b = id} h₁₀ in
    let (phase, computes, computed) = compute_succeeded-HasComputed d.compute_ph (not-false _ c) in
    record {
      account = is_text→some (normalize_address tx.account) p.escrow_address (not-false _ g);
      lt = lt;
      timed =
          truthy_text→some tx.lt lt
            (or_throw-eq-ok (truthy_text tx.lt) Reason.invalid_transaction_lt hl);
      numeric = not-false _ n;
      hash = hash;
      hashed =
          truthy_text→some tx.hash hash
            (or_throw-eq-ok (truthy_text tx.hash) Reason.missing_transaction_hash hh);
      seqno = seqno;
      block = or_throw-eq-ok tx.mc_block_seqno Reason.not_masterchain_finalized hs;
      finalised = positive seqno z;
      real = e;
      description = d;
      described = or_throw-eq-ok tx.description Reason.transaction_aborted_or_unknown hd;
      kept = is_false→some d.aborted (not-false _ a);
      compute = phase;
      computes = computes;
      computed = computed;
      acted = action_succeeded-HasActed d.action (not-false _ b);
    }
  where
    positive : (n : ℕ) → (n == 0) ≡ false → 0 < n
    positive n h = ground arith

-- The value of a message that is accepted is there and numeric.
pub message_value-some :
    (m : TonCenterMessage) (sent : Text)
    → message_value m ≡ ok sent
    → (m.value ≡ some sent) × (is_digits sent ≡ true)
unfolding message_value
message_value-some m sent h =
    let (t, ht, h₁) =
      >>=-eq-ok (or_throw (truthy_text m.value) Reason.invalid_message_value) _ {b = sent} h in
    let (n, h₂) =
      throw_if-eq-ok (not (is_digits t)) Reason.invalid_message_value (ok t) {b = sent} h₁ in
    subst (λ x. (m.value ≡ some x) × (is_digits x ≡ true)) (ok-injective h₂)
      (
        truthy_text→some m.value t
            (or_throw-eq-ok (truthy_text m.value) Reason.invalid_message_value ht),
        not-false _ n,
      )

-- The contract is active behind the transaction.
pub record IsActive (tx : TonCenterTransaction) (a : AccountState) : Type 0 where
  pub ended : tx.end_status ≡ some (codes "active")
  pub there : tx.account_state_after ≡ some a
  pub active : a.account_status ≡ some (codes "active")

pub check_active-IsActive :
    (tx : TonCenterTransaction) (a : AccountState) → check_active tx ≡ ok a → IsActive tx a
unfolding check_active
check_active-IsActive tx a h =
    let (e, h₁) =
      throw_if-eq-ok (not (is_text tx.end_status (codes "active"))) Reason.contract_not_active _
        {b = a} h in
    let (b, hb, h₂) =
      >>=-eq-ok (or_throw tx.account_state_after Reason.contract_not_active) _ {b = a} h₁ in
    let (s, h₃) =
      throw_if-eq-ok (not (is_text b.account_status (codes "active"))) Reason.contract_not_active
        (ok b) {b = a} h₂ in
    subst (IsActive tx) (ok-injective h₃) (record {
      ended = is_text→some tx.end_status (codes "active") (not-false _ e);
      there = or_throw-eq-ok tx.account_state_after Reason.contract_not_active hb;
      active = is_text→some b.account_status (codes "active") (not-false _ s);
    })
