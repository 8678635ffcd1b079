-- ===== src/Payout/Attempts.antt =====
-- Writes to the list of attempts of a leg: what the loop of `validatedClone` over them says afterwards
-- (services/user-service/src/modules/escrow/adapters/ton-jetton-payout-state.ts).
use telegram_garant_contract.Common.{
  not-false, ℕ, suc, ◌+◌, true, false, not, List, [], ◌∷◌, ◌++◌, Text, some, length, ◌≡◌, refl, sym,
  ap, subst, arith, last?, ok, throw_if-eq-ok, ok-injective,
}
use telegram_garant_contract.Payout.{
  PayoutKind, PayoutError, ObservationType, Attempt, has_text, write_last, is_transaction_id,
}
use telegram_garant_contract.Payout.Validate.{check_attempts, attempt_fits, evidence_fits, is_last}
use telegram_garant_contract.Payout.Advance.{observe_attempt, is_not_retryable}

is_last-write_last : (a : Attempt) (xs : List Attempt) → is_last (write_last a xs) ≡ is_last xs
unfolding write_last
is_last-write_last a [] = refl
is_last-write_last a (b ∷ []) = refl
is_last-write_last a (b ∷ c ∷ rest) = refl

pub length-write_last : (a : Attempt) (xs : List Attempt) → length (write_last a xs) ≡ length xs
unfolding write_last
length-write_last a [] = refl
length-write_last a (b ∷ []) = refl
length-write_last a (b ∷ c ∷ rest) = ap suc (length-write_last a (c ∷ rest))

pub last?-write_last :
    (a b : Attempt) (xs : List Attempt) → last? xs ≡ some b → last? (write_last a xs) ≡ some a
unfolding write_last
last?-write_last a b [] h = cc
last?-write_last a b (c ∷ []) h = refl
last?-write_last a b (c ∷ d ∷ []) h = refl
last?-write_last a b (c ∷ d ∷ e ∷ rest) h = last?-write_last a b (d ∷ e ∷ rest) h

pub last?-append : (xs : List Attempt) (a : Attempt) → last? (xs ++ (a ∷ [])) ≡ some a
last?-append [] a = refl
last?-append (c ∷ []) a = refl
last?-append (c ∷ d ∷ rest) a = last?-append (d ∷ rest) a

-- The second attempt is the first one with another status and its evidence.
pub record Updates (a b : Attempt) : Type 0 where
  pub attempt : b.attempt ≡ a.attempt
  pub key : b.idempotency_key ≡ a.idempotency_key
  pub query : b.query_id ≡ a.query_id
  pub evidence : evidence_fits b.status b.submission_transaction_id b.final_transaction_id ≡ true

Updates-fits :
    (settlement : Text) (k : PayoutKind) (n : ℕ) (a b : Attempt)
    → Updates a b
    → attempt_fits settlement k n true a ≡ true
    → attempt_fits settlement k n true b ≡ true
unfolding attempt_fits
Updates-fits settlement k n a b u h = rw (u.query, u.attempt, u.key, u.evidence) (ground arith)

pub check_attempts-write_last :
    (settlement : Text) (k : PayoutKind) (n : ℕ) (xs : List Attempt) (a b : Attempt)
    (s s' : List Text)
    → last? xs ≡ some a
    → Updates a b
    → check_attempts settlement k n xs s ≡ ok s'
    → check_attempts settlement k n (write_last b xs) s ≡ ok s'
unfolding check_attempts write_last
check_attempts-write_last settlement k n [] a b s s' l u h = cc
check_attempts-write_last settlement k n (c ∷ []) a b s s' l u h =
    let (fits, h₁) =
      throw_if-eq-ok (not (attempt_fits settlement k n true c)) PayoutError.invalid_plan _ {b = s'}
        h in
    let (new, h₂) = throw_if-eq-ok (has_text c.query_id s) PayoutError.invalid_plan _ {b = s'} h₁ in
    let same : c ≡ a = ground arith in
    let u' = subst (λ x. Updates x b) (sym same) u in
    rw (Updates-fits settlement k n c b u' (not-false _ fits), u'.query, new) h₂
check_attempts-write_last settlement k n (c ∷ d ∷ rest) a b s s' l u h =
    let (fits, h₁) =
      throw_if-eq-ok (not (attempt_fits settlement k n false c)) PayoutError.invalid_plan _ {b = s'}
        h in
    let (new, h₂) = throw_if-eq-ok (has_text c.query_id s) PayoutError.invalid_plan _ {b = s'} h₁ in
    rw (is_last-write_last b (d ∷ rest), fits, new)
      (check_attempts-write_last settlement k (suc n) (d ∷ rest) a b (c.query_id ∷ s) s' l u h₂)

loosen :
    (settlement : Text) (k : PayoutKind) (n : ℕ) (a : Attempt)
    → is_not_retryable (some a) ≡ false
    → attempt_fits settlement k n true a ≡ true
    → attempt_fits settlement k n false a ≡ true
unfolding attempt_fits
loosen settlement k n a r h = ground arith

pub check_attempts-append :
    (settlement : Text) (k : PayoutKind) (n : ℕ) (xs : List Attempt) (a : Attempt)
    (s s' : List Text)
    → is_not_retryable (last? xs) ≡ false
    → attempt_fits settlement k (n + length xs) true a ≡ true
    → has_text a.query_id s' ≡ false
    → check_attempts settlement k n xs s ≡ ok s'
    → check_attempts settlement k n (xs ++ (a ∷ [])) s ≡ ok (a.query_id ∷ s')
unfolding check_attempts
check_attempts-append settlement k n [] a s s' r f new h =
    let here : attempt_fits settlement k n true a ≡ true =
      subst (λ m. attempt_fits settlement k m true a ≡ true) (omega arith) f in
    let same : s ≡ s' = ok-injective h in rw (here, same, new) refl
check_attempts-append settlement k n (c ∷ []) a s s' r f new h =
    let (fits, h₁) =
      throw_if-eq-ok (not (attempt_fits settlement k n true c)) PayoutError.invalid_plan _ {b = s'}
        h in
    let (fresh, h₂) =
      throw_if-eq-ok (has_text c.query_id s) PayoutError.invalid_plan _ {b = s'} h₁ in
    let next : attempt_fits settlement k (suc n) true a ≡ true =
      subst (λ m. attempt_fits settlement k m true a ≡ true) (omega arith) f in
    let same : c.query_id ∷ s ≡ s' = ok-injective h₂ in
    let new' = subst (λ v. has_text a.query_id v ≡ false) (sym same) new in
    rw (loosen settlement k n c r (not-false _ fits), fresh, next, new')
      (ap (λ v. ok (a.query_id ∷ v)) same)
check_attempts-append settlement k n (c ∷ d ∷ rest) a s s' r f new h =
    let (fits, h₁) =
      throw_if-eq-ok (not (attempt_fits settlement k n false c)) PayoutError.invalid_plan _ {b = s'}
        h in
    let (fresh, h₂) =
      throw_if-eq-ok (has_text c.query_id s) PayoutError.invalid_plan _ {b = s'} h₁ in
    let next : attempt_fits settlement k (suc n + length (d ∷ rest)) true a ≡ true =
      subst (λ m. attempt_fits settlement k m true a ≡ true) (omega arith) f in
    rw (fits, fresh)
      (check_attempts-append settlement k (suc n) (d ∷ rest) a (c.query_id ∷ s) s' r next new h₂)

-- What an observation that is accepted makes of the attempt.
pub observe_attempt-Updates :
    (settlement : Text) (k : PayoutKind) (n : ℕ) (t : ObservationType) (tx : Text) (a b : Attempt)
    → is_transaction_id tx ≡ true
    → attempt_fits settlement k n true a ≡ true
    → observe_attempt t tx a ≡ ok (some b)
    → Updates a b
unfolding observe_attempt attempt_fits evidence_fits
observe_attempt-Updates settlement k n t tx a b h f o = record {
  attempt = ground arith;
  key = ground arith;
  query = ground arith;
  evidence = ground arith;
}

-- The last attempt fits as the last one.
pub last-fits :
    (settlement : Text) (k : PayoutKind) (n : ℕ) (xs : List Attempt) (a : Attempt)
    (s s' : List Text)
    → last? xs ≡ some a
    → check_attempts settlement k n xs s ≡ ok s'
    → (m : ℕ) × (attempt_fits settlement k m true a ≡ true)
unfolding check_attempts
last-fits settlement k n [] a s s' l h = cc
last-fits settlement k n (c ∷ []) a s s' l h =
    let (fits, h₁) =
      throw_if-eq-ok (not (attempt_fits settlement k n true c)) PayoutError.invalid_plan _ {b = s'}
        h in
    let same : c ≡ a = ground arith in
    (n, subst (λ x. attempt_fits settlement k n true x ≡ true) same (not-false _ fits))
last-fits settlement k n (c ∷ d ∷ rest) a s s' l h =
    let (fits, h₁) =
      throw_if-eq-ok (not (attempt_fits settlement k n false c)) PayoutError.invalid_plan _ {b = s'}
        h in
    let (new, h₂) = throw_if-eq-ok (has_text c.query_id s) PayoutError.invalid_plan _ {b = s'} h₁ in
    last-fits settlement k (suc n) (d ∷ rest) a (c.query_id ∷ s) s' l h₂
