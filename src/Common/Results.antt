-- ===== src/Common/Results.antt =====
-- Results of code that throws: a value, or the error thrown.
use mathlib.Core.Path.{◌≡◌, refl}
use mathlib.Core.Bool.{Bool, true, false}
use mathlib.Core.Option.{Option, none, some}

pub data Result {ℓ κ} (E : Type ℓ) (A : Type κ) : Type (ℓ ⊔ κ) where
  ok : A → Result E A
  err : E → Result E A

-- `if (c) throw e`
abbrev pub throw_if {ℓ} : {E : Type ℓ} → Bool → E → Result E (Unit {0})
throw_if false thrown = ok tt
throw_if true thrown = err thrown

infixl 5 ◌>>=◌ ◌>>◌
-- The rest of the code after a call that may throw.
abbrev pub ◌>>=◌ {ℓ κ ι} :
    {E : Type ℓ} {A : Type κ} {B : Type ι} → Result E A → (A → Result E B) → Result E B
err thrown >>= rest = err thrown
ok value >>= rest = rest value

abbrev pub is_ok {ℓ κ} : {E : Type ℓ} {A : Type κ} → Result E A → Bool
is_ok (err thrown) = false
is_ok (ok value) = true

abbrev pub ◌>>◌ {ℓ κ} : {E : Type ℓ} {B : Type κ} → Result E (Unit {0}) → Result E B → Result E B
r >> rest = r >>= λ _. rest

-- The value, or `throw e` where there is none.
abbrev pub or_throw {ℓ κ} : {E : Type ℓ} {A : Type κ} → Option A → E → Result E A
or_throw none thrown = err thrown
or_throw (some value) thrown = ok value

pub ok-injective {ℓ κ} :
    {E : Type ℓ} {A : Type κ} {a b : A} → ◌≡◌ {A = Result E A} (ok a) (ok b) → a ≡ b
ok-injective h = cc

pub throw_if-eq-ok {ℓ κ} :
    {E : Type ℓ} {B : Type κ} (c : Bool) (e : E) (k : Result E B) {b : B}
    → (throw_if c e >> k) ≡ ok b
    → (c ≡ false) × (k ≡ ok b)
throw_if-eq-ok true e k h = cc
throw_if-eq-ok false e k h = (refl, h)

pub >>=-eq-ok {ℓ κ ι} :
    {E : Type ℓ} {A : Type κ} {B : Type ι} (r : Result E A) (rest : A → Result E B) {b : B}
    → (r >>= rest) ≡ ok b
    → (value : A) × (r ≡ ok value) × (rest value ≡ ok b)
>>=-eq-ok (err thrown) rest h = cc
>>=-eq-ok (ok value) rest h = (value, refl, h)

pub is_ok→ok {ℓ κ} :
    {E : Type ℓ} {A : Type κ} (r : Result E A) → is_ok r ≡ true → (a : A) × (r ≡ ok a)
is_ok→ok (ok a) h = (a, refl)
is_ok→ok (err e) h = cc

pub or_throw-eq-ok {ℓ κ} :
    {E : Type ℓ} {A : Type κ} (o : Option A) (e : E) {a : A} → or_throw o e ≡ ok a → o ≡ some a
or_throw-eq-ok none e h = cc
or_throw-eq-ok (some b) e h = cc
