-- ===== src/Payout/Kept.antt =====
-- A write to one leg of a checked plan: what the other legs' checks need of it
-- (services/user-service/src/modules/escrow/adapters/ton-jetton-payout-state.ts).
use telegram_garant_contract.Common.{
  ℕ, suc, ◌+◌, Bool, true, false, not, ◌||◌, List, [], ◌∷◌, Text, some, ltb, length, ◌≡◌, refl,
  fun_ext, sym, ap, ◌∙◌, subst, arith, any, text_eq, ok, ◌>>=◌, throw_if-eq-ok, ok-injective,
  Bool-cases, inl, inr,
}
use telegram_garant_contract.Address.{normalize_ton_address}
use telegram_garant_contract.Payout.{
  PayoutKind, PayoutError, Attempt, Leg, kind_eq, require_leg, write_leg, has_text, has_kind,
  max_attempts_per_leg, positive_atomic,
}
use telegram_garant_contract.Payout.Validate.{
  check_attempts, check_legs, attempt_fits, is_last, sum_legs,
}
use telegram_garant_contract.Payout.Checked.{check_legs-LegChecked, LegChecked-check_legs}

pub kind_eq→eq : (k l : PayoutKind) → kind_eq k l ≡ true → k ≡ l
unfolding kind_eq
kind_eq→eq k l h = ground arith

pub kind_eq_refl : (k : PayoutKind) → kind_eq k k ≡ true
unfolding kind_eq
kind_eq_refl PayoutKind.buyer = refl
kind_eq_refl _ = refl

pub require_leg-kind :
    (ls : List Leg) (k : PayoutKind) (l : Leg) → require_leg ls k ≡ ok l → l.kind ≡ k
unfolding require_leg
require_leg-kind [] k l h = cc
require_leg-kind (m ∷ ls) k l h = ground (arith, kind_eq→eq m.kind k, require_leg-kind ls k l)

-- `E` is a set of query ids. `t` has the query ids of `s` and those of `E`.
abbrev Rel : (Text → Bool) → List Text → List Text → Type 0
Rel E s t = (u : Text) → has_text u t ≡ (has_text u s || E u)

abbrev queries_in : (Text → Bool) → List Attempt → Bool
queries_in E as' = any (λ (a : Attempt). E a.query_id) as'

check_attempts-Rel :
    (E : Text → Bool) (settlement : Text) (k : PayoutKind) (n : ℕ) (rest : List Attempt)
    (s t s' : List Text)
    → Rel E s t
    → queries_in E rest ≡ false
    → check_attempts settlement k n rest s ≡ ok s'
    → (t' : List Text) × (check_attempts settlement k n rest t ≡ ok t') × Rel E s' t'
unfolding check_attempts
check_attempts-Rel E settlement k n [] s t s' r f h =
    (t, refl, subst (λ v. Rel E v t) (ok-injective h) r)
check_attempts-Rel E settlement k n (a ∷ rest) s t s' r f h =
    let (fits, h₁) =
      throw_if-eq-ok (not (attempt_fits settlement k n (is_last rest) a)) PayoutError.invalid_plan _
        {b = s'} h in
    let (new, h₂) = throw_if-eq-ok (has_text a.query_id s) PayoutError.invalid_plan _ {b = s'} h₁ in
    let absent : has_text a.query_id t ≡ false = r a.query_id ∙ ground arith in
    let (t', e, r') =
      check_attempts-Rel E settlement k (suc n) rest (a.query_id ∷ s) (a.query_id ∷ t) s'
        (λ u. ground (arith, r u)) (ground arith) h₂ in
    (t', rw fits (rw absent e), r')

-- No query id of `E` is among those seen.
abbrev Free : (Text → Bool) → List Text → Type 0
Free E s = (u : Text) → E u ≡ true → has_text u s ≡ false

pub check_attempts-Free :
    (E : Text → Bool) (settlement : Text) (k : PayoutKind) (n : ℕ) (rest : List Attempt)
    (s s' : List Text)
    → Free E s
    → queries_in E rest ≡ false
    → ((u v : Text) → text_eq u v ≡ true → E u ≡ true → E v ≡ true)
    → check_attempts settlement k n rest s ≡ ok s'
    → Free E s'
unfolding check_attempts
check_attempts-Free E settlement k n [] s s' r f c h = subst (Free E) (ok-injective h) r
check_attempts-Free E settlement k n (a ∷ rest) s s' r f c h =
    let (fits, h₁) =
      throw_if-eq-ok (not (attempt_fits settlement k n (is_last rest) a)) PayoutError.invalid_plan _
        {b = s'} h in
    let (new, h₂) = throw_if-eq-ok (has_text a.query_id s) PayoutError.invalid_plan _ {b = s'} h₁ in
    check_attempts-Free E settlement k (suc n) rest (a.query_id ∷ s) s'
      (λ u e. ground (arith, r u e, c u a.query_id)) (ground arith) c h₂

abbrev legs_in : (Text → Bool) → List Leg → Bool
legs_in E ls = any (λ (l : Leg). queries_in E l.attempts) ls

check_legs-Rel :
    (E : Text → Bool) (settlement : Text) (ls : List Leg) (ks : List PayoutKind) (s t : List Text)
    (out : List Leg)
    → Rel E s t
    → legs_in E ls ≡ false
    → check_legs settlement ls ks s ≡ ok out
    → check_legs settlement ls ks t ≡ ok out
check_legs-Rel E settlement [] ks s t out r f h = unfold check_legs in h
check_legs-Rel E settlement (l ∷ ls) ks s t out r f h =
    let c = check_legs-LegChecked settlement l ls ks s out h in
    let (t', e, r') =
      check_attempts-Rel E settlement l.kind 0 l.attempts s t c.seen' r (ground arith) c.attempts in
    LegChecked-check_legs settlement l ls ks t out (record {
      destination = c.destination;
      normal = c.normal;
      new_kind = c.new_kind;
      few = c.few;
      seen' = t';
      attempts = e;
      rest = c.rest;
      others =
          check_legs-Rel E settlement ls (l.kind ∷ ks) c.seen' t' c.rest r' (ground arith) c.others;
      result = c.result;
    })

-- The leg `m` can stand for the leg `l`: what it adds to the query ids seen is in `E`.
pub record Replaces (E : Text → Bool) (settlement : Text) (l m : Leg) : Type 0 where
  pub kind : m.kind ≡ l.kind
  pub destination : m.destination ≡ l.destination
  pub amount : m.amount_atomic ≡ l.amount_atomic
  pub few : ltb max_attempts_per_leg (length m.attempts) ≡ false
  pub grows :
      (s s' : List Text)
      → ((u : Text) → E u ≡ true → has_text u s ≡ false)
      → check_attempts settlement l.kind 0 l.attempts s ≡ ok s'
      → (t' : List Text) × (check_attempts settlement l.kind 0 m.attempts s ≡ ok t')
        × ((u : Text) → has_text u t' ≡ (has_text u s' || E u))

head_tail : {m n : Leg} {ms ns : List Leg} → m ∷ ms ≡ n ∷ ns → ms ≡ ns
head_tail h = cc

head_destination : {m n : Leg} {ms ns : List Leg} → m ∷ ms ≡ n ∷ ns → m.destination ≡ n.destination
head_destination h = ground arith

write_head :
    (E : Text → Bool) (settlement : Text) (l m : Leg) (ls : List Leg) (ks : List PayoutKind)
    (s : List Text)
    → Replaces E settlement l m
    → Free E s
    → legs_in E (l ∷ ls) ≡ false
    → check_legs settlement (l ∷ ls) ks s ≡ ok (l ∷ ls)
    → check_legs settlement (m ∷ ls) ks s ≡ ok (m ∷ ls)
write_head E settlement l m ls ks s w r f h =
    let c = check_legs-LegChecked settlement l ls ks s (l ∷ ls) h in
    let (t', e, r') = w.grows s c.seen' r c.attempts in
    let tail : c.rest ≡ ls = head_tail c.result in
    LegChecked-check_legs settlement m ls ks s (m ∷ ls) (record {
      destination = m.destination;
      normal =
          ap normalize_ton_address w.destination
          ∙ c.normal
          ∙ ap some (head_destination c.result ∙ sym w.destination);
      new_kind = ap (λ k. has_kind k ks) w.kind ∙ c.new_kind;
      few = w.few;
      seen' = t';
      attempts = ap (λ k. check_attempts settlement k 0 m.attempts s) w.kind ∙ e;
      rest = ls;
      others =
          ap (λ k. check_legs settlement ls (k ∷ ks) t') w.kind
          ∙ check_legs-Rel E settlement ls (l.kind ∷ ks) c.seen' t' ls r' (ground arith)
              (c.others ∙ ap ok tail);
      result = refl;
    })

-- The plan's legs stay checked when a leg is replaced.
pub check_legs-write_leg :
    (E : Text → Bool) (settlement : Text) (ls : List Leg) (ks : List PayoutKind) (s : List Text)
    (k : PayoutKind) (l m : Leg)
    → ((u v : Text) → text_eq u v ≡ true → E u ≡ true → E v ≡ true)
    → Replaces E settlement l m
    → ((u : Text) → E u ≡ true → has_text u s ≡ false)
    → any (λ (n : Leg). any (λ (a : Attempt). E a.query_id) n.attempts) ls ≡ false
    → require_leg ls k ≡ ok l
    → check_legs settlement ls ks s ≡ ok ls
    → check_legs settlement (write_leg m ls) ks s ≡ ok (write_leg m ls)
unfolding require_leg write_leg
check_legs-write_leg E settlement [] ks s k l m c w r f q h = cc
check_legs-write_leg E settlement (n ∷ ls) ks s k l m c w r f q h =
    let mk : m.kind ≡ k = w.kind ∙ require_leg-kind (n ∷ ls) k l q in
    let test : kind_eq n.kind m.kind ≡ kind_eq n.kind k = ap (kind_eq n.kind) mk in
    elim (Bool-cases (kind_eq n.kind k)) [
      | inl here ↦
          let same : n ≡ l = ground arith in
          rw (test ∙ here) (
            write_head E settlement n m ls ks s
              (subst (λ u. Replaces E settlement u m) (sym same) w) r f h)
      | inr later ↦
          let d = check_legs-LegChecked settlement n ls ks s (n ∷ ls) h in
          let tail : d.rest ≡ ls = head_tail d.result in
          let q' : require_leg ls k ≡ ok l = ground arith in
          let others = d.others ∙ ap ok tail in
          let free =
            check_attempts-Free E settlement n.kind 0 n.attempts s d.seen' r (ground arith) c
              d.attempts in
          rw (test ∙ later) (
            LegChecked-check_legs settlement n (write_leg m ls) ks s (n ∷ write_leg m ls) (record {
              destination = n.destination;
              normal = d.normal ∙ ap some (head_destination d.result);
              new_kind = d.new_kind;
              few = d.few;
              seen' = d.seen';
              attempts = d.attempts;
              rest = write_leg m ls;
              others =
                  check_legs-write_leg E settlement ls (n.kind ∷ ks) d.seen' k l m c w free
                    (ground arith) q' others;
              result = refl;
            }))
    ]

-- The amounts, and so their sum, are what they were.
pub sum-write_leg :
    (ls : List Leg) (k : PayoutKind) (l m : Leg) (n : ℕ)
    → m.kind ≡ l.kind
    → m.amount_atomic ≡ l.amount_atomic
    → require_leg ls k ≡ ok l
    → (sum_legs (write_leg m ls) n ≡ sum_legs ls n) × (length (write_leg m ls) ≡ length ls)
unfolding require_leg write_leg sum_legs
sum-write_leg [] k l m n e a q = cc
sum-write_leg (x ∷ ls) k l m n e a q =
    let mk : m.kind ≡ k = e ∙ require_leg-kind (x ∷ ls) k l q in
    let test : kind_eq x.kind m.kind ≡ kind_eq x.kind k = ap (kind_eq x.kind) mk in
    elim (Bool-cases (kind_eq x.kind k)) [
      | inl here ↦
          let same : x.amount_atomic ≡ l.amount_atomic = ground arith in
          rw (test ∙ here) (rw (a ∙ sym same) (refl, refl))
      | inr later ↦
          let q' : require_leg ls k ≡ ok l = ground arith in
          let rest = λ (j : ℕ). sum-write_leg ls k l m j e a q' in
          rw (test ∙ later) (
            ap (λ f. positive_atomic x.amount_atomic PayoutError.invalid_plan >>= f)
                (fun_ext λ j. (rest (n + j)).0),
            ap suc (rest n).1,
          )
    ]

-- The leg that was written is found again.
pub require_leg-write_leg :
    (ls : List Leg) (k : PayoutKind) (l m : Leg)
    → m.kind ≡ l.kind
    → require_leg ls k ≡ ok l
    → require_leg (write_leg m ls) k ≡ ok m
unfolding require_leg write_leg
require_leg-write_leg [] k l m e q = cc
require_leg-write_leg (x ∷ ls) k l m e q =
    let mk : m.kind ≡ k = e ∙ require_leg-kind (x ∷ ls) k l q in
    let self : kind_eq m.kind k ≡ true =
      subst (λ j. kind_eq m.kind j ≡ true) mk (kind_eq_refl m.kind) in
    let test : kind_eq x.kind m.kind ≡ kind_eq x.kind k = ap (kind_eq x.kind) mk in
    elim (Bool-cases (kind_eq x.kind k)) [
      | inl here ↦ rw (test ∙ here) (rw self)
      | inr later ↦
          let q' : require_leg ls k ≡ ok l = ground arith in
          rw (test ∙ later) (rw later (require_leg-write_leg ls k l m e q'))
    ]
