-- ===== src/Ledger/Laws.antt =====
-- The entries that recording a settlement finds and leaves
-- (services/user-service/src/modules/ops/money-ledger.service.ts).
use telegram_garant_contract.Common.{
  ℕ, zero, suc, Bool, true, List, [], ◌∷◌, ◌++◌, append-nil, append_assoc, Text, Option, none, some,
  any, text_eq, text_eq_refl, Result, ok, err, ◌>>=◌, >>=-eq-ok, ok-injective, ◌≡◌, refl, sym, ap,
  ◌∙◌, subst, arith, ◌⊎◌, inl, inr, Bool-cases,
}
use telegram_garant_contract.Ledger.{MoneyLedgerEntry, LedgerError, Book, save_entry, big_int}
use telegram_garant_contract.Ledger.Settlement.{
  RecordNativeTonSettlementEntry, Ending, ending, Movement, movements, movement_entry,
  saved_or_kept, unless_zero, post_movement, Run, next_round, post_all, settle, settle_ending,
  record_native_ton_settlement,
}

-- The key is taken.
abbrev pub is_taken : Text → Book → Bool
is_taken key book = any (λ (f : MoneyLedgerEntry). text_eq f.idempotency_key key) book

is_taken-append_left :
    (key : Text) (b c : Book) → is_taken key b ≡ true → is_taken key (b ++ c) ≡ true
is_taken-append_left key [] c h = cc
is_taken-append_left key (e ∷ b) c h = ground (arith, is_taken-append_left key b c)

is_taken-append_right :
    (key : Text) (b c : Book) → is_taken key c ≡ true → is_taken key (b ++ c) ≡ true
is_taken-append_right key [] c h = h
is_taken-append_right key (e ∷ b) c h = ground (arith, is_taken-append_right key b c h)

-- What a saving that is caught leaves: the old entries first, and the key taken.
pub record Kept (key : Text) (book after : Book) : Type 0 where
  pub entries : Book
  pub extends : after ≡ book ++ entries
  pub taken : is_taken key after ≡ true

saved-Kept :
    (e : MoneyLedgerEntry) (book : Book)
    → Kept e.idempotency_key book (saved_or_kept book (save_entry e book))
unfolding save_entry
saved-Kept e book = elim (Bool-cases (is_taken e.idempotency_key book)) [
  | inl old ↦ rw old (record { entries = []; extends = sym (append-nil book); taken = old })
  | inr new ↦ rw new (record {
    entries = e ∷ [];
    extends = refl;
    taken =
        is_taken-append_right e.idempotency_key book (e ∷ [])
          (rw (text_eq_refl e.idempotency_key) refl);
  })
]

saved_again :
    (e : MoneyLedgerEntry) (book : Book)
    → is_taken e.idempotency_key book ≡ true
    → saved_or_kept book (save_entry e book) ≡ book
unfolding save_entry
saved_again e book h = rw h refl

-- A movement that the book has, or that is of amount zero.
pub record IsPosted (i : RecordNativeTonSettlementEntry) (k : Ending) (m : Movement) (book : Book)
    : Type 0 where
  pub amount : ℕ
  pub atomic : big_int m.amount_atomic ≡ ok amount
  pub entry :
      (amount ≡ 0)
      ⊎ ((e : MoneyLedgerEntry) × (movement_entry i k m ≡ ok e)
          × (is_taken e.idempotency_key book ≡ true))

pub IsPosted-append :
    (i : RecordNativeTonSettlementEntry) (k : Ending) (m : Movement) (book more : Book)
    → IsPosted i k m book
    → IsPosted i k m (book ++ more)
IsPosted-append i k m book more p = record {
  amount = p.amount;
  atomic = p.atomic;
  entry = elim p.entry [
    | inl z ↦ inl z
    | inr (e, h, t) ↦ inr (e, h, is_taken-append_left e.idempotency_key book more t)
  ];
}

post_movement-IsPosted :
    (i : RecordNativeTonSettlementEntry) (k : Ending) (m : Movement) (book after : Book)
    → post_movement i k m book ≡ ok after
    → IsPosted i k m after × ((es : Book) × (after ≡ book ++ es))
unfolding post_movement
post_movement-IsPosted i k m book after h =
    let (n, a, h₁) = >>=-eq-ok (big_int m.amount_atomic) _ {b = after} h in cases n a h₁
  where
    cases :
        (n : ℕ)
        → big_int m.amount_atomic ≡ ok n
        → unless_zero n book
            (movement_entry i k m >>= λ e. ok (saved_or_kept book (save_entry e book)))
          ≡ ok after
        → IsPosted i k m after × ((es : Book) × (after ≡ book ++ es))
    cases zero a h₁ = (
      record { amount = 0; atomic = a; entry = inl refl },
      ([], sym (ok-injective h₁) ∙ sym (append-nil book)),
    )
    cases (suc n) a h₁ =
        let (e, he, h₂) = >>=-eq-ok (movement_entry i k m) _ {b = after} h₁ in
        let s = subst (Kept e.idempotency_key book) (ok-injective h₂) (saved-Kept e book) in
        (
          record { amount = suc n; atomic = a; entry = inr (e, he, s.taken) },
          (s.entries, s.extends),
        )

IsPosted-post_movement :
    (i : RecordNativeTonSettlementEntry) (k : Ending) (m : Movement) (book : Book)
    → IsPosted i k m book
    → post_movement i k m book ≡ ok book
unfolding post_movement
IsPosted-post_movement i k m book p = rw p.atomic (again p.amount p.entry)
  where
    again :
        (n : ℕ)
        → (n ≡ 0)
          ⊎ ((e : MoneyLedgerEntry) × (movement_entry i k m ≡ ok e)
              × (is_taken e.idempotency_key book ≡ true))
        → unless_zero n book
            (movement_entry i k m >>= λ e. ok (saved_or_kept book (save_entry e book)))
          ≡ ok book
    again zero c = refl
    again (suc n) (inl z) = absurd (omega arith)
    again (suc n) (inr (e, he, t)) = rw he (ap ok (saved_again e book t))

abbrev pub AllPosted : RecordNativeTonSettlementEntry → Ending → List Movement → Book → Type 0
AllPosted i k [] book = Unit
AllPosted i k (m ∷ ms) book = IsPosted i k m book × AllPosted i k ms book

-- The entries of the first book are those of the second one, before others.
abbrev pub Extends : Book → Book → Type 0
Extends book after = (es : Book) × (after ≡ book ++ es)

next_round-Extends :
    (i : RecordNativeTonSettlementEntry) (k : Ending) (m : Movement) (book : Book)
    (rest : Book → Run) (r : Result LedgerError Book)
    → ((b : Book) → Extends b (rest b).1)
    → post_movement i k m book ≡ r
    → Extends book (next_round book rest r).1
next_round-Extends i k m book rest (ok b) f h =
    let (es, e) = (post_movement-IsPosted i k m book b h).1 in
    let (fs, g) = f b in (es ++ fs, g ∙ ap (λ x. x ++ fs) e ∙ append_assoc book es fs)
next_round-Extends i k m book rest (err e) f h = ([], sym (append-nil book))

-- Whatever the loop does, the entries that the book had stay where they are.
post_all-Extends :
    (i : RecordNativeTonSettlementEntry) (k : Ending) (ms : List Movement) (book : Book)
    → Extends book (post_all i k ms book).1
unfolding post_all
post_all-Extends i k [] book = ([], sym (append-nil book))
post_all-Extends i k (m ∷ ms) book =
    next_round-Extends i k m book (post_all i k ms) (post_movement i k m book)
      (post_all-Extends i k ms) refl

next_round-ok :
    (book after : Book) (rest : Book → Run) (r : Result LedgerError Book)
    → next_round book rest r ≡ (ok tt, after)
    → (b : Book) × (r ≡ ok b) × (rest b ≡ (ok tt, after))
next_round-ok book after rest (ok b) h = (b, refl, h)
next_round-ok book after rest (err e) h = cc

post_all-AllPosted :
    (i : RecordNativeTonSettlementEntry) (k : Ending) (ms : List Movement) (book after : Book)
    → post_all i k ms book ≡ (ok tt, after)
    → AllPosted i k ms after
unfolding post_all
post_all-AllPosted i k [] book after h = tt
post_all-AllPosted i k (m ∷ ms) book after h =
    let (b, e, q) = next_round-ok book after (post_all i k ms) (post_movement i k m book) h in
    let (es, f) = post_all-Extends i k ms b in
    let same : after ≡ b ++ es = sym (ap (λ x. x.1) q) ∙ f in
    (
      subst (IsPosted i k m) (sym same)
          (IsPosted-append i k m b es (post_movement-IsPosted i k m book b e).0),
      post_all-AllPosted i k ms b after q,
    )

AllPosted-post_all :
    (i : RecordNativeTonSettlementEntry) (k : Ending) (ms : List Movement) (book : Book)
    → AllPosted i k ms book
    → post_all i k ms book ≡ (ok tt, book)
unfolding post_all
AllPosted-post_all i k [] book h = refl
AllPosted-post_all i k (m ∷ ms) book (h, hs) =
    ap (next_round book (post_all i k ms)) (IsPosted-post_movement i k m book h)
    ∙ AllPosted-post_all i k ms book hs

settle_once :
    (i : RecordNativeTonSettlementEntry) (k : Ending) (book : Book)
    (r : Result LedgerError (List Movement))
    → Extends book (settle i k book r).1
      × ((after : Book) → settle i k book r ≡ (ok tt, after) → settle i k after r ≡ (ok tt, after))
settle_once i k book (ok ms) = (
  post_all-Extends i k ms book,
  λ after h. AllPosted-post_all i k ms after (post_all-AllPosted i k ms book after h),
)
settle_once i k book (err e) = (([], sym (append-nil book)), λ after h. cc)

settle_ending_once :
    (i : RecordNativeTonSettlementEntry) (book : Book) (o : Option Ending)
    → Extends book (settle_ending i book o).1
      × ((after : Book)
          → settle_ending i book o ≡ (ok tt, after)
          → settle_ending i after o ≡ (ok tt, after))
settle_ending_once i book none = (([], sym (append-nil book)), λ after h. refl)
settle_ending_once i book (some k) = settle_once i k book (movements i k)

-- Recording a settlement keeps the entries that the ledger has, in their order, and adds entries behind
-- them, also where it throws on the way. Where it returns, recording it again returns and adds nothing.
pub record_native_ton_settlement_once :
    (i : RecordNativeTonSettlementEntry) (book : Book)
    → Extends book (record_native_ton_settlement i book).1
      × ((after : Book)
          → record_native_ton_settlement i book ≡ (ok tt, after)
          → record_native_ton_settlement i after ≡ (ok tt, after))
unfolding record_native_ton_settlement
record_native_ton_settlement_once i book = settle_ending_once i book (ending i.action)
