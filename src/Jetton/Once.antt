-- ===== src/Jetton/Once.antt =====
-- The postings of an applied Jetton event
-- (services/user-service/src/modules/deal/ton-jetton-transactional-application.service.ts).
use telegram_garant_contract.Common.{
  ℕ, zero, suc, ◌+◌, ◌-◌, ◌≤◌, Text, length, length-append, ap, text_eq→eq, ◌⊎◌, not-false, Bool,
  true, false, not, [], ◌∷◌, ◌++◌, Option, none, some, text_eq, text_eq_refl, Result, ok, err,
  throw_if, ◌>>=◌, throw_if-eq-ok, ok-injective, ◌≡◌, refl, sym, ◌∙◌, subst, arith, inl, inr,
  Bool-cases,
}
use telegram_garant_contract.Decimal.{zeros}
use telegram_garant_contract.Money.{span_digits}
use telegram_garant_contract.Ledger.{MoneyLedgerEntry, Book}
use telegram_garant_contract.Native.{is_text}
use telegram_garant_contract.Jetton.{
  TonJettonChainEventKind, TonJettonChainEvent, TonJettonApplicationDirective,
  TonJettonEscrowPreparation, TonJettonActionIntent, ApplyError,
}
use telegram_garant_contract.Jetton.Postings.{
  behind_point, column_text, find_entry, same_posting, insert_found, insert_ledger, ExpectedPayout,
  expected_payout, ledger_amount, is_zero_atomic, funded_entry, payout_entry, post_funding,
  post_expected, unless_empty, post_payout, post_kind, apply_ledger,
}

-- A book that has grown by an entry is not the book that it was.
not_grown : (book : Book) (x : MoneyLedgerEntry) → book ≡ book ++ (x ∷ []) → ⊥
not_grown book x h =
    let n : length book ≡ length book + 1 = ap length h ∙ length-append book (x ∷ []) in
    absurd (omega (arith, n))

-- A posting that adds an entry of a short amount is refused when it is repeated.
abbrev IsRefused : (Book → Result ApplyError Book) → Type 0
IsRefused post =
    (book : Book) (x : MoneyLedgerEntry)
    → post book ≡ ok (book ++ (x ∷ []))
    → length x.amount ≤ 18
    → post (book ++ (x ∷ [])) ≡ err ApplyError.ledger_idempotency_conflict

pass-IsRefused : IsRefused (λ book. ok book)
pass-IsRefused book x h l = absurd (not_grown book x (ok-injective h))

>>=-IsRefused :
    {A : Type 0} (r : Result ApplyError A) (post : A → Book → Result ApplyError Book)
    → ((a : A) → IsRefused (post a))
    → IsRefused (λ book. r >>= λ a. post a book)
>>=-IsRefused (err e) post f book x h = cc
>>=-IsRefused (ok a) post f book x h = f a book x h

length-zeros : (n : ℕ) → length (zeros n []) ≡ n
length-zeros zero = refl
length-zeros (suc n) = ap suc (length-zeros n)

-- The column's text has 18 decimals and the point.
column_text-long : (t : Text) → 19 ≤ length (column_text t)
unfolding column_text
column_text-long t =
    let whole = (span_digits t).0 in
    let f = behind_point (span_digits t).1 in
    omega (
      arith,
      length-append whole (b'.' ∷ (f ++ zeros (18 - length f) [])),
      length-append f (zeros (18 - length f) []),
      length-zeros (18 - length f),
    )

short_differs : (t : Text) → length t ≤ 18 → text_eq (column_text t) t ≡ false
short_differs t l = elim (Bool-cases (text_eq (column_text t) t)) [
  | inl same ↦
      let n : length (column_text t) ≡ length t = ap length (text_eq→eq (column_text t) t same) in
      absurd (omega (arith, n, column_text-long t))
  | inr other ↦ other
]

short-conflict : (x : MoneyLedgerEntry) → length x.amount ≤ 18 → same_posting x x ≡ false
unfolding same_posting
short-conflict x l =
    rw
      (
        text_eq_refl x.deal_id,
        text_eq_refl x.debit_account,
        text_eq_refl x.credit_account,
        short_differs x.amount l,
      )
      refl

-- The entry that is found is in the book, and a new one is found behind a book without its key.
find_entry-append :
    (e : MoneyLedgerEntry) (book : Book)
    → find_entry e.idempotency_key book ≡ none
    → find_entry e.idempotency_key (book ++ (e ∷ [])) ≡ some e
unfolding find_entry
find_entry-append e [] h = rw (text_eq_refl e.idempotency_key) refl
find_entry-append e (f ∷ book) h = elim (Bool-cases (text_eq f.idempotency_key e.idempotency_key)) [
  | inl same ↦ ground arith
  | inr other ↦ ground (arith, find_entry-append e book)
]

-- After a posting the book has the entry, or had one of its key already that does not differ from it.
pub insert_ledger-found :
    (e : MoneyLedgerEntry) (book after : Book)
    → insert_ledger e book ≡ ok after
    → (f : MoneyLedgerEntry) × (find_entry e.idempotency_key after ≡ some f)
      × ((f ≡ e) ⊎ (same_posting f e ≡ true))
unfolding insert_ledger
insert_ledger-found e book after h = pick (find_entry e.idempotency_key book) refl h
  where
    pick :
        (o : Option MoneyLedgerEntry)
        → find_entry e.idempotency_key book ≡ o
        → insert_found e book o ≡ ok after
        → (f : MoneyLedgerEntry) × (find_entry e.idempotency_key after ≡ some f)
          × ((f ≡ e) ⊎ (same_posting f e ≡ true))
    pick none q k = (
      e,
      subst (λ x. find_entry e.idempotency_key x ≡ some e) (ok-injective k)
          (find_entry-append e book q),
      inl refl,
    )
    pick (some f) q k =
        let (x, m) =
          throw_if-eq-ok (not (same_posting f e)) ApplyError.ledger_idempotency_conflict (ok book)
            {b = after} k in
        (
          f,
          subst (λ y. find_entry e.idempotency_key y ≡ some f) (ok-injective m) q,
          inr (not-false _ x),
        )

abbrev head_or : MoneyLedgerEntry → Book → MoneyLedgerEntry
head_or e [] = e
head_or e (f ∷ book) = f

abbrev tail_of : Book → Book
tail_of [] = []
tail_of (f ∷ book) = book

-- The last entries of two books that begin alike are the same.
last_entry : (book : Book) (e x : MoneyLedgerEntry) → book ++ (e ∷ []) ≡ book ++ (x ∷ []) → e ≡ x
last_entry [] e x h = ap (head_or e) h
last_entry (f ∷ book) e x h = last_entry book e x (ap (tail_of) h)

insert_ledger-IsRefused : (e : MoneyLedgerEntry) → IsRefused (insert_ledger e)
unfolding insert_ledger
insert_ledger-IsRefused e book x h l = pick (find_entry e.idempotency_key book) refl h
  where
    refused :
        e ≡ x
        → find_entry e.idempotency_key book ≡ none
        → insert_found e (book ++ (x ∷ [])) (find_entry e.idempotency_key (book ++ (x ∷ [])))
          ≡ err ApplyError.ledger_idempotency_conflict
    refused same q =
        let found : find_entry e.idempotency_key (book ++ (x ∷ [])) ≡ some e =
          subst (λ y. find_entry e.idempotency_key (book ++ (y ∷ [])) ≡ some e) same
            (find_entry-append e book q) in
        let short : length e.amount ≤ 18 =
          subst (λ (y : MoneyLedgerEntry). length y.amount ≤ 18) (sym same) l in
        rw (found, short-conflict e short) refl

    pick :
        (o : Option MoneyLedgerEntry)
        → find_entry e.idempotency_key book ≡ o
        → insert_found e book o ≡ ok (book ++ (x ∷ []))
        → insert_found e (book ++ (x ∷ [])) (find_entry e.idempotency_key (book ++ (x ∷ [])))
          ≡ err ApplyError.ledger_idempotency_conflict
    pick none q k = refused (last_entry book e x (ok-injective k)) q
    pick (some f) q k =
        let (_, m) =
          throw_if-eq-ok (not (same_posting f e)) ApplyError.ledger_idempotency_conflict (ok book)
            {b = book ++ (x ∷ [])} k in
        absurd (not_grown book x (ok-injective m))

post_funding-IsRefused :
    (e : TonJettonChainEvent) (p : TonJettonEscrowPreparation) (d : TonJettonApplicationDirective)
    → IsRefused (post_funding e p d)
unfolding post_funding
post_funding-IsRefused e p d =
    >>=-IsRefused
      (throw_if (not (is_text d.amount_atomic p.buyer_total_atomic))
        ApplyError.funding_ledger_amount_mismatch)
      _
      (λ _.
        >>=-IsRefused (ledger_amount d.amount_atomic p.asset_decimals) _
          (λ a. insert_ledger-IsRefused (funded_entry e p d a)))

post_expected-IsRefused :
    (e : TonJettonChainEvent) (p : TonJettonEscrowPreparation) (d : TonJettonApplicationDirective)
    (x : ExpectedPayout)
    → IsRefused (post_expected e p d x)
unfolding post_expected
post_expected-IsRefused e p d x =
    >>=-IsRefused (ledger_amount (some x.amount_atomic) p.asset_decimals) _
      (λ a. insert_ledger-IsRefused (payout_entry e p d x a))

unless_empty-IsRefused :
    (b : Bool) (post : Book → Result ApplyError Book)
    → IsRefused post
    → IsRefused (λ book. unless_empty b book (post book))
unless_empty-IsRefused true post h = pass-IsRefused
unless_empty-IsRefused false post h = h

post_payout-IsRefused :
    (e : TonJettonChainEvent) (p : TonJettonEscrowPreparation) (d : TonJettonApplicationDirective)
    (i : Option TonJettonActionIntent)
    → IsRefused (post_payout e p d i)
unfolding post_payout
post_payout-IsRefused e p d i = >>=-IsRefused (expected_payout p i d) _ (λ x.
    >>=-IsRefused _ _ (λ _.
      >>=-IsRefused (is_zero_atomic x.amount_atomic) _
        (λ z. unless_empty-IsRefused z (post_expected e p d x) (post_expected-IsRefused e p d x))))

post_kind-IsRefused :
    (kind : TonJettonChainEventKind) (e : TonJettonChainEvent) (p : TonJettonEscrowPreparation)
    (d : TonJettonApplicationDirective) (i : Option TonJettonActionIntent)
    → IsRefused (post_kind kind e p d i)
post_kind-IsRefused TonJettonChainEventKind.funding_confirmed e p d i = post_funding-IsRefused e p d
post_kind-IsRefused TonJettonChainEventKind.payout_leg_reconciled e p d i =
    post_payout-IsRefused e p d i
post_kind-IsRefused _ e p d i = pass-IsRefused

-- Where posting an event has added an entry, whose amount has at most 18 characters, posting the event again
-- throws the idempotency conflict: the column gives the amount back with 18 decimals, and the text that is
-- posted has fewer.
pub apply_ledger_refused :
    (e : TonJettonChainEvent) (p : TonJettonEscrowPreparation) (d : TonJettonApplicationDirective)
    (i : Option TonJettonActionIntent) (book : Book) (x : MoneyLedgerEntry)
    → apply_ledger e p d i book ≡ ok (book ++ (x ∷ []))
    → length x.amount ≤ 18
    → apply_ledger e p d i (book ++ (x ∷ [])) ≡ err ApplyError.ledger_idempotency_conflict
unfolding apply_ledger
apply_ledger_refused e p d i = post_kind-IsRefused e.event_kind e p d i
