-- ===== src/Native/Matching.antt =====
-- The messages that `validatePayouts` accepts
-- (services/user-service/src/modules/deal/ton-native-lifecycle-validator.ts).
use mathlib.Core.Logic.{∥∥₁_elim}
use mathlib.Core.Bool.{Bool-set}
use mathlib.Core.List.Perm
use mathlib.Core.List.{Perm, Permᴰ}
use native.Mathlib.Nat.{ℕ_set}
use telegram_garant_contract.Common.{
  not-false, some-injective, ℕ, suc, true, false, not, ◌||◌, List, [], ◌∷◌, ◌++◌, append-nil, Text,
  Option, none, some, ◌==◌, length, any, text_eq→eq, text_eq_refl, ok, throw_if, or_throw,
  >>=-eq-ok, throw_if-eq-ok, or_throw-eq-ok, ok-injective, ◌≡◌, ◌↔◌, refl, sym, ap, ap₂, ◌∙◌, subst,
  arith, inl, inr, Bool-cases,
}
use telegram_garant_contract.Decimal.{is_digits, value}
use telegram_garant_contract.Native.{
  TonCenterMessage, TonNativeEscrowPreparation, TonNativeLifecycleIntent, Reason, normalize_address,
  is_text, is_true, uuid_to_uint256,
}
use telegram_garant_contract.Native.Cells.{Cells}
use telegram_garant_contract.Native.Payouts.{
  Payout, Notification, parse_notification, expected_payouts, non_zero, payout_eq, keep_first,
  take_out, take_out_of, message_payout, payout_value, match_message, match_messages,
  validate_payouts,
}

payout_eq→eq : (e f : Payout) → payout_eq e f ≡ true → e ≡ f
unfolding payout_eq
payout_eq→eq e f h =
    same (ground (arith, text_eq→eq e.destination f.destination)) (ground arith) (ground arith)
  where
    same : e.destination ≡ f.destination → e.value ≡ f.value → e.kind ≡ f.kind → e ≡ f
    same a b c = cc

payout_eq_refl : (e : Payout) → payout_eq e e ≡ true
unfolding payout_eq
payout_eq_refl e = rw (text_eq_refl e.destination) (ground arith)

-- What was taken out and the rest are the list, up to order.
take_out-Perm :
    (e : Payout) (fs rest : List Payout) → take_out e fs ≡ some rest → Perm fs (e ∷ rest)
unfolding take_out
take_out-Perm e [] rest h = cc
take_out-Perm e (f ∷ fs) rest h = elim (Bool-cases (payout_eq e f)) [
  | inl here ↦
      let same : e ≡ f = payout_eq→eq e f here in
      let tail : fs ≡ rest = ground (arith) in
      subst (λ x. Perm (f ∷ fs) (x ∷ rest)) (sym same)
        (subst (λ x. Perm (f ∷ fs) (f ∷ x)) tail (Perm.refl (f ∷ fs)))
  | inr later ↦ step (take_out e fs) refl (take_out-Perm e fs) (ground arith)
]
  where
    step :
        (o : Option (List Payout))
        → take_out e fs ≡ o
        → ((r : List Payout) → take_out e fs ≡ some r → Perm fs (e ∷ r))
        → keep_first f o ≡ some rest
        → Perm (f ∷ fs) (e ∷ rest)
    step none q ih r = cc
    step (some more) q ih r =
        subst (λ x. Perm (f ∷ fs) (e ∷ x)) (some-injective r)
          (Perm.trans (Perm.cons f (ih more q)) (Perm.swap e f more))

any-Permᴰ :
    (e : Payout) {fs gs : List Payout} → Permᴰ fs gs → any (payout_eq e) fs ≡ any (payout_eq e) gs
any-Permᴰ e Permᴰ.nil = refl
any-Permᴰ e (Permᴰ.cons {l₁ = fs} {l₂ = gs} h p) = ap₂ (λ x y. payout_eq e x || y) h (any-Permᴰ e p)
any-Permᴰ e (Permᴰ.swap {a = a} {b = b} {l = l} h k) = ground arith
any-Permᴰ e (Permᴰ.trans p q) = any-Permᴰ e p ∙ any-Permᴰ e q

length-Permᴰ : {fs gs : List Payout} → Permᴰ fs gs → length fs ≡ length gs
length-Permᴰ Permᴰ.nil = refl
length-Permᴰ (Permᴰ.cons h p) = ap suc (length-Permᴰ p)
length-Permᴰ (Permᴰ.swap h k) = refl
length-Permᴰ (Permᴰ.trans p q) = length-Permᴰ p ∙ length-Permᴰ q

length-Perm : {fs gs : List Payout} → Perm fs gs → length fs ≡ length gs
length-Perm {fs} {gs} p = ∥∥₁_elim p (ℕ_set (length fs) (length gs)) length-Permᴰ

any-Perm :
    (e : Payout) {fs gs : List Payout} → Perm fs gs → any (payout_eq e) fs ≡ any (payout_eq e) gs
any-Perm e p = ∥∥₁_elim p (Bool-set _ _) (any-Permᴰ e)

-- What occurs can be taken out.
any-take_out :
    (e : Payout) (fs : List Payout)
    → any (payout_eq e) fs ≡ true
    → (rest : List Payout) × (take_out e fs ≡ some rest)
unfolding take_out
any-take_out e [] h = cc
any-take_out e (f ∷ fs) h = elim (Bool-cases (payout_eq e f)) [
  | inl here ↦ (fs, rw here refl)
  | inr later ↦ let (rest, q) = any-take_out e fs (ground arith) in (f ∷ rest, rw (later, q) refl)
]

Perm-take_out :
    (e : Payout) (es fs : List Payout)
    → Perm fs (e ∷ es)
    → (rest : List Payout) × (take_out e fs ≡ some rest) × Perm rest es
Perm-take_out e es fs p =
    let (rest, q) = any-take_out e fs (any-Perm e p ∙ rw (payout_eq_refl e) refl) in
    (rest, q, Perm.cons_inv (Perm.trans (Perm.symm (take_out-Perm e fs rest q)) p))

-- The message makes the payout: it comes from the escrow, has not bounced and carries the payout's value
-- to its destination, and its notification names the payout's kind, the intent's query and the deal.
pub record IsPayout (c : Cells) (i : TonNativeLifecycleIntent) (p : TonNativeEscrowPreparation)
    (m : TonCenterMessage) (e : Payout) : Type 0 where
  pub source : is_text (normalize_address m.source) p.escrow_address ≡ true
  pub arrived : is_true m.bounced ≡ false
  pub value_text : Text
  pub carried : m.value ≡ some value_text
  pub numeric : is_digits value_text ≡ true
  pub amount : value value_text ≡ e.value
  pub destination : normalize_address m.destination ≡ some e.destination
  pub notification : Notification
  pub parsed : parse_notification c m.body ≡ ok notification
  pub kind : notification.kind ≡ e.kind
  pub query : (notification.query_id == i.query_id) ≡ true
  pub deal : ℕ
  pub uuid : uuid_to_uint256 p.deal_id ≡ some deal
  pub named : (notification.deal_id == deal) ≡ true

match_message-IsPayout :
    (c : Cells) (i : TonNativeLifecycleIntent) (p : TonNativeEscrowPreparation)
    (m : TonCenterMessage) (unmatched rest : List Payout)
    → match_message c i p m unmatched ≡ ok rest
    → (e : Payout) × IsPayout c i p m e × (take_out e unmatched ≡ some rest)
unfolding match_message payout_value
match_message-IsPayout c i p m unmatched rest h =
    let (n, a, h₁) = >>=-eq-ok (payout_value p m) _ {b = rest} h in
    let (s, a₁) =
      throw_if-eq-ok (not (is_text (normalize_address m.source) p.escrow_address))
        Reason.invalid_payout_message _ {b = n} a in
    let (r, a₂) = throw_if-eq-ok (is_true m.bounced) Reason.invalid_payout_message _ {b = n} a₁ in
    let (t, ht, a₃) = >>=-eq-ok (or_throw m.value Reason.invalid_payout_message) _ {b = n} a₂ in
    let (d, a₄) = throw_if-eq-ok (not (is_digits t)) Reason.invalid_payout_message _ {b = n} a₃ in
    let (k, hk, h₂) = >>=-eq-ok (parse_notification c m.body) _ {b = rest} h₁ in
    let (q, hq, h₃) =
      >>=-eq-ok
        (or_throw
          (take_out_of unmatched (message_payout (normalize_address m.destination) n k.kind))
          Reason.payout_mismatch)
        _ {b = rest} h₂ in
    let (u, h₄) =
      throw_if-eq-ok (not (k.query_id == i.query_id)) Reason.payout_mismatch _ {b = rest} h₃ in
    let (w, hw, h₅) =
      >>=-eq-ok (or_throw (uuid_to_uint256 p.deal_id) Reason.deal_uuid_thrown) _ {b = rest} h₄ in
    let (x, h₆) = throw_if-eq-ok (not (k.deal_id == w)) Reason.payout_mismatch _ {b = rest} h₅ in
    let (dest, hd, o) =
      taken (normalize_address m.destination) n k.kind q
        (or_throw-eq-ok _ Reason.payout_mismatch hq) in
    (
      record { destination = dest; value = n; kind = k.kind },
      record {
        source = not-false _ s;
        arrived = r;
        value_text = t;
        carried = or_throw-eq-ok m.value Reason.invalid_payout_message ht;
        numeric = not-false _ d;
        amount = ok-injective a₄;
        destination = hd;
        notification = k;
        parsed = hk;
        kind = refl;
        query = not-false _ u;
        deal = w;
        uuid = or_throw-eq-ok (uuid_to_uint256 p.deal_id) Reason.deal_uuid_thrown hw;
        named = not-false _ x;
      },
      subst
          (λ y.
            take_out (record { destination = dest; value = n; kind = k.kind }) unmatched ≡ some y)
          (ok-injective h₆) o,
    )
  where
    taken :
        (d : Option Text) (n k : ℕ) (q : List Payout)
        → take_out_of unmatched (message_payout d n k) ≡ some q
        → (dest : Text) × (d ≡ some dest)
          × (take_out (record { destination = dest; value = n; kind = k }) unmatched ≡ some q)
    taken none n k q h = cc
    taken (some dest) n k q h = (dest, refl, h)

IsPayout-match_message :
    (c : Cells) (i : TonNativeLifecycleIntent) (p : TonNativeEscrowPreparation)
    (m : TonCenterMessage) (e : Payout) (unmatched rest : List Payout)
    → IsPayout c i p m e
    → take_out e unmatched ≡ some rest
    → match_message c i p m unmatched ≡ ok rest
unfolding match_message payout_value
IsPayout-match_message c i p m e unmatched rest s h =
    rw
      (
        s.source, s.arrived, s.carried, s.numeric, s.parsed, s.destination, s.kind, s.amount, h,
        s.query, s.uuid, s.named,
      )
      refl

-- The messages make the payouts, one each, in this order.
abbrev pub Pays :
    (c : Cells)
    → TonNativeLifecycleIntent
    → TonNativeEscrowPreparation
    → List TonCenterMessage
    → List Payout
    → Type 0
Pays c i p [] [] = Unit
Pays c i p [] (e ∷ es) = ⊥
Pays c i p (m ∷ ms) [] = ⊥
Pays c i p (m ∷ ms) (e ∷ es) = IsPayout c i p m e × Pays c i p ms es

length-Pays :
    (c : Cells) (i : TonNativeLifecycleIntent) (p : TonNativeEscrowPreparation)
    (ms : List TonCenterMessage) (es : List Payout)
    → Pays c i p ms es
    → length ms ≡ length es
length-Pays c i p [] [] h = refl
length-Pays c i p [] (e ∷ es) h = absurd h
length-Pays c i p (m ∷ ms) [] h = absurd h
length-Pays c i p (m ∷ ms) (e ∷ es) (h, hs) = ap suc (length-Pays c i p ms es hs)

match_messages-Pays :
    (c : Cells) (i : TonNativeLifecycleIntent) (p : TonNativeEscrowPreparation)
    (ms : List TonCenterMessage) (unmatched rest : List Payout)
    → match_messages c i p ms unmatched ≡ ok rest
    → (es : List Payout) × Pays c i p ms es × Perm unmatched (es ++ rest)
unfolding match_messages
match_messages-Pays c i p [] unmatched rest h =
    ([], tt, subst (Perm unmatched) (ok-injective h) (Perm.refl unmatched))
match_messages-Pays c i p (m ∷ ms) unmatched rest h =
    let (next, a, h₁) = >>=-eq-ok (match_message c i p m unmatched) _ {b = rest} h in
    let (e, s, t) = match_message-IsPayout c i p m unmatched next a in
    let (es, r, q) = match_messages-Pays c i p ms next rest h₁ in
    (e ∷ es, (s, r), Perm.trans (take_out-Perm e unmatched next t) (Perm.cons e q))

Pays-match_messages :
    (c : Cells) (i : TonNativeLifecycleIntent) (p : TonNativeEscrowPreparation)
    (ms : List TonCenterMessage) (es unmatched : List Payout)
    → Pays c i p ms es
    → Perm unmatched es
    → match_messages c i p ms unmatched ≡ ok []
unfolding match_messages
Pays-match_messages c i p [] [] unmatched h q = ap ok (Perm.eq-nil q)
Pays-match_messages c i p [] (e ∷ es) unmatched h q = absurd h
Pays-match_messages c i p (m ∷ ms) [] unmatched h q = absurd h
Pays-match_messages c i p (m ∷ ms) (e ∷ es) unmatched (h, hs) q =
    let (rest, t, r) = Perm-take_out e es unmatched q in
    rw (IsPayout-match_message c i p m e unmatched rest h t)
      (Pays-match_messages c i p ms es rest hs r)

-- `validate_payouts` accepts the outgoing messages exactly if the action's payouts are known, and the
-- messages make, one each and in any order, those of them that are not of value zero.
pub validate_payouts-Pays :
    (c : Cells) (ms : List TonCenterMessage) (i : TonNativeLifecycleIntent)
    (p : TonNativeEscrowPreparation)
    → (validate_payouts c ms i p ≡ ok tt) ↔ (
        (expected : List Payout) × (expected_payouts i.action i p ≡ ok expected)
        × ((es : List Payout) × Pays c i p ms es × Perm (non_zero expected) es))
unfolding validate_payouts
validate_payouts-Pays c ms i p = (
  λ h.
      let (x, hx, h₁) = >>=-eq-ok (expected_payouts i.action i p) _ {b = tt} h in
      let (l, h₂) =
        throw_if-eq-ok (not (length ms == length (non_zero x))) Reason.payout_count_mismatch _
          {b = tt} h₁ in
      let (r, hr, h₃) = >>=-eq-ok (match_messages c i p ms (non_zero x)) _ {b = tt} h₂ in
      let (es, s, q) = match_messages-Pays c i p ms (non_zero x) r hr in
      let empty : r ≡ [] = nothing r h₃ in
      (x, hx, (es, s, subst (Perm (non_zero x)) (ap (λ y. es ++ y) empty ∙ append-nil es) q)),
  λ (x, hx, (es, s, q)).
      let same : (length ms == length (non_zero x)) ≡ true =
        equal (length ms) (length (non_zero x)) (length-Pays c i p ms es s ∙ sym (length-Perm q)) in
      rw (hx, same, Pays-match_messages c i p ms es (non_zero x) s q) refl,
)
  where
    nothing :
        (r : List Payout) → throw_if (not (length r == 0)) Reason.payout_mismatch ≡ ok tt → r ≡ []
    nothing [] h = refl
    nothing (e ∷ r) h = ground arith

    equal : (a b : ℕ) → a ≡ b → (a == b) ≡ true
    equal a b h = ground arith
