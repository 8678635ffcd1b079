-- ===== src/Native/Intended.antt =====
-- What the validator of the native lifecycle establishes of a message's payload and its time
-- (services/user-service/src/modules/deal/ton-native-lifecycle-validator.ts).
use telegram_garant_contract.Common.{
  ℕ, ◌≤◌, ◌<◌, Bool, true, false, not, Text, Option, none, some, ltb, leb, ◌==◌, if◌then◌else◌,
  text_eq, text_eq→eq, Result, ok, err, or_throw, throw_if, >>=-eq-ok, throw_if-eq-ok,
  or_throw-eq-ok, ok-injective, some-injective, not-false, ◌≡◌, ◌≢◌, refl, sym, ap, ◌∙◌, subst,
  arith,
}
use telegram_garant_contract.Native.{
  TonNativeLifecycleAction, action_eq, lifecycle_opcode, all_actions, is_resolve, TonCenterMessage,
  TonNativeEscrowPreparation, TonNativeLifecycleIntent, Reason, truthy_text,
}
use telegram_garant_contract.Native.Cells.{Cells}
use telegram_garant_contract.Native.Payload.{
  PayloadError, Awards, LifecyclePayload, find_action, parse_payload,
}
use telegram_garant_contract.Native.RoundTrip.{find_action-opcode}
use telegram_garant_contract.Native.Validate.{
  award_test, match_awards, match_intent, parsed_or_invalid, timing_of, matches_committed_timing,
  read_intent,
}
use telegram_garant_contract.Native.Executed.{truthy_text→some, is_same}

-- The time of a transaction is right for its action.
pub data IsTimely (i : TonNativeLifecycleIntent) (p : TonNativeEscrowPreparation) (now : ℕ)
    : TonNativeLifecycleAction → Type 0 where
  delivers : now ≤ p.delivery_deadline → IsTimely i p now TonNativeLifecycleAction.mark_delivered
  releases : now ≤ p.confirmation_deadline → IsTimely i p now TonNativeLifecycleAction.release
  disputes_funded :
      i.expected_from_status ≡ 1
      → now ≤ p.delivery_deadline
      → IsTimely i p now TonNativeLifecycleAction.open_dispute
  disputes_delivered :
      i.expected_from_status ≢ 1
      → now ≤ p.confirmation_deadline
      → IsTimely i p now TonNativeLifecycleAction.open_dispute
  seller_late :
      p.delivery_deadline < now
      → IsTimely i p now TonNativeLifecycleAction.refund_after_seller_timeout
  buyer_late :
      p.confirmation_deadline < now
      → IsTimely i p now TonNativeLifecycleAction.release_after_buyer_timeout
  refunds : IsTimely i p now TonNativeLifecycleAction.refund_buyer
  resolves : IsTimely i p now TonNativeLifecycleAction.resolve

within : (a b : ℕ) → leb a b ≡ true → a ≤ b
within a b h = ground arith

beyond : (a b : ℕ) → ltb a b ≡ true → a < b
beyond a b h = ground arith

dispute-IsTimely :
    (i : TonNativeLifecycleIntent) (p : TonNativeEscrowPreparation) (now : ℕ)
    → leb now (if i.expected_from_status == 1 then p.delivery_deadline else p.confirmation_deadline)
      ≡ true
    → IsTimely i p now TonNativeLifecycleAction.open_dispute
dispute-IsTimely i p now h = pick (i.expected_from_status == 1) refl h
  where
    one : (n : ℕ) → (n == 1) ≡ true → n ≡ 1
    one n h = ground arith

    other : (n : ℕ) → (n == 1) ≡ false → n ≢ 1
    other n h e = ground arith

    pick :
        (b : Bool)
        → (i.expected_from_status == 1) ≡ b
        → leb now (if b then p.delivery_deadline else p.confirmation_deadline) ≡ true
        → IsTimely i p now TonNativeLifecycleAction.open_dispute
    pick true q k =
        IsTimely.disputes_funded (one i.expected_from_status q) (within now p.delivery_deadline k)
    pick false q k =
        IsTimely.disputes_delivered (other i.expected_from_status q)
          (within now p.confirmation_deadline k)

timing_of-IsTimely :
    (a : TonNativeLifecycleAction) (i : TonNativeLifecycleIntent) (p : TonNativeEscrowPreparation)
    (now : ℕ)
    → timing_of a i now p ≡ true
    → IsTimely i p now a
timing_of-IsTimely TonNativeLifecycleAction.mark_delivered i p now h =
    IsTimely.delivers (within now p.delivery_deadline h)
timing_of-IsTimely TonNativeLifecycleAction.release i p now h =
    IsTimely.releases (within now p.confirmation_deadline h)
timing_of-IsTimely TonNativeLifecycleAction.open_dispute i p now h = dispute-IsTimely i p now h
timing_of-IsTimely TonNativeLifecycleAction.refund_after_seller_timeout i p now h =
    IsTimely.seller_late (beyond p.delivery_deadline now h)
timing_of-IsTimely TonNativeLifecycleAction.release_after_buyer_timeout i p now h =
    IsTimely.buyer_late (beyond p.confirmation_deadline now h)
timing_of-IsTimely TonNativeLifecycleAction.refund_buyer i p now h = IsTimely.refunds
timing_of-IsTimely TonNativeLifecycleAction.resolve i p now h = IsTimely.resolves

pub matches_committed_timing-IsTimely :
    (i : TonNativeLifecycleIntent) (o : Option ℕ) (p : TonNativeEscrowPreparation)
    → matches_committed_timing i o p ≡ true
    → (now : ℕ) × (o ≡ some now) × IsTimely i p now i.action
unfolding matches_committed_timing
matches_committed_timing-IsTimely i none p h = cc
matches_committed_timing-IsTimely i (some now) p h =
    (now, refl, timing_of-IsTimely i.action i p now h)

-- The awards of a resolution are the intent's.
abbrev pub AwardsMatch :
    TonNativeLifecycleAction → Option Awards → TonNativeLifecycleIntent → Type 0
AwardsMatch TonNativeLifecycleAction.resolve awards i =
    (w : Awards) × (awards ≡ some w)
    × (i.buyer_award_atomic ≡ some w.buyer_award)
    × (i.seller_award_atomic ≡ some w.seller_award)
AwardsMatch _ awards i = Unit

award_test-some :
    (o : Option ℕ) (n : ℕ) {b : Bool} → award_test o n ≡ ok b → not b ≡ false → o ≡ some n
award_test-some none n h k = cc
award_test-some (some m) n {b} h k =
    ap some (sym (is_same n m (subst (λ x. not x ≡ false) (sym (ok-injective h)) k)))

match_awards-some :
    (awards : Option Awards) (i : TonNativeLifecycleIntent)
    → match_awards awards i ≡ ok tt
    → (w : Awards) × (awards ≡ some w)
      × (i.buyer_award_atomic ≡ some w.buyer_award)
      × (i.seller_award_atomic ≡ some w.seller_award)
unfolding match_awards
match_awards-some none i h =
    let (_, _, k) = >>=-eq-ok (award_test i.buyer_award_atomic 0) _ {b = tt} h in cc
match_awards-some (some w) i h =
    let (x, hx, h₁) = >>=-eq-ok (award_test i.buyer_award_atomic w.buyer_award) _ {b = tt} h in
    let (f, h₂) = throw_if-eq-ok (not x) Reason.intent_payload_mismatch _ {b = tt} h₁ in
    let (y, hy, h₃) = >>=-eq-ok (award_test i.seller_award_atomic w.seller_award) _ {b = tt} h₂ in
    (
      w,
      refl,
      award_test-some i.buyer_award_atomic w.buyer_award hx f,
      award_test-some i.seller_award_atomic w.seller_award hy (not_thrown (not y) h₃),
    )
  where
    not_thrown : (b : Bool) → throw_if b Reason.intent_payload_mismatch ≡ ok tt → b ≡ false
    not_thrown true h = cc
    not_thrown false h = refl

AwardsMatch-if :
    (a : TonNativeLifecycleAction) (awards : Option Awards) (i : TonNativeLifecycleIntent)
    → (if is_resolve a then match_awards awards i else ok tt) ≡ ok tt
    → AwardsMatch a awards i
AwardsMatch-if TonNativeLifecycleAction.resolve awards i h = match_awards-some awards i h
AwardsMatch-if _ awards i h = tt

action_eq→eq : (a b : TonNativeLifecycleAction) → action_eq a b ≡ true → a ≡ b
unfolding action_eq
action_eq→eq a b h = some-injective (
    sym (find_action-opcode a)
    ∙ ap (λ n. find_action n all_actions) (same (lifecycle_opcode a) (lifecycle_opcode b) h)
    ∙ find_action-opcode b)
  where
    same : (m n : ℕ) → (m == n) ≡ true → m ≡ n
    same m n h = ground arith

-- The body of the message is the payload of the intent: its action, its query id, its hash and, for a
-- resolution, its awards.
pub record IsIntended (c : Cells) (m : TonCenterMessage) (i : TonNativeLifecycleIntent)
    (payload : LifecyclePayload) : Type 0 where
  pub body : Text
  pub carried : m.body ≡ some body
  pub parsed : parse_payload c body ≡ ok payload
  pub action : payload.action ≡ i.action
  pub query : payload.query_id ≡ i.query_id
  pub hash : payload.hash ≡ i.payload_hash
  pub awards : AwardsMatch i.action payload.awards i

parsed_or_invalid-ok :
    (r : Result PayloadError LifecyclePayload) (v : LifecyclePayload)
    → parsed_or_invalid r ≡ ok v
    → r ≡ ok v
parsed_or_invalid-ok (ok w) v h = ap ok (ok-injective h)
parsed_or_invalid-ok (err e) v h = cc

pub read_intent-IsIntended :
    (c : Cells) (m : TonCenterMessage) (i : TonNativeLifecycleIntent) (payload : LifecyclePayload)
    → read_intent c m i ≡ ok payload
    → IsIntended c m i payload
unfolding read_intent match_intent
read_intent-IsIntended c m i payload h =
    let (body, hb, h₁) =
      >>=-eq-ok (or_throw (truthy_text m.body) Reason.missing_message_body) _ {b = payload} h in
    let (v, hv, h₂) = >>=-eq-ok (parsed_or_invalid (parse_payload c body)) _ {b = payload} h₁ in
    let (_, k, h₃) = >>=-eq-ok (match_intent v i) _ {b = payload} h₂ in
    let (a, k₁) =
      throw_if-eq-ok (not (action_eq v.action i.action)) Reason.intent_payload_mismatch _ {b = tt}
        k in
    let (q, k₂) =
      throw_if-eq-ok (not (v.query_id == i.query_id)) Reason.intent_payload_mismatch _ {b = tt}
        k₁ in
    let (t, k₃) =
      throw_if-eq-ok (not (text_eq v.hash i.payload_hash)) Reason.intent_payload_mismatch _ {b = tt}
        k₂ in
    subst (IsIntended c m i) (ok-injective h₃) (record {
      body = body;
      carried =
          truthy_text→some m.body body
            (or_throw-eq-ok (truthy_text m.body) Reason.missing_message_body hb);
      parsed = parsed_or_invalid-ok (parse_payload c body) v hv;
      action = action_eq→eq v.action i.action (not-false _ a);
      query = is_same v.query_id i.query_id q;
      hash = text_eq→eq v.hash i.payload_hash (not-false _ t);
      awards = AwardsMatch-if i.action v.awards i k₃;
    })
