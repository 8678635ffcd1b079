-- ===== src/Native/Accepted.antt =====
-- The transactions that the validator of the native lifecycle accepts
-- (services/user-service/src/modules/deal/ton-native-lifecycle-validator.ts).
use mathlib.Core.Logic.{∥∥₁_elim}
use mathlib.Core.List.{Perm, Permᴰ}
use native.Mathlib.Nat.{ℕ_set}
use telegram_garant_contract.Common.{
  not-false, ℕ, ◌+◌, ◌≤◌, Bool, true, false, not, List, [], ◌∷◌, Text, some, ltb, ◌==◌, text_eq,
  text_eq→eq, ok, or_throw, >>=-eq-ok, throw_if-eq-ok, or_throw-eq-ok, ok-injective, ◌≡◌, refl, sym,
  ap, ap₂, ◌∙◌, subst, arith, Bool-cases, inl, inr,
}
use telegram_garant_contract.Decimal.{is_digits, value}
use telegram_garant_contract.Native.{
  TonNativeLifecycleAction, TonCenterMessage, AccountState, TonCenterTransaction,
  TonNativeEscrowPreparation, TonNativeLifecycleIntent, Reason, Validation, normalize_address,
  is_text, is_true, normalize_hash,
}
use telegram_garant_contract.Native.Cells.{Cells}
use telegram_garant_contract.Native.Payload.{LifecyclePayload}
use telegram_garant_contract.Native.Payouts.{
  Payout, boc_cell, expected_payouts, non_zero, validate_payouts,
}
use telegram_garant_contract.Native.Matching.{Pays, validate_payouts-Pays}
use telegram_garant_contract.Native.Executed.{
  is_text→some, IsExecuted, check_execution-IsExecuted, message_value-some, IsActive,
  check_active-IsActive,
}
use telegram_garant_contract.Native.Intended.{
  IsTimely, matches_committed_timing-IsTimely, IsIntended, read_intent-IsIntended,
}
use telegram_garant_contract.Native.Validate.{
  check_execution, check_active, check_inbound, read_intent, message_value,
  matches_committed_timing, PostState, post_state, check_post_state, or_empty, validate_lifecycle,
}

-- The inbound message is the intent's sender's, to the escrow, with the action's value.
pub record IsInbound (m : TonCenterMessage) (p : TonNativeEscrowPreparation)
    (i : TonNativeLifecycleIntent) (sent : Text) : Type 0 where
  pub arrived : is_true m.bounced ≡ false
  pub sender : normalize_address m.source ≡ some i.sender_address
  pub destination : normalize_address m.destination ≡ some p.escrow_address
  pub carried : m.value ≡ some sent
  pub numeric : is_digits sent ≡ true
  pub enough : i.action_value_atomic ≤ value sent

check_inbound-IsInbound :
    (m : TonCenterMessage) (p : TonNativeEscrowPreparation) (i : TonNativeLifecycleIntent)
    (sent : Text)
    → check_inbound m p i ≡ ok sent
    → IsInbound m p i sent
unfolding check_inbound
check_inbound-IsInbound m p i sent h =
    let (b, h₁) = throw_if-eq-ok (is_true m.bounced) Reason.bounced_message _ {b = sent} h in
    let (s, h₂) =
      throw_if-eq-ok (not (is_text (normalize_address m.source) i.sender_address))
        Reason.intent_sender_mismatch _ {b = sent} h₁ in
    let (d, h₃) =
      throw_if-eq-ok (not (is_text (normalize_address m.destination) p.escrow_address))
        Reason.destination_mismatch _ {b = sent} h₂ in
    let (t, ht, h₄) = >>=-eq-ok (message_value m) _ {b = sent} h₃ in
    let (l, h₅) =
      throw_if-eq-ok (ltb (value t) i.action_value_atomic) Reason.insufficient_action_value (ok t)
        {b = sent} h₄ in
    let same : t ≡ sent = ok-injective h₅ in
    let (there, numeric) = message_value-some m sent (ht ∙ ap ok same) in
    record {
      arrived = b;
      sender = is_text→some (normalize_address m.source) i.sender_address (not-false _ s);
      destination = is_text→some (normalize_address m.destination) p.escrow_address (not-false _ d);
      carried = there;
      numeric = numeric;
      enough =
          subst (λ x. i.action_value_atomic ≤ value x) same
            (at_least (value t) i.action_value_atomic l);
    }
  where
    at_least : (a b : ℕ) → ltb a b ≡ false → b ≤ a
    at_least a b h = ground arith

-- The contract's data is the state that the intent expects, of the preparation's escrow.
pub record IsPostState (c : Cells) (a : AccountState) (p : TonNativeEscrowPreparation)
    (i : TonNativeLifecycleIntent) (s : PostState) : Type 0 where
  pub read : post_state c (boc_cell c a.data_boc) ≡ ok s
  pub status : s.status ≡ i.expected_to_status
  pub funded : s.funded_amount ≡ p.buyer_total_atomic
  pub last_query : s.last_query_id ≡ i.query_id
  pub config : s.config_hash ≡ p.config_hash

check_post_state-IsPostState :
    (c : Cells) (a : AccountState) (p : TonNativeEscrowPreparation) (i : TonNativeLifecycleIntent)
    (s : PostState)
    → check_post_state c a p i ≡ ok s
    → IsPostState c a p i s
unfolding check_post_state
check_post_state-IsPostState c a p i s h =
    let (q, hq, h₁) = >>=-eq-ok (post_state c (boc_cell c a.data_boc)) _ {b = s} h in
    let (f₁, h₂) =
      throw_if-eq-ok (not (q.status == i.expected_to_status)) Reason.post_state_status_mismatch _
        {b = s} h₁ in
    let (f₂, h₃) =
      throw_if-eq-ok (not (q.funded_amount == p.buyer_total_atomic)) Reason.funded_amount_mismatch _
        {b = s} h₂ in
    let (f₃, h₄) =
      throw_if-eq-ok (not (q.last_query_id == i.query_id)) Reason.post_state_query_id_mismatch _
        {b = s} h₃ in
    let (f₄, h₅) =
      throw_if-eq-ok (not (text_eq q.config_hash p.config_hash)) Reason.config_hash_mismatch (ok q)
        {b = s} h₄ in
    subst (IsPostState c a p i) (ok-injective h₅) (record {
      read = hq;
      status = equal _ _ f₁;
      funded = equal _ _ f₂;
      last_query = equal _ _ f₃;
      config = text_eq→eq q.config_hash p.config_hash (not-false _ f₄);
    })
  where
    equal : (a b : ℕ) → not (a == b) ≡ false → a ≡ b
    equal a b h = ground arith

-- What holds of a lifecycle transaction that is accepted.
pub record Accepted (c : Cells) (tx : TonCenterTransaction) (p : TonNativeEscrowPreparation)
    (i : TonNativeLifecycleIntent) : Type 0 where
  pub executed : IsExecuted tx p
  pub inbound : TonCenterMessage
  pub received : tx.in_msg ≡ some inbound
  pub sent : Text
  pub delivered : IsInbound inbound p i sent
  pub payload : LifecyclePayload
  pub intended : IsIntended c inbound i payload
  pub now : ℕ
  pub time : tx.now ≡ some now
  pub timely : IsTimely i p now i.action
  pub account : AccountState
  pub active : IsActive tx account
  pub code : normalize_hash account.code_hash ≡ some p.code_hash
  pub state : PostState
  pub left : IsPostState c account p i state
  pub expected : List Payout
  pub planned : expected_payouts i.action i p ≡ ok expected
  pub payouts : List Payout
  pub paid : Pays c i p (or_empty tx.out_msgs) payouts
  pub as_planned : Perm (non_zero expected) payouts

-- Where a lifecycle transaction is accepted, it is one of the escrow's account in a masterchain block, not
-- emulated, not aborted and without an error in its phases; its message came from the intent's sender to the
-- escrow with at least the action's value, and its payload has the action, the query id and the hash of the
-- intent and, for a resolution, its awards; its time is within or behind the deadline of its action; the
-- contract is active, of the preparation's code, and its data has the expected status, the buyer's total, the
-- intent's query id and the preparation's configuration; and its outgoing messages pay the expected payouts
-- that are not zero, one each.
pub validate_lifecycle-Accepted :
    (c : Cells) (tx : TonCenterTransaction) (p : TonNativeEscrowPreparation)
    (i : TonNativeLifecycleIntent) (v : Validation)
    → validate_lifecycle c tx p i ≡ ok v
    → Accepted c tx p i
unfolding validate_lifecycle
validate_lifecycle-Accepted c tx p i v h =
    let (id, hid, h₁) = >>=-eq-ok (check_execution tx p) _ {b = v} h in
    let (a, ha, h₂) = >>=-eq-ok (check_active tx) _ {b = v} h₁ in
    let (m, hm, h₃) = >>=-eq-ok (or_throw tx.in_msg Reason.missing_inbound_message) _ {b = v} h₂ in
    let (t, ht, h₄) = >>=-eq-ok (check_inbound m p i) _ {b = v} h₃ in
    let (w, hw, h₅) = >>=-eq-ok (read_intent c m i) _ {b = v} h₄ in
    let (n, h₆) =
      throw_if-eq-ok (not (matches_committed_timing i tx.now p)) Reason.action_deadline_mismatch _
        {b = v} h₅ in
    let (g, h₇) =
      throw_if-eq-ok (not (is_text (normalize_hash a.code_hash) p.code_hash))
        Reason.code_hash_mismatch _ {b = v} h₆ in
    let (z, hz, h₈) = >>=-eq-ok (check_post_state c a p i) _ {b = v} h₇ in
    let (o, ho, _) = >>=-eq-ok (validate_payouts c (or_empty tx.out_msgs) i p) _ {b = v} h₈ in
    let (now, time, timely) = matches_committed_timing-IsTimely i tx.now p (not-false _ n) in
    let (x, hx, (es, s, q)) = (validate_payouts-Pays c (or_empty tx.out_msgs) i p).0 ho in
    record {
      executed = check_execution-IsExecuted tx p id hid;
      inbound = m;
      received = or_throw-eq-ok tx.in_msg Reason.missing_inbound_message hm;
      sent = t;
      delivered = check_inbound-IsInbound m p i t ht;
      payload = w;
      intended = read_intent-IsIntended c m i w hw;
      now = now;
      time = time;
      timely = timely;
      account = a;
      active = check_active-IsActive tx a ha;
      code = is_text→some (normalize_hash a.code_hash) p.code_hash (not-false _ g);
      state = z;
      left = check_post_state-IsPostState c a p i z hz;
      expected = x;
      planned = hx;
      payouts = es;
      paid = s;
      as_planned = q;
    }

-- The sum of payouts.
abbrev pub total : List Payout → ℕ
total [] = 0
total (e ∷ es) = e.value + total es

total-Permᴰ : {es fs : List Payout} → Permᴰ es fs → total es ≡ total fs
total-Permᴰ Permᴰ.nil = refl
total-Permᴰ (Permᴰ.cons h p) = ap₂ (λ (x : Payout) y. x.value + y) h (total-Permᴰ p)
total-Permᴰ (Permᴰ.swap h k) =
    omega (arith, ap (λ (x : Payout). x.value) h, ap (λ (x : Payout). x.value) k)
total-Permᴰ (Permᴰ.trans p q) = total-Permᴰ p ∙ total-Permᴰ q

total-non_zero : (es : List Payout) → total (non_zero es) ≡ total es
unfolding non_zero
total-non_zero [] = refl
total-non_zero (e ∷ es) = elim (Bool-cases (e.value == 0)) [
  | inl empty ↦ rw empty (drop (e.value) empty (total-non_zero es))
  | inr full ↦ rw full (ap (λ n. e.value + n) (total-non_zero es))
]
  where
    drop : (n : ℕ) → (n == 0) ≡ true → {a b : ℕ} → a ≡ b → a ≡ n + b
    drop n h q = ground (arith)

-- The preparation and the intent divide the buyer's total: between seller and platform on a release,
-- between buyer and platform on a refund, and among the three on a resolution.
pub record IsConserving (p : TonNativeEscrowPreparation) (i : TonNativeLifecycleIntent)
    : Type 0 where
  pub released : p.seller_payout_atomic + p.platform_fee_atomic ≡ p.buyer_total_atomic
  pub refunded : p.refund_to_buyer_atomic + p.refund_fee_atomic ≡ p.buyer_total_atomic
  pub resolved :
      (b s : ℕ)
      → i.buyer_award_atomic ≡ some b
      → i.seller_award_atomic ≡ some s
      → b + (s + p.platform_fee_atomic) ≡ p.buyer_total_atomic

-- The action ends the escrow.
abbrev pub ends_escrow : TonNativeLifecycleAction → Bool
ends_escrow TonNativeLifecycleAction.mark_delivered = false
ends_escrow TonNativeLifecycleAction.open_dispute = false
ends_escrow _ = true

total-expected :
    (a : TonNativeLifecycleAction) (p : TonNativeEscrowPreparation) (i : TonNativeLifecycleIntent)
    (es : List Payout)
    → IsConserving p i
    → ends_escrow a ≡ true
    → expected_payouts a i p ≡ ok es
    → total es ≡ p.buyer_total_atomic
unfolding expected_payouts
total-expected TonNativeLifecycleAction.mark_delivered p i es k t h = cc
total-expected TonNativeLifecycleAction.open_dispute p i es k t h = cc
total-expected TonNativeLifecycleAction.release p i es k t h =
    sym (ap total (ok-injective h)) ∙ omega (arith, k.released)
total-expected TonNativeLifecycleAction.release_after_buyer_timeout p i es k t h =
    sym (ap total (ok-injective h)) ∙ omega (arith, k.released)
total-expected TonNativeLifecycleAction.refund_buyer p i es k t h =
    sym (ap total (ok-injective h)) ∙ omega (arith, k.refunded)
total-expected TonNativeLifecycleAction.refund_after_seller_timeout p i es k t h =
    sym (ap total (ok-injective h)) ∙ omega (arith, k.refunded)
total-expected TonNativeLifecycleAction.resolve p i es k t h =
    let (b, hb, h₁) =
      >>=-eq-ok (or_throw i.buyer_award_atomic Reason.resolution_award_thrown) _ {b = es} h in
    let (s, hs, h₂) =
      >>=-eq-ok (or_throw i.seller_award_atomic Reason.resolution_award_thrown) _ {b = es} h₁ in
    sym (ap total (ok-injective h₂))
    ∙ omega (
      arith,
      k.resolved b s (or_throw-eq-ok i.buyer_award_atomic Reason.resolution_award_thrown hb)
          (or_throw-eq-ok i.seller_award_atomic Reason.resolution_award_thrown hs),
    )

-- Where a transaction of an action that ends the escrow is accepted, and preparation and intent divide the
-- buyer's total, the outgoing messages make payouts whose sum is the buyer's total, and so is the funded
-- amount in the contract's data behind the transaction.
pub validate_lifecycle_conserves :
    (c : Cells) (tx : TonCenterTransaction) (p : TonNativeEscrowPreparation)
    (i : TonNativeLifecycleIntent) (v : Validation)
    → IsConserving p i
    → ends_escrow i.action ≡ true
    → validate_lifecycle c tx p i ≡ ok v
    → (es : List Payout) × Pays c i p (or_empty tx.out_msgs) es
      × (total es ≡ p.buyer_total_atomic)
      × ((a : AccountState) × (tx.account_state_after ≡ some a)
          × ((s : PostState) × (post_state c (boc_cell c a.data_boc) ≡ ok s)
              × (s.funded_amount ≡ total es)))
validate_lifecycle_conserves c tx p i v k t h =
    let a = validate_lifecycle-Accepted c tx p i v h in
    let sum : total a.payouts ≡ p.buyer_total_atomic =
      sym
        (∥∥₁_elim a.as_planned (ℕ_set (total (non_zero a.expected)) (total a.payouts)) total-Permᴰ)
      ∙ total-non_zero a.expected
      ∙ total-expected i.action p i a.expected k t a.planned in
    (
      a.payouts,
      a.paid,
      sum,
      (a.account, a.active.there, (a.state, a.left.read, a.left.funded ∙ sym sum)),
    )
