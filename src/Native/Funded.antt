-- ===== src/Native/Funded.antt =====
-- The funding transactions that `validateTonNativeFundingTransaction` accepts
-- (services/user-service/src/modules/deal/ton-center-v3.service.ts).
use telegram_garant_contract.Common.{
  ap, ◌∙◌, refl, ◌||◌, ◌&&◌, throw_if, none, ℕ, ◌≤◌, true, false, not, Text, codes, Option, some,
  ltb, ◌==◌, text_eq, text_eq→eq, ok, or_throw, >>=-eq-ok, throw_if-eq-ok, or_throw-eq-ok,
  ok-injective, not-false, ◌≡◌, subst, arith,
}
use telegram_garant_contract.Decimal.{is_digits, value}
use telegram_garant_contract.Native.{
  AccountState, TonCenterMessage, TonCenterTransaction, TonNativeEscrowPreparation, Reason,
  Validation, normalize_address, is_text, is_true, normalize_hash,
}
use telegram_garant_contract.Native.Cells.{Cells}
use telegram_garant_contract.Native.Validate.{check_execution, message_value, PostState, post_state}
use telegram_garant_contract.Native.Executed.{
  is_text→some, IsExecuted, check_execution-IsExecuted, message_value-some,
}
use telegram_garant_contract.Native.Funding.{
  any_boc_cell, within_deadline, check_fund_body, check_funded_state, or_no_state,
  check_fund_message, check_fund_payload, check_fund_contract, validate_funding,
}

-- The buyer has sent at least the requested amount to the escrow, in time.
pub record IsFunding (m : TonCenterMessage) (now : Option ℕ) (p : TonNativeEscrowPreparation)
    (sent : Text) : Type 0 where
  pub arrived : is_true m.bounced ≡ false
  pub sender : normalize_address m.source ≡ some p.buyer_address
  pub destination : normalize_address m.destination ≡ some p.escrow_address
  pub carried : m.value ≡ some sent
  pub numeric : is_digits sent ≡ true
  pub enough : p.request_amount_atomic ≤ value sent
  pub time : ℕ
  pub dated : now ≡ some time
  pub timely : time ≤ p.funding_deadline

within_deadline-some :
    (o : Option ℕ) (d : ℕ) → within_deadline o d ≡ true → (t : ℕ) × (o ≡ some t) × (t ≤ d)
within_deadline-some none d h = cc
within_deadline-some (some t) d h = (t, refl, ground arith)

check_fund_message-IsFunding :
    (m : TonCenterMessage) (now : Option ℕ) (p : TonNativeEscrowPreparation) (sent : Text)
    → check_fund_message m now p ≡ ok sent
    → IsFunding m now p sent
unfolding check_fund_message
check_fund_message-IsFunding m now p sent h =
    let (b, h₁) = throw_if-eq-ok (is_true m.bounced) Reason.bounced_message _ {b = sent} h in
    let (s, h₂) =
      throw_if-eq-ok (not (is_text (normalize_address m.source) p.buyer_address))
        Reason.buyer_address_mismatch _ {b = sent} h₁ in
    let (d, h₃) =
      throw_if-eq-ok (not (is_text (normalize_address m.destination) p.escrow_address))
        Reason.destination_mismatch _ {b = sent} h₂ in
    let (t, ht, h₄) = >>=-eq-ok (message_value m) _ {b = sent} h₃ in
    let (l, h₅) =
      throw_if-eq-ok (ltb (value t) p.request_amount_atomic) Reason.insufficient_message_value _
        {b = sent} h₄ in
    let (n, h₆) =
      throw_if-eq-ok (not (within_deadline now p.funding_deadline)) Reason.funding_deadline_mismatch
        (ok t) {b = sent} h₅ in
    let (there, numeric) = message_value-some m t ht in
    let (time, dated, timely) = within_deadline-some now p.funding_deadline (not-false _ n) in
    subst (IsFunding m now p) (ok-injective h₆) (record {
      arrived = b;
      sender = is_text→some (normalize_address m.source) p.buyer_address (not-false _ s);
      destination = is_text→some (normalize_address m.destination) p.escrow_address (not-false _ d);
      carried = there;
      numeric = numeric;
      enough = at_least (value t) p.request_amount_atomic l;
      time = time;
      dated = dated;
      timely = timely;
    })
  where
    at_least : (a b : ℕ) → ltb a b ≡ false → b ≤ a
    at_least a b h = ground arith

-- The body is the opcode of a funding and the prepared query id, with nothing behind them.
pub record IsFundBody (c : Cells) (body : c.Cell) (p : TonNativeEscrowPreparation) : Type 0 where
  pub after_opcode : c.Slice
  pub opcode : c.load_uint 32 (c.begin_parse body) ≡ some (0x66756e64, after_opcode)
  pub after_query : c.Slice
  pub query : c.load_uint 64 after_opcode ≡ some (p.query_id, after_query)
  pub no_bits : c.remaining_bits after_query ≡ 0
  pub no_refs : c.remaining_refs after_query ≡ 0

check_fund_body-IsFundBody :
    (c : Cells) (body : c.Cell) (p : TonNativeEscrowPreparation)
    → check_fund_body c body p ≡ ok tt
    → IsFundBody c body p
unfolding check_fund_body
check_fund_body-IsFundBody c body p h =
    let ((n, s), hs, h₁) =
      >>=-eq-ok (or_throw (c.load_uint 32 (c.begin_parse body)) Reason.invalid_fund_message) _
        {b = tt} h in
    let ((m, t), ht, h₂) =
      >>=-eq-ok (or_throw (c.load_uint 64 s) Reason.invalid_fund_message) _ {b = tt} h₁ in
    let (q, w, b, r) =
      four n 0x66756e64 m p.query_id (c.remaining_bits t) (c.remaining_refs t) h₂ in
    record {
      after_opcode = s;
      opcode =
          or_throw-eq-ok (c.load_uint 32 (c.begin_parse body)) Reason.invalid_fund_message hs
          ∙ ap (λ x. some (x, s)) q;
      after_query = t;
      query =
          or_throw-eq-ok (c.load_uint 64 s) Reason.invalid_fund_message ht
          ∙ ap (λ x. some (x, t)) w;
      no_bits = b;
      no_refs = r;
    }
  where
    four :
        (n o m q b r : ℕ)
        → throw_if
            (not (n == o) || not (m == q) || not (b == 0 && r == 0))
            Reason.fund_message_mismatch
          ≡ ok tt
        → (n ≡ o) × (m ≡ q) × (b ≡ 0) × (r ≡ 0)
    four n o m q b r h = ground arith

-- The body of the message is the prepared one, by its hash, and is a funding with the prepared query id.
pub record IsPrepared (c : Cells) (m : TonCenterMessage) (p : TonNativeEscrowPreparation)
    : Type 0 where
  pub actual : c.Cell
  pub body : any_boc_cell c m.body ≡ some actual
  pub expected : c.Cell
  pub prepared : any_boc_cell c (some p.payload) ≡ some expected
  pub same : c.hash actual ≡ c.hash expected
  pub fund : IsFundBody c actual p

check_fund_payload-IsPrepared :
    (c : Cells) (m : TonCenterMessage) (p : TonNativeEscrowPreparation) (cell : c.Cell)
    → check_fund_payload c m p ≡ ok cell
    → IsPrepared c m p
unfolding check_fund_payload
check_fund_payload-IsPrepared c m p cell h =
    let (a, ha, h₁) =
      >>=-eq-ok (or_throw (any_boc_cell c m.body) Reason.invalid_message_body) _ {b = cell} h in
    let (e, he, h₂) =
      >>=-eq-ok (or_throw (any_boc_cell c (some p.payload)) Reason.invalid_message_body) _
        {b = cell} h₁ in
    let (s, h₃) =
      throw_if-eq-ok (not (text_eq (c.hash a) (c.hash e))) Reason.payload_mismatch _ {b = cell}
        h₂ in
    let (u, hu, _) = >>=-eq-ok (check_fund_body c a p) _ {b = cell} h₃ in
    record {
      actual = a;
      body = or_throw-eq-ok (any_boc_cell c m.body) Reason.invalid_message_body ha;
      expected = e;
      prepared = or_throw-eq-ok (any_boc_cell c (some p.payload)) Reason.invalid_message_body he;
      same = text_eq→eq (c.hash a) (c.hash e) (not-false _ s);
      fund = check_fund_body-IsFundBody c a p hu;
    }

-- The contract has the code of the preparation, is active, and is funded with the buyer's total.
pub record IsFunded (c : Cells) (a : AccountState) (p : TonNativeEscrowPreparation) : Type 0 where
  pub code : normalize_hash a.code_hash ≡ some p.code_hash
  pub active : a.account_status ≡ some (codes "active")
  pub state : PostState
  pub read : post_state c (any_boc_cell c a.data_boc) ≡ ok state
  pub status : state.status ≡ 1
  pub funded : state.funded_amount ≡ p.buyer_total_atomic
  pub last_query : state.last_query_id ≡ p.query_id
  pub config : state.config_hash ≡ p.config_hash

check_fund_contract-IsFunded :
    (c : Cells) (a : AccountState) (p : TonNativeEscrowPreparation) (z : PostState)
    → check_fund_contract c a p ≡ ok z
    → IsFunded c a p
unfolding check_fund_contract check_funded_state
check_fund_contract-IsFunded c a p z h =
    let (g, h₁) =
      throw_if-eq-ok (not (is_text (normalize_hash a.code_hash) p.code_hash))
        Reason.code_hash_mismatch _ {b = z} h in
    let (w, h₂) =
      throw_if-eq-ok (not (is_text a.account_status (codes "active"))) Reason.post_state_not_active
        _ {b = z} h₁ in
    let (q, hq, h₃) = >>=-eq-ok (post_state c (any_boc_cell c a.data_boc)) _ {b = z} h₂ in
    let (f₁, h₄) = throw_if-eq-ok (not (q.status == 1)) Reason.post_state_not_funded _ {b = z} h₃ in
    let (f₂, h₅) =
      throw_if-eq-ok (not (q.funded_amount == p.buyer_total_atomic)) Reason.funded_amount_mismatch _
        {b = z} h₄ in
    let (f₃, h₆) =
      throw_if-eq-ok (not (q.last_query_id == p.query_id)) Reason.post_state_query_id_mismatch _
        {b = z} h₅ in
    let (f₄, _) =
      throw_if-eq-ok (not (text_eq q.config_hash p.config_hash)) Reason.config_hash_mismatch (ok q)
        {b = z} h₆ in
    record {
      code = is_text→some (normalize_hash a.code_hash) p.code_hash (not-false _ g);
      active = is_text→some a.account_status (codes "active") (not-false _ w);
      state = q;
      read = hq;
      status = equal _ _ f₁;
      funded = equal _ _ f₂;
      last_query = equal _ _ f₃;
      config = text_eq→eq q.config_hash p.config_hash (not-false _ f₄);
    }
  where
    equal : (a b : ℕ) → not (a == b) ≡ false → a ≡ b
    equal a b h = ground arith

-- Where a funding transaction is accepted, it is one of the escrow's account in a masterchain block, not
-- emulated, not aborted and without an error in its phases; the buyer sent at least the requested amount to
-- the escrow, not behind the deadline, with a body that has the hash of the prepared payload, the opcode of a
-- funding and the prepared query id and nothing else; and the contract is active behind it, of the prepared
-- code and configuration, with status 1, the prepared query id and the buyer's total as its funded amount.
pub validate_funding-IsFunded :
    (c : Cells) (tx : TonCenterTransaction) (p : TonNativeEscrowPreparation) (v : Validation)
    → validate_funding c tx p ≡ ok v
    → (IsExecuted tx p × (tx.end_status ≡ some (codes "active")))
      × ((m : TonCenterMessage) × (tx.in_msg ≡ some m)
          × IsPrepared c m p
          × ((sent : Text) × IsFunding m tx.now p sent))
      × IsFunded c (or_no_state tx.account_state_after) p
unfolding validate_funding
validate_funding-IsFunded c tx p v h =
    let (id, hid, h₁) = >>=-eq-ok (check_execution tx p) _ {b = v} h in
    let (e, h₂) =
      throw_if-eq-ok (not (is_text tx.end_status (codes "active"))) Reason.contract_not_active _
        {b = v} h₁ in
    let (m, hm, h₃) = >>=-eq-ok (or_throw tx.in_msg Reason.missing_inbound_message) _ {b = v} h₂ in
    let (t, ht, h₄) = >>=-eq-ok (check_fund_message m tx.now p) _ {b = v} h₃ in
    let (a, ha, h₅) = >>=-eq-ok (check_fund_payload c m p) _ {b = v} h₄ in
    let (z, hz, _) =
      >>=-eq-ok (check_fund_contract c (or_no_state tx.account_state_after) p) _ {b = v} h₅ in
    (
      (
        check_execution-IsExecuted tx p id hid,
        is_text→some tx.end_status (codes "active") (not-false _ e),
      ),
      (
        m,
        or_throw-eq-ok tx.in_msg Reason.missing_inbound_message hm,
        check_fund_payload-IsPrepared c m p a ha,
        (t, check_fund_message-IsFunding m tx.now p t ht),
      ),
      check_fund_contract-IsFunded c (or_no_state tx.account_state_after) p z hz,
    )
