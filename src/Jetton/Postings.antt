-- ===== src/Jetton/Postings.antt =====
-- The ledger postings of services/user-service/src/modules/deal/ton-jetton-transactional-application.service.ts:
-- `applyLedger`, `insertLedger` and `expectedPayout`.
use telegram_garant_contract.Common.{
  ℕ, Bool, true, false, not, ◌&&◌, ◌||◌, List, [], ◌∷◌, ◌++◌, Text, codes, Option, none, some, ◌==◌,
  if◌then◌else◌, length, ◌-◌, text_eq, Result, ok, err, throw_if, or_throw, ◌>>=◌, ◌>>◌,
}
use telegram_garant_contract.Decimal.{zeros}
use telegram_garant_contract.Money.{atomic_to_decimal, span_digits}
use telegram_garant_contract.Ledger.{
  Json, MoneyLedgerEntry, LedgerError, Book, big_int, text_or_null,
}
use telegram_garant_contract.Native.{is_text, truthy_text}
use telegram_garant_contract.Jetton.{
  TonJettonChainEventKind, kind_name, TonJettonSettlementOutcome, outcome_name, TonJettonPayoutLeg,
  leg_name, TonJettonChainEvent, TonJettonApplicationDirective, TonJettonEscrowPreparation,
  TonJettonActionIntent, ApplyError,
}

abbrev pub name_or_null : {A : Type 0} → (A → Text) → Option A → Json
name_or_null name none = Json.null_value
name_or_null name (some a) = Json.text_value (name a)

unfoldable pub ledger_metadata :
    TonJettonChainEvent → TonJettonApplicationDirective → List (Text × Json)
ledger_metadata e d =
    (codes "network", Json.text_value e.network)
    ∷ (codes "accountAddress", Json.text_value e.account_address)
    ∷ (codes "transactionLt", Json.text_value e.transaction_lt)
    ∷ (codes "transactionHash", Json.text_value e.transaction_hash)
    ∷ (codes "masterchainSeqno", Json.number_value e.masterchain_seqno)
    ∷ (codes "eventKind", Json.text_value (kind_name e.event_kind))
    ∷ (codes "settlementOutcome", name_or_null outcome_name d.settlement_outcome)
    ∷ (codes "payoutLeg", name_or_null leg_name d.payout_leg)
    ∷ (codes "amountAtomic", text_or_null d.amount_atomic)
    ∷ (codes "verificationEvidenceHash", Json.text_value d.verification_evidence_hash)
    ∷ []

-- `findOne` by the idempotency key.
unfoldable pub find_entry : Text → Book → Option MoneyLedgerEntry
find_entry key [] = none
find_entry key (e ∷ book) =
    let rest = find_entry key book in if text_eq e.idempotency_key key then some e else rest

abbrev pub is_option_text : Option Text → Option Text → Bool
is_option_text none none = true
is_option_text (some s) (some t) = text_eq s t
is_option_text _ _ = false

-- The digits behind the point.
abbrev pub behind_point : Text → Text
behind_point [] = []
behind_point (c ∷ f) = f

-- What the column `amount`, of type decimal(36,18), holds for a number of at most 18 decimals: the number
-- with all 18 of them.
unfoldable pub column_text : Text → Text
unfolding span_digits
column_text t =
    let groups = span_digits t in
    let fraction = behind_point groups.1 in
    groups.0 ++ (b'.' ∷ (fraction ++ zeros (18 - length fraction) []))

-- No field of those compared differs: `e` is the row that is there, whose amount comes from its column.
unfoldable pub same_posting : MoneyLedgerEntry → MoneyLedgerEntry → Bool
same_posting e f =
    text_eq e.deal_id f.deal_id
    && (text_eq e.debit_account f.debit_account
        && (text_eq e.credit_account f.credit_account
            && (text_eq (column_text e.amount) f.amount
                && (text_eq e.currency f.currency && text_eq e.entry_type f.entry_type))))

abbrev pub insert_found : MoneyLedgerEntry → Book → Option MoneyLedgerEntry → Result ApplyError Book
insert_found input book none = ok (book ++ (input ∷ []))
insert_found input book (some existing) =
    throw_if (not (same_posting existing input)) ApplyError.ledger_idempotency_conflict >> ok book

unfoldable pub insert_ledger : MoneyLedgerEntry → Book → Result ApplyError Book
insert_ledger input book = insert_found input book (find_entry input.idempotency_key book)

pub record ExpectedPayout : Type 0 where
  pub amount_atomic : Text
  pub destination_address : Text
  pub credit_account : Text

abbrev pub treasury_amount : TonJettonSettlementOutcome → TonJettonEscrowPreparation → Text
treasury_amount TonJettonSettlementOutcome.refund p = p.refund_fee_atomic
treasury_amount _ p = p.platform_fee_atomic

abbrev pub to_buyer : TonJettonEscrowPreparation → Text → ExpectedPayout
to_buyer p amount = record {
  amount_atomic = amount;
  destination_address = p.buyer_address;
  credit_account = codes "external_buyer_usdt_ton";
}

abbrev pub to_seller : TonJettonEscrowPreparation → Text → ExpectedPayout
to_seller p amount = record {
  amount_atomic = amount;
  destination_address = p.seller_address;
  credit_account = codes "external_seller_usdt_ton";
}

abbrev pub to_treasury : TonJettonEscrowPreparation → Text → ExpectedPayout
to_treasury p amount = record {
  amount_atomic = amount;
  destination_address = p.treasury_address;
  credit_account = codes "platform_treasury_usdt_ton";
}

-- `intent?.buyerAwardAtomic`, where it is truthy.
abbrev pub buyer_award : Option TonJettonActionIntent → Option Text
buyer_award none = none
buyer_award (some i) = truthy_text i.buyer_award_atomic

abbrev pub seller_award : Option TonJettonActionIntent → Option Text
seller_award none = none
seller_award (some i) = truthy_text i.seller_award_atomic

unfoldable pub planned_payout :
    TonJettonEscrowPreparation
    → Option TonJettonActionIntent
    → TonJettonSettlementOutcome
    → TonJettonPayoutLeg
    → Result ApplyError ExpectedPayout
planned_payout p i o TonJettonPayoutLeg.treasury = ok (to_treasury p (treasury_amount o p))
planned_payout p i TonJettonSettlementOutcome.release TonJettonPayoutLeg.seller =
    ok (to_seller p p.seller_payout_atomic)
planned_payout p i TonJettonSettlementOutcome.refund TonJettonPayoutLeg.buyer =
    ok (to_buyer p p.refund_to_buyer_atomic)
planned_payout p i TonJettonSettlementOutcome.resolution TonJettonPayoutLeg.buyer = do
  award ← or_throw (buyer_award i) ApplyError.resolution_plan_missing
  ok (to_buyer p award)
planned_payout p i TonJettonSettlementOutcome.resolution TonJettonPayoutLeg.seller = do
  award ← or_throw (seller_award i) ApplyError.resolution_plan_missing
  ok (to_seller p award)
planned_payout p i TonJettonSettlementOutcome.release TonJettonPayoutLeg.buyer =
    err ApplyError.payout_leg_not_in_plan
planned_payout p i TonJettonSettlementOutcome.refund TonJettonPayoutLeg.seller =
    err ApplyError.payout_leg_not_in_plan

unfoldable pub expected_payout :
    TonJettonEscrowPreparation
    → Option TonJettonActionIntent
    → TonJettonApplicationDirective
    → Result ApplyError ExpectedPayout
expected_payout p i d = do
  outcome ← or_throw d.settlement_outcome ApplyError.payout_plan_missing
  leg ← or_throw d.payout_leg ApplyError.payout_plan_missing
  planned_payout p i outcome leg

abbrev pub ledger_amount : Option Text → ℕ → Result ApplyError Text
ledger_amount t decimals = elim (atomic_to_decimal t decimals) [
  | ok amount ↦ ok amount
  | err e ↦ err (ApplyError.ledger_amount_invalid e)
]

abbrev pub jetton_key : Text → Text → Text
jetton_key event suffix = codes "ton-jetton:" ++ (event ++ (b':' ∷ suffix))

abbrev pub ton_escrow : Text → Text
ton_escrow deal = codes "escrow:ton:" ++ deal

abbrev pub zero_test : Result LedgerError ℕ → Result ApplyError Bool
zero_test (ok n) = ok (n == 0)
zero_test (err e) = err ApplyError.not_an_integer

-- `BigInt(text) === 0n`
abbrev pub is_zero_atomic : Text → Result ApplyError Bool
is_zero_atomic t = zero_test (big_int t)

abbrev pub funded_entry :
    TonJettonChainEvent
    → TonJettonEscrowPreparation
    → TonJettonApplicationDirective
    → Text
    → MoneyLedgerEntry
funded_entry e p d amount = record {
  deal_id = p.deal_id;
  payment_id = none;
  idempotency_key = jetton_key e.id (codes "fund");
  debit_account = codes "external_buyer_usdt_ton";
  credit_account = ton_escrow p.deal_id;
  amount = amount;
  currency = p.asset_code;
  entry_type = codes "jetton_escrow_funded";
  metadata = ledger_metadata e d;
}

-- `${directive.payoutLeg}`
abbrev pub leg_text : Option TonJettonPayoutLeg → Text
leg_text none = codes "null"
leg_text (some l) = leg_name l

abbrev pub payout_entry :
    TonJettonChainEvent
    → TonJettonEscrowPreparation
    → TonJettonApplicationDirective
    → ExpectedPayout
    → Text
    → MoneyLedgerEntry
payout_entry e p d expected amount = record {
  deal_id = p.deal_id;
  payment_id = none;
  idempotency_key = jetton_key e.id (leg_text d.payout_leg);
  debit_account = ton_escrow p.deal_id;
  credit_account = expected.credit_account;
  amount = amount;
  currency = p.asset_code;
  entry_type = codes "jetton_escrow_payout_reconciled";
  metadata = ledger_metadata e d;
}

unfoldable pub post_funding :
    TonJettonChainEvent
    → TonJettonEscrowPreparation
    → TonJettonApplicationDirective
    → Book
    → Result ApplyError Book
post_funding e p d book = do
  throw_if (not (is_text d.amount_atomic p.buyer_total_atomic))
      ApplyError.funding_ledger_amount_mismatch
  amount ← ledger_amount d.amount_atomic p.asset_decimals
  insert_ledger (funded_entry e p d amount) book

-- The posting of a payout that is not of amount zero.
unfoldable pub post_expected :
    TonJettonChainEvent
    → TonJettonEscrowPreparation
    → TonJettonApplicationDirective
    → ExpectedPayout
    → Book
    → Result ApplyError Book
post_expected e p d expected book = do
  amount ← ledger_amount (some expected.amount_atomic) p.asset_decimals
  insert_ledger (payout_entry e p d expected amount) book

abbrev pub unless_empty : Bool → Book → Result ApplyError Book → Result ApplyError Book
unless_empty true book posted = ok book
unless_empty false book posted = posted

unfoldable pub post_payout :
    TonJettonChainEvent
    → TonJettonEscrowPreparation
    → TonJettonApplicationDirective
    → Option TonJettonActionIntent
    → Book
    → Result ApplyError Book
post_payout e p d i book = do
  expected ← expected_payout p i d
  throw_if
      (not (is_text d.amount_atomic expected.amount_atomic)
        || not (is_text d.destination_address expected.destination_address))
      ApplyError.payout_ledger_binding_mismatch
  empty ← is_zero_atomic expected.amount_atomic
  unless_empty empty book (post_expected e p d expected book)

abbrev pub post_kind :
    TonJettonChainEventKind
    → TonJettonChainEvent
    → TonJettonEscrowPreparation
    → TonJettonApplicationDirective
    → Option TonJettonActionIntent
    → Book
    → Result ApplyError Book
post_kind TonJettonChainEventKind.funding_confirmed e p d i book = post_funding e p d book
post_kind TonJettonChainEventKind.payout_leg_reconciled e p d i book = post_payout e p d i book
post_kind _ e p d i book = ok book

unfoldable pub apply_ledger :
    TonJettonChainEvent
    → TonJettonEscrowPreparation
    → TonJettonApplicationDirective
    → Option TonJettonActionIntent
    → Book
    → Result ApplyError Book
apply_ledger e p d i book = post_kind e.event_kind e p d i book
