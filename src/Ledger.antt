-- ===== src/Ledger.antt =====
-- services/user-service/src/modules/ops/money-ledger.service.ts: the append-only ledger of the money that
-- funds and leaves the escrows. The table is a list of entries, oldest first, with a unique idempotency
-- key.
pub mod Settlement
pub mod Laws
use telegram_garant_contract.Common.{
  ℕ, ◌-◌, Bool, true, false, not, List, [], ◌∷◌, ◌++◌, Text, codes, Option, none, some, leb,
  if◌then◌else◌, any, text_eq, Result, ok, err, ◌>>=◌, ◌>>◌,
}
use telegram_garant_contract.Decimal.{is_digits, value, to_text}
use telegram_garant_contract.Money.{MoneyError, nano_to_decimal_ton}

pub data Json : Type 0 where
  null_value : Json
  text_value : Text → Json
  number_value : ℕ → Json

pub record MoneyLedgerEntry : Type 0 where
  pub deal_id : Text
  pub payment_id : Option Text
  pub idempotency_key : Text
  pub debit_account : Text
  pub credit_account : Text
  pub amount : Text
  pub currency : Text
  pub entry_type : Text
  pub metadata : List (Text × Json)

pub data LedgerError : Type 0 where
  unique_violation resolution_award_missing : LedgerError
  not_an_integer : Text → LedgerError
  invalid_amount : MoneyError → LedgerError

abbrev pub Book : Type 0
Book = List MoneyLedgerEntry

-- `repo.save(repo.create(...))`: an entry whose key is taken violates the unique constraint.
unfoldable pub save_entry : MoneyLedgerEntry → Book → Result LedgerError Book
save_entry e book =
    if any (λ (f : MoneyLedgerEntry). text_eq f.idempotency_key e.idempotency_key) book
    then err LedgerError.unique_violation
    else ok (book ++ (e ∷ []))

-- `BigInt(text)`; the empty text is zero, and one that is no decimal numeral throws.
unfoldable pub big_int : Text → Result LedgerError ℕ
big_int [] = ok 0
big_int (c ∷ s) =
    if is_digits (c ∷ s) then ok (value (c ∷ s)) else err (LedgerError.not_an_integer (c ∷ s))

abbrev pub ton_amount : Text → Result LedgerError Text
ton_amount t = elim (nano_to_decimal_ton t) [
  | ok amount ↦ ok amount
  | err e ↦ err (LedgerError.invalid_amount e)
]

abbrev pub text_or_null : Option Text → Json
text_or_null none = Json.null_value
text_or_null (some t) = Json.text_value t

-- The catch of the two funding methods: a taken key is no error and returns null.
unfoldable pub save_once : MoneyLedgerEntry → Book → Option MoneyLedgerEntry × Book
save_once e book = elim (save_entry e book) [ ok b ↦ (some e, b) | err _ ↦ (none, book) ]

-- `amount_usdt` is the source's number, printed by `String`.
pub record RecordFundingEntry : Type 0 where
  pub operation_id : Text
  pub deal_id : Text
  pub payment_id : Text
  pub amount_usdt : Text
  pub transfer_tx_hash : Option Text
  pub notify_tx_hash : Option Text

abbrev pub escrow_account : Text → Text
escrow_account deal = codes "escrow:" ++ deal

abbrev pub funding_entry : RecordFundingEntry → MoneyLedgerEntry
funding_entry i = record {
  deal_id = i.deal_id;
  payment_id = some i.payment_id;
  idempotency_key = codes "payment-operation:" ++ (i.operation_id ++ codes ":fund_escrow");
  debit_account = codes "relay_float_usdt";
  credit_account = escrow_account i.deal_id;
  amount = i.amount_usdt;
  currency = codes "USDT";
  entry_type = codes "escrow_funded";
  metadata =
      (codes "transferTxHash", text_or_null i.transfer_tx_hash)
      ∷ (codes "notifyTxHash", text_or_null i.notify_tx_hash)
      ∷ [];
}

unfoldable pub record_escrow_funding : RecordFundingEntry → Book → Option MoneyLedgerEntry × Book
record_escrow_funding i book = save_once (funding_entry i) book

pub record RecordNativeTonFundingEntry : Type 0 where
  pub chain_event_id : Text
  pub deal_id : Text
  pub buyer_address : Text
  pub buyer_total_atomic : Text
  pub request_value_atomic : Text
  pub transaction_hash : Text
  pub transaction_lt : Text
  pub masterchain_seqno : ℕ

-- `(BigInt(a) - BigInt(b)).toString()`, with its sign.
abbrev pub difference_text : ℕ → ℕ → Text
difference_text a b = if leb b a then to_text (a - b) else b'-' ∷ to_text (b - a)

abbrev pub native_key : Text → Text → Text
native_key event suffix = codes "ton-native:" ++ (event ++ (b':' ∷ suffix))

unfoldable pub native_funding_entry :
    RecordNativeTonFundingEntry → Result LedgerError MoneyLedgerEntry
native_funding_entry i = do
  amount ← ton_amount i.buyer_total_atomic
  request ← big_int i.request_value_atomic
  total ← big_int i.buyer_total_atomic
  ok (record {
    deal_id = i.deal_id;
    payment_id = none;
    idempotency_key = native_key i.chain_event_id (codes "fund");
    debit_account = codes "external_buyer_ton";
    credit_account = escrow_account i.deal_id;
    amount = amount;
    currency = codes "TON";
    entry_type = codes "native_ton_escrow_funded";
    metadata =
        (codes "buyerAddress", Json.text_value i.buyer_address)
        ∷ (codes "buyerTotalAtomic", Json.text_value i.buyer_total_atomic)
        ∷ (codes "requestValueAtomic", Json.text_value i.request_value_atomic)
        ∷ (codes "operationalReserveAtomic", Json.text_value (difference_text request total))
        ∷ (codes "transactionHash", Json.text_value i.transaction_hash)
        ∷ (codes "transactionLt", Json.text_value i.transaction_lt)
        ∷ (codes "masterchainSeqno", Json.number_value i.masterchain_seqno)
        ∷ [];
  })

unfoldable pub record_native_ton_escrow_funding :
    RecordNativeTonFundingEntry → Book → Result LedgerError (Option MoneyLedgerEntry × Book)
record_native_ton_escrow_funding i book = do e ← native_funding_entry i; ok (save_once e book)
