-- ===== src/Ledger/Settlement.antt =====
-- `recordNativeTonSettlement` of services/user-service/src/modules/ops/money-ledger.service.ts: the entries
-- of the payouts that end a native TON escrow.
use telegram_garant_contract.Common.{
  ℕ, zero, suc, List, [], ◌∷◌, Text, codes, Option, none, some, if◌then◌else◌, Result, ok, err,
  ◌>>=◌,
}
use telegram_garant_contract.Decimal.{is_digits}
use telegram_garant_contract.Native.{TonNativeLifecycleAction}
use telegram_garant_contract.Ledger.{
  MoneyLedgerEntry, LedgerError, Json, Book, save_entry, big_int, ton_amount, escrow_account,
  native_key,
}

abbrev pub action_text : TonNativeLifecycleAction → Text
action_text TonNativeLifecycleAction.mark_delivered = codes "mark_delivered"
action_text TonNativeLifecycleAction.release = codes "release"
action_text TonNativeLifecycleAction.open_dispute = codes "open_dispute"
action_text TonNativeLifecycleAction.refund_buyer = codes "refund_buyer"
action_text TonNativeLifecycleAction.refund_after_seller_timeout =
    codes "refund_after_seller_timeout"
action_text TonNativeLifecycleAction.release_after_buyer_timeout =
    codes "release_after_buyer_timeout"
action_text TonNativeLifecycleAction.resolve = codes "resolve"

pub record RecordNativeTonSettlementEntry : Type 0 where
  pub chain_event_id : Text
  pub deal_id : Text
  pub action : TonNativeLifecycleAction
  pub buyer_address : Text
  pub seller_address : Text
  pub treasury_address : Text
  pub seller_payout_atomic : Text
  pub platform_fee_atomic : Text
  pub refund_to_buyer_atomic : Text
  pub refund_fee_atomic : Text
  pub buyer_award_atomic : Option Text
  pub seller_award_atomic : Option Text
  pub transaction_hash : Text
  pub transaction_lt : Text

-- `isRelease`, `isRefund`, `isResolution`, or none of them.
pub data Ending : Type 0 where
  released refunded resolved : Ending

abbrev pub ending : TonNativeLifecycleAction → Option Ending
ending TonNativeLifecycleAction.release = some Ending.released
ending TonNativeLifecycleAction.release_after_buyer_timeout = some Ending.released
ending TonNativeLifecycleAction.refund_buyer = some Ending.refunded
ending TonNativeLifecycleAction.refund_after_seller_timeout = some Ending.refunded
ending TonNativeLifecycleAction.resolve = some Ending.resolved
ending _ = none

abbrev pub entry_type_of : Ending → Text
entry_type_of Ending.released = codes "native_ton_escrow_released"
entry_type_of Ending.refunded = codes "native_ton_escrow_refunded"
entry_type_of Ending.resolved = codes "native_ton_escrow_resolved"

pub record Movement : Type 0 where
  pub key : Text
  pub credit_account : Text
  pub destination : Text
  pub amount_atomic : Text

unfoldable pub required_atomic : Option Text → Result LedgerError Text
required_atomic none = err LedgerError.resolution_award_missing
required_atomic (some t) = if is_digits t then ok t else err LedgerError.resolution_award_missing

abbrev pub to_platform : RecordNativeTonSettlementEntry → Text → Movement
to_platform i amount = record {
  key = codes "platform";
  credit_account = codes "platform_treasury_ton";
  destination = i.treasury_address;
  amount_atomic = amount;
}

abbrev pub to_seller : RecordNativeTonSettlementEntry → Text → Text → Movement
to_seller i key amount = record {
  key = key;
  credit_account = codes "external_seller_ton";
  destination = i.seller_address;
  amount_atomic = amount;
}

abbrev pub to_buyer : RecordNativeTonSettlementEntry → Text → Text → Movement
to_buyer i key amount = record {
  key = key;
  credit_account = codes "external_buyer_ton";
  destination = i.buyer_address;
  amount_atomic = amount;
}

unfoldable pub movements :
    RecordNativeTonSettlementEntry → Ending → Result LedgerError (List Movement)
movements i Ending.released =
    ok (
      to_seller i (codes "seller") i.seller_payout_atomic
      ∷ to_platform i i.platform_fee_atomic
      ∷ [])
movements i Ending.refunded =
    ok
      (to_buyer i (codes "buyer") i.refund_to_buyer_atomic ∷ to_platform i i.refund_fee_atomic ∷ [])
movements i Ending.resolved = do
  buyer ← required_atomic i.buyer_award_atomic
  seller ← required_atomic i.seller_award_atomic
  ok (
      to_buyer i (codes "buyer-award") buyer
      ∷ to_seller i (codes "seller-award") seller
      ∷ to_platform i i.platform_fee_atomic
      ∷ [])

unfoldable pub movement_entry :
    RecordNativeTonSettlementEntry → Ending → Movement → Result LedgerError MoneyLedgerEntry
movement_entry i k m = do
  amount ← ton_amount m.amount_atomic
  ok (record {
    deal_id = i.deal_id;
    payment_id = none;
    idempotency_key = native_key i.chain_event_id m.key;
    debit_account = escrow_account i.deal_id;
    credit_account = m.credit_account;
    amount = amount;
    currency = codes "TON";
    entry_type = entry_type_of k;
    metadata =
        (codes "action", Json.text_value (action_text i.action))
        ∷ (codes "destination", Json.text_value m.destination)
        ∷ (codes "amountAtomic", Json.text_value m.amount_atomic)
        ∷ (codes "transactionHash", Json.text_value i.transaction_hash)
        ∷ (codes "transactionLt", Json.text_value i.transaction_lt)
        ∷ [];
  })

-- `save` with the catch of the loop: a taken key is passed over.
abbrev pub saved_or_kept : Book → Result LedgerError Book → Book
saved_or_kept book (ok b) = b
saved_or_kept book (err _) = book

abbrev pub unless_zero : ℕ → Book → Result LedgerError Book → Result LedgerError Book
unless_zero zero book posted = ok book
unless_zero (suc n) book posted = posted

-- One round of the loop: a movement of amount zero is skipped.
unfoldable pub post_movement :
    RecordNativeTonSettlementEntry → Ending → Movement → Book → Result LedgerError Book
post_movement i k m book = do
  amount ← big_int m.amount_atomic
  unless_zero amount book
      (movement_entry i k m >>= λ e. ok (saved_or_kept book (save_entry e book)))

abbrev pub Run : Type 0
Run = Result LedgerError (Unit {0}) × Book

-- What follows a round: the next ones, or the error with what was saved before it.
abbrev pub next_round : Book → (Book → Run) → Result LedgerError Book → Run
next_round book rest (ok b) = rest b
next_round book rest (err e) = (err e, book)

unfoldable pub post_all : RecordNativeTonSettlementEntry → Ending → List Movement → Book → Run
post_all i k [] book = (ok tt, book)
post_all i k (m ∷ ms) book = next_round book (post_all i k ms) (post_movement i k m book)

abbrev pub settle :
    RecordNativeTonSettlementEntry → Ending → Book → Result LedgerError (List Movement) → Run
settle i k book (ok ms) = post_all i k ms book
settle i k book (err e) = (err e, book)

abbrev pub settle_ending : RecordNativeTonSettlementEntry → Book → Option Ending → Run
settle_ending i book none = (ok tt, book)
settle_ending i book (some k) = settle i k book (movements i k)

unfoldable pub record_native_ton_settlement : RecordNativeTonSettlementEntry → Book → Run
record_native_ton_settlement i book = settle_ending i book (ending i.action)
