-- ===== src/Tests/Ledgers.antt =====
-- Tests of the ledger.
use telegram_garant_contract.Common.{[], codes, none, ok, ◌≡◌}
use telegram_garant_contract.Native.{TonNativeLifecycleAction}
use telegram_garant_contract.Ledger.{Book}
use telegram_garant_contract.Ledger.Settlement.{
  RecordNativeTonSettlementEntry, record_native_ton_settlement,
}
use telegram_garant_contract.Ledger.Laws.{Extends, record_native_ton_settlement_once}

abbrev settlement : RecordNativeTonSettlementEntry
settlement = record {
  chain_event_id = codes "c1";
  deal_id = codes "d1";
  action = TonNativeLifecycleAction.release;
  buyer_address = codes "b";
  seller_address = codes "s";
  treasury_address = codes "t";
  seller_payout_atomic = codes "950000000";
  platform_fee_atomic = codes "50000000";
  refund_to_buyer_atomic = codes "1000000000";
  refund_fee_atomic = codes "0";
  buyer_award_atomic = none;
  seller_award_atomic = none;
  transaction_hash = codes "h";
  transaction_lt = codes "5";
}

record_native_ton_settlement_once_example :
    Extends [] (record_native_ton_settlement settlement []).1
    × ((after : Book)
        → record_native_ton_settlement settlement [] ≡ (ok tt, after)
        → record_native_ton_settlement settlement after ≡ (ok tt, after))
record_native_ton_settlement_once_example = record_native_ton_settlement_once settlement []
