-- ===== src/Tests/Natives.antt =====
-- Tests of the native TON escrow and of the ledger, with a toy instance of cells.
use mathlib.Core.List.{Perm}
use telegram_garant_contract.Common.{
  ℕ, true, false, List, [], ◌∷◌, Text, trim, text_eq, drop_spaces, is_space, codes, Option, none,
  some, map, ◌==◌, if◌then◌else◌, length, ok, ◌≡◌, ◌↔◌, refl, ap, arith,
}
use telegram_garant_contract.Decimal.{is_digits, value, value_from}
use telegram_garant_contract.Money.{span_digits}
use telegram_garant_contract.Address.{
  hash_part, match_raw, normalize_trimmed, normalize_ton_address,
}
use telegram_garant_contract.Native.{
  TonNativeLifecycleAction, AccountState, TonCenterMessage, TonCenterTransaction,
  TonNativeEscrowPreparation, TonNativeLifecycleIntent, Validation, action_eq, base64_units,
  decode_units, hex_number, normalize_hash, uuid_to_uint256, without_dashes,
}
use telegram_garant_contract.Native.Cells.{Field, Cells, CellLaws}
use telegram_garant_contract.Native.Payload.{
  Awards, payload_fields, build_payload, find_action, load_awards, parse_cell, parse_payload,
}
use telegram_garant_contract.Native.RoundTrip.{parse_payload-build_payload}
use telegram_garant_contract.Native.Payouts.{
  boc_cell, Payout, expected_payouts, non_zero, parse_notification, payout_eq, take_out,
  payout_value, match_message, match_messages, validate_payouts,
}
use telegram_garant_contract.Native.Validate.{
  PostState, check_execution, message_value, match_awards, match_intent, matches_committed_timing,
  post_state, check_post_state, check_active, check_inbound, read_intent, validate_lifecycle,
}
use telegram_garant_contract.Native.Matching.{Pays, validate_payouts-Pays}
use telegram_garant_contract.Native.Accepted.{
  total, IsConserving, Accepted, validate_lifecycle-Accepted, validate_lifecycle_conserves,
}
use telegram_garant_contract.Native.Books.{
  TonNativeChainEvent, settlement_entry, moved, paid, not_empty, settlement_entry_books,
}
use telegram_garant_contract.Ledger.Settlement.{Ending, Movement, movements}

-- A cell is the list of what it stores: the width and the value of an integer, 0 and the value of coins,
-- and 1 and the content of a reference.
unfoldable pub encode : List Field → Text
encode [] = []
encode (Field.uint w v ∷ fs) = w ∷ v ∷ encode fs
encode (Field.coins v ∷ fs) = 0 ∷ v ∷ encode fs

unfoldable pub load : ℕ → Text → Option (ℕ × Text)
load w [] = none
load w (u ∷ []) = none
load w (u ∷ v ∷ s) = if w == u then some (v, s) else none

abbrev pub load_reference : Text → Option (Text × Text)
load_reference s = elim (load 1 s) [ none ↦ none | some r ↦ some (r.0 ∷ [], r.1) ]

abbrev pub toy : Cells
toy = record {
  Cell = Text;
  Slice = Text;
  from_boc = λ t. some (t ∷ []);
  from_hex_boc = λ t. some (t ∷ []);
  to_boc = λ cell. cell;
  hash = λ cell. cell;
  begin_parse = λ cell. cell;
  end_cell = λ fs. some (encode fs);
  load_uint = load;
  load_coins = load 0;
  load_ref = load_reference;
  remaining_bits = λ s. length s;
  remaining_refs = λ s. 0;
}

toy_laws : CellLaws toy
unfolding encode load
toy_laws = record {
  slice_of = encode;
  built = λ fs f b. (encode fs, refl, refl);
  uint_read = λ w v fs f b. ap (λ b. if b then some (v, encode fs) else none) (same w);
  coins_read = λ v fs f b. refl;
  no_bits = refl;
  no_refs = λ fs. refl;
  bag = λ cell. refl;
}
  where
    same : (w : ℕ) → (w == w) ≡ true
    same w = ground arith

abbrev award : Option Awards
award = some (record { buyer_award = 600; seller_award = 350 })

abbrev resolution_text : Text
resolution_text = 32 ∷ 0x72736c76 ∷ 64 ∷ 7 ∷ 0 ∷ 600 ∷ 0 ∷ 350 ∷ []

build_payload_test : build_payload toy TonNativeLifecycleAction.resolve 7 award ≡ ok resolution_text
unfolding build_payload encode payload_fields
build_payload_test = refl

parse_payload-build_payload_example :
    (hash : Text) × (parse_payload toy resolution_text
      ≡ ok (record {
        action = TonNativeLifecycleAction.resolve;
        query_id = 7;
        awards = award;
        hash = hash;
      }))
parse_payload-build_payload_example =
    parse_payload-build_payload toy toy_laws TonNativeLifecycleAction.resolve 7 award
      resolution_text (omega arith, omega arith) build_payload_test

abbrev pub escrow : Text
escrow = codes "0:1111111111111111111111111111111111111111111111111111111111111111"

abbrev pub buyer : Text
buyer = codes "0:2222222222222222222222222222222222222222222222222222222222222222"

abbrev seller : Text
seller = codes "0:3333333333333333333333333333333333333333333333333333333333333333"

abbrev treasury : Text
treasury = codes "0:4444444444444444444444444444444444444444444444444444444444444444"

abbrev pub code : Text
code = codes "5555555555555555555555555555555555555555555555555555555555555555"

abbrev pub preparation : TonNativeEscrowPreparation
preparation = record {
  deal_id = codes "00000000-0000-0000-0000-0000000000ff";
  code_hash = code;
  config_hash = 9 ∷ [];
  escrow_address = escrow;
  buyer_address = buyer;
  seller_address = seller;
  treasury_address = treasury;
  buyer_total_atomic = 1000;
  seller_payout_atomic = 950;
  platform_fee_atomic = 50;
  refund_to_buyer_atomic = 1000;
  refund_fee_atomic = 0;
  request_amount_atomic = 1100;
  query_id = 3;
  funding_deadline = 100;
  delivery_deadline = 200;
  confirmation_deadline = 300;
  payload = codes "fund";
}

abbrev release_text : Text
release_text = 32 ∷ 0x72656c73 ∷ 64 ∷ 7 ∷ []

abbrev intent : TonNativeLifecycleIntent
intent = record {
  action = TonNativeLifecycleAction.release;
  expected_from_status = 2;
  expected_to_status = 3;
  sender_address = buyer;
  query_id = 7;
  action_value_atomic = 10;
  payload_hash = release_text;
  buyer_award_atomic = none;
  seller_award_atomic = none;
}

abbrev payout_message : Text → Text → ℕ → TonCenterMessage
payout_message destination value kind = record {
  bounced = some false;
  destination = some destination;
  hash = none;
  source = some escrow;
  value = some value;
  body = some (32 ∷ 0x7061796f ∷ 64 ∷ 7 ∷ 256 ∷ 255 ∷ 8 ∷ kind ∷ []);
}

-- The platform is paid first here, the seller second.
abbrev messages : List TonCenterMessage
messages = payout_message treasury (codes "50") 3 ∷ payout_message seller (codes "950") 1 ∷ []

abbrev pub transaction : TonCenterTransaction
transaction = record {
  account = some escrow;
  account_state_after = some (record {
    account_status = some (codes "active");
    code_hash = some code;
    data_boc = some (8 ∷ 3 ∷ 0 ∷ 1000 ∷ 64 ∷ 7 ∷ 1 ∷ 9 ∷ []);
    hash = none;
  });
  description = some (record {
    aborted = some false;
    compute_ph = some (record { skipped = some false; success = some true; exit_code = some 0 });
    action = none;
  });
  emulated = some false;
  end_status = some (codes "active");
  hash = some (codes "h");
  in_msg = some (record {
    bounced = some false;
    destination = some escrow;
    hash = none;
    source = some buyer;
    value = some (codes "10");
    body = some release_text;
  });
  out_msgs = some messages;
  lt = some (codes "5");
  mc_block_seqno = some 8;
  now = some 250;
}

abbrev validation : Validation
validation = record {
  account_address = escrow;
  transaction_lt = codes "5";
  transaction_hash = codes "h";
  masterchain_seqno = 8;
  transaction_time = some 250;
  message_hash = none;
  source_address = buyer;
  value_atomic = codes "10";
  payload_hash = release_text;
  post_code_hash = code;
  post_config_hash = 9 ∷ [];
  post_state_hash = none;
  post_data_hash = 8 ∷ 3 ∷ 0 ∷ 1000 ∷ 64 ∷ 7 ∷ 1 ∷ 9 ∷ [];
}

validate_payouts_test : validate_payouts toy messages intent preparation ≡ ok tt
unfolding validate_payouts load expected_payouts non_zero match_messages match_message payout_value
    parse_notification take_out payout_eq hex_number uuid_to_uint256 without_dashes
    normalize_ton_address trim normalize_trimmed match_raw span_digits hash_part text_eq is_digits
    value value_from drop_spaces is_space
validate_payouts_test = refl

validate_lifecycle_test : validate_lifecycle toy transaction preparation intent ≡ ok validation
unfolding validate_lifecycle validate_payouts load check_execution check_active check_inbound
    message_value read_intent parse_payload parse_cell find_action load_awards check_post_state
    match_awards match_intent matches_committed_timing post_state action_eq normalize_hash
    base64_units decode_units expected_payouts non_zero match_messages match_message payout_value
    parse_notification take_out payout_eq hex_number uuid_to_uint256 without_dashes
    normalize_ton_address trim normalize_trimmed match_raw span_digits hash_part text_eq is_digits
    value value_from drop_spaces is_space
validate_lifecycle_test = refl

validate_payouts-Pays_example : (validate_payouts toy messages intent preparation ≡ ok tt) ↔ (
    (expected : List Payout) × (expected_payouts TonNativeLifecycleAction.release intent preparation
      ≡ ok expected)
    × ((es : List Payout) × Pays toy intent preparation messages es × Perm (non_zero expected) es))
validate_payouts-Pays_example = validate_payouts-Pays toy messages intent preparation

validate_lifecycle-Accepted_example : Accepted toy transaction preparation intent
validate_lifecycle-Accepted_example =
    validate_lifecycle-Accepted toy transaction preparation intent validation
      validate_lifecycle_test

preparation-IsConserving : IsConserving preparation intent
preparation-IsConserving = record { released = refl; refunded = refl; resolved = λ b s h k. cc }

validate_lifecycle_conserves_example :
    (es : List Payout) × Pays toy intent preparation messages es
    × (total es ≡ 1000)
    × ((a : AccountState) × (transaction.account_state_after ≡ some a)
        × ((s : PostState) × (post_state toy (boc_cell toy a.data_boc) ≡ ok s)
            × (s.funded_amount ≡ total es)))
validate_lifecycle_conserves_example =
    validate_lifecycle_conserves toy transaction preparation intent validation
      preparation-IsConserving refl validate_lifecycle_test

abbrev event : TonNativeChainEvent
event = record {
  id = codes "c1";
  deal_id = codes "d1";
  transaction_hash = codes "h";
  transaction_lt = codes "5";
}

settlement_entry_books_example :
    (es : List Payout) × Pays toy intent preparation messages es
    × ((ms : List Movement) × (movements (settlement_entry event preparation intent) Ending.released
          ≡ ok ms)
        × Perm (not_empty (map moved ms)) (map paid es))
settlement_entry_books_example =
    settlement_entry_books toy transaction event preparation intent validation Ending.released
      validate_lifecycle_test refl
