-- ===== src/Native/Payload.antt =====
-- `buildTonNativeLifecyclePayload` and `parseTonNativeLifecyclePayload` of
-- services/user-service/src/modules/deal/ton-native-lifecycle.ts.
use telegram_garant_contract.Common.{
  ℕ, ◌^◌, not, ◌&&◌, ◌||◌, List, [], ◌∷◌, ◌++◌, Text, Option, none, some, leb, ◌==◌, if◌then◌else◌,
  Result, ok, err, throw_if, or_throw, ◌>>=◌, ◌>>◌,
}
use telegram_garant_contract.Native.{
  TonNativeLifecycleAction, all_actions, lifecycle_opcode, is_resolve,
}
use telegram_garant_contract.Native.Cells.{Cells, Field}

pub data PayloadError : Type 0 where
  query_id_out_of_range awards_invalid awards_unexpected builder_overflow not_a_boc unknown_opcode
        trailing_data cell_underflow :
      PayloadError

pub record Awards : Type 0 where
  pub buyer_award : ℕ
  pub seller_award : ℕ

pub record LifecyclePayload : Type 0 where
  pub action : TonNativeLifecycleAction
  pub query_id : ℕ
  pub awards : Option Awards
  pub hash : Text

abbrev pub head_fields : TonNativeLifecycleAction → ℕ → List Field
head_fields a q = Field.uint 32 (lifecycle_opcode a) ∷ Field.uint 64 q ∷ []

-- The stores of the builder; the awards are there for a resolution and only for it.
unfoldable pub payload_fields :
    TonNativeLifecycleAction → ℕ → Option Awards → Result PayloadError (List Field)
payload_fields a q none =
    if is_resolve a then err PayloadError.awards_invalid else ok (head_fields a q)
payload_fields a q (some w) =
    if is_resolve a
    then ok (head_fields a q ++ (Field.coins w.buyer_award ∷ Field.coins w.seller_award ∷ []))
    else err PayloadError.awards_unexpected

unfoldable pub build_payload :
    (c : Cells) → TonNativeLifecycleAction → ℕ → Option Awards → Result PayloadError Text
build_payload c a q awards = do
  throw_if (q == 0 || leb (2 ^ 64) q) PayloadError.query_id_out_of_range
  fields ← payload_fields a q awards
  cell ← or_throw (c.end_cell fields) PayloadError.builder_overflow
  ok (c.to_boc cell)

-- The action of an opcode: the first one of the table.
unfoldable pub find_action : ℕ → List TonNativeLifecycleAction → Option TonNativeLifecycleAction
find_action n [] = none
find_action n (a ∷ as') = if lifecycle_opcode a == n then some a else find_action n as'

abbrev pub single_root : {A : Type 0} → Option (List A) → Option A
single_root none = none
single_root (some []) = none
single_root (some (r ∷ [])) = some r
single_root (some (r ∷ s ∷ rs)) = none

-- The two `loadCoins` of a resolution.
unfoldable pub load_awards :
    (c : Cells) → TonNativeLifecycleAction → c.Slice → Result PayloadError (Option Awards × c.Slice)
load_awards c a s =
    if is_resolve a
    then (or_throw (c.load_coins s) PayloadError.cell_underflow >>= λ b.
        or_throw (c.load_coins b.1) PayloadError.cell_underflow >>= λ v.
        ok (some (record { buyer_award = b.0; seller_award = v.0 }), v.1))
    else ok (none, s)

unfoldable pub parse_cell : (c : Cells) → c.Cell → Result PayloadError LifecyclePayload
parse_cell c cell = do
  opcode ← or_throw (c.load_uint 32 (c.begin_parse cell)) PayloadError.cell_underflow
  query ← or_throw (c.load_uint 64 opcode.1) PayloadError.cell_underflow
  action ← or_throw (find_action opcode.0 all_actions) PayloadError.unknown_opcode
  awards ← load_awards c action query.1
  throw_if (not (c.remaining_bits awards.1 == 0 && c.remaining_refs awards.1 == 0))
      PayloadError.trailing_data
  ok (record { action = action; query_id = query.0; awards = awards.0; hash = c.hash cell })

unfoldable pub parse_payload : (c : Cells) → Text → Result PayloadError LifecyclePayload
parse_payload c t = do
  cell ← or_throw (single_root (c.from_boc t)) PayloadError.not_a_boc
  parse_cell c cell
