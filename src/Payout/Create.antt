-- ===== src/Payout/Create.antt =====
-- `createTonJettonPayoutPlan` of
-- services/user-service/src/modules/escrow/adapters/ton-jetton-payout-state.ts.
use telegram_garant_contract.Common.{
  ℕ, ◌+◌, not, ◌||◌, List, [], ◌∷◌, ◌++◌, Text, ltb, leb, ◌==◌, if◌then◌else◌, length, Result, ok,
  throw_if, or_throw, ◌>>=◌, ◌>>◌,
}
use telegram_garant_contract.Decimal.{to_text}
use telegram_garant_contract.Address.{normalize_ton_address}
use telegram_garant_contract.Payout.{
  PayoutKind, PayoutError, PlanStatus, Leg, Plan, RawLeg, is_settlement_id, non_negative_atomic,
  positive_atomic, payout_order, has_kind,
}

-- A leg of a positive amount is pushed, one of amount zero is not.
abbrev pub push_leg : RawLeg → Text → ℕ → List Leg → List Leg
push_leg r destination amount legs =
    if amount == 0
    then legs
    else legs
      ++ (record {
        kind = r.kind;
        destination = destination;
        amount_atomic = to_text amount;
        attempts = [];
      }
          ∷ [])

-- The loop over `input.legs` with its variables `seenKinds`, `total` and `legs`.
unfoldable pub collect_legs :
    List RawLeg → List PayoutKind → ℕ → List Leg → Result PayoutError (ℕ × List Leg)
collect_legs [] seen total legs = ok (total, legs)
collect_legs (r ∷ rs) seen total legs = do
  throw_if (has_kind r.kind seen) PayoutError.invalid_or_duplicate_leg
  destination ← or_throw (normalize_ton_address r.destination) PayoutError.invalid_destination
  amount ← non_negative_atomic r.amount_atomic PayoutError.invalid_leg_amount
  collect_legs rs (r.kind ∷ seen) (total + amount) (push_leg r destination amount legs)

-- `legs.sort` by `payoutOrder`, which is stable.
unfoldable pub insert_leg : Leg → List Leg → List Leg
insert_leg l [] = l ∷ []
insert_leg l (m ∷ ms) =
    if leb (payout_order l.kind) (payout_order m.kind) then l ∷ m ∷ ms else m ∷ insert_leg l ms

unfoldable pub sort_legs : List Leg → List Leg
unfolding insert_leg
sort_legs [] = []
sort_legs (l ∷ ls) = insert_leg l (sort_legs ls)

unfoldable pub create_payout_plan : Text → Text → List RawLeg → Result PayoutError Plan
create_payout_plan settlement expected_total raw = do
  throw_if (not (is_settlement_id settlement)) PayoutError.invalid_settlement_id
  expected ← positive_atomic expected_total PayoutError.invalid_expected_total
  throw_if (ltb (length raw) 1 || ltb 3 (length raw)) PayoutError.invalid_leg_count
  collected ← collect_legs raw [] 0 []
  throw_if (not (collected.0 == expected)) PayoutError.payout_conservation_mismatch
  throw_if (length collected.1 == 0) PayoutError.empty_payout
  ok (record {
    schema_version = 1;
    settlement_id = settlement;
    expected_total_atomic = to_text expected;
    status = PlanStatus.pending;
    legs = sort_legs collected.1;
  })
