-- ===== src/Breaker/Discrepancy.antt =====
-- `tripOnDiscrepancy`: the books of a chain against its assets
-- (services/user-service/src/modules/safety/settlement-circuit-breaker.service.ts).
use telegram_garant_contract.Common.{
  ℕ, Bool, true, false, ◌≡◌, ◌≢◌, ◌⊎◌, inl, inr, refl, arith, is_ok, ok, >>=-eq-ok, ◌==◌,
}
use telegram_garant_contract.Decimal.{value, to_text}
use telegram_garant_contract.Decimal.RoundTrip.{value-to_text}
use telegram_garant_contract.Breaker.{
  Tables, Operation, DiscrepancyInput, TripOutcome, distance, discrepancy_incident, trip_locked,
  on_discrepancy, trip_on_discrepancy, validate_discrepancy, assert_allowed,
}
use telegram_garant_contract.Breaker.Isolation.{trip_locked_blocks}

-- What `tripOnDiscrepancy` has done, by the difference `d` of the two balances.
abbrev pub Outcome : ℕ → DiscrepancyInput → Tables → ℕ → TripOutcome → Type 0
Outcome now i t d o =
    (value o.discrepancy_text ≡ d)
    × ((d ≡ 0) × (o.did_trip ≡ false) × (o.tables ≡ t)
        ⊎ (d ≢ 0)
          × (o.did_trip ≡ true)
          × ((op : Operation) → is_ok (assert_allowed i.scope op o.tables) ≡ false))

on_discrepancy-Outcome :
    (now : ℕ) (i : DiscrepancyInput) (t : Tables) (d : ℕ) (o : TripOutcome) (b : Bool)
    → (d == 0) ≡ b
    → on_discrepancy now i t d b ≡ ok o
    → Outcome now i t d o
unfolding value to_text
on_discrepancy-Outcome now i t d o true q h =
    (ground arith, inl (ground arith, ground arith, ground arith))
on_discrepancy-Outcome now i t d o false q h =
    let (t', e, k) = >>=-eq-ok (trip_locked now (discrepancy_incident i d) t) _ {b = o} h in
    let same : o.tables ≡ t' = ground arith in
    let text : o.discrepancy_text ≡ to_text d = ground arith in
    (
      rw text (value-to_text d),
      inr (
        ground arith,
        ground arith,
        λ op. rw same (trip_locked_blocks now (discrepancy_incident i d) t i.scope op e (inl refl)),
      ),
    )

-- A call of `tripOnDiscrepancy` that returns reports the difference between assets and liabilities
-- in absolute value. It does not trip and writes nothing if they are equal; if they differ it trips,
-- and then neither funding nor egress is allowed on the chain.
pub trip_on_discrepancy-Outcome :
    (now : ℕ) (i : DiscrepancyInput) (t : Tables) {o : TripOutcome}
    → trip_on_discrepancy now i t ≡ ok o
    → Outcome now i t (distance (value i.assets_atomic) (value i.liabilities_atomic)) o
unfolding trip_on_discrepancy
trip_on_discrepancy-Outcome now i t {o} h =
    let d = distance (value i.assets_atomic) (value i.liabilities_atomic) in
    let (_, _, k) = >>=-eq-ok (validate_discrepancy i) _ {b = o} h in
    on_discrepancy-Outcome now i t d o (d == 0) refl k
