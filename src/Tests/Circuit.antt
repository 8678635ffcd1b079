-- ===== src/Tests/Circuit.antt =====
-- Tests of the circuit breaker, and the theorems about it at concrete tables.
use telegram_garant_contract.Common.{
  is_ok, false, ◌||◌, if◌then◌else◌, text_eq, true, none, [], ◌∷◌, ◌≡◌, refl, codes, ok,
}
use telegram_garant_contract.Decimal.{value, to_text}
use telegram_garant_contract.Breaker.{
  Scope, CircuitState, Breaker, Tables, Incident, Operation, DiscrepancyInput, trip_locked,
  trip_on_discrepancy, assert_allowed, distance, validate_discrepancy, is_reason, is_evidence_hash,
  is_identifier, is_asset, is_balance, scope_eq, trip_row, save_breaker, audit_row,
  discrepancy_incident,
}
use telegram_garant_contract.Breaker.Isolation.{trip_locked_isolates}
use telegram_garant_contract.Breaker.Discrepancy.{Outcome, trip_on_discrepancy-Outcome}

abbrev closed_row : Scope → Breaker
closed_row s = record {
  scope = s;
  state = CircuitState.closed;
  incident_kind = none;
  reason_code = none;
  asset_code = none;
  discrepancy_atomic = none;
  evidence_hash = none;
  tripped_at = none;
  revision = 0;
}

abbrev fresh : Tables
fresh = record {
  breakers = closed_row Scope.global ∷ closed_row Scope.ton ∷ closed_row Scope.polygon ∷ [];
  audits = [];
}

abbrev input : DiscrepancyInput
input = record {
  scope = Scope.ton;
  asset_code = codes "USDT";
  assets_atomic = codes "100";
  liabilities_atomic = codes "140";
  reason_code = codes "BOOKS_DIFFER";
  evidence_hash = codes "00000000000000000000000000000000000000000000000000000000000000ff";
  actor_id = codes "auditor";
}

abbrev incident : Incident
incident = discrepancy_incident input 40

abbrev tripped_tables : Tables
tripped_tables = record {
  breakers = save_breaker (trip_row 5 incident (closed_row Scope.ton)) fresh.breakers;
  audits = audit_row incident (closed_row Scope.ton) ∷ [];
}

trips : trip_locked 5 incident fresh ≡ ok tripped_tables
unfolding trip_locked is_reason is_evidence_hash is_identifier text_eq scope_eq
trips = refl

reports :
    trip_on_discrepancy 5 input fresh
    ≡ ok (record { did_trip = true; discrepancy_text = codes "40"; tables = tripped_tables })
unfolding trip_on_discrepancy trip_locked validate_discrepancy is_reason is_evidence_hash
    is_identifier text_eq scope_eq is_asset is_balance value to_text
reports = refl

trip_locked_isolates_example :
    is_ok (assert_allowed Scope.polygon Operation.egress tripped_tables) ≡ (
      if scope_eq Scope.ton Scope.polygon || scope_eq Scope.ton Scope.global
      then false
      else is_ok (assert_allowed Scope.polygon Operation.egress fresh))
trip_locked_isolates_example =
    trip_locked_isolates 5 incident fresh Scope.polygon Operation.egress trips

trip_on_discrepancy-Outcome_example :
    Outcome 5 input fresh
      (distance (value (codes "100")) (value (codes "140")))
      (record { did_trip = true; discrepancy_text = codes "40"; tables = tripped_tables })
trip_on_discrepancy-Outcome_example = trip_on_discrepancy-Outcome 5 input fresh reports
