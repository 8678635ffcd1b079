-- ===== src/Breaker.antt =====
-- The settlement circuit breaker:
-- services/user-service/src/modules/safety/settlement-circuit-breaker.service.ts and its entities. The
-- two tables are the state; a transaction that throws leaves them as they were.
pub mod Isolation
pub mod Discrepancy
use telegram_garant_contract.Common.{
  ℕ, suc, ◌+◌, ◌-◌, Bool, true, false, not, ◌&&◌, ◌||◌, List, [], ◌∷◌, ◌++◌, Text, codes, Option,
  none, some, ltb, leb, ◌==◌, if◌then◌else◌, length, all, text_eq, Result, ok, err, throw_if,
  or_throw, ◌>>=◌, ◌>>◌,
}
use telegram_garant_contract.Decimal.{is_canonical, value, to_text, zeros}

pub data Scope : Type 0 where
  ton polygon global : Scope

pub data CircuitState : Type 0 where
  closed tripped : CircuitState

pub data IncidentKind : Type 0 where
  reconciliation_discrepancy source_disagreement shared_ledger authentication governance :
      IncidentKind

pub data Operation : Type 0 where
  funding egress : Operation

pub data BreakerError : Type 0 where
  circuit_open : Scope → Operation → Text → BreakerError
  invalid_asset invalid_balance invalid_reason invalid_evidence_hash invalid_actor : BreakerError

pub record Breaker : Type 0 where
  pub scope : Scope
  pub state : CircuitState
  pub incident_kind : Option IncidentKind
  pub reason_code : Option Text
  pub asset_code : Option Text
  pub discrepancy_atomic : Option Text
  pub evidence_hash : Option Text
  pub tripped_at : Option ℕ
  pub revision : ℕ

pub record Audit : Type 0 where
  pub scope : Scope
  pub previous_state : CircuitState
  pub next_state : CircuitState
  pub incident_kind : IncidentKind
  pub reason_code : Text
  pub asset_code : Option Text
  pub discrepancy_atomic : Option Text
  pub evidence_hash : Text
  pub actor_id : Text
  pub revision : ℕ

pub record Tables : Type 0 where
  pub breakers : List Breaker
  pub audits : List Audit

-- The input of `tripLocked`.
pub record Incident : Type 0 where
  pub scope : Scope
  pub incident_kind : IncidentKind
  pub reason_code : Text
  pub asset_code : Option Text
  pub discrepancy_atomic : Option Text
  pub evidence_hash : Text
  pub actor_id : Text

pub record DiscrepancyInput : Type 0 where
  pub scope : Scope
  pub asset_code : Text
  pub assets_atomic : Text
  pub liabilities_atomic : Text
  pub reason_code : Text
  pub evidence_hash : Text
  pub actor_id : Text

unfoldable pub scope_eq : Scope → Scope → Bool
scope_eq ton ton = true
scope_eq polygon polygon = true
scope_eq global global = true
scope_eq _ _ = false

abbrev upper_or_digit : ℕ → Bool
upper_or_digit c = leb b'A' c && leb c b'Z' || leb b'0' c && leb c b'9'

abbrev within : ℕ → ℕ → Text → Bool
within low high t = leb low (length t) && leb (length t) high

-- REASON, HASH, IDENTIFIER and ASSET.
unfoldable pub is_reason : Text → Bool
is_reason t = within 3 64 t && all (λ c. upper_or_digit c || c == b'_') t

unfoldable pub is_evidence_hash : Text → Bool
is_evidence_hash t =
    length t == 64 && all (λ c. leb b'0' c && leb c b'9' || leb b'a' c && leb c b'f') t

unfoldable pub is_identifier : Text → Bool
is_identifier t =
    within 3 128 t
    && all
        (λ c.
          upper_or_digit c
          || leb b'a' c && leb c b'z'
          || c == b'.'
          || c == b'_'
          || c == b':'
          || c == b'@'
          || c == b'-')
        t

unfoldable pub is_asset : Text → Bool
is_asset t = within 2 32 t && all (λ c. upper_or_digit c || c == b'_' || c == b'-') t

-- /^(0|[1-9]\d{0,77})$/
unfoldable pub is_balance : Text → Bool
unfolding is_canonical
is_balance t = is_canonical t && leb (length t) 78

unfoldable pub validate_common : Text → Text → Text → Result BreakerError (Unit {0})
validate_common reason evidence actor = do
  throw_if (not (is_reason reason)) invalid_reason
  throw_if (not (is_evidence_hash evidence) || text_eq evidence (zeros 64 [])) invalid_evidence_hash
  throw_if (not (is_identifier actor)) invalid_actor
  ok tt

unfoldable pub validate_discrepancy : DiscrepancyInput → Result BreakerError (Unit {0})
unfolding validate_common
validate_discrepancy i = do
  validate_common i.reason_code i.evidence_hash i.actor_id
  throw_if (not (is_asset i.asset_code)) invalid_asset
  throw_if (not (is_balance i.assets_atomic)) invalid_balance
  throw_if (not (is_balance i.liabilities_atomic)) invalid_balance
  ok tt

-- The row of a scope, which is the primary key.
abbrev pub find_scope : Scope → List Breaker → Option Breaker
find_scope s [] = none
find_scope s (b ∷ bs) = if scope_eq b.scope s then some b else find_scope s bs

-- `save` of a row that was read: the row of its scope is replaced.
abbrev pub save_breaker : Breaker → List Breaker → List Breaker
save_breaker b [] = []
save_breaker b (c ∷ cs) = if scope_eq c.scope b.scope then b ∷ cs else c ∷ save_breaker b cs

abbrev pub is_closed : Breaker → Bool
is_closed b = elim b.state [ closed ↦ true | tripped ↦ false ]

abbrev reason_or : Option Text → Text
reason_or none = codes "BREAKER_TRIPPED"
reason_or (some r) = r

-- The end of `assertAllowed`: the first of the two rows that is not closed blocks.
abbrev pub judge :
    Scope → Operation → Option Breaker → Option Breaker → Result BreakerError (Unit {0})
judge s op none chain = err (circuit_open s op (codes "BREAKER_STATE_UNAVAILABLE"))
judge s op (some g) none = err (circuit_open s op (codes "BREAKER_STATE_UNAVAILABLE"))
judge s op (some g) (some c) =
    if not (is_closed g)
    then err (circuit_open g.scope op (reason_or g.reason_code))
    else if not (is_closed c)
    then err (circuit_open c.scope op (reason_or c.reason_code))
    else ok tt

-- `assertFundingAllowed` and `assertEgressAllowed` are this at `funding` and at `egress`.
unfoldable pub assert_allowed : Scope → Operation → Tables → Result BreakerError (Unit {0})
assert_allowed s op t = judge s op (find_scope global t.breakers) (find_scope s t.breakers)

abbrev or_now : Option ℕ → ℕ → Option ℕ
or_now none now = some now
or_now (some t) now = some t

-- The writes to the row in `tripLocked`.
unfoldable pub trip_row : ℕ → Incident → Breaker → Breaker
trip_row now i b = record b {
  state = tripped;
  incident_kind = some i.incident_kind;
  reason_code = some i.reason_code;
  asset_code = i.asset_code;
  discrepancy_atomic = i.discrepancy_atomic;
  evidence_hash = some i.evidence_hash;
  tripped_at = or_now b.tripped_at now;
  revision = b.revision + 1;
}

abbrev pub audit_row : Incident → Breaker → Audit
audit_row i b = record {
  scope = i.scope;
  previous_state = b.state;
  next_state = tripped;
  incident_kind = i.incident_kind;
  reason_code = i.reason_code;
  asset_code = i.asset_code;
  discrepancy_atomic = i.discrepancy_atomic;
  evidence_hash = i.evidence_hash;
  actor_id = i.actor_id;
  revision = b.revision + 1;
}

unfoldable pub trip_locked : ℕ → Incident → Tables → Result BreakerError Tables
unfolding validate_common
trip_locked now i t = do
  validate_common i.reason_code i.evidence_hash i.actor_id
  b ←
      or_throw (find_scope i.scope t.breakers)
        (circuit_open i.scope egress (codes "BREAKER_STATE_UNAVAILABLE"))
  ok (record {
    breakers = save_breaker (trip_row now i b) t.breakers;
    audits = t.audits ++ (audit_row i b ∷ []);
  })

abbrev pub distance : ℕ → ℕ → ℕ
distance a b = if leb b a then a - b else b - a

abbrev pub discrepancy_incident : DiscrepancyInput → ℕ → Incident
discrepancy_incident i d = record {
  scope = i.scope;
  incident_kind = reconciliation_discrepancy;
  reason_code = i.reason_code;
  asset_code = some i.asset_code;
  discrepancy_atomic = some (to_text d);
  evidence_hash = i.evidence_hash;
  actor_id = i.actor_id;
}

-- What `tripOnDiscrepancy` returns, with the tables after it.
pub record TripOutcome : Type 0 where
  pub did_trip : Bool
  pub discrepancy_text : Text
  pub tables : Tables

-- The two branches of `tripOnDiscrepancy`, on whether the difference `d` is zero.
abbrev pub on_discrepancy :
    ℕ → DiscrepancyInput → Tables → ℕ → Bool → Result BreakerError TripOutcome
on_discrepancy now i t d true =
    ok (record { did_trip = false; discrepancy_text = codes "0"; tables = t })
on_discrepancy now i t d false = do
  t' ← trip_locked now (discrepancy_incident i d) t
  ok (record { did_trip = true; discrepancy_text = to_text d; tables = t' })

unfoldable pub trip_on_discrepancy : ℕ → DiscrepancyInput → Tables → Result BreakerError TripOutcome
trip_on_discrepancy now i t = do
  validate_discrepancy i
  let d = distance (value i.assets_atomic) (value i.liabilities_atomic)
  on_discrepancy now i t d (d == 0)

unfoldable pub trip_shared_incident :
    ℕ → IncidentKind → Text → Text → Text → Tables → Result BreakerError Tables
trip_shared_incident now kind reason evidence actor t = do
  validate_common reason evidence actor
  trip_locked now
      (record {
        scope = global;
        incident_kind = kind;
        reason_code = reason;
        asset_code = none;
        discrepancy_atomic = none;
        evidence_hash = evidence;
        actor_id = actor;
      })
      t

unfoldable pub trip_chain_incident :
    ℕ → Scope → IncidentKind → Text → Text → Text → Text → Tables → Result BreakerError Tables
trip_chain_incident now s kind reason asset evidence actor t = do
  validate_common reason evidence actor
  throw_if (not (is_asset asset)) invalid_asset
  trip_locked now
      (record {
        scope = s;
        incident_kind = kind;
        reason_code = reason;
        asset_code = some asset;
        discrepancy_atomic = none;
        evidence_hash = evidence;
        actor_id = actor;
      })
      t
