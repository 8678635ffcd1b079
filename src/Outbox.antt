-- ===== src/Outbox.antt =====
-- services/user-service/src/modules/ops/outbox.service.ts and its entity: the events that wait for their
-- delivery. The table is a list of rows; the clock, the ids and the rows that other transactions have
-- locked are arguments, and a payload is its JSON text.
pub mod Batches
pub mod Tries
use telegram_garant_contract.Common.{
  ℕ, zero, suc, ◌+◌, ◌*◌, ◌^◌, ◌≤◌, Bool, true, false, not, ◌&&◌, ◌||◌, List, [], ◌∷◌, ◌++◌, map,
  Text, codes, Option, none, some, leb, if◌then◌else◌, any, text_eq, length, take,
}

pub data OutboxStatus : Type 0 where
  pending in_flight delivered failed dead : OutboxStatus

pub record OutboxEvent : Type 0 where
  pub id : Text
  pub aggregate_type : Text
  pub aggregate_id : Text
  pub event_type : Text
  pub payload : Text
  pub status : OutboxStatus
  pub attempts : ℕ
  pub last_error : Option Text
  pub available_at : ℕ
  pub delivered_at : Option ℕ
  pub lease_owner : Option Text
  pub lease_expires_at : Option ℕ
  pub created_at : ℕ

pub record EnqueueInput : Type 0 where
  pub aggregate_type : Text
  pub aggregate_id : Text
  pub event_type : Text
  pub payload : Option Text
  pub available_at : Option ℕ

abbrev pub or_else {ℓ} : {A : Type ℓ} → A → Option A → A
or_else a none = a
or_else a (some b) = b

unfoldable pub enqueue : EnqueueInput → Text → ℕ → List OutboxEvent → OutboxEvent × List OutboxEvent
enqueue input id now table =
    let event : OutboxEvent = record {
      id = id;
      aggregate_type = input.aggregate_type;
      aggregate_id = input.aggregate_id;
      event_type = input.event_type;
      payload = or_else (codes "{}") input.payload;
      status = OutboxStatus.pending;
      attempts = 0;
      last_error = none;
      available_at = or_else now input.available_at;
      delivered_at = none;
      lease_owner = none;
      lease_expires_at = none;
      created_at = now;
    } in
    (event, table ++ (event ∷ []))

abbrev pub has_expired : ℕ → Option ℕ → Bool
has_expired now none = false
has_expired now (some t) = leb t now

abbrev pub status_due : ℕ → OutboxEvent → OutboxStatus → Bool
status_due now e OutboxStatus.pending = true
status_due now e OutboxStatus.in_flight = has_expired now e.lease_expires_at
status_due now e _ = false

-- The `where` of `claimBatch`.
abbrev pub is_due : ℕ → OutboxEvent → Bool
is_due now e = status_due now e e.status && leb e.available_at now

unfoldable pub filter_events : (OutboxEvent → Bool) → List OutboxEvent → List OutboxEvent
filter_events c [] = []
filter_events c (e ∷ es) = let rest = filter_events c es in if c e then e ∷ rest else rest

-- `ORDER BY "availableAt" ASC`; rows of one time stay in their order.
unfoldable pub insert_event : OutboxEvent → List OutboxEvent → List OutboxEvent
insert_event e [] = e ∷ []
insert_event e (f ∷ fs) =
    let rest = insert_event e fs in
    if leb e.available_at f.available_at then e ∷ f ∷ fs else f ∷ rest

unfoldable pub order_events : List OutboxEvent → List OutboxEvent
order_events [] = []
order_events (e ∷ es) = insert_event e (order_events es)

abbrev pub lease_ms : ℕ
lease_ms = 60000

abbrev pub claimed_by : Text → ℕ → OutboxEvent → OutboxEvent
claimed_by worker now e = record e {
  status = OutboxStatus.in_flight;
  lease_owner = some worker;
  lease_expires_at = some (now + lease_ms);
}

-- The rows that a claim takes: due, not locked elsewhere, the earliest ones.
unfoldable pub due_events : (Text → Bool) → ℕ → ℕ → List OutboxEvent → List OutboxEvent
due_events locked limit now table =
    take limit (order_events (filter_events (λ e. is_due now e && not (locked e.id)) table))

-- `m.save(due)`: the rows with the ids of the batch are claimed.
unfoldable pub save_claims : Text → ℕ → List OutboxEvent → List OutboxEvent → List OutboxEvent
save_claims worker now due [] = []
save_claims worker now due (e ∷ es) =
    let rest = save_claims worker now due es in
    if any (λ (d : OutboxEvent). text_eq d.id e.id) due
    then claimed_by worker now e ∷ rest
    else e ∷ rest

-- `claimBatch` of a worker: the batch and the table; `at` is the database's clock.
unfoldable pub claim_batch :
    Text → (Text → Bool) → ℕ → ℕ → ℕ → List OutboxEvent → List OutboxEvent × List OutboxEvent
claim_batch worker locked limit at now table =
    let due = due_events locked limit at table in
    (map (claimed_by worker now) due, save_claims worker now due table)

-- The criteria of the marks: the id, and the lease's owner where the caller names one (a null or
-- empty owner in the source is none here).
abbrev pub meets : Text → Option Text → OutboxEvent → Bool
meets id none e = text_eq e.id id
meets id (some w) e = text_eq e.id id && elim e.lease_owner [ none ↦ false | some o ↦ text_eq o w ]

abbrev pub delivered_row : ℕ → OutboxEvent → OutboxEvent
delivered_row now e = record e {
  status = OutboxStatus.delivered;
  delivered_at = some now;
  last_error = none;
  lease_owner = none;
  lease_expires_at = none;
}

unfoldable pub mark_delivered : Text → Option Text → ℕ → List OutboxEvent → List OutboxEvent
mark_delivered id owner now [] = []
mark_delivered id owner now (e ∷ es) =
    let rest = mark_delivered id owner now es in
    if meets id owner e then delivered_row now e ∷ rest else e ∷ rest

-- `Math.min(60_000, 1000 * 2 ** attempts)`
abbrev pub backoff_ms : ℕ → ℕ
backoff_ms attempts = let wait = 1000 * 2 ^ attempts in if leb 60000 wait then 60000 else wait

abbrev pub max_attempts : ℕ
max_attempts = 6

unfoldable pub failed_row : ℕ → Text → OutboxEvent → OutboxEvent
failed_row now message e =
    let n = e.attempts + 1 in
    let row = record e {
      attempts = n;
      last_error = some (take 1000 message);
      lease_owner = none;
      lease_expires_at = none;
    } in
    if leb max_attempts n
    then record row { status = OutboxStatus.dead }
    else record row { status = OutboxStatus.pending; available_at = now + backoff_ms n }

-- `markFailed`: the row of the criteria, which the id's key makes one, is changed and saved.
unfoldable pub mark_failed : Text → Option Text → ℕ → Text → List OutboxEvent → List OutboxEvent
mark_failed id owner now message [] = []
mark_failed id owner now message (e ∷ es) =
    let rest = mark_failed id owner now message es in
    if meets id owner e then failed_row now message e ∷ es else e ∷ rest
