-- ===== src/Outbox/Batches.antt =====
-- What a claim of a batch of outbox events takes and leaves
-- (services/user-service/src/modules/ops/outbox.service.ts).
use telegram_garant_contract.Common.{
  ℕ, zero, suc, ◌+◌, ◌≤◌, Bool, true, false, not, ◌&&◌, List, [], ◌∷◌, Text, some, leb, any,
  text_eq, take, ◌≡◌, refl, ap, ◌∙◌, arith, Has, All, inl, inr, Bool-cases, ◌⊎◌, ◌<◌, none,
}
use telegram_garant_contract.Outbox.{
  OutboxStatus, OutboxEvent, status_due, is_due, filter_events, insert_event, order_events,
  due_events, save_claims, claim_batch,
}

module _ (P : OutboxEvent → Type 0) where
  All-insert_event :
      (e : OutboxEvent) (es : List OutboxEvent) → P e → All P es → All P (insert_event e es)
  unfolding insert_event
  All-insert_event e [] h hs = (h, tt)
  All-insert_event e (f ∷ fs) h (k, ks) = elim (Bool-cases (leb e.available_at f.available_at)) [
    | inl before ↦ rw before (h, (k, ks))
    | inr after ↦ rw after (k, All-insert_event e fs h ks)
  ]

  All-order_events : (es : List OutboxEvent) → All P es → All P (order_events es)
  unfolding order_events
  All-order_events [] h = tt
  All-order_events (e ∷ es) (h, hs) =
      All-insert_event e (order_events es) h (All-order_events es hs)

  All-take : (n : ℕ) (es : List OutboxEvent) → All P es → All P (take n es)
  All-take zero es h = tt
  All-take (suc n) [] h = tt
  All-take (suc n) (e ∷ es) (h, hs) = (h, All-take n es hs)

  All-filter_events :
      (c : OutboxEvent → Bool) (es : List OutboxEvent)
      → All (λ e. c e ≡ true → P e) es
      → All P (filter_events c es)
  unfolding filter_events
  All-filter_events c [] h = tt
  All-filter_events c (e ∷ es) (h, hs) = elim (Bool-cases (c e)) [
    | inl holds ↦ rw holds (h holds, All-filter_events c es hs)
    | inr other ↦ rw other (All-filter_events c es hs)
  ]

  All-due_events :
      (locked : Text → Bool) (limit now : ℕ) (table : List OutboxEvent)
      → All (λ e. (is_due now e && not (locked e.id)) ≡ true → P e) table
      → All P (due_events locked limit now table)
  unfolding due_events
  All-due_events locked limit now table h =
      All-take limit _
        (All-order_events _ (All-filter_events (λ e. is_due now e && not (locked e.id)) table h))

-- A row that waits for its delivery, or is in flight under a lease that has expired.
abbrev pub IsOpen : ℕ → OutboxEvent → Type 0
IsOpen at d =
    (d.status ≡ OutboxStatus.pending)
    ⊎ ((t : ℕ) × (d.status ≡ OutboxStatus.in_flight) × (d.lease_expires_at ≡ some t) × (t ≤ at))

-- An event of a batch: a row of the table that is open, available and not locked elsewhere, leased to the
-- worker for a minute and otherwise as it was.
abbrev pub IsClaimed : Text → (Text → Bool) → ℕ → ℕ → List OutboxEvent → OutboxEvent → Type 0
IsClaimed worker locked at now table e =
    (d : OutboxEvent) × Has d table
    × (e ≡ record d {
      status = OutboxStatus.in_flight;
      lease_owner = some worker;
      lease_expires_at = some (now + 60000);
    })
    × IsOpen at d
    × (d.available_at ≤ at)
    × (locked d.id ≡ false)

map-All :
    (P Q : OutboxEvent → Type 0)
    → ((e : OutboxEvent) → P e → Q e)
    → (es : List OutboxEvent) → All P es
    → All Q es
map-All P Q k [] h = tt
map-All P Q k (e ∷ es) (h, hs) = (k e h, map-All P Q k es hs)

-- No other row of the table has the id of the event.
abbrev pub HasOwnId : OutboxEvent → List OutboxEvent → Type 0
HasOwnId e table = All (λ (d : OutboxEvent). text_eq d.id e.id ≡ true → d ≡ e) table

none-any :
    (e : OutboxEvent) (due : List OutboxEvent)
    → All (λ (d : OutboxEvent). text_eq d.id e.id ≡ false) due
    → any (λ (d : OutboxEvent). text_eq d.id e.id) due ≡ false
none-any e [] h = refl
none-any e (d ∷ ds) (h, hs) = rw h (none-any e ds hs)

Has-save_claims :
    (worker : Text) (now : ℕ) (due : List OutboxEvent) (e : OutboxEvent) (table : List OutboxEvent)
    → any (λ (d : OutboxEvent). text_eq d.id e.id) due ≡ false
    → Has e table
    → Has e (save_claims worker now due table)
unfolding save_claims
Has-save_claims worker now due e [] k h = h
Has-save_claims worker now due e (f ∷ fs) k (inl same) =
    rw (ap (λ (x : OutboxEvent). any (λ (d : OutboxEvent). text_eq d.id x.id) due) same)
      (rw k (inl same))
Has-save_claims worker now due e (f ∷ fs) k (inr h) =
    elim (Bool-cases (any (λ (d : OutboxEvent). text_eq d.id f.id) due)) [
      | inl chosen ↦ rw chosen (inr (Has-save_claims worker now due e fs k h))
      | inr other ↦ rw other (inr (Has-save_claims worker now due e fs k h))
    ]

-- What keeps an event from being claimed: it is closed, it is not available yet, or it is in flight under
-- a lease without a time or with a later one.
pub data IsKept (at : ℕ) (e : OutboxEvent) : Type 0 where
  was_delivered : e.status ≡ OutboxStatus.delivered → IsKept at e
  was_failed : e.status ≡ OutboxStatus.failed → IsKept at e
  was_given_up : e.status ≡ OutboxStatus.dead → IsKept at e
  not_available : at < e.available_at → IsKept at e
  no_expiry : e.status ≡ OutboxStatus.in_flight → e.lease_expires_at ≡ none → IsKept at e
  live_lease :
      (t : ℕ)
      → e.status ≡ OutboxStatus.in_flight
      → e.lease_expires_at ≡ some t
      → at < t
      → IsKept at e

IsKept-is_due : (at : ℕ) (e : OutboxEvent) → IsKept at e → is_due at e ≡ false
IsKept-is_due at e (was_delivered q) = rw q refl
IsKept-is_due at e (was_failed q) = rw q refl
IsKept-is_due at e (was_given_up q) = rw q refl
IsKept-is_due at e (not_available l) =
    right (status_due at e e.status) (leb e.available_at at) (ground arith)
  where
    right : (a b : Bool) → b ≡ false → (a && b) ≡ false
    right a b h = ground arith
IsKept-is_due at e (no_expiry q n) = rw (q, n) refl
IsKept-is_due at e (live_lease t q n l) =
    let later : leb t at ≡ false = ground arith in rw (q, n, later) refl

-- When a batch is claimed, an event stays in the table as it is, if no other row has its id and it is
-- delivered, failed or dead, is not available yet, or is in flight under a lease that has no time of expiry
-- or has not expired.
pub claim_batch_keeps :
    (worker : Text) (locked : Text → Bool) (limit at now : ℕ) (table : List OutboxEvent)
    (e : OutboxEvent)
    → HasOwnId e table
    → IsKept at e
    → Has e table
    → Has e (claim_batch worker locked limit at now table).1
unfolding claim_batch
claim_batch_keeps worker locked limit at now table e u k h =
    Has-save_claims worker now (due_events locked limit at table) e table
      (none-any e _ (
        All-due_events (λ (d : OutboxEvent). text_eq d.id e.id ≡ false) locked limit at table
          (map-All _ _ other table u)))
      h
  where
    never : (a b : Bool) → (a && b) ≡ true → a ≡ false → ⊥
    never a b h e = ground arith

    other :
        (d : OutboxEvent)
        → (text_eq d.id e.id ≡ true → d ≡ e)
        → (is_due at d && not (locked d.id)) ≡ true
        → text_eq d.id e.id ≡ false
    other d same due = elim (Bool-cases (text_eq d.id e.id)) [
      | inr differs ↦ differs
      | inl equal ↦ absurd (
          never (is_due at d) (not (locked d.id)) due
            (ap (is_due at) (same equal) ∙ IsKept-is_due at e k))
    ]
