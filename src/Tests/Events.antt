-- ===== src/Tests/Events.antt =====
-- Tests of the outbox, and the theorems about it at concrete events.
use telegram_garant_contract.Common.{
  arith, ℕ, Bool, false, none, some, List, [], ◌∷◌, ◌≡◌, refl, inl, inr, Text, codes, text_eq, Has,
}
use telegram_garant_contract.Outbox.{
  OutboxStatus, OutboxEvent, enqueue, claim_batch, due_events, filter_events, insert_event,
  order_events, save_claims, claimed_by, mark_delivered, mark_failed,
}
use telegram_garant_contract.Outbox.Tries.{Try, after_tries, is_dead, after_tries_lem}
use telegram_garant_contract.Outbox.Batches.{IsKept, claim_batch_keeps}

abbrev waiting : Text → ℕ → OutboxEvent
waiting id at = record {
  id = id;
  aggregate_type = codes "deal";
  aggregate_id = codes "d1";
  event_type = codes "deal.created";
  payload = codes "{}";
  status = OutboxStatus.pending;
  attempts = 0;
  last_error = none;
  available_at = at;
  delivered_at = none;
  lease_owner = none;
  lease_expires_at = none;
  created_at = at;
}

abbrev first : OutboxEvent
first = waiting (codes "e1") 50

abbrev second : OutboxEvent
second = waiting (codes "e2") 40

abbrev leased : OutboxEvent
leased = claimed_by (codes "w1") 90 (waiting (codes "e3") 10)

abbrev table : List OutboxEvent
table = first ∷ second ∷ leased ∷ []

abbrev unlocked : Text → Bool
unlocked id = false

enqueue_test :
    (enqueue
      (record {
        aggregate_type = codes "deal";
        aggregate_id = codes "d1";
        event_type = codes "deal.created";
        payload = none;
        available_at = none;
      })
      (codes "e1")
      50
      []).1
    ≡ first ∷ []
unfolding enqueue
enqueue_test = refl

-- The earlier of the two due events is taken; the leased one is not due.
claim_test : claim_batch (codes "w2") unlocked 1 100 100 table ≡ (
  claimed_by (codes "w2") 100 second ∷ [],
  first ∷ claimed_by (codes "w2") 100 second ∷ leased ∷ [],
)
unfolding claim_batch due_events filter_events insert_event order_events save_claims text_eq
claim_test = refl

fail_test : mark_failed (codes "e3") (some (codes "w2")) 200 (codes "timeout") table ≡ table
unfolding mark_failed text_eq
fail_test = refl

deliver_test : mark_delivered (codes "e9") none 200 table ≡ table
unfolding mark_delivered text_eq
deliver_test = refl

claim_batch_keeps_example : Has leased (claim_batch (codes "w2") unlocked 1 100 100 table).1
unfolding text_eq
claim_batch_keeps_example =
    claim_batch_keeps (codes "w2") unlocked 1 100 100 table leased
      ((λ h. cc), ((λ h. cc), ((λ h. refl), tt))) (IsKept.live_lease 60090 refl refl (omega arith))
      (inr (inr (inl refl)))

-- The worker of the first claim stops, the event is claimed again a minute later and fails once.
abbrev tries : List Try
tries =
    Try.claims (codes "w1") 100
    ∷ Try.claims (codes "w2") 60100
    ∷ Try.fails 60200 (codes "timeout")
    ∷ []

after_tries_lem_example :
    ((after_tries tries first).attempts ≡ 1) × (is_dead (after_tries tries first).status ≡ false)
after_tries_lem_example = after_tries_lem tries first refl
