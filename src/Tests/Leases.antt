-- ===== src/Tests/Leases.antt =====
-- Tests of the payment operations' leases and of the settlement policies, and the theorems about them at
-- concrete data.
use telegram_garant_contract.Common.{
  ℕ, ◌+◌, Bool, true, false, Option, none, some, List, [], ◌∷◌, ◌≡◌, ◌≢◌, refl, sym, inl, Text,
  codes, Result, ok, err, text_eq, Has, trim, arith,
}
use telegram_garant_contract.Deal.{Deal, DealStatus}
use telegram_garant_contract.Lease.{
  OperationStatus, PaymentOperation, Table, FundingOperationRef, Worker, LeaseError, affected,
  find_where, update_where,
}
use telegram_garant_contract.Lease.Statements.{
  Statement, Event, new_operation, insert, run, run_all, taken,
}
use telegram_garant_contract.Lease.Claims.{
  Surroundings, take_over, claim_existing, claim_read, claim_attempt, claim_funding, mark_completed,
  mark_retryable_failure, mark_manual_review, renew_lease,
}
use telegram_garant_contract.Lease.Interleavings.{run_all-terminal, run_all-exclusive}
use telegram_garant_contract.Lease.Holding.{Holds, claim_funding-Holds}
use telegram_garant_contract.Lease.Ownership.{stale_worker_changes_nothing}
use telegram_garant_contract.Settlement.{
  SettlementNetwork, SettlementAsset, ClientChannel, SettlementSelection, RawSelection,
  validate_settlement_selection, validate_present, supports, network_eq, asset_eq,
}
use telegram_garant_contract.Settlement.Laws.{
  IsSupported, validate_settlement_selection-IsSupported,
}

abbrev first : Worker
first = record { owner = codes "w1"; lease_ms = 300000 }

abbrev second : Worker
second = record { owner = codes "w2"; lease_ms = 300000 }

abbrev payment : FundingOperationRef
payment = record {
  provider = codes "cryptomus";
  event_key = codes "evt-1";
  payment_id = codes "p1";
  deal_id = codes "d1";
}

abbrev held : PaymentOperation
held = new_operation first payment (codes "op1") 1000

-- The first worker's lease has expired when the second one claims.
abbrev later : ℕ → Surroundings
later n = record {
  now = 400000;
  new_id = codes "op2";
  before_read = [];
  before_update = [];
  before_reread =
      record {
        worker = first;
        now = 400001;
        statement = Statement.completes (codes "op1") none none;
      }
      ∷ [];
}

claim_test : claim_funding second payment later 3 (held ∷ []) ≡ (
  ok (record { claimed = true; operation = taken second 400000 held }),
  taken second 400000 held ∷ [],
)
unfolding claim_funding claim_attempt claim_read claim_existing take_over insert run run_all
    update_where affected find_where text_eq
claim_test = refl

w1_is_not_w2 : codes "w2" ≢ codes "w1"
w1_is_not_w2 = λ e. ground arith

-- The id of the one row of the payment.
abbrev of_payment : Text → Bool
of_payment id = text_eq id (codes "op1")

claim_funding-Holds_example :
    (n : ℕ) × Holds second payment
      (codes "op1")
      ((later n).now + 300000)
      (taken second 400000 held ∷ [])
unfolding text_eq
claim_funding-Holds_example =
    claim_funding-Holds second payment of_payment later 3 (held ∷ [])
      (taken second 400000 held ∷ [])
      (record { claimed = true; operation = taken second 400000 held })
      (λ n. record {
        keyed_read = tt;
        keyed_update = tt;
        foreign = ((w1_is_not_w2, omega arith), tt);
      })
      (refl, tt) claim_test refl

abbrev finished : PaymentOperation
finished = record held {
  status = OperationStatus.completed;
  lease_owner = none;
  lease_expires_at = none;
}

abbrev events : List Event
events =
    record { worker = second; now = 2000; statement = Statement.takes_over (codes "op1") }
    ∷ record { worker = second; now = 2001; statement = Statement.parks (codes "op1") [] [] }
    ∷ []

run_all-terminal_example : Has finished (run_all events (finished ∷ []))
run_all-terminal_example =
    run_all-terminal events finished (finished ∷ []) (refl, tt) refl (inl refl)

run_all-exclusive_example : Has held (run_all events (held ∷ []))
run_all-exclusive_example =
    run_all-exclusive events held (held ∷ []) (codes "w1") 301000 refl refl refl
      ((w2_is_not_w1, omega arith), ((w2_is_not_w1, omega arith), tt)) (inl refl)
  where
    w2_is_not_w1 : codes "w1" ≢ codes "w2"
    w2_is_not_w1 = λ e. w1_is_not_w2 (sym e)

not_owned : text_eq (codes "w1") (codes "w2") ≡ false
unfolding text_eq
not_owned = refl

abbrev lost : Text → Result LeaseError (Unit {0}) × Table
lost id = (err (LeaseError.lease_lost id), held ∷ [])

stale_worker_changes_nothing_example :
    ((transfer notify : Option Text)
      → mark_completed second (codes "op1") transfer notify (held ∷ []) ≡ lost (codes "op1"))
    × ((code message : Text)
        → mark_retryable_failure second (codes "op1") code message (held ∷ []) ≡ lost (codes "op1"))
    × ((code message : Text)
        → mark_manual_review second (codes "op1") code message (held ∷ []) ≡ lost (codes "op1"))
    × ((now : ℕ) → renew_lease second (codes "op1") now (held ∷ []) ≡ lost (codes "op1"))
unfolding text_eq
stale_worker_changes_nothing_example =
    stale_worker_changes_nothing second (codes "op1") (held ∷ []) (refl, tt)

abbrev raw : RawSelection
raw = record {
  network = some SettlementNetwork.ton;
  chain_id = some (codes " -239 ");
  asset = some SettlementAsset.ton_usdt;
}

abbrev selected : SettlementSelection
selected = record {
  network = SettlementNetwork.ton;
  chain_id = codes "-239";
  asset = SettlementAsset.ton_usdt;
}

select_test : validate_settlement_selection (some raw) ClientChannel.telegram_mini_app ≡ ok selected
unfolding validate_settlement_selection validate_present network_eq asset_eq supports trim
select_test = refl

validate_settlement_selection-IsSupported_example :
    IsSupported ClientChannel.telegram_mini_app raw selected
validate_settlement_selection-IsSupported_example =
    validate_settlement_selection-IsSupported raw ClientChannel.telegram_mini_app selected
      select_test

abbrev deal : Deal
deal = record {
  id = codes "d1";
  status = DealStatus.draft;
  buyer_id = codes "b";
  seller_id = none;
  arbitrator_id = none;
  accepted_at = none;
  paid_at = none;
  completed_at = none;
  cancelled_at = none;
  disputed_at = none;
  funded_at = none;
  updated_at = 0;
  cancel_reason = none;
  refund_reason = none;
}
