-- ===== src/Lib.antt =====
-- The escrow service of the Telegram guarantor: the parts of it that decide over a deal and its money.
--
-- A deal (services/user-service/src/modules/deal) goes through the states of a machine; a payment funds
-- it under a lease (modules/payment), on settlement terms that a policy admits; when it ends, a payout
-- plan (modules/escrow/adapters) holds the transfers that settle it, and each of their attempts; a
-- circuit breaker (modules/safety) stops funding and egress when the books and the chain disagree. What the
-- contracts have done on the chain is validated, recorded in a ledger (modules/ops) and applied to the
-- deal (modules/deal). Events for other parts wait in an outbox (modules/ops).
-- Amounts and TON addresses come in as texts at every border.
--
-- Common: Booleans and tests, lists over the native numbers, results of code that throws, texts as code
--   units, `String.prototype.trim`.
-- Decimal: `BigInt(text)` and `n.toString()`, used by Money, Payout and Breaker.
-- Money: modules/escrow/usdt-amount.ts (`parseUsdtToWei` on texts), `nanoToDecimalTon` of
--   modules/ops/money-ledger.service.ts and `atomicToDecimal` of
--   modules/deal/ton-jetton-transactional-application.service.ts.
-- Address: modules/escrow/adapters/ton-address.ts, `normalizeTonAddress` with its CRC16.
-- Deal: modules/deal/enums/deal.enum.ts and the fields of entities/deal.entity.ts that the machine uses.
--   Deal.Machine is fsm/deal-state-machine.ts: `transitions` is the static table in its order,
--   `can_transition`, `transition`, `available_transitions`, `is_final_status` and `is_active_status` are
--   the methods. Deal.Entity has the entity's own tests on its status.
-- Settlement: modules/deal/settlement-policy.ts and modules/payment/settlement-payment-policy.ts.
-- Lease: modules/payment/payment-operation.service.ts and its entity. Lease.Statements has the SQL
--   statements as functions on the list of rows, Lease.Claims the methods as chains of statements.
-- Outbox: modules/ops/outbox.service.ts and its entity; Outbox.Batches has what a batch takes and leaves,
--   Outbox.Tries what claims and recorded failures do to one event.
-- Payout: modules/escrow/adapters/ton-jetton-payout-state.ts. Payout.Create, Payout.Advance and
--   Payout.Validate have `createTonJettonPayoutPlan`, `prepareTonJettonPayoutAttempt` with
--   `applyTonJettonPayoutObservation`, and `validatedClone`.
-- Breaker: modules/safety/settlement-circuit-breaker.service.ts and its entity.
-- Ledger: modules/ops/money-ledger.service.ts and its entity: the entries that fund an escrow, and in
--   Ledger.Settlement those that end a native one.
-- Native: the native TON escrow. modules/deal/ton-native-lifecycle.ts is Native.Payload, the validators of
--   ton-native-lifecycle-validator.ts are Native.Validate and Native.Payouts, that of
--   ton-center-v3.service.ts is Native.Funding. Native.Books has the entry that
--   `applyLockedEvent` of ton-native-lifecycle-ingestion.service.ts hands to Ledger.
-- Jetton: modules/deal/ton-jetton-transactional-application.service.ts and its entities. Jetton.Shape is
--   `validateMovementShape`, Jetton.Postings `applyLedger`, Jetton.Apply the rest of `applyLocked`, which
--   reads the statuses of Deal, the breakers of Breaker and the entries of Ledger. Jetton.Intents is
--   `createLocked` of ton-jetton-action-intent.service.ts; Jetton.Undelivered puts both beside each other.
-- Tests: the definitions and the theorems on concrete data.
--
-- Code that throws returns a result whose error names the throw. Dates are numbers of milliseconds, the
-- times of the chain numbers of seconds, and each call of the clock is an argument. A table is a list of
-- rows; a row is found by its key. Texts are lists of UTF-16 code units.
--
-- Cells, slices and bags of cells belong to the package @ton/ton: they are the parameter `Cells` of
-- Native, with the documented laws of storing and loading in `CellLaws`, and a toy instance in Tests. The
-- columns of the native escrow that hold decimal texts are numbers there; a validation that rejects is an
-- error with its reason code. The amount of a ledger entry is the text that is written; where a repeated
-- Jetton posting reads it, it is what the column, a decimal(36,18), gives back (`column_text`). A directive of Jetton is what the verifier of the evidence has returned. An
-- error in a transaction rolls it back, so it carries no state; the ledger's methods for the native
-- escrow, which catch a taken key between two entries, return the entries with the error.
--
-- Concurrency: a statement on a table is one step, and the statements of other processes between two
-- steps of `claimFunding` are a list of events of the model. Row locks and transactions are the
-- database's: a method that holds its lock throughout is one function.
--
-- Loops are structural recursion. The two that are not in the source have a bound of their own: the
-- digits of `n` are printed with `n + 1` rounds, which is enough since each round divides by ten, and the
-- retries of `claimFunding` count down from its maximum.
--
-- Not modelled: network, bot and user interfaces; the providers and the watchers of the chains; the
-- contracts, which are in other languages; floating-point arithmetic (the fee models and the numeric
-- branch of `parseUsdtToWei`); the timer of `withLease`; logging; the signatures and hashes of the evidence
-- that a Jetton event carries; the parsing of the payload of an intent; the polling, the claims and the
-- recovery around the native escrow; the reconciliation of the ledger; arbitration;
-- `deal.service.ts`, which composes repositories and messages.
pub mod Common
pub mod Decimal
pub mod Money
pub mod Address
pub mod Payout
pub mod Lease
pub mod Outbox
pub mod Native
pub mod Jetton
pub mod Ledger
pub mod Settlement
pub mod Breaker
pub mod Deal
pub mod Tests
