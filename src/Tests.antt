-- ===== src/Tests.antt =====
-- Tests of the definitions on concrete data.
mod Deals
mod Payouts
mod Leases
mod Events
mod Amounts
mod Circuit
mod Natives
mod Jettons
mod Ledgers
mod Refunds
mod Fundings
