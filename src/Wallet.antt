-- ===== src/Wallet.antt =====
-- The wallet module (apps/api/src/modules/wallet): the rows, the ledger's one way to move money, the
-- service around it and the reconciliation that audits it.
pub mod Rows
pub mod Repository
pub mod Ledger
pub mod Invariant
pub mod Service
pub mod Reconciliation
mod Tests
