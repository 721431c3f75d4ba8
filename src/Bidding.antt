-- ===== src/Bidding.antt =====
-- The bidding engine (apps/api/src/modules/bidding).
pub mod Rows
pub mod Validation
pub mod Tables
pub mod Idempotency
pub mod Service
