-- ===== src/Results.antt =====
-- The results of auctions (apps/api/src/modules/results).
pub mod Lub
pub mod Rows
pub mod Checksum
pub mod Repository
pub mod Close
pub mod Refunds
pub mod Verify
pub mod Workflow
pub mod Trust
mod Lamp
mod Tests
