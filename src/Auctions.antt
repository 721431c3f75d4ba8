-- ===== src/Auctions.antt =====
-- Auctions (apps/api/src/modules/auctions): the table of transitions, the rows, and the lifecycle that
-- moves an auction from one status to the next. Drafting and listing are not modelled.
pub mod Transitions
pub mod Rows
pub mod Lifecycle
