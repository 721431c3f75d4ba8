-- ===== src/Results/Trust.antt =====
-- What later runs of the services may do to an auction that is decided.
pub mod Submission
pub mod Decision
pub mod History
pub mod Kept
pub mod Stands
