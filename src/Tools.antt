-- ===== src/Tools.antt =====
-- The tools that call the business service: one boundary for all of them.
pub mod Retry
pub mod Ledger
pub mod Execute
pub mod Delays
pub mod Attempts
pub mod Gates
pub mod Repeats
mod Tests
