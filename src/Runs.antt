-- ===== src/Runs.antt =====
-- The run of one request of a user: its row, its state machine, and what others may rely on.
pub mod Record
pub mod Service
pub mod Operations
pub mod Diagram
pub mod Kept
pub mod Changes
pub mod Safety
pub mod OperationSafety
pub mod Guarantees
mod Tests
