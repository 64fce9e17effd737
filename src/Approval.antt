-- ===== src/Approval.antt =====
-- Human confirmation of a write: the approval record, its table and its life
-- (agent-service/app/services/approval_lifecycle.py and what it works on).
pub mod Draft
pub mod Record
pub mod Store
pub mod Service
pub mod Drafting
pub mod Diagram
pub mod Rows
pub mod Safety
pub mod DraftSafety
pub mod Guarantees
pub mod Outcomes
pub mod Moves
pub mod Execution
mod Tests
