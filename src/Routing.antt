-- ===== src/Routing.antt =====
-- The router of a message: which business objects it is about.
pub mod Entities
pub mod Merge
pub mod Catalog
pub mod Decision
pub mod Router
pub mod Groups
pub mod Priority
pub mod Rivals
pub mod Message
pub mod Collection
pub mod Precedence
pub mod Questions
pub mod Dispatch
pub mod Totality
pub mod Consistency
pub mod Composition
pub mod Selection
pub mod Confirmable
pub mod Confirmation
mod Tests
mod DecisionTests
