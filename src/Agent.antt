-- ===== src/Agent.antt =====
-- The dynamic diagnosis: a model chooses read-only actions, and the nodes of a graph check them, run
-- them, and end the loop.
pub mod Actions
pub mod Equality
pub mod State
pub mod Decider
pub mod Merging
pub mod Nodes
pub mod Effects
pub mod Graph
pub mod Invariants
pub mod Planning
pub mod Checking
pub mod Acting
pub mod Saving
pub mod Ending
pub mod Guarantees
pub mod Decisions
pub mod Reach
mod Tests
