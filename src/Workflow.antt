-- ===== src/Workflow.antt =====
-- The deterministic part of order diagnosis: what is known of an order, the rules that find its
-- blocking stage, and the gaps in what is known.
pub mod Facts
pub mod Rules
pub mod Gaps
pub mod Generation
pub mod Diagnoses
pub mod Report
pub mod Reported
pub mod Generated
pub mod Conclusive
pub mod Conclusions
pub mod Diagnosed
pub mod Found
pub mod Completeness
pub mod Reviews
pub mod Stages
mod Tests
