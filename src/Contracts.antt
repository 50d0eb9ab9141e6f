-- ===== src/Contracts.antt =====
-- backend/src/atlasflow/agents/contracts.py: the values that cross an agent's boundary, and the
-- checks that their classes make when a value is built.
pub mod Errors
pub mod Policy
pub mod Task
pub mod Plan
pub mod Lineage
pub mod Review
pub mod Critique
pub mod Quality
pub mod Research
pub mod Records
pub mod Samples
mod Tests
