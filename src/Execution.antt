-- ===== src/Execution.antt =====
-- backend/src/atlasflow/execution: the durable journal of a run. A run's bundle holds its control
-- record, its invocations, its commands and its outbox; every operation changes one bundle.
pub mod Bundle
pub mod Claims
pub mod Journal
pub mod Outbox
pub mod Steps
pub mod Fencing
pub mod Budget
pub mod Replay
pub mod Recovery
mod Tests
