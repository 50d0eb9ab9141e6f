-- ===== src/Knowledge.antt =====
-- The knowledge base of backend/src/atlasflow/knowledge: the records of its domain, the checks on a
-- whole-space build, and the repository that keeps spaces, versions, builds and jobs.
pub mod Models
pub mod BuildChecks
pub mod BuildContents
pub mod Repository
pub mod Versions
pub mod Builds
pub mod Generations
pub mod Jobs
pub mod Publishing
pub mod Released
pub mod Cancelling
pub mod Ended
pub mod Locking
pub mod Targets
pub mod Activation
pub mod Filing
pub mod JobParts
pub mod JobSteps
pub mod Claiming
mod Samples
mod Tests
