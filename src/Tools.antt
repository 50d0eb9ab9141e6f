-- ===== src/Tools.antt =====
-- How agents call tools: the registry of backend/src/atlasflow/tools/registry.py, the budget of
-- backend/src/atlasflow/agents/tool_runtime.py and the guard of agents/tool_failures.py.
pub mod Budget
pub mod Failures
pub mod Registry
pub mod Retries
mod Tests
