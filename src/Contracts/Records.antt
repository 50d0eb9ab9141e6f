-- ===== src/Contracts/Records.antt =====
-- `AgentError`, `RouteRecord` and `ExecutionMetrics` of
-- backend/src/atlasflow/agents/contracts.py. Points in time are numbers.
use atlas_flow_agent.Base.{
  ℕ, ◌+◌, String, Bool, false, not, ◌&&◌, Option, none, some, ltb, leb, Outcome, ok, raise_if,
  nat_eq, string_eq, ◌>>◌,
}
use atlas_flow_agent.Contracts.Errors.{ContractError, in_range}

pub record AgentError : Type 0 where
  pub agent : String
  pub node : String
  pub code : String
  pub message : String
  pub retryable : Bool
  pub attempt : ℕ
  pub task_id : Option String
  pub plan_version : Option ℕ
  pub created_at : ℕ

pub record RouteRecord : Type 0 where
  pub from_node : String
  pub to_node : String
  pub reason : String
  pub decision : Option String
  pub plan_version : ℕ
  pub attempt : ℕ
  pub created_at : ℕ

pub record ExecutionMetrics : Type 0 where
  pub started_at : ℕ
  pub finished_at : Option ℕ
  pub duration_ms : Option ℕ
  pub total_tasks : ℕ
  pub successful_tasks : ℕ
  pub failed_tasks : ℕ
  pub partial_tasks : ℕ
  pub peak_concurrency : ℕ
  pub plan_versions : ℕ
  pub supplement_rounds : ℕ
  pub replan_count : ℕ
  pub revision_count : ℕ
  pub model_calls : ℕ
  pub tool_calls : ℕ

unfoldable pub metrics_fields_ok : ExecutionMetrics → Bool
metrics_fields_ok m =
    leb m.total_tasks 12
    && leb m.successful_tasks 12
    && leb m.failed_tasks 12
    && leb m.partial_tasks 12
    && leb m.peak_concurrency 3
    && in_range 1 2 m.plan_versions
    && leb m.supplement_rounds 1
    && leb m.replan_count 1
    && leb m.revision_count 2

-- `finished_at is not None and finished_at < started_at`
abbrev ends_early : Option ℕ → ℕ → Bool
ends_early none start = false
ends_early (some finish) start = ltb finish start

unfoldable pub validate_metrics : ExecutionMetrics → Outcome ContractError ExecutionMetrics
validate_metrics m = do
  raise_if (not (metrics_fields_ok m)) ContractError.invalid_field
  raise_if (ltb m.total_tasks (m.successful_tasks + m.failed_tasks + m.partial_tasks))
      ContractError.too_many_outcomes
  raise_if (ends_early m.finished_at m.started_at) ContractError.finished_before_start
  ok m
