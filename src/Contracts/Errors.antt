-- ===== src/Contracts/Errors.antt =====
-- The errors of backend/src/atlasflow/agents/contracts.py: one constructor for each `raise`, and
-- `invalid_field` for a constraint that a `Field` declares. The messages' texts are left out.
use mathlib.Core.Bool.{Bool, ◌&&◌}
use mathlib.Core.Option.{Option, none, some}
use atlas_flow_agent.Base.{ℕ, String, true, leb, text_length}

pub data ContractError : Type 0 where
  invalid_field : ContractError
  -- RunPolicy
  run_budget_below_turn_budget space_required space_not_allowed : ContractError
  -- ResearchTask
  capabilities_repeated bad_alternative_group alternative_is_mandatory : ContractError
  fresh_without_capability blank_criterion criteria_repeated : ContractError
  dependencies_repeated self_dependency bad_repair_targets repair_depends_on_target : ContractError
  -- validate_task_capabilities
  unknown_capabilities no_fresh_capability : (task_id : String) → ContractError
  -- ResearchPlan
  task_ids_repeated plan_version_differs unknown_dependencies unknown_repair : ContractError
  cyclic_dependencies bad_supplement_size : ContractError
  -- The fuel of the depth-first search, which the source does not have.
  out_of_fuel : ContractError
  -- SupplementBatch and PlanLineage
  batch_ids_repeated batch_version_differs base_version_differs rounds_not_contiguous :
      ContractError
  supplement_version_differs lineage_ids_repeated : ContractError
  -- ReviewContext
  group_repeated initial_supplemental_overlap completed_failed_overlap : ContractError
  partial_overlap blocked_overlap unknown_result_ids revision_exceeds_rounds : ContractError
  round_budget_exceeds_one ids_without_revision revision_without_ids : ContractError
  task_count_differs initial_count_policy supplement_count_policy expected_count : ContractError
  -- CritiqueDecision
  supplement_without_tasks tasks_without_supplement critique_ids_repeated : ContractError
  critique_version_differs replan_without_reason reason_without_replan : ContractError
  wrong_plan_version supplement_required no_round_left wrong_supplement_count : ContractError
  supplement_ids_known plan_limit_exceeded no_critical_issue no_matching_issue : ContractError
  no_blocked_task : ContractError
  -- QualityDecision, DraftVersion, ReportUpdateContext, ResearchResult, ExecutionMetrics
  quality_without_issues quality_without_instructions quality_without_critical : ContractError
  score_below_threshold accepted_with_critical draft_ids_repeated : ContractError
  section_ids_repeated blank_finding blank_limitation too_many_outcomes : ContractError
  finished_before_start : ContractError

-- `Field(ge=lo, le=hi)`
abbrev pub in_range : ℕ → ℕ → ℕ → Bool
in_range lo hi n = leb lo n && leb n hi

-- The same on a field that may be absent.
abbrev pub in_range? : ℕ → ℕ → Option ℕ → Bool
in_range? lo hi none = true
in_range? lo hi (some n) = in_range lo hi n

-- `Field(min_length=lo, max_length=hi)` on a text
abbrev pub text_in_range : ℕ → ℕ → String → Bool
text_in_range lo hi s = in_range lo hi (text_length s)
