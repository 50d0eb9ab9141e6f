-- ===== src/Contracts/Tests.antt =====
-- Runs of backend/src/atlasflow/agents/contracts.py on the sample plan.
use atlas_flow_agent.Base.{
  String, ◌≡◌, refl, ◌⊎◌, ◌≢◌, true, List, ◌∷◌, ◌++◌, Outcome, ok, raise, for_each, contains,
  distinct, subset, disjoint, dedup, any, all, keep, string_eq, text_length, is_blank, is_digit,
  is_lower, is_upper, matches, is_space, has_content, [],
}
use atlas_flow_agent.Contracts.Policy.{
  is_space_name, is_space_name?, policy_fields_ok, validate_tool_budget, validate_policy,
}
use atlas_flow_agent.Contracts.Task.{
  is_code, is_capability, task_fields_ok, check_alternatives, validate_dependencies, validate_task,
  supports_fresh, has_fresh_source, check_task_capabilities, validate_task_capabilities,
}
use atlas_flow_agent.Contracts.Plan.{
  deps_of, visit_each, visit, check_plan_task, search_cycles, validate_task_dag, plan_fields_ok,
  validate_plan,
}
use atlas_flow_agent.Contracts.Plan.Acyclic.{IsAcyclic}
use atlas_flow_agent.Contracts.Plan.Complete.{IsWellFormed, validate_plan_decides}
use atlas_flow_agent.Contracts.Lineage.{
  batch_fields_ok, validate_batch, active_plan, rounds_from, validate_lineage, with_supplement,
  PlanLineage, revision, joined_plan, initial_task_ids, supplemental_task_ids,
}
use atlas_flow_agent.Contracts.Lineage.Growth.{with_supplement_grows}
use atlas_flow_agent.Contracts.Errors.{ContractError}
use atlas_flow_agent.Contracts.Review.{context_fields_ok, check_ids, check_counts, validate_context}
use atlas_flow_agent.Contracts.Review.Sound.{IdsAreSorted, CountsAreRight, validate_context_sound}
use atlas_flow_agent.Contracts.Critique.{
  Severity, issue_fields_ok, decision_fields_ok, validate_route_payload, validate_decision,
  check_supplement, check_replan, validate_for,
}
use atlas_flow_agent.Contracts.Critique.Sound.{DecisionIsSound, validate_for-DecisionIsSound}
use atlas_flow_agent.Contracts.Quality.{
  quality_fields_ok, coverage_fields_ok, validate_for_execution, validate_acceptance_threshold,
  validate_quality,
}
use atlas_flow_agent.Contracts.Quality.Sound.{
  QualityIsActionable, validate_quality-QualityIsActionable,
}
use atlas_flow_agent.Contracts.Samples.{repair_task, plan, lineage, context, supplement, revise}

-- What the tests run.
unfoldable program : Unit {0}
unfolding for_each contains distinct subset disjoint dedup any all keep text_length is_blank
    is_digit is_lower is_upper matches is_space has_content is_space_name is_space_name?
    policy_fields_ok validate_tool_budget validate_policy is_code is_capability task_fields_ok
    check_alternatives validate_dependencies validate_task supports_fresh has_fresh_source
    check_task_capabilities validate_task_capabilities deps_of visit_each visit check_plan_task
    search_cycles validate_task_dag plan_fields_ok validate_plan batch_fields_ok validate_batch
    active_plan rounds_from validate_lineage with_supplement context_fields_ok check_ids
    check_counts validate_context issue_fields_ok decision_fields_ok validate_route_payload
    validate_decision check_supplement check_replan validate_for quality_fields_ok
    coverage_fields_ok validate_for_execution validate_acceptance_threshold validate_quality
program = tt

plan_valid : validate_plan plan ≡ ok plan
unfolding program
plan_valid = refl

validate_plan_decides_example :
    (IsWellFormed plan × IsAcyclic plan.tasks × (validate_plan plan ≡ ok plan))
    ⊎ ((IsWellFormed plan
          × (¬ IsAcyclic plan.tasks)
          × (validate_plan plan ≡ raise ContractError.cyclic_dependencies))
        ⊎ ((¬ IsWellFormed plan) × (validate_plan plan ≢ ok plan)))
validate_plan_decides_example = validate_plan_decides plan

abbrev take_first : List String → String
take_first [] = ""
take_first (x ∷ xs) = x

abbrev lineage_of : Outcome ContractError PlanLineage → PlanLineage
lineage_of (ok l) = l
lineage_of (raise e) = lineage

abbrev grown : PlanLineage
grown = lineage_of (with_supplement lineage (repair_task ∷ []) "a gap is left")

with_supplement_grows_example :
    (revision lineage ≡ 0)
    × (revision grown ≡ 1)
    × (grown.base_plan ≡ lineage.base_plan)
    × ((joined_plan grown).tasks ≡ (joined_plan lineage).tasks ++ repair_task ∷ [])
    × (distinct (initial_task_ids grown ++ supplemental_task_ids grown) ≡ true)
    × IsAcyclic (joined_plan grown).tasks
unfolding program
with_supplement_grows_example =
    with_supplement_grows lineage grown (repair_task ∷ []) "a gap is left" refl

validate_context_sound_example : (context ≡ context) × IdsAreSorted context × CountsAreRight context
unfolding program
validate_context_sound_example = validate_context_sound context context refl

validate_for-DecisionIsSound_example :
    (supplement Severity.critical ≡ supplement Severity.critical)
    × DecisionIsSound (supplement Severity.critical) context
unfolding program
validate_for-DecisionIsSound_example =
    validate_for-DecisionIsSound (supplement Severity.critical) (supplement Severity.critical)
      context refl

validate_quality-QualityIsActionable_example :
    (revise ≡ revise) × QualityIsActionable revise revise.decision
unfolding program
validate_quality-QualityIsActionable_example =
    validate_quality-QualityIsActionable revise revise revise refl refl
