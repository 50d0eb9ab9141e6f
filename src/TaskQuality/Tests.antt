-- ===== src/TaskQuality/Tests.antt =====
-- Runs of backend/src/atlasflow/agents/task_quality.py on the sample plan.
use atlas_flow_agent.Base.{
  ◌≤◌, ℕ, ◌≡◌, refl, ◌↔◌, ◌⊎◌, Bool, true, List, ◌∷◌, ok, for_each, contains, distinct, subset,
  disjoint, dedup, any, all, keep, string_eq, text_length, is_blank, is_digit, is_lower, is_upper,
  matches, is_space, has_content, join, clip, [],
}
use atlas_flow_agent.Contracts.Plan.{find_task}
use atlas_flow_agent.Contracts.Critique.{
  Severity, CritiqueDecision, CritiqueRoute, issue_fields_ok, decision_fields_ok,
  validate_route_payload, validate_decision,
}
use atlas_flow_agent.Contracts.Research.{assessment_fields_ok, ResearchResult, ResultOutcome}
use atlas_flow_agent.Contracts.Task.{is_code}
use atlas_flow_agent.Contracts.Samples.{
  first_task, plan, repaired_plan, context, supplement, result_of,
}
use atlas_flow_agent.TaskQuality.{
  execution_accepted, criteria_kept, repaired_by, repaired_task_ids, can_degrade_critic_review,
  is_optional_supplement, accept_noncritical_supplement, accepted_results, check_target,
  check_repair, is_uncovered, validate_local_repairs, has_substantive_text, check_assessment,
  covers_criteria, validate_task_result,
}
use atlas_flow_agent.TaskQuality.Repairs.{
  IsRepaired, RepairsAreOwned, repaired_task_ids_iff, validate_local_repairs-RepairsAreOwned,
}
use atlas_flow_agent.TaskQuality.Acceptance.{
  IsAcceptedNow, IsOptional, can_degrade_needs_acceptance, accept_noncritical_supplement_total,
}
use atlas_flow_agent.TaskQuality.Results.{ResultIsGrounded, validate_task_result-ResultIsGrounded}

-- What the tests run.
unfoldable program : Unit {0}
unfolding for_each contains distinct subset disjoint dedup any all keep text_length is_blank
    is_digit is_lower is_upper matches is_space has_content join clip find_task is_code
    issue_fields_ok decision_fields_ok validate_route_payload validate_decision execution_accepted
    criteria_kept repaired_by repaired_task_ids can_degrade_critic_review is_optional_supplement
    accept_noncritical_supplement check_target check_repair is_uncovered validate_local_repairs
    has_substantive_text check_assessment covers_criteria validate_task_result
program = tt

-- The first task and the repair of the second one are done.
abbrev results : List ResearchResult
results =
    result_of "a" ResultOutcome.complete
    ∷ result_of "b" ResultOutcome.partial
    ∷ result_of "c" ResultOutcome.complete
    ∷ []

repaired_task_ids_iff_example :
    (contains (repaired_task_ids repaired_plan results) "b" ≡ true)
    ↔ IsRepaired repaired_plan results "b"
repaired_task_ids_iff_example = repaired_task_ids_iff repaired_plan results "b"

repairs_second : repaired_task_ids repaired_plan results ≡ "b" ∷ []
unfolding program
repairs_second = refl

validate_local_repairs-RepairsAreOwned_example :
    RepairsAreOwned (supplement Severity.critical) plan context
unfolding program
validate_local_repairs-RepairsAreOwned_example =
    validate_local_repairs-RepairsAreOwned (supplement Severity.critical) plan context refl refl

can_degrade_needs_acceptance_example :
    (context.plan_version ≡ repaired_plan.plan_version)
    × (context.policy.required_supplement_rounds ≤ context.supplement_rounds_used)
    × (IsAcceptedNow repaired_plan results "b"
        ⊎ IsRepaired repaired_plan (accepted_results repaired_plan results) "b")
unfolding program
can_degrade_needs_acceptance_example =
    can_degrade_needs_acceptance repaired_plan results context "b" refl refl

accept_noncritical_supplement_total_example :
    (e : CritiqueDecision) × (accept_noncritical_supplement
        (supplement Severity.warning)
        plan
        results
        context
      ≡ ok e)
    × ((e ≡ supplement Severity.warning)
        ⊎ (IsOptional (supplement Severity.warning) plan results context
            × (e.decision ≡ CritiqueRoute.accept)
            × (e.supplemental_tasks ≡ [])
            × (e.issues ≡ (supplement Severity.warning).issues)))
unfolding program
accept_noncritical_supplement_total_example =
    accept_noncritical_supplement_total (supplement Severity.warning) plan results context refl

abbrev is_letter : ℕ → Bool
is_letter c = is_lower c

validate_task_result-ResultIsGrounded_example :
    ResultIsGrounded first_task (result_of "a" ResultOutcome.complete)
unfolding program assessment_fields_ok
validate_task_result-ResultIsGrounded_example =
    validate_task_result-ResultIsGrounded is_letter first_task
      (result_of "a" ResultOutcome.complete) true refl refl refl
