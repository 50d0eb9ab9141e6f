-- ===== src/Workflow/Tests.antt =====
-- A run of backend/src/atlasflow/agents/workflow.py on the sample plan: it is planned and started,
-- and its first task fails.
use atlas_flow_agent.Base.{
  ◌++◌, List, ℕ, String, ◌≡◌, refl, inl, inr, true, false, none, some, ◌∷◌, Outcome, ok, raise,
  for_each, contains, distinct, subset, disjoint, dedup, any, all, keep, string_eq, text_length,
  is_blank, join, [],
}
use atlas_flow_agent.Contracts.Policy.{default_policy}
use atlas_flow_agent.Contracts.Task.{
  supports_fresh, has_fresh_source, check_task_capabilities, validate_task_capabilities,
}
use atlas_flow_agent.Contracts.Plan.{
  find_task, deps_of, visit_each, visit, check_plan_task, search_cycles, validate_task_dag,
  plan_fields_ok, validate_plan,
}
use atlas_flow_agent.Contracts.Lineage.{active_plan, rounds_from, validate_lineage}
use atlas_flow_agent.Contracts.Records.{AgentError}
use atlas_flow_agent.Contracts.Samples.{first_task, second_task, plan, lineage, catalog}
use atlas_flow_agent.TaskQuality.{criteria_kept, repaired_by, repaired_task_ids}
use atlas_flow_agent.Workflow.{
  Settings, AgentState, put_result, merge_results, current_results, insert_sorted, replace_version,
}
use atlas_flow_agent.Workflow.Schedule.{
  failures, succeeded, terminal_failures, is_ready, ready_tasks, schedule_wave, dispatch_wave,
}
use atlas_flow_agent.Workflow.Progress.{IsStuck, schedule_wave-IsStuck}
use atlas_flow_agent.Workflow.Planning.{
  PlanningError, check_initial_plan, planner, after_supervisor,
}
use atlas_flow_agent.Workflow.Bounds.{absorb, first_plan, scheduled, researched, gated, IsBounded}
use atlas_flow_agent.Workflow.Merging.{find_result, latest, IsKeyed, merge_results-latest}
use atlas_flow_agent.Workflow.Facts.Groups.{review_facts-check_ids}
use atlas_flow_agent.Workflow.Schedule.{review_facts}
use atlas_flow_agent.Contracts.Review.{check_ids}
use atlas_flow_agent.Contracts.Samples.{result_of}
use atlas_flow_agent.Contracts.Research.{ResultOutcome, ResearchResult}
use atlas_flow_agent.Workflow.Decisions.{research_gate}
use atlas_flow_agent.Workflow.Bounds.Runs.{Reaches-IsBounded}

-- What the tests run.
unfoldable program : Unit {0}
unfolding for_each contains distinct subset disjoint dedup any all keep text_length is_blank
    supports_fresh has_fresh_source check_task_capabilities validate_task_capabilities find_task
    deps_of visit_each visit check_plan_task search_cycles validate_task_dag plan_fields_ok
    validate_plan active_plan rounds_from validate_lineage criteria_kept repaired_by
    repaired_task_ids put_result merge_results current_results insert_sorted replace_version
    failures succeeded terminal_failures is_ready ready_tasks schedule_wave dispatch_wave
    check_initial_plan planner absorb join after_supervisor
program = tt

abbrev settings : Settings
settings = record {
  max_initial_tasks = 5;
  max_supplement_rounds = 1;
  max_supplement_tasks = 2;
  max_tasks_per_plan = 7;
  max_replans = 1;
  quorum_ratio = 5_000;
  accept_partial_results = false;
  quality_relaxed_review = true;
}

abbrev fresh : AgentState
fresh = record {
  execution_mode = "research";
  auto_approve = true;
  policy = default_policy;
  plan = plan;
  plans = [];
  plan_lineage = lineage;
  plan_lineages = [];
  research_results = [];
  critique_history = [];
  quality_history = [];
  review_contexts = [];
  route_history = [];
  errors = [];
  warnings = [];
  supplement_rounds = 0;
  replan_count = 0;
  revision_count = 0;
  next_plan_version = 1;
  ready_tasks = [];
  synthesis_mode = "fresh";
  requested_final_status = none;
  final_status = none;
  fatal_error = none;
  delivery_fallback_reason = "";
}

abbrev state_of : Outcome PlanningError AgentState → AgentState
state_of (ok s) = s
state_of (raise e) = fresh

abbrev planned_state : AgentState
planned_state = state_of (planner catalog 0 settings fresh plan)

abbrev failure : AgentError
failure = record {
  agent = "researcher";
  node = "researcher";
  code = "research_failed";
  message = "no source";
  retryable = false;
  attempt = 2;
  task_id = some "a";
  plan_version = some 1;
  created_at = 1;
}

abbrev failed_state : AgentState
failed_state = absorb [] (failure ∷ []) (schedule_wave 1 planned_state)

starts_first : ready_tasks planned_state ≡ first_task ∷ []
unfolding program
starts_first = refl

schedule_wave-IsStuck_example : IsStuck failed_state.plan.tasks (terminal_failures failed_state) "b"
unfolding program
schedule_wave-IsStuck_example =
    schedule_wave-IsStuck 2 failed_state refl refl second_task (inr (inl refl)) refl

abbrev no_percent : ℕ → String
no_percent n = "50%"

Reaches-IsBounded_example :
    IsBounded settings (research_gate no_percent 2 settings false failed_state)
unfolding program
Reaches-IsBounded_example =
    Reaches-IsBounded no_percent catalog settings
      (research_gate no_percent 2 settings false failed_state)
      (gated 2 false (
        researched [] (failure ∷ []) (
          scheduled 1 (
            first_plan {s = fresh} 0 plan
              (record { first_node = refl; next = refl; replans = refl; rounds = refl }) refl))))

-- The second attempt at the first task replaces the first one.
abbrev old_results : List ResearchResult
old_results = result_of "a" ResultOutcome.partial ∷ result_of "b" ResultOutcome.complete ∷ []

abbrev new_results : List ResearchResult
new_results = result_of "a" ResultOutcome.complete ∷ []

merge_results-latest_example :
    (find_result 1 "a" (merge_results old_results new_results)
      ≡ latest 1 "a" (old_results ++ new_results))
    × IsKeyed (merge_results old_results new_results)
merge_results-latest_example = merge_results-latest old_results new_results 1 "a"

replaces_first :
    find_result 1 "a" (merge_results old_results new_results)
    ≡ some (result_of "a" ResultOutcome.complete)
unfolding program
replaces_first = refl

abbrev done_state : AgentState
done_state = absorb old_results [] (schedule_wave 1 planned_state)

done-IsBounded : IsBounded settings done_state
unfolding program
done-IsBounded = Reaches-IsBounded no_percent catalog settings done_state (
    researched old_results [] (
      scheduled 1 (
        first_plan {s = fresh} 0 plan
          (record { first_node = refl; next = refl; replans = refl; rounds = refl }) refl)))

review_facts-check_ids_example : check_ids (review_facts settings done_state) ≡ ok tt
unfolding program
review_facts-check_ids_example =
    review_facts-check_ids settings done_state done-IsBounded (refl, (refl, tt))
