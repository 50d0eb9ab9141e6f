-- ===== src/Contracts/Samples.antt =====
-- Small values of backend/src/atlasflow/agents/contracts.py for the tests: a plan of two tasks, its
-- review and the decisions about it.
use atlas_flow_agent.Base.{String, true, none, some, List, ◌∷◌, []}
use atlas_flow_agent.Contracts.Policy.{default_policy}
use atlas_flow_agent.Contracts.Task.{ResearchTask, Capability}
use atlas_flow_agent.Contracts.Plan.{ResearchPlan}
use atlas_flow_agent.Contracts.Lineage.{PlanLineage}
use atlas_flow_agent.Contracts.Review.{ReviewContext}
use atlas_flow_agent.Contracts.Critique.{
  ReviewIssue, Severity, Scope, CritiqueDecision, CritiqueRoute,
}
use atlas_flow_agent.Contracts.Quality.{QualityDecision, QualityRoute}
use atlas_flow_agent.Contracts.Research.{ResearchResult, ResultOutcome, AssessmentStatus}

abbrev pub first_task : ResearchTask
first_task = record {
  task_id = "a";
  title = "Sources";
  objective = "Find the sources";
  success_criteria = "found" ∷ [];
  priority = 1;
  dependencies = [];
  repairs_task_ids = [];
  requires_fresh_data = true;
  required_capabilities = "web_search" ∷ [];
  capability_alternatives = [];
  plan_version = 1;
}

abbrev pub second_task : ResearchTask
second_task = record first_task { task_id = "b"; title = "Comparison"; dependencies = "a" ∷ [] }

-- A repair of the second task.
abbrev pub repair_task : ResearchTask
repair_task = record first_task { task_id = "c"; title = "Repair"; repairs_task_ids = "b" ∷ [] }

abbrev pub plan : ResearchPlan
plan = record { plan_version = 1; rationale = "two steps"; tasks = first_task ∷ second_task ∷ [] }

-- The plan with the repair.
abbrev pub repaired_plan : ResearchPlan
repaired_plan = record plan { tasks = first_task ∷ second_task ∷ repair_task ∷ [] }

abbrev pub catalog : List Capability
catalog = record { id = "web_search"; supports_fresh_data = true } ∷ []

abbrev pub lineage : PlanLineage
lineage = record { plan_version = 1; base_plan = plan; supplements = [] }

-- The first task is done, the second one in parts.
abbrev pub context : ReviewContext
context = record {
  review_round = 1;
  plan_version = 1;
  plan_revision = 0;
  initial_task_ids = "a" ∷ "b" ∷ [];
  supplemental_task_ids = [];
  completed_task_ids = "a" ∷ [];
  failed_task_ids = [];
  partial_task_ids = "b" ∷ [];
  repaired_task_ids = [];
  blocked_task_ids = [];
  supplement_rounds_used = 0;
  supplement_rounds_remaining = 1;
  current_task_count = 2;
  expected_task_count = 2;
  policy = default_policy;
}

abbrev pub issue : Severity → ReviewIssue
issue severity = record {
  severity = severity;
  code = "gap";
  message = "a gap";
  task_id = some "b";
  recommendation = "close it";
  scope = Scope.core;
  paragraph_ids = [];
  source_numbers = [];
  reported_severity = none;
}

-- A supplement that repairs the second task.
abbrev pub supplement : Severity → CritiqueDecision
supplement severity = record {
  decision = CritiqueRoute.supplement;
  plan_version = 1;
  rationale = "a gap is left";
  issues = issue severity ∷ [];
  supplemental_tasks = repair_task ∷ [];
  replan_reason = none;
}

abbrev pub revise : QualityDecision
revise = record {
  decision = QualityRoute.revise;
  plan_version = 1;
  draft_version = 1;
  score = 40;
  rationale = "unclear";
  issues = issue Severity.warning ∷ [];
  revision_instructions = "name the sources" ∷ [];
  baseline_coverage = [];
}

-- The result of a task, with an assessment of its only criterion.
abbrev pub result_of : String → ResultOutcome → ResearchResult
result_of task_id outcome = record {
  result_id = task_id;
  task_id = task_id;
  plan_version = 1;
  summary = "what was found";
  findings = "a finding" ∷ [];
  limitations = [];
  confidence = 9_000;
  assessments =
      record {
        criterion_index = 1;
        status = AssessmentStatus.met;
        finding_indices = 1 ∷ [];
        source_ids = [];
        reason = "it was found";
      }
      ∷ [];
  outcome = outcome;
  execution_accepted = some true;
  reported_confidence = none;
  criteria_coverage = some 10_000;
  attempt = 1;
  duration_ms = 5;
}
