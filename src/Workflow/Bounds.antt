-- ===== src/Workflow/Bounds.antt =====
-- Runs of the graph of backend/src/atlasflow/agents/workflow.py that start at the planner, node by
-- node. The nodes may follow each other in any order, which includes every path of the graph from
-- there. A run that revises a report starts at the synthesizer and never gets to the planner.
pub mod Plans
pub mod Gate
pub mod Critic
pub mod Quality
pub mod Runs
use atlas_flow_agent.Base.{
  ℕ, ◌+◌, ◌≤◌, String, ◌≡◌, ap, Bool, List, ◌++◌, arith, Outcome, ok, nat_eq, string_eq,
}
use mathlib.Core.List.{append-nil}
use atlas_flow_agent.Contracts.Task.{Capability}
use atlas_flow_agent.Contracts.Plan.{ResearchPlan, validate_plan, validate_task_dag}
use atlas_flow_agent.Contracts.Lineage.{revision, joined_plan}
use atlas_flow_agent.Contracts.Critique.{CritiqueDecision}
use atlas_flow_agent.Contracts.Quality.{QualityDecision}
use atlas_flow_agent.Contracts.Research.{ResearchResult}
use atlas_flow_agent.Contracts.Records.{AgentError}
use atlas_flow_agent.Workflow.{Settings, AgentState, merge_results}
use atlas_flow_agent.Workflow.Schedule.{schedule_wave, wave_join}
use atlas_flow_agent.Workflow.Decisions.{research_gate}
use atlas_flow_agent.Workflow.Critic.{critic}
use atlas_flow_agent.Workflow.QualityGate.{QualityError, QualityLimits, quality_gate}
use atlas_flow_agent.Workflow.Planning.{Response, new_lineage, planner, approval, after_supervisor}

-- The researchers of a wave hand in results and errors.
unfoldable pub absorb : List ResearchResult → List AgentError → AgentState → AgentState
unfolding merge_results
absorb results errors s = record s {
  research_results = merge_results s.research_results results;
  errors = s.errors ++ errors;
}

-- A node that leaves the plan and its lineage alone.
pub record KeepsPlan (s s' : AgentState) : Type 0 where
  pub plan : s'.plan ≡ s.plan
  pub lineage : s'.plan_lineage ≡ s.plan_lineage
  pub rounds : s'.supplement_rounds ≡ s.supplement_rounds

-- A run that starts at the planner: its first plan is version 1, before any other round.
pub record IsFresh (s : AgentState) : Type 0 where
  pub first_node : after_supervisor s.execution_mode ≡ "planner"
  pub next : s.next_plan_version ≡ 1
  pub replans : s.replan_count ≡ 0
  pub rounds : s.supplement_rounds ≡ 0

module _ (percent : ℕ → String) (catalog : List Capability) (settings : Settings) where
  -- The states that such runs reach.
  pub data Reaches : AgentState → Type 0 where
    first_plan :
        {s s' : AgentState} (now : ℕ) (p : ResearchPlan)
        → IsFresh s
        → planner catalog now settings s p ≡ ok s'
        → Reaches s'
    planned :
        {s s' : AgentState} (now : ℕ) (p : ResearchPlan)
        → Reaches s
        → planner catalog now settings s p ≡ ok s'
        → Reaches s'
    approved :
        {s s' : AgentState} (now : ℕ) (r : Response)
        → Reaches s
        → approval catalog now settings s r ≡ ok s'
        → Reaches s'
    scheduled : {s : AgentState} (now : ℕ) → Reaches s → Reaches (schedule_wave now s)
    researched :
        {s : AgentState} (results : List ResearchResult) (errors : List AgentError)
        → Reaches s
        → Reaches (absorb results errors s)
    joined : {s : AgentState} (now : ℕ) → Reaches s → Reaches (wave_join now s)
    gated :
        {s : AgentState} (now : ℕ) (tools_empty : Bool)
        → Reaches s
        → Reaches (research_gate percent now settings tools_empty s)
    reviewed :
        {s s' : AgentState} (now : ℕ) (tools_empty : Bool) (answer : CritiqueDecision)
        → Reaches s
        → critic catalog now settings tools_empty s answer ≡ ok s'
        → Reaches s'
    judged :
        {s s' : AgentState} (calibrate : QualityDecision → Outcome QualityError QualityDecision)
        (now : ℕ) (limits : QualityLimits) (tools_empty : Bool) (draft_version : ℕ)
        (answer : QualityDecision)
        → Reaches s
        → quality_gate calibrate now settings limits tools_empty draft_version s answer ≡ ok s'
        → Reaches s'
    -- The synthesizer, the finalizer, and the update of a node that failed, write no entry of these.
    written :
        {s s' : AgentState}
        → Reaches s
        → KeepsPlan s s'
        → s'.replan_count ≡ s.replan_count
        → s'.next_plan_version ≡ s.next_plan_version
        → Reaches s'

-- The plan is valid and is the one that its lineage describes, and the rounds are within the
-- settings' budgets, with one version of the plan for each round of planning.
pub record IsBounded (settings : Settings) (s : AgentState) : Type 0 where
  pub plan_valid : validate_plan s.plan ≡ ok s.plan
  pub lineage_plan : joined_plan s.plan_lineage ≡ s.plan
  pub replans : s.replan_count ≤ settings.max_replans
  pub rounds : s.supplement_rounds ≤ settings.max_supplement_rounds
  pub revisions : revision s.plan_lineage ≤ s.supplement_rounds
  pub version : s.plan.plan_version ≤ s.next_plan_version
  pub next : s.next_plan_version ≤ s.replan_count + 1

pub validate_plan-same : (p q : ResearchPlan) → validate_plan p ≡ ok q → p ≡ q
unfolding validate_plan validate_task_dag
validate_plan-same p q h = ground arith

pub joined_plan-new_lineage : (p : ResearchPlan) → joined_plan (new_lineage p) ≡ p
joined_plan-new_lineage p = ap (λ ts. record p { tasks = ts }) (append-nil p.tasks)

-- What the bound says of, apart from the plan itself.
abbrev pub Counts : Settings → AgentState → Type 0
Counts settings s =
    (s.replan_count ≤ settings.max_replans)
    × (s.supplement_rounds ≤ settings.max_supplement_rounds)
    × (s.next_plan_version ≤ s.replan_count + 1)

pub KeepsPlan-IsBounded :
    (settings : Settings) (s s' : AgentState)
    → KeepsPlan s s'
    → IsBounded settings s
    → s'.replan_count ≤ settings.max_replans
    → s.plan.plan_version ≤ s'.next_plan_version
    → s'.next_plan_version ≤ s'.replan_count + 1
    → IsBounded settings s'
KeepsPlan-IsBounded settings s s' e b replans v next = record {
  plan_valid = rw e.plan b.plan_valid;
  lineage_plan = rw (e.plan, e.lineage) b.lineage_plan;
  replans = replans;
  rounds = rw e.rounds b.rounds;
  revisions = rw (e.lineage, e.rounds) b.revisions;
  version = rw e.plan v;
  next = next;
}
