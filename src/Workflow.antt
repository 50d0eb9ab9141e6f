-- ===== src/Workflow.antt =====
-- The state and the reducers of backend/src/atlasflow/agents/workflow.py, and the helpers that
-- read it.
pub mod Merging
pub mod Schedule
pub mod Progress
pub mod Decisions
pub mod Planning
pub mod Critic
pub mod QualityGate
pub mod Bounds
pub mod Facts
mod Tests
use atlas_flow_agent.Base.{
  ℕ, String, Bool, not, ◌&&◌, Option, List, ◌∷◌, ◌++◌, ltb, eqb, if◌then◌else◌, ◌==◌, nat_eq,
  string_eq, contains, dedup, keep, [],
}
use atlas_flow_agent.Contracts.Policy.{RunPolicy}
use atlas_flow_agent.Contracts.Task.{ResearchTask}
use atlas_flow_agent.Contracts.Plan.{ResearchPlan}
use atlas_flow_agent.Contracts.Lineage.{PlanLineage}
use atlas_flow_agent.Contracts.Review.{ReviewContext}
use atlas_flow_agent.Contracts.Critique.{CritiqueDecision}
use atlas_flow_agent.Contracts.Quality.{QualityDecision}
use atlas_flow_agent.Contracts.Research.{ResearchResult}
use atlas_flow_agent.Contracts.Records.{AgentError, RouteRecord}
use atlas_flow_agent.TaskQuality.{repaired_task_ids}

-- What the constructor of the workflow fixes. The quorum counts ten-thousandths.
pub record Settings : Type 0 where
  pub max_initial_tasks : ℕ
  pub max_supplement_rounds : ℕ
  pub max_supplement_tasks : ℕ
  pub max_tasks_per_plan : ℕ
  pub max_replans : ℕ
  pub quorum_ratio : ℕ
  pub accept_partial_results : Bool
  pub quality_relaxed_review : Bool

abbrev pub report_first : Settings → Bool
report_first s = s.accept_partial_results && s.quality_relaxed_review

-- The entries that the scheduler, the gate and the critic read and write, once there is a plan.
pub record AgentState : Type 0 where
  pub execution_mode : String
  pub auto_approve : Bool
  pub policy : RunPolicy
  pub plan : ResearchPlan
  pub plans : List ResearchPlan
  pub plan_lineage : PlanLineage
  pub plan_lineages : List PlanLineage
  pub research_results : List ResearchResult
  pub critique_history : List CritiqueDecision
  pub quality_history : List QualityDecision
  pub review_contexts : List ReviewContext
  pub route_history : List RouteRecord
  pub errors : List AgentError
  pub warnings : List String
  pub supplement_rounds : ℕ
  pub replan_count : ℕ
  pub revision_count : ℕ
  pub next_plan_version : ℕ
  pub ready_tasks : List ResearchTask
  pub synthesis_mode : String
  pub requested_final_status : Option String
  pub final_status : Option String
  pub fatal_error : Option String
  pub delivery_fallback_reason : String

abbrev pub is_same_result : ResearchResult → ResearchResult → Bool
is_same_result a b = eqb a.plan_version b.plan_version && a.task_id == b.task_id

-- `merged[(item.plan_version, item.task_id)] = item`
unfoldable pub put_result : List ResearchResult → ResearchResult → List ResearchResult
put_result [] item = item ∷ []
put_result (r ∷ rs) item =
    let rest = put_result rs item in if is_same_result r item then item ∷ rs else r ∷ rest

abbrev pub put_results : List ResearchResult → List ResearchResult → List ResearchResult
put_results merged [] = merged
put_results merged (r ∷ rs) = put_results (put_result merged r) rs

-- `_merge_results`: one result for each version of the plan and task, the latest one.
unfoldable pub merge_results : List ResearchResult → List ResearchResult → List ResearchResult
unfolding put_result
merge_results current incoming = put_results (put_results [] current) incoming

-- `_merge_warnings`
unfoldable pub merge_warnings : List String → List String → List String
unfolding dedup
merge_warnings current incoming = dedup (current ++ incoming)

-- `_current_results`
unfoldable pub current_results : AgentState → List ResearchResult
unfolding keep
current_results s = keep (λ r. eqb r.plan_version s.plan.plan_version) s.research_results

-- `_effective_results`
unfoldable pub effective_results : AgentState → List ResearchResult
unfolding keep current_results contains repaired_task_ids
effective_results s =
    let results = current_results s in
    keep (λ r. not (contains (repaired_task_ids s.plan results) r.task_id)) results

module _ {A : Type 0} (version : A → ℕ) where
  -- `sorted(items, key=version)`: an item goes before the first later one.
  unfoldable pub insert_sorted : A → List A → List A
  insert_sorted x [] = x ∷ []
  insert_sorted x (y ∷ ys) =
      let rest = insert_sorted x ys in if ltb (version x) (version y) then x ∷ y ∷ ys else y ∷ rest

  abbrev pub sorted : List A → List A → List A
  sorted done [] = done
  sorted done (x ∷ xs) = sorted (insert_sorted x done) xs

  -- `_replace_plan` and `_replace_lineage`
  unfoldable pub replace_version : List A → A → List A
  unfolding keep insert_sorted
  replace_version items item =
      sorted [] (keep (λ i. not (eqb (version i) (version item))) items ++ item ∷ [])

abbrev pub replace_plan : List ResearchPlan → ResearchPlan → List ResearchPlan
replace_plan = replace_version (λ p. p.plan_version)

abbrev pub replace_lineage : List PlanLineage → PlanLineage → List PlanLineage
replace_lineage = replace_version (λ l. l.plan_version)
