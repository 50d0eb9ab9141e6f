-- ===== src/TaskQuality.antt =====
-- backend/src/atlasflow/agents/task_quality.py: when a task's result counts, which gaps a repair
-- closes, and what a supplement must cover.
pub mod Repairs
pub mod Acceptance
pub mod Results
mod Tests
use atlas_flow_agent.Base.{
  ℕ, zero, suc, String, Bool, true, false, not, ◌&&◌, ◌||◌, Option, none, some, List, ◌∷◌, ◌++◌,
  map, ltb, leb, eqb, if◌then◌else◌, Outcome, ok, raise, raise_if, for_each, nat_eq, string_eq,
  contains, distinct, subset, disjoint, length, is_empty, any, keep, codes, join, clip, [], ◌>>=◌,
  ◌>>◌,
}
use atlas_flow_agent.Contracts.Errors.{ContractError}
use atlas_flow_agent.Contracts.Task.{ResearchTask, flatten, all_capabilities}
use atlas_flow_agent.Contracts.Plan.{ResearchPlan, task_ids, find_task}
use atlas_flow_agent.Contracts.Review.{ReviewContext}
use atlas_flow_agent.Contracts.Critique.{
  CritiqueDecision, CritiqueRoute, ReviewIssue, is_supplement, is_critical, validate_decision,
}
use atlas_flow_agent.Contracts.Research.{
  ResearchResult, CriterionAssessment, AssessmentStatus, is_partial, is_complete,
}

-- `NAVIGATION_CAPABILITIES`
abbrev pub navigation_capabilities : List String
navigation_capabilities = "map_route" ∷ "map_itinerary" ∷ []

-- The errors of this module, one for each `raise`.
pub data QualityError : Type 0 where
  empty_summary empty_finding indices_differ bad_finding_indices : QualityError
  missing_finding_indices empty_reason : QualityError
  depends_on_unavailable unknown_target criteria_weakened navigation_dropped : QualityError
  gap_uncovered : QualityError

-- `execution_accepted`
unfoldable pub execution_accepted : ResearchResult → Bool
execution_accepted r = elim (r.execution_accepted) [
  | none ↦ not (is_partial r.outcome)
  | some accepted ↦ accepted
]

-- `set(task_map[target].success_criteria) <= set(task.success_criteria)`. Every repair target of a
-- plan is one of its tasks.
unfoldable pub criteria_kept : ResearchPlan → ResearchTask → String → Bool
unfolding find_task subset
criteria_kept p t target = elim (find_task p.tasks target) [
  | none ↦ false
  | some old ↦ subset old.success_criteria t.success_criteria
]

-- What one task repairs: the body of the loop over the plan's tasks.
unfoldable pub repaired_by : ResearchPlan → List String → ResearchTask → List String
unfolding criteria_kept contains keep
repaired_by p completed t =
    if contains completed t.task_id then keep (criteria_kept p t) t.repairs_task_ids else []

abbrev pub repaired_in : ResearchPlan → List String → List ResearchTask → List String
repaired_in p completed [] = []
repaired_in p completed (t ∷ ts) = repaired_by p completed t ++ repaired_in p completed ts

abbrev pub completed_ids : List ResearchResult → List String
completed_ids results = map (λ r. r.task_id) (keep (λ r. is_complete r.outcome) results)

-- `repaired_task_ids`
unfoldable pub repaired_task_ids : ResearchPlan → List ResearchResult → List String
unfolding repaired_by keep
repaired_task_ids p results = repaired_in p (completed_ids results) p.tasks

abbrev pub is_accepted : Option Bool → Bool
is_accepted none = false
is_accepted (some accepted) = accepted

-- The results that were explicitly accepted for this version of the plan.
abbrev pub accepted_results : ResearchPlan → List ResearchResult → List ResearchResult
accepted_results p results =
    keep (λ r. is_accepted r.execution_accepted && eqb r.plan_version p.plan_version) results

-- `can_degrade_critic_review`
unfoldable pub can_degrade_critic_review : ResearchPlan → List ResearchResult → ReviewContext → Bool
unfolding repaired_task_ids subset keep
can_degrade_critic_review p results c =
    if not (eqb c.plan_version p.plan_version)
      || ltb c.supplement_rounds_used c.policy.required_supplement_rounds
    then false
    else subset (task_ids p) (
        map (λ r. r.task_id) (accepted_results p results)
        ++ repaired_task_ids p (accepted_results p results))

-- The sentence that an acceptance adds to the critic's rationale.
abbrev pub acceptance_note : String
acceptance_note = "；展示验收已采纳全部任务的可用结果，非关键改进不追加研究"

-- Whether a supplement asks for optional improvements only.
unfoldable pub is_optional_supplement :
    CritiqueDecision → ResearchPlan → List ResearchResult → ReviewContext → Bool
unfolding execution_accepted repaired_task_ids subset keep any
is_optional_supplement d p results c =
    is_supplement d.decision
    && leb c.policy.required_supplement_rounds c.supplement_rounds_used
    && subset (task_ids p)
        (map (λ r. r.task_id) (keep execution_accepted results) ++ repaired_task_ids p results)
    && not (any (λ i. is_critical i.severity) d.issues)

-- `accept_noncritical_supplement`
unfoldable pub accept_noncritical_supplement :
    CritiqueDecision
    → ResearchPlan
    → List ResearchResult
    → ReviewContext
    → Outcome ContractError CritiqueDecision
unfolding is_optional_supplement clip join
accept_noncritical_supplement d p results c =
    if is_optional_supplement d p results c
    then validate_decision (record d {
      decision = CritiqueRoute.accept;
      supplemental_tasks = [];
      rationale = clip 2_000 (join d.rationale acceptance_note);
    })
    else ok d

-- One repair target of a supplemental task.
unfoldable pub check_target : ResearchPlan → ResearchTask → String → Outcome QualityError (Unit {0})
unfolding find_task subset
check_target p t target = elim (find_task p.tasks target) [
  | none ↦ raise QualityError.unknown_target
  | some old ↦ do
    raise_if (not (subset old.success_criteria t.success_criteria)) QualityError.criteria_weakened
    let required = keep (contains navigation_capabilities) old.required_capabilities
    raise_if (not (is_empty required) && not (subset required (all_capabilities t)))
        QualityError.navigation_dropped
]

-- One supplemental task: it waits for no task that failed or is blocked.
unfoldable pub check_repair :
    ResearchPlan → ReviewContext → ResearchTask → Outcome QualityError (Unit {0})
unfolding check_target disjoint for_each
check_repair p c t = do
  raise_if (not (disjoint t.dependencies (c.failed_task_ids ++ c.blocked_task_ids)))
      QualityError.depends_on_unavailable
  for_each (check_target p t) t.repairs_task_ids

-- A critical issue about a task of the plan that neither the supplement nor an earlier repair
-- covers.
unfoldable pub is_uncovered : ResearchPlan → List String → ReviewIssue → Bool
unfolding contains
is_uncovered p covered i = elim (i.task_id) [
  | none ↦ false
  | some k ↦ is_critical i.severity && contains (task_ids p) k && not (contains covered k)
]

-- `validate_local_repairs`
unfoldable pub validate_local_repairs :
    CritiqueDecision → ResearchPlan → ReviewContext → Outcome QualityError (Unit {0})
validate_local_repairs d p c = if not (is_supplement d.decision) then ok tt else do
  for_each (check_repair p c) d.supplemental_tasks
  let targets = flatten (map (λ t. t.repairs_task_ids) d.supplemental_tasks)
  raise_if (any (is_uncovered p (targets ++ c.repaired_task_ids)) d.issues)
      QualityError.gap_uncovered

-- `range(n, n + k)`
abbrev pub range_from : ℕ → ℕ → List ℕ
range_from n zero = []
range_from n (suc k) = n ∷ range_from (suc n) k

abbrev pub needs_findings : AssessmentStatus → Bool
needs_findings AssessmentStatus.unmet = false
needs_findings _ = true

-- `isalnum` is Unicode's classification of a character.
module _ (is_alnum : ℕ → Bool) where
  -- `has_substantive_text`
  unfoldable pub has_substantive_text : String → Bool
  unfolding any
  has_substantive_text s = any is_alnum (codes s)

  -- One assessment of a result.
  unfoldable pub check_assessment :
      ResearchResult → CriterionAssessment → Outcome QualityError (Unit {0})
  unfolding has_substantive_text distinct
  check_assessment r a = do
    raise_if
        (not (distinct a.finding_indices) || any (λ n. ltb (length r.findings) n) a.finding_indices)
        QualityError.bad_finding_indices
    raise_if (needs_findings a.status && is_empty a.finding_indices)
        QualityError.missing_finding_indices
    raise_if (not (has_substantive_text a.reason)) QualityError.empty_reason

  -- Whether the assessments name each criterion exactly once.
  unfoldable pub covers_criteria : ResearchTask → ResearchResult → Bool
  unfolding distinct subset
  covers_criteria t r =
      let indices = map (λ a. a.criterion_index) r.assessments in
      let expected = range_from 1 (length t.success_criteria) in
      distinct indices && subset indices expected && subset expected indices

  -- `validate_task_result`
  unfoldable pub validate_task_result :
      ResearchTask → ResearchResult → Bool → Outcome QualityError (Unit {0})
  validate_task_result t r require_assessments = do
    raise_if (not (has_substantive_text r.summary)) QualityError.empty_summary
    raise_if (any (λ f. not (has_substantive_text f)) r.findings) QualityError.empty_finding
    if is_empty r.assessments && not require_assessments then ok tt else do
      raise_if (not (covers_criteria t r)) QualityError.indices_differ
      for_each (check_assessment r) r.assessments
