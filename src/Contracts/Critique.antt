-- ===== src/Contracts/Critique.antt =====
-- `ReviewIssue` and `CritiqueDecision` of backend/src/atlasflow/agents/contracts.py.
pub mod Sound
use atlas_flow_agent.Base.{
  ℕ, ◌+◌, String, Bool, true, false, not, ◌&&◌, Option, none, some, List, ◌++◌, ltb, leb, eqb,
  is_some, Outcome, ok, raise_if, ◌==◌, nat_eq, string_eq, distinct, disjoint, length, is_empty,
  any, all, keep, text_length, ◌>>=◌, ◌>>◌,
}
use atlas_flow_agent.Contracts.Errors.{ContractError, in_range, text_in_range}
use atlas_flow_agent.Contracts.Task.{ResearchTask, is_code}
use atlas_flow_agent.Contracts.Plan.{ids}
use atlas_flow_agent.Contracts.Review.{ReviewContext}

pub data Severity : Type 0 where
  info warning critical : Severity

pub data Scope : Type 0 where
  core local presentation unknown : Scope

pub data CritiqueRoute : Type 0 where
  accept supplement replan : CritiqueRoute

pub data ReplanReason : Type 0 where
  invalid_decomposition unresolved_critical_gap : ReplanReason
  irreconcilable_conflict dependency_dead_end : ReplanReason

-- `reason.value`
abbrev pub reason_value : ReplanReason → String
reason_value ReplanReason.invalid_decomposition = "invalid_decomposition"
reason_value ReplanReason.unresolved_critical_gap = "unresolved_critical_gap"
reason_value ReplanReason.irreconcilable_conflict = "irreconcilable_conflict"
reason_value ReplanReason.dependency_dead_end = "dependency_dead_end"

pub record ReviewIssue : Type 0 where
  pub severity : Severity
  pub code : String
  pub message : String
  pub task_id : Option String
  pub recommendation : String
  pub scope : Scope
  pub paragraph_ids : List String
  pub source_numbers : List ℕ
  pub reported_severity : Option Severity

abbrev text_at_most? : ℕ → Option String → Bool
text_at_most? hi none = true
text_at_most? hi (some s) = leb (text_length s) hi

unfoldable pub issue_fields_ok : ReviewIssue → Bool
issue_fields_ok i =
    text_in_range 1 80 i.code
    && is_code i.code
    && text_in_range 1 2_000 i.message
    && text_at_most? 64 i.task_id
    && text_in_range 1 2_000 i.recommendation
    && leb (length i.paragraph_ids) 8
    && all (in_range 1 999) i.source_numbers
    && leb (length i.source_numbers) 8

pub record CritiqueDecision : Type 0 where
  pub decision : CritiqueRoute
  pub plan_version : ℕ
  pub rationale : String
  pub issues : List ReviewIssue
  pub supplemental_tasks : List ResearchTask
  pub replan_reason : Option ReplanReason

abbrev pub is_supplement : CritiqueRoute → Bool
is_supplement CritiqueRoute.supplement = true
is_supplement _ = false

abbrev pub is_replan : CritiqueRoute → Bool
is_replan CritiqueRoute.replan = true
is_replan _ = false

abbrev pub is_critical : Severity → Bool
is_critical Severity.critical = true
is_critical _ = false

abbrev pub is_dead_end : Option ReplanReason → Bool
is_dead_end none = false
is_dead_end (some ReplanReason.dependency_dead_end) = true
is_dead_end (some _) = false

unfoldable pub decision_fields_ok : CritiqueDecision → Bool
decision_fields_ok d =
    leb 1 d.plan_version
    && text_in_range 1 4_000 d.rationale
    && leb (length d.issues) 20
    && leb (length d.supplemental_tasks) 2

unfoldable pub validate_route_payload : CritiqueDecision → Outcome ContractError CritiqueDecision
validate_route_payload d = do
  raise_if (is_supplement d.decision && is_empty d.supplemental_tasks)
      ContractError.supplement_without_tasks
  raise_if (not (is_supplement d.decision) && not (is_empty d.supplemental_tasks))
      ContractError.tasks_without_supplement
  raise_if (not (distinct (ids d.supplemental_tasks))) ContractError.critique_ids_repeated
  raise_if (any (λ t. not (eqb t.plan_version d.plan_version)) d.supplemental_tasks)
      ContractError.critique_version_differs
  raise_if (is_replan d.decision && not (is_some d.replan_reason))
      ContractError.replan_without_reason
  raise_if (not (is_replan d.decision) && is_some d.replan_reason)
      ContractError.reason_without_replan
  ok d

-- `CritiqueDecision(...)`
unfoldable pub validate_decision : CritiqueDecision → Outcome ContractError CritiqueDecision
validate_decision d = do
  raise_if (not (decision_fields_ok d)) ContractError.invalid_field
  validate_route_payload d

abbrev pub critical_issues : List ReviewIssue → List ReviewIssue
critical_issues issues = keep (λ i. is_critical i.severity) issues

-- `issue.code == expected_code`
abbrev pub has_code : Option ReplanReason → ReviewIssue → Bool
has_code none i = false
has_code (some r) i = i.code == reason_value r

-- `policy.supplement_task_count is not None and n != policy.supplement_task_count`
abbrev count_differs : Option ℕ → ℕ → Bool
count_differs none n = false
count_differs (some k) n = not (eqb n k)

-- The checks on a supplement, against the facts of the review round.
unfoldable pub check_supplement :
    CritiqueDecision → ReviewContext → Outcome ContractError (Unit {0})
check_supplement d c = do
  raise_if (ltb c.supplement_rounds_remaining 1) ContractError.no_round_left
  raise_if (count_differs c.policy.supplement_task_count (length d.supplemental_tasks))
      ContractError.wrong_supplement_count
  raise_if
      (not (disjoint (ids d.supplemental_tasks) (c.initial_task_ids ++ c.supplemental_task_ids)))
      ContractError.supplement_ids_known
  raise_if (ltb 7 (c.current_task_count + length (ids d.supplemental_tasks)))
      ContractError.plan_limit_exceeded

-- The check on a replan: a critical issue whose code is the stated reason.
unfoldable pub check_replan : CritiqueDecision → Outcome ContractError (Unit {0})
check_replan d = do
  raise_if (is_empty (critical_issues d.issues)) ContractError.no_critical_issue
  raise_if (not (any (has_code d.replan_reason) (critical_issues d.issues)))
      ContractError.no_matching_issue

abbrev run_if : Bool → Outcome ContractError (Unit {0}) → Outcome ContractError (Unit {0})
run_if true m = m
run_if false m = ok tt

unfoldable pub validate_for :
    CritiqueDecision → ReviewContext → Outcome ContractError CritiqueDecision
validate_for d c = do
  raise_if (not (eqb d.plan_version c.plan_version)) ContractError.wrong_plan_version
  raise_if
      (ltb c.supplement_rounds_used c.policy.required_supplement_rounds
        && not (is_supplement d.decision))
      ContractError.supplement_required
  run_if (is_supplement d.decision) (check_supplement d c)
  run_if (is_replan d.decision && c.policy.replan_requires_critical_issue) (check_replan d)
  raise_if (is_replan d.decision && is_dead_end d.replan_reason && is_empty c.blocked_task_ids)
      ContractError.no_blocked_task
  ok d
