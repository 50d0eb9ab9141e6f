-- ===== src/Contracts/Research.antt =====
-- `ResearchResult` and `CriterionAssessment` of backend/src/atlasflow/agents/contracts.py.
use atlas_flow_agent.Base.{
  ℕ, String, Bool, true, false, not, ◌&&◌, Option, List, map, leb, Outcome, ok, raise_if, nat_eq,
  string_eq, dedup, length, any, all, is_blank, ◌>>◌,
}
use atlas_flow_agent.Contracts.Errors.{ContractError, in_range, in_range?, text_in_range}

pub data AssessmentStatus : Type 0 where
  met partial unmet : AssessmentStatus

pub record CriterionAssessment : Type 0 where
  pub criterion_index : ℕ
  pub status : AssessmentStatus
  pub finding_indices : List ℕ
  pub source_ids : List String
  pub reason : String

unfoldable pub assessment_fields_ok : CriterionAssessment → Bool
assessment_fields_ok a =
    in_range 1 10 a.criterion_index
    && all (in_range 1 20) a.finding_indices
    && leb (length a.finding_indices) 20
    && leb (length a.source_ids) 8
    && text_in_range 1 200 a.reason

pub data ResultOutcome : Type 0 where
  unassessed complete partial : ResultOutcome

-- A confidence or a coverage, a number from 0 to 1, counts ten-thousandths: the precision to which
-- the workflow rounds both.
pub record ResearchResult : Type 0 where
  pub result_id : String
  pub task_id : String
  pub plan_version : ℕ
  pub summary : String
  pub findings : List String
  pub limitations : List String
  pub confidence : ℕ
  pub assessments : List CriterionAssessment
  pub outcome : ResultOutcome
  pub execution_accepted : Option Bool
  pub reported_confidence : Option ℕ
  pub criteria_coverage : Option ℕ
  pub attempt : ℕ
  pub duration_ms : ℕ

unfoldable pub result_fields_ok : ResearchResult → Bool
result_fields_ok r =
    text_in_range 1 64 r.task_id
    && leb 1 r.plan_version
    && text_in_range 1 8_000 r.summary
    && in_range 1 20 (length r.findings)
    && leb (length r.limitations) 20
    && leb r.confidence 10_000
    && leb (length r.assessments) 10
    && in_range? 0 10_000 r.reported_confidence
    && in_range? 0 10_000 r.criteria_coverage
    && leb 1 r.attempt

unfoldable pub validate_result : ResearchResult → Outcome ContractError ResearchResult
validate_result r = do
  raise_if (not (result_fields_ok r)) ContractError.invalid_field
  raise_if (any is_blank r.findings) ContractError.blank_finding
  raise_if (any is_blank r.limitations) ContractError.blank_limitation
  ok r

abbrev pub is_partial : ResultOutcome → Bool
is_partial ResultOutcome.partial = true
is_partial _ = false

abbrev pub is_complete : ResultOutcome → Bool
is_complete ResultOutcome.complete = true
is_complete _ = false

-- `task_ids(items)`: the ids in the order of the results, each once.
unfoldable pub result_task_ids : List ResearchResult → List String
unfolding dedup
result_task_ids items = dedup (map (λ r. r.task_id) items)
