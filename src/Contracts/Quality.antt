-- ===== src/Contracts/Quality.antt =====
-- `QualityDecision` of backend/src/atlasflow/agents/contracts.py and the parts of a report that it
-- judges: `DraftVersion`, `ReportBaselineSection`, `ReportUpdateContext`, `BaselineCoverage`.
pub mod Sound
use atlas_flow_agent.Base.{
  ℕ, String, Bool, true, false, not, ◌&&◌, List, ◌∷◌, map, ltb, leb, eqb, Outcome, ok, raise_if,
  nat_eq, string_eq, distinct, length, is_empty, any, codes, text_length, is_digit, matches,
  has_content, [], ◌>>=◌, ◌>>◌,
}
use atlas_flow_agent.Contracts.Errors.{ContractError, in_range, text_in_range}
use atlas_flow_agent.Contracts.Critique.{ReviewIssue, is_critical}

pub data QualityRoute : Type 0 where
  accept revise replan : QualityRoute

abbrev pub is_accept : QualityRoute → Bool
is_accept QualityRoute.accept = true
is_accept _ = false

abbrev pub is_revise : QualityRoute → Bool
is_revise QualityRoute.revise = true
is_revise _ = false

abbrev pub is_replan : QualityRoute → Bool
is_replan QualityRoute.replan = true
is_replan _ = false

-- `^B[1-9][0-9]*$`
abbrev pub is_section_number : List ℕ → Bool
is_section_number [] = false
is_section_number (b ∷ cs) = eqb b b'B' && matches (λ c. is_digit c && not (eqb c b'0')) is_digit cs

unfoldable pub is_section_id : String → Bool
unfolding matches is_digit
is_section_id s = is_section_number (codes s)

-- The record of a draft, without its time stamp.
pub record DraftVersion : Type 0 where
  pub version : ℕ
  pub plan_version : ℕ
  pub content : String
  pub based_on_task_ids : List String
  pub citation_source_urls : List String

unfoldable pub draft_fields_ok : DraftVersion → Bool
draft_fields_ok d =
    leb 1 d.version
    && leb 1 d.plan_version
    && text_in_range 1 200_000 d.content
    && leb (length d.based_on_task_ids) 7

unfoldable pub validate_draft : DraftVersion → Outcome ContractError DraftVersion
validate_draft d = do
  raise_if (not (draft_fields_ok d)) ContractError.invalid_field
  raise_if (not (distinct d.based_on_task_ids)) ContractError.draft_ids_repeated
  ok d

pub record ReportBaselineSection : Type 0 where
  pub section_id : String
  pub title : String
  pub content : String

unfoldable pub section_fields_ok : ReportBaselineSection → Bool
section_fields_ok s =
    is_section_id s.section_id && text_in_range 1 400 s.title && text_in_range 1 200_000 s.content

pub record ReportUpdateContext : Type 0 where
  pub base_run_id : String
  pub base_query : String
  pub base_report : String
  pub update_request : String
  pub sections : List ReportBaselineSection
  pub citation_source_urls : List String
  pub base_warnings : List String

unfoldable pub update_fields_ok : ReportUpdateContext → Bool
update_fields_ok u =
    leb 1 (text_length u.base_run_id)
    && text_in_range 1 200_000 u.base_report
    && leb 1 (text_length u.update_request)
    && in_range 1 12 (length u.sections)

unfoldable pub validate_update : ReportUpdateContext → Outcome ContractError ReportUpdateContext
validate_update u = do
  raise_if (not (update_fields_ok u)) ContractError.invalid_field
  raise_if (not (distinct (map (λ s. s.section_id) u.sections))) ContractError.section_ids_repeated
  ok u

pub data CoverageStatus : Type 0 where
  retained updated removed missing : CoverageStatus

pub record BaselineCoverage : Type 0 where
  pub section_id : String
  pub status : CoverageStatus
  pub location : String
  pub reason : String

unfoldable pub coverage_fields_ok : BaselineCoverage → Bool
coverage_fields_ok c =
    is_section_id c.section_id && leb (text_length c.location) 160 && text_in_range 1 200 c.reason

pub record QualityDecision : Type 0 where
  pub decision : QualityRoute
  pub plan_version : ℕ
  pub draft_version : ℕ
  pub score : ℕ
  pub rationale : String
  pub issues : List ReviewIssue
  pub revision_instructions : List String
  pub baseline_coverage : List BaselineCoverage

unfoldable pub quality_fields_ok : QualityDecision → Bool
quality_fields_ok d =
    leb 1 d.plan_version
    && leb 1 d.draft_version
    && leb d.score 100
    && text_in_range 1 4_000 d.rationale
    && leb (length d.issues) 20
    && leb (length d.revision_instructions) 20
    && leb (length d.baseline_coverage) 12

abbrev pub has_critical : List ReviewIssue → Bool
has_critical issues = any (λ i. is_critical i.severity) issues

unfoldable pub validate_for_execution : QualityDecision → Outcome ContractError QualityDecision
validate_for_execution d = do
  raise_if (not (is_accept d.decision) && is_empty d.issues) ContractError.quality_without_issues
  raise_if (is_revise d.decision && not (any has_content d.revision_instructions))
      ContractError.quality_without_instructions
  raise_if (is_replan d.decision && not (has_critical d.issues))
      ContractError.quality_without_critical
  ok d

unfoldable pub validate_acceptance_threshold :
    QualityDecision → Outcome ContractError QualityDecision
validate_acceptance_threshold d = do
  raise_if (is_accept d.decision && ltb d.score 50) ContractError.score_below_threshold
  raise_if (is_accept d.decision && has_critical d.issues) ContractError.accepted_with_critical
  ok d

-- `QualityDecision(...)`
unfoldable pub validate_quality : QualityDecision → Outcome ContractError QualityDecision
validate_quality d = do
  raise_if (not (quality_fields_ok d)) ContractError.invalid_field
  validate_acceptance_threshold d
