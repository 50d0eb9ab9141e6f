-- ===== src/TaskQuality/Results.antt =====
-- Results in backend/src/atlasflow/agents/task_quality.py: the check of a result before it is
-- recorded.
use atlas_flow_agent.Base.{
  ℕ, zero, suc, ◌+◌, ◌≤◌, ◌<◌, ◌≡◌, refl, ◌≢◌, ◌⊎◌, inl, inr, Bool, true, false, not, ◌&&◌, List,
  ◌∷◌, map, arith, ltb, &&_elim, ok, for_each, All, All-map, for_each-eq-ok, nat_eq, string_eq,
  contains, distinct, subset, contains-nil, contains-cases, subset-contains, length, is_empty, any,
  all, In, [],
}
use atlas_flow_agent.Contracts.Task.{ResearchTask}
use atlas_flow_agent.Contracts.Errors.{in_range}
use atlas_flow_agent.Contracts.Research.{
  ResearchResult, CriterionAssessment, AssessmentStatus, assessment_fields_ok,
}
use atlas_flow_agent.TaskQuality.{
  range_from, needs_findings, check_assessment, covers_criteria, validate_task_result,
}

-- One assessment points to findings of the result, and a criterion that is met, in part or whole,
-- to at least one.
pub record IsGrounded (r : ResearchResult) (a : CriterionAssessment) : Type 0 where
  pub existing : All (λ n. (1 ≤ n) × (n ≤ length r.findings)) a.finding_indices
  pub unique : distinct a.finding_indices ≡ true
  pub supported : (a.status ≡ AssessmentStatus.unmet) ⊎ (a.finding_indices ≢ [])

-- Each success criterion of the task is assessed, and none twice.
pub record ResultIsGrounded (t : ResearchTask) (r : ResearchResult) : Type 0 where
  pub assessed :
      (n : ℕ)
      → 1 ≤ n
      → n ≤ length t.success_criteria
      → (a : CriterionAssessment) × In a r.assessments × (a.criterion_index ≡ n)
  pub once : distinct (map (λ a. a.criterion_index) r.assessments) ≡ true
  pub no_other :
      All
        (λ a. (1 ≤ a.criterion_index) × (a.criterion_index ≤ length t.success_criteria))
        r.assessments
  pub grounded : All (IsGrounded r) r.assessments

contains-range_from : (s k n : ℕ) → s ≤ n → n < s + k → contains (range_from s k) n ≡ true
unfolding contains
contains-range_from s zero n l h = absurd (omega arith)
contains-range_from s (suc k) n l h = ground (arith, contains-range_from (suc s) k n)

range_from-contains : (s k n : ℕ) → contains (range_from s k) n ≡ true → (s ≤ n) × (n < s + k)
unfolding contains
range_from-contains s zero n h = cc
range_from-contains s (suc k) n h = ground (arith, range_from-contains (suc s) k n)

index_In :
    (items : List CriterionAssessment) (n : ℕ)
    → contains (map (λ a. a.criterion_index) items) n ≡ true
    → (a : CriterionAssessment) × In a items × (a.criterion_index ≡ n)
index_In [] n h = absurd (contains-nil n h)
index_In (a ∷ items) n h =
    elim (contains-cases a.criterion_index n (map (λ b. b.criterion_index) items) h) [
      | inl e ↦ (a, inl refl, e)
      | inr m ↦ let (b, k, e) = index_In items n m in (b, inr k, e)
    ]

subset-All :
    (items : List CriterionAssessment) (k : ℕ)
    → subset (map (λ a. a.criterion_index) items) (range_from 1 k) ≡ true
    → All (λ a. (1 ≤ a.criterion_index) × (a.criterion_index ≤ k)) items
unfolding subset
subset-All [] k h = tt
subset-All (a ∷ items) k h =
    let found = range_from-contains 1 k a.criterion_index (&&_elim _ _ h).0 in
    ((found.0, omega (arith, found.1)), subset-All items k (&&_elim _ _ h).1)

All-existing :
    (xs : List ℕ) (n : ℕ)
    → all (in_range 1 20) xs ≡ true
    → any (λ x. ltb n x) xs ≡ false
    → All (λ x. (1 ≤ x) × (x ≤ n)) xs
unfolding any all
All-existing [] n w h = tt
All-existing (x ∷ xs) n w h =
    ((ground arith, ground arith), All-existing xs n (ground arith) (ground arith))

-- Both conditions hold of each element.
All-both :
    {A : Type 0} (p : A → Bool) (q : A → Type 0) (xs : List A)
    → all p xs ≡ true
    → All q xs
    → All (λ x. (p x ≡ true) × q x) xs
unfolding all
All-both p q [] w h = tt
All-both p q (x ∷ xs) w h = (((&&_elim _ _ w).0, h.0), All-both p q xs (&&_elim _ _ w).1 h.1)

module _ (is_alnum : ℕ → Bool) where
  check_assessment_parts :
      (r : ResearchResult) (a : CriterionAssessment)
      → check_assessment is_alnum r a ≡ ok tt
      → (distinct a.finding_indices ≡ true)
        × (any (λ n. ltb (length r.findings) n) a.finding_indices ≡ false)
        × ((needs_findings a.status && is_empty a.finding_indices) ≡ false)
  unfolding check_assessment
  check_assessment_parts r a h = ground arith

  supported_of :
      (status : AssessmentStatus) (indices : List ℕ)
      → (needs_findings status && is_empty indices) ≡ false
      → (status ≡ AssessmentStatus.unmet) ⊎ (indices ≢ [])
  supported_of AssessmentStatus.unmet indices h = inl refl
  supported_of AssessmentStatus.met indices h = inr (λ e. ground arith)
  supported_of AssessmentStatus.partial indices h = inr (λ e. ground arith)

  fields_indices :
      (a : CriterionAssessment)
      → assessment_fields_ok a ≡ true
      → all (in_range 1 20) a.finding_indices ≡ true
  unfolding assessment_fields_ok
  fields_indices a w = ground arith

  check_assessment-IsGrounded :
      (r : ResearchResult) (a : CriterionAssessment)
      → (assessment_fields_ok a ≡ true) × (check_assessment is_alnum r a ≡ ok tt)
      → IsGrounded r a
  check_assessment-IsGrounded r a (w, h) =
      let (unique, bounded, supported) = check_assessment_parts r a h in
      record {
        existing = All-existing a.finding_indices (length r.findings) (fields_indices a w) bounded;
        unique = unique;
        supported = supported_of a.status a.finding_indices supported;
      }

  result_parts :
      (t : ResearchTask) (r : ResearchResult) (required : Bool)
      → validate_task_result is_alnum t r required ≡ ok tt
      → (is_empty r.assessments && not required) ≡ false
      → (covers_criteria is_alnum t r ≡ true)
        × (for_each (check_assessment is_alnum r) r.assessments ≡ ok tt)
  unfolding validate_task_result
  result_parts t r required h s = ground arith

  covers_parts :
      (t : ResearchTask) (r : ResearchResult)
      → covers_criteria is_alnum t r ≡ true
      → (distinct (map (λ a. a.criterion_index) r.assessments) ≡ true)
        × (subset
              (map (λ a. a.criterion_index) r.assessments)
              (range_from 1 (length t.success_criteria))
            ≡ true)
        × (subset
              (range_from 1 (length t.success_criteria))
              (map (λ a. a.criterion_index) r.assessments)
            ≡ true)
  unfolding covers_criteria
  covers_parts t r h = ground arith

  -- A result whose assessments are within their fields' bounds and that is accepted, with assessments
  -- or where they are required, assesses each success
  -- criterion of its task exactly once and no other, each assessment points to different findings
  -- that exist, each from 1 up to the number of the result's findings, and a criterion that is not unmet points to at least one.
  pub validate_task_result-ResultIsGrounded :
      (t : ResearchTask) (r : ResearchResult) (required : Bool)
      → all assessment_fields_ok r.assessments ≡ true
      → validate_task_result is_alnum t r required ≡ ok tt
      → (is_empty r.assessments && not required) ≡ false
      → ResultIsGrounded t r
  validate_task_result-ResultIsGrounded t r required w h s =
      let (covers, each) = result_parts t r required h s in
      let (once, within, complete) = covers_parts t r covers in
      let k = length t.success_criteria in
      record {
        assessed = λ n low high. index_In r.assessments n (
            subset-contains (range_from 1 k) (map (λ a. a.criterion_index) r.assessments) n complete
              (contains-range_from 1 k n low (omega arith)));
        once = once;
        no_other = subset-All r.assessments k within;
        grounded = All-map r.assessments (check_assessment-IsGrounded r) (
            All-both assessment_fields_ok (λ a. check_assessment is_alnum r a ≡ ok tt) r.assessments
              w (for_each-eq-ok (check_assessment is_alnum r) r.assessments each));
      }
