-- ===== src/Contracts/Review.antt =====
-- `ReviewContext` of backend/src/atlasflow/agents/contracts.py: the facts that the workflow hands
-- to a critic. The source's sets are lists here, and a union is an append.
pub mod Sound
use atlas_flow_agent.Base.{
  ℕ, ◌+◌, ◌*◌, String, Bool, not, ◌&&◌, Option, none, some, List, ◌∷◌, ◌++◌, ltb, leb, eqb,
  if◌then◌else◌, is_some, Outcome, ok, raise_if, for_each, nat_eq, string_eq, distinct, subset,
  disjoint, dedup, length, is_empty, all, [], ◌>>=◌, ◌>>◌,
}
use atlas_flow_agent.Contracts.Errors.{ContractError, in_range}
use atlas_flow_agent.Contracts.Policy.{RunPolicy}

pub record ReviewContext : Type 0 where
  pub review_round : ℕ
  pub plan_version : ℕ
  pub plan_revision : ℕ
  pub initial_task_ids : List String
  pub supplemental_task_ids : List String
  pub completed_task_ids : List String
  pub failed_task_ids : List String
  pub partial_task_ids : List String
  pub repaired_task_ids : List String
  pub blocked_task_ids : List String
  pub supplement_rounds_used : ℕ
  pub supplement_rounds_remaining : ℕ
  pub current_task_count : ℕ
  pub expected_task_count : ℕ
  pub policy : RunPolicy

unfoldable pub context_fields_ok : ReviewContext → Bool
context_fields_ok c =
    leb 1 c.review_round
    && leb 1 c.plan_version
    && leb c.plan_revision 1
    && in_range 2 5 (length c.initial_task_ids)
    && leb (length c.supplemental_task_ids) 2
    && leb (length c.completed_task_ids) 7
    && leb (length c.failed_task_ids) 7
    && leb (length c.partial_task_ids) 7
    && leb (length c.repaired_task_ids) 7
    && leb (length c.blocked_task_ids) 7
    && leb c.supplement_rounds_used 1
    && leb c.supplement_rounds_remaining 1
    && in_range 2 7 c.current_task_count
    && in_range 2 7 c.expected_task_count

-- `id_groups.values()`
abbrev pub id_groups : ReviewContext → List (List String)
id_groups c =
    c.initial_task_ids ∷ c.supplemental_task_ids ∷ c.completed_task_ids ∷ c.failed_task_ids
    ∷ c.partial_task_ids ∷ c.repaired_task_ids ∷ c.blocked_task_ids ∷ []

abbrev pub active_ids : ReviewContext → List String
active_ids c = c.initial_task_ids ++ c.supplemental_task_ids

abbrev pub check_group : List String → Outcome ContractError (Unit {0})
check_group group = raise_if (not (distinct group)) ContractError.group_repeated

abbrev pub get_or : Option ℕ → ℕ → ℕ
get_or none d = d
get_or (some n) d = n

-- The ids: no repetition, no overlap, none from outside the plan.
unfoldable pub check_ids : ReviewContext → Outcome ContractError (Unit {0})
check_ids c = do
  for_each check_group (id_groups c)
  raise_if (not (disjoint c.initial_task_ids c.supplemental_task_ids))
      ContractError.initial_supplemental_overlap
  raise_if (not (disjoint c.completed_task_ids c.failed_task_ids))
      ContractError.completed_failed_overlap
  raise_if (not (disjoint c.partial_task_ids (c.completed_task_ids ++ c.failed_task_ids)))
      ContractError.partial_overlap
  raise_if
      (not (
        disjoint c.blocked_task_ids
          ((c.completed_task_ids ++ c.failed_task_ids) ++ c.partial_task_ids)))
      ContractError.blocked_overlap
  raise_if (not (all (λ group. subset group (active_ids c)) (id_groups c)))
      ContractError.unknown_result_ids

-- `1 if self.plan_version == 1 and policy.initial_task_count is not None`
abbrev pub has_initial_policy : ReviewContext → Bool
has_initial_policy c = eqb c.plan_version 1 && is_some c.policy.initial_task_count

-- The numbers: rounds, revisions and counts.
unfoldable pub check_counts : ReviewContext → Outcome ContractError (Unit {0})
check_counts c = do
  raise_if (ltb c.supplement_rounds_used c.plan_revision) ContractError.revision_exceeds_rounds
  raise_if (ltb 1 (c.supplement_rounds_used + c.supplement_rounds_remaining))
      ContractError.round_budget_exceeds_one
  raise_if (eqb c.plan_revision 0 && not (is_empty c.supplemental_task_ids))
      ContractError.ids_without_revision
  raise_if (eqb c.plan_revision 1 && is_empty c.supplemental_task_ids)
      ContractError.revision_without_ids
  raise_if (not (eqb c.current_task_count (length (dedup (active_ids c)))))
      ContractError.task_count_differs
  raise_if
      (has_initial_policy c
        && not (eqb (length c.initial_task_ids) (get_or c.policy.initial_task_count 0)))
      ContractError.initial_count_policy
  raise_if
      (is_some c.policy.supplement_task_count
        && not (eqb c.plan_revision 0)
        && not (
            eqb (length c.supplemental_task_ids)
              (get_or c.policy.supplement_task_count 0 * c.plan_revision)))
      ContractError.supplement_count_policy
  let expected_initial =
      if has_initial_policy c
      then get_or c.policy.initial_task_count 0
      else length c.initial_task_ids
  let expected_supplemental =
      get_or c.policy.supplement_task_count (length c.supplemental_task_ids) * c.plan_revision
  raise_if (not (eqb c.expected_task_count (expected_initial + expected_supplemental)))
      ContractError.expected_count

-- `ReviewContext(...)`
unfoldable pub validate_context : ReviewContext → Outcome ContractError ReviewContext
validate_context c = do
  raise_if (not (context_fields_ok c)) ContractError.invalid_field
  check_ids c
  check_counts c
  ok c
