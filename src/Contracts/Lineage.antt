-- ===== src/Contracts/Lineage.antt =====
-- `SupplementBatch` and `PlanLineage` of backend/src/atlasflow/agents/contracts.py: a base plan
-- and the deltas that a critic's supplements append to it.
pub mod Growth
use atlas_flow_agent.Base.{
  ℕ, suc, ◌+◌, String, Bool, true, not, ◌&&◌, List, ◌∷◌, ◌++◌, leb, eqb, Outcome, ok, raise_if,
  nat_eq, string_eq, distinct, length, any, [], ◌>>=◌, ◌>>◌,
}
use atlas_flow_agent.Contracts.Errors.{ContractError, text_in_range, in_range}
use atlas_flow_agent.Contracts.Task.{ResearchTask}
use atlas_flow_agent.Contracts.Plan.{ResearchPlan, ids, task_ids, validate_plan}

pub record SupplementBatch : Type 0 where
  pub round : ℕ
  pub plan_version : ℕ
  pub rationale : String
  pub tasks : List ResearchTask

unfoldable pub batch_fields_ok : SupplementBatch → Bool
batch_fields_ok b =
    leb 1 b.round
    && leb 1 b.plan_version
    && text_in_range 1 4_000 b.rationale
    && in_range 1 2 (length b.tasks)

-- `SupplementBatch(...)`
unfoldable pub validate_batch : SupplementBatch → Outcome ContractError SupplementBatch
validate_batch b = do
  raise_if (not (batch_fields_ok b)) ContractError.invalid_field
  raise_if (not (distinct (ids b.tasks))) ContractError.batch_ids_repeated
  raise_if (any (λ t. not (eqb t.plan_version b.plan_version)) b.tasks)
      ContractError.batch_version_differs
  ok b

pub record PlanLineage : Type 0 where
  pub plan_version : ℕ
  pub base_plan : ResearchPlan
  pub supplements : List SupplementBatch

abbrev pub batch_tasks : List SupplementBatch → List ResearchTask
batch_tasks [] = []
batch_tasks (b ∷ bs) = b.tasks ++ batch_tasks bs

abbrev pub revision : PlanLineage → ℕ
revision l = length l.supplements

abbrev pub initial_task_ids : PlanLineage → List String
initial_task_ids l = task_ids l.base_plan

abbrev pub supplemental_task_ids : PlanLineage → List String
supplemental_task_ids l = ids (batch_tasks l.supplements)

-- The plan that `active_plan` builds, before its own validation.
abbrev pub joined_plan : PlanLineage → ResearchPlan
joined_plan l = record {
  plan_version = l.plan_version;
  rationale = l.base_plan.rationale;
  tasks = l.base_plan.tasks ++ batch_tasks l.supplements;
}

unfoldable pub active_plan : PlanLineage → Outcome ContractError ResearchPlan
active_plan l = validate_plan (joined_plan l)

-- `[batch.round for batch in supplements] == list(range(n, …))`
unfoldable pub rounds_from : ℕ → List SupplementBatch → Bool
rounds_from n [] = true
rounds_from n (b ∷ bs) = eqb b.round n && rounds_from (suc n) bs

unfoldable pub validate_lineage : PlanLineage → Outcome ContractError PlanLineage
validate_lineage l = do
  raise_if (not (leb 1 l.plan_version && leb (length l.supplements) 1)) ContractError.invalid_field
  raise_if (not (eqb l.base_plan.plan_version l.plan_version)) ContractError.base_version_differs
  raise_if (not (rounds_from 1 l.supplements)) ContractError.rounds_not_contiguous
  raise_if (any (λ b. not (eqb b.plan_version l.plan_version)) l.supplements)
      ContractError.supplement_version_differs
  raise_if (not (distinct (initial_task_ids l ++ supplemental_task_ids l)))
      ContractError.lineage_ids_repeated
  _ ← active_plan l
  ok l

unfoldable pub with_supplement :
    PlanLineage → List ResearchTask → String → Outcome ContractError PlanLineage
with_supplement l tasks rationale = do
  batch ← validate_batch (record {
    round = revision l + 1;
    plan_version = l.plan_version;
    rationale = rationale;
    tasks = tasks;
  })
  validate_lineage (record l { supplements = l.supplements ++ batch ∷ [] })
