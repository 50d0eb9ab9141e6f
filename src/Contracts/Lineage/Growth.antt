-- ===== src/Contracts/Lineage/Growth.antt =====
-- The lineages of backend/src/atlasflow/agents/contracts.py after a supplement.
use atlas_flow_agent.Base.{
  ◌+◌, ◌≤◌, String, ◌≡◌, refl, ap, ◌⊎◌, true, List, ◌∷◌, ◌++◌, arith, ok, raise, >>=-eq-ok, nat_eq,
  string_eq, distinct, length, length-append, [],
}
use mathlib.Core.List.{append-nil, append_assoc}
use atlas_flow_agent.Contracts.Errors.{ContractError}
use atlas_flow_agent.Contracts.Task.{ResearchTask}
use atlas_flow_agent.Contracts.Plan.{ResearchPlan, validate_plan, validate_task_dag}
use atlas_flow_agent.Contracts.Plan.Acyclic.{IsAcyclic}
use atlas_flow_agent.Contracts.Plan.Complete.{IsWellFormed, validate_plan-eq-ok_iff}
use atlas_flow_agent.Contracts.Lineage.{
  SupplementBatch, batch_fields_ok, validate_batch, PlanLineage, batch_tasks, revision,
  initial_task_ids, supplemental_task_ids, joined_plan, active_plan, validate_lineage,
  with_supplement,
}

-- A plan that is accepted is returned as it is.
pub validate_plan_cases :
    (p : ResearchPlan)
    → (validate_plan p ≡ ok p) ⊎ ((e : ContractError) × (validate_plan p ≡ raise e))
unfolding validate_plan validate_task_dag
validate_plan_cases p = ground arith

pub validate_lineage_parts :
    (l m : PlanLineage)
    → validate_lineage l ≡ ok m
    → (m ≡ l)
      × (length l.supplements ≤ 1)
      × (distinct (initial_task_ids l ++ supplemental_task_ids l) ≡ true)
      × (validate_plan (joined_plan l) ≡ ok (joined_plan l))
unfolding validate_lineage active_plan
validate_lineage_parts l m h = ground (arith, validate_plan_cases (joined_plan l))

-- The plan that an accepted lineage stands for is well formed and has no cycle.
pub validate_lineage-IsAcyclic :
    (l m : PlanLineage)
    → validate_lineage l ≡ ok m
    → (m ≡ l) × IsWellFormed (joined_plan l) × IsAcyclic (joined_plan l).tasks
validate_lineage-IsAcyclic l m h =
    let (same, _, _, active) = validate_lineage_parts l m h in
    let (formed, acyclic) = (validate_plan-eq-ok_iff (joined_plan l)).0 active in
    (same, formed, acyclic)

validate_batch_parts :
    (b c : SupplementBatch)
    → validate_batch b ≡ ok c
    → (c ≡ b) × (1 ≤ length b.tasks) × (length b.tasks ≤ 2)
unfolding validate_batch batch_fields_ok
validate_batch_parts b c h = ground arith

batch_tasks-append :
    (bs : List SupplementBatch) (b : SupplementBatch)
    → batch_tasks (bs ++ b ∷ []) ≡ batch_tasks bs ++ b.tasks
batch_tasks-append [] b = append-nil b.tasks
batch_tasks-append (c ∷ bs) b = rw (batch_tasks-append bs b, append_assoc)

tasks-append :
    (xs ys : List ResearchTask) (bs : List SupplementBatch) (b : SupplementBatch)
    → b.tasks ≡ ys
    → xs ++ batch_tasks (bs ++ b ∷ []) ≡ (xs ++ batch_tasks bs) ++ ys
tasks-append xs ys bs b e = rw (batch_tasks-append bs b, e, append_assoc)

-- The batch that a supplement builds, and the lineage that it is added to.
pub with_supplement_parts :
    (l m : PlanLineage) (tasks : List ResearchTask) (rationale : String)
    → with_supplement l tasks rationale ≡ ok m
    → (b : SupplementBatch) × (b.tasks ≡ tasks)
      × (validate_lineage (record l { supplements = l.supplements ++ b ∷ [] }) ≡ ok m)
unfolding with_supplement
with_supplement_parts l m tasks rationale h =
    let draft : SupplementBatch = record {
      round = revision l + 1;
      plan_version = l.plan_version;
      rationale = rationale;
      tasks = tasks;
    } in
    let (b, built, rest) =
      >>=-eq-ok (validate_batch draft)
        (λ c. validate_lineage (record l { supplements = l.supplements ++ c ∷ [] })) h in
    (b, ap (λ c. c.tasks) (validate_batch_parts draft b built).0, rest)

-- A supplement succeeds only on a lineage that has none yet. The new lineage keeps the base plan,
-- its active plan is the old one with the new tasks appended, no task id occurs twice in it, and no
-- task of it depends on itself through a chain of dependencies.
pub with_supplement_grows :
    (l m : PlanLineage) (tasks : List ResearchTask) (rationale : String)
    → with_supplement l tasks rationale ≡ ok m
    → (revision l ≡ 0)
      × (revision m ≡ 1)
      × (m.base_plan ≡ l.base_plan)
      × ((joined_plan m).tasks ≡ (joined_plan l).tasks ++ tasks)
      × (distinct (initial_task_ids m ++ supplemental_task_ids m) ≡ true)
      × IsAcyclic (joined_plan m).tasks
with_supplement_grows l m tasks rationale h =
    let (b, e, checked) = with_supplement_parts l m tasks rationale h in
    let n : PlanLineage = record l { supplements = l.supplements ++ b ∷ [] } in
    let (same, few, unique, active) = validate_lineage_parts n m checked in
    let (_, _, acyclic) = validate_lineage-IsAcyclic n m checked in
    let size = length-append l.supplements (b ∷ []) in
    rw same (
      omega (arith, few),
      omega (arith, few),
      refl,
      tasks-append l.base_plan.tasks tasks l.supplements b e,
      unique,
      acyclic,
    )
