-- ===== src/Contracts/Plan.antt =====
-- `ResearchPlan` of backend/src/atlasflow/agents/contracts.py: a task graph without cycles.
pub mod Order
pub mod Complete
pub mod Acyclic
use atlas_flow_agent.Base.{
  ℕ, zero, suc, String, Bool, not, ◌&&◌, Option, none, some, List, ◌∷◌, ◌++◌, map, leb, eqb,
  if◌then◌else◌, Outcome, ok, raise, ◌>>=◌, raise_if, for_each, ◌==◌, nat_eq, string_eq, contains,
  distinct, subset, length, [], ◌>>◌,
}
use atlas_flow_agent.Contracts.Errors.{ContractError, in_range, text_in_range}
use atlas_flow_agent.Contracts.Task.{ResearchTask}

-- The tasks are values of their class already, checked when they were built.
pub record ResearchPlan : Type 0 where
  pub plan_version : ℕ
  pub rationale : String
  pub tasks : List ResearchTask

abbrev pub ids : List ResearchTask → List String
ids tasks = map (λ t. t.task_id) tasks

-- `plan.task_ids`
abbrev pub task_ids : ResearchPlan → List String
task_ids p = ids p.tasks

-- `plan.task_map[task_id]`; ids are unique in a plan, so the first task is the only one.
unfoldable pub find_task : List ResearchTask → String → Option ResearchTask
find_task [] k = none
find_task (t ∷ ts) k = let rest = find_task ts k in if t.task_id == k then some t else rest

-- `dependencies[task_id]`
unfoldable pub deps_of : List ResearchTask → String → List String
deps_of [] k = []
deps_of (t ∷ ts) k = let rest = deps_of ts k in if t.task_id == k then t.dependencies else rest

-- A loop `for dependency_id in …: visit(dependency_id)`. The set `visited` is handed on.
unfoldable pub visit_each :
    (List String → String → Outcome ContractError (List String))
    → List String
    → List String
    → Outcome ContractError (List String)
visit_each visit visited [] = ok visited
visit_each visit visited (d ∷ ds) = do visited' ← visit visited d; visit_each visit visited' ds

-- `visit(task_id)`. Each call puts its id into `visiting` and takes it out again before it
-- returns, so the set is passed down; `visited` is the latest id first.
unfoldable pub visit :
    List ResearchTask → ℕ → List String → List String → String → Outcome ContractError (List String)
unfolding deps_of visit_each contains
visit tasks zero visiting visited k = raise ContractError.out_of_fuel
visit tasks (suc fuel) visiting visited k =
    let below = visit_each (visit tasks fuel (k ∷ visiting)) visited (deps_of tasks k) in
    let finished : Outcome ContractError (List String) = below >>= λ after. ok (k ∷ after) in
    if contains visiting k
    then raise ContractError.cyclic_dependencies
    else if contains visited k
    then ok visited
    else finished

-- The body of the loop over the tasks.
unfoldable pub check_plan_task : ResearchPlan → ResearchTask → Outcome ContractError (Unit {0})
unfolding subset
check_plan_task p t = do
  raise_if (not (eqb t.plan_version p.plan_version)) ContractError.plan_version_differs
  raise_if (not (subset t.dependencies (task_ids p))) ContractError.unknown_dependencies
  raise_if (not (subset t.repairs_task_ids (task_ids p))) ContractError.unknown_repair

-- The depth-first search over all tasks: the ids in the order in which they were finished.
unfoldable pub search_cycles : List ResearchTask → Outcome ContractError (List String)
unfolding visit
search_cycles tasks = visit_each (visit tasks (suc (length tasks)) []) [] (ids tasks)

unfoldable pub validate_task_dag : ResearchPlan → Outcome ContractError ResearchPlan
validate_task_dag p = do
  raise_if (not (distinct (task_ids p))) ContractError.task_ids_repeated
  for_each (check_plan_task p) p.tasks
  _ ← search_cycles p.tasks
  ok p

unfoldable pub plan_fields_ok : ResearchPlan → Bool
plan_fields_ok p =
    leb 1 p.plan_version && text_in_range 1 2_000 p.rationale && in_range 2 7 (length p.tasks)

-- `ResearchPlan(...)`
unfoldable pub validate_plan : ResearchPlan → Outcome ContractError ResearchPlan
validate_plan p = do
  raise_if (not (plan_fields_ok p)) ContractError.invalid_field
  validate_task_dag p

unfoldable pub with_supplemental_tasks :
    ResearchPlan → List ResearchTask → Outcome ContractError ResearchPlan
with_supplemental_tasks p supplemental = do
  raise_if (not (in_range 1 2 (length supplemental))) ContractError.bad_supplement_size
  validate_plan (record p { tasks = p.tasks ++ supplemental })
