-- ===== src/Contracts/Plan/Complete.antt =====
-- The depth-first search of `ResearchPlan` in backend/src/atlasflow/agents/contracts.py, its fuel
-- and what the whole validation of a plan accepts.
mod Searching
unfoldable pub use Searching.*
use atlas_flow_agent.Base.{
  ℕ, zero, suc, ◌≤◌, ◌<◌, String, ◌≡◌, refl, ◌↔◌, inl, inr, true, false, not, List, ◌∷◌, arith,
  Bool-cases, false_of_not, Outcome, ok, raise, Bool, ◌≢◌, ◌>>=◌, ◌⊎◌, for_each, All, All-map,
  All-zip, for_each-ok, for_each-eq-ok, nat_eq, string_eq, contains, distinct, subset, ==_refl,
  eq_cases, contains-nil, contains-head, contains-tail, contains-cases, subset-contains, length,
  keep, length-keep-le, length-map, [],
}
use atlas_flow_agent.Contracts.Errors.{ContractError}
use atlas_flow_agent.Contracts.Task.{ResearchTask}
use atlas_flow_agent.Contracts.Plan.{
  ResearchPlan, ids, task_ids, deps_of, visit_each, visit, check_plan_task, search_cycles,
  validate_task_dag, plan_fields_ok, validate_plan,
}
use atlas_flow_agent.Contracts.Plan.Acyclic.{
  Needs, IsAcyclic, direct, further, search_cycles-IsAcyclic,
}

-- The plan satisfies every check but the search for cycles: its fields' constraints, unique task
-- ids, one plan version, and dependencies and repair targets within the plan.
pub record IsWellFormed (p : ResearchPlan) : Type 0 where
  pub fields : plan_fields_ok p ≡ true
  pub unique : distinct (task_ids p) ≡ true
  pub versions : All (λ t. t.plan_version ≡ p.plan_version) p.tasks
  pub dependencies_known : All (λ t. subset t.dependencies (task_ids p) ≡ true) p.tasks
  pub repairs_known : All (λ t. subset t.repairs_task_ids (task_ids p) ≡ true) p.tasks

check_plan_task-eq-ok_iff :
    (p : ResearchPlan) (t : ResearchTask)
    → (check_plan_task p t ≡ ok tt) ↔ (
        (t.plan_version ≡ p.plan_version)
        × (subset t.dependencies (task_ids p) ≡ true)
        × (subset t.repairs_task_ids (task_ids p) ≡ true))
unfolding check_plan_task
check_plan_task-eq-ok_iff p t = (λ h. ground arith, λ h. ground arith)

pub deps_of-contains :
    (tasks : List ResearchTask) (known : List String) (k d : String)
    → All (λ t. subset t.dependencies known ≡ true) tasks
    → contains (deps_of tasks k) d ≡ true
    → contains known d ≡ true
unfolding deps_of
deps_of-contains [] known k d h c = absurd (contains-nil d c)
deps_of-contains (t ∷ ts) known k d h c =
    ground (arith, deps_of-contains ts known k d h.1, subset-contains t.dependencies known d h.0)

-- What an accepted plan has passed.
pub validate_plan_parts :
    (p : ResearchPlan)
    → validate_plan p ≡ ok p
    → (after : List String) × (plan_fields_ok p ≡ true)
      × (distinct (task_ids p) ≡ true)
      × (for_each (check_plan_task p) p.tasks ≡ ok tt)
      × (search_cycles p.tasks ≡ ok after)
unfolding validate_plan validate_task_dag
validate_plan_parts p h = ground arith

abbrev HasVersion : ResearchPlan → ResearchTask → Type 0
HasVersion p t = t.plan_version ≡ p.plan_version

abbrev DependsWithin : ResearchPlan → ResearchTask → Type 0
DependsWithin p t = subset t.dependencies (task_ids p) ≡ true

abbrev RepairsWithin : ResearchPlan → ResearchTask → Type 0
RepairsWithin p t = subset t.repairs_task_ids (task_ids p) ≡ true

-- The checks before the search are those of a well-formed plan.
formed :
    (p : ResearchPlan)
    → plan_fields_ok p ≡ true
    → distinct (task_ids p) ≡ true
    → for_each (check_plan_task p) p.tasks ≡ ok tt
    → IsWellFormed p
formed p fields unique checked =
    let each = for_each-eq-ok (check_plan_task p) p.tasks checked in
    record {
      fields = fields;
      unique = unique;
      versions = All-map p.tasks (λ t e. ((check_plan_task-eq-ok_iff p t).0 e).0) each;
      dependencies_known = All-map p.tasks (λ t e. ((check_plan_task-eq-ok_iff p t).0 e).1) each;
      repairs_known = All-map p.tasks (λ t e. ((check_plan_task-eq-ok_iff p t).0 e).2) each;
    }

sound : (p : ResearchPlan) → validate_plan p ≡ ok p → IsWellFormed p × IsAcyclic p.tasks
sound p h =
    let (after, fields, unique, checked, searched) = validate_plan_parts p h in
    (formed p fields unique checked, search_cycles-IsAcyclic p.tasks after searched)

-- A well-formed plan passes every check before the search.
checked_tasks : (p : ResearchPlan) → IsWellFormed p → for_each (check_plan_task p) p.tasks ≡ ok tt
checked_tasks p w =
    let each =
      All-zip (HasVersion p) (λ t. DependsWithin p t × RepairsWithin p t) p.tasks w.versions
        (All-zip (DependsWithin p) (RepairsWithin p) p.tasks w.dependencies_known
          w.repairs_known) in
    for_each-ok (check_plan_task p) p.tasks
      (All-map p.tasks (λ t q. (check_plan_task-eq-ok_iff p t).1 (q.0, q.1.0, q.1.1)) each)

IsWellFormed-IsClosed : (p : ResearchPlan) → IsWellFormed p → IsClosed p.tasks
IsWellFormed-IsClosed p w k d = deps_of-contains p.tasks (task_ids p) k d w.dependencies_known

complete : (p : ResearchPlan) → IsWellFormed p → IsAcyclic p.tasks → validate_plan p ≡ ok p
unfolding validate_plan validate_task_dag
complete p w acyclic =
    let (after, searched) = search_cycles_returns p.tasks (IsWellFormed-IsClosed p w) acyclic in
    rw (w.fields, w.unique, checked_tasks p w, searched)

-- What is not accepted after all the other checks has a cycle.
search_outcomes :
    (p : ResearchPlan)
    → IsWellFormed p
    → (IsAcyclic p.tasks × (validate_plan p ≡ ok p))
      ⊎ ((¬ IsAcyclic p.tasks) × (validate_plan p ≡ raise ContractError.cyclic_dependencies))
unfolding validate_plan validate_task_dag
search_outcomes p w = elim (search_cycles-Ends p.tasks (IsWellFormed-IsClosed p w)) [
  | inl (after, searched) ↦
      let acyclic = search_cycles-IsAcyclic p.tasks after searched in
      inl (acyclic, complete p w acyclic)
  | inr found ↦ inr (
    λ acyclic. clash found (search_cycles_returns p.tasks (IsWellFormed-IsClosed p w) acyclic).1,
    rw (w.fields, w.unique, checked_tasks p w, found) refl,
  )
]
  where
    clash :
        {after : List String}
        → search_cycles p.tasks ≡ raise ContractError.cyclic_dependencies
        → search_cycles p.tasks ≡ ok after
        → ⊥
    clash h k = cc

returned : (o : Outcome ContractError (Unit {0})) → (o ≡ ok tt) ⊎ (o ≢ ok tt)
returned (ok tt) = inl refl
returned (raise e) = inr (λ h. cc)

IsWellFormed-cases : (p : ResearchPlan) → IsWellFormed p ⊎ (¬ IsWellFormed p)
IsWellFormed-cases p = elim (Bool-cases (plan_fields_ok p)) [
  | inr f ↦ inr (λ w. clash w.fields f)
  | inl fields ↦ elim (Bool-cases (distinct (task_ids p))) [
    | inr f ↦ inr (λ w. clash w.unique f)
    | inl unique ↦ elim (returned (for_each (check_plan_task p) p.tasks)) [
      | inl checked ↦ inl (formed p fields unique checked)
      | inr not_ok ↦ inr (λ w. not_ok (checked_tasks p w))
    ]
  ]
]
  where
    clash : {b : Bool} → b ≡ true → b ≡ false → ⊥
    clash h k = cc

pub validate_plan-eq-ok_iff :
    (p : ResearchPlan) → (validate_plan p ≡ ok p) ↔ (IsWellFormed p × IsAcyclic p.tasks)
validate_plan-eq-ok_iff p = (sound p, λ h. complete p h.0 h.1)

-- Of every plan one of three things holds: it is well formed and no task depends on itself through a
-- chain of dependencies, and the validation accepts it unchanged; or it is well formed and some task
-- does, and the validation refuses it with the error for cyclic dependencies; or it is not well formed,
-- and is not accepted. In the first two cases the search has ended without running out of fuel.
pub validate_plan_decides :
    (p : ResearchPlan)
    → (IsWellFormed p × IsAcyclic p.tasks × (validate_plan p ≡ ok p))
      ⊎ ((IsWellFormed p
            × (¬ IsAcyclic p.tasks)
            × (validate_plan p ≡ raise ContractError.cyclic_dependencies))
          ⊎ ((¬ IsWellFormed p) × (validate_plan p ≢ ok p)))
validate_plan_decides p = elim (IsWellFormed-cases p) [
  | inl w ↦ elim (search_outcomes p w) [
    | inl (acyclic, accepted) ↦ inl (w, acyclic, accepted)
    | inr (cyclic, refused) ↦ inr (inl (w, cyclic, refused))
  ]
  | inr malformed ↦ inr (inr (malformed, λ h. malformed (sound p h).0))
]
