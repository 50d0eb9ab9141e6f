-- ===== src/Contracts/Task.antt =====
-- `ResearchTask` and `validate_task_capabilities` of backend/src/atlasflow/agents/contracts.py.
pub mod Sound
use atlas_flow_agent.Base.{
  ℕ, String, Bool, false, not, ◌&&◌, ◌||◌, List, ◌∷◌, ◌++◌, map, leb, eqb, if◌then◌else◌, Outcome,
  ok, raise_if, for_each, ◌==◌, nat_eq, string_eq, contains, distinct, subset, disjoint, length,
  is_empty, any, all, codes, text_length, is_blank, is_digit, is_lower, is_upper, matches, [],
  ◌>>=◌, ◌>>◌,
}
use atlas_flow_agent.Contracts.Errors.{ContractError, in_range, text_in_range}

pub record ResearchTask : Type 0 where
  pub task_id : String
  pub title : String
  pub objective : String
  pub success_criteria : List String
  pub priority : ℕ
  pub dependencies : List String
  pub repairs_task_ids : List String
  pub requires_fresh_data : Bool
  pub required_capabilities : List String
  pub capability_alternatives : List (List String)
  pub plan_version : ℕ

-- `^[A-Za-z0-9][A-Za-z0-9_.-]*$`
unfoldable pub is_code : String → Bool
unfolding matches is_digit is_lower is_upper
is_code s =
    let letter = λ (c : ℕ). is_lower c || is_upper c || is_digit c in
    matches letter (λ c. letter c || eqb c b'_' || eqb c b'.' || eqb c b'-') (codes s)

-- `^[a-z][a-z0-9_]{0,63}$`
unfoldable pub is_capability : String → Bool
unfolding matches is_digit is_lower text_length
is_capability s =
    matches is_lower (λ c. is_lower c || is_digit c || eqb c b'_') (codes s)
    && leb (text_length s) 64

-- The constraints that the fields declare.
unfoldable pub task_fields_ok : ResearchTask → Bool
task_fields_ok t =
    is_code t.task_id
    && text_in_range 1 64 t.task_id
    && text_in_range 1 200 t.title
    && text_in_range 1 2_000 t.objective
    && in_range 1 10 (length t.success_criteria)
    && in_range 1 5 t.priority
    && leb (length t.dependencies) 6
    && leb (length t.repairs_task_ids) 7
    && all is_capability t.required_capabilities
    && leb (length t.required_capabilities) 16
    && all (all is_capability) t.capability_alternatives
    && leb (length t.capability_alternatives) 8
    && leb 1 t.plan_version

-- The body of the loop over `capability_alternatives`.
unfoldable pub check_alternatives : List String → List String → Outcome ContractError (Unit {0})
check_alternatives required group = do
  raise_if (not (in_range 2 16 (length group)) || not (distinct group))
      ContractError.bad_alternative_group
  raise_if (not (disjoint group required)) ContractError.alternative_is_mandatory

unfoldable pub validate_dependencies : ResearchTask → Outcome ContractError ResearchTask
validate_dependencies t = do
  raise_if (not (distinct t.required_capabilities)) ContractError.capabilities_repeated
  for_each (check_alternatives t.required_capabilities) t.capability_alternatives
  raise_if
      (t.requires_fresh_data
        && not (not (is_empty t.required_capabilities) || not (is_empty t.capability_alternatives)))
      ContractError.fresh_without_capability
  raise_if (any is_blank t.success_criteria) ContractError.blank_criterion
  raise_if (not (distinct t.success_criteria)) ContractError.criteria_repeated
  raise_if (not (distinct t.dependencies)) ContractError.dependencies_repeated
  raise_if (contains t.dependencies t.task_id) ContractError.self_dependency
  raise_if (not (distinct t.repairs_task_ids) || contains t.repairs_task_ids t.task_id)
      ContractError.bad_repair_targets
  raise_if (not (disjoint t.repairs_task_ids t.dependencies)) ContractError.repair_depends_on_target
  ok t

-- `ResearchTask.model_validate`
unfoldable pub validate_task : ResearchTask → Outcome ContractError ResearchTask
validate_task t = do
  raise_if (not (task_fields_ok t)) ContractError.invalid_field
  validate_dependencies t

-- An entry of the tool registry's capability catalogue.
pub record Capability : Type 0 where
  pub id : String
  pub supports_fresh_data : Bool

-- `known[name]["supports_fresh_data"]`: the last entry of that name counts, as in a dict.
unfoldable pub supports_fresh : List Capability → String → Bool
unfolding contains
supports_fresh [] name = false
supports_fresh (c ∷ rest) name =
    if c.id == name && not (contains (map (λ d. d.id) rest) name)
    then c.supports_fresh_data
    else supports_fresh rest name

abbrev pub flatten : List (List String) → List String
flatten [] = []
flatten (group ∷ groups) = group ++ flatten groups

-- All capabilities that a task names.
abbrev pub all_capabilities : ResearchTask → List String
all_capabilities t = t.required_capabilities ++ flatten t.capability_alternatives

-- Whether what the task demands brings fresh data, whichever alternative is taken.
unfoldable pub has_fresh_source : List Capability → ResearchTask → Bool
unfolding supports_fresh any all
has_fresh_source catalog t =
    any (supports_fresh catalog) t.required_capabilities
    || any (all (supports_fresh catalog)) t.capability_alternatives

unfoldable pub check_task_capabilities :
    List Capability → ResearchTask → Outcome ContractError (Unit {0})
unfolding has_fresh_source subset
check_task_capabilities catalog t = do
  raise_if (not (subset (all_capabilities t) (map (λ c. c.id) catalog)))
      (ContractError.unknown_capabilities t.task_id)
  raise_if (t.requires_fresh_data && not (has_fresh_source catalog t))
      (ContractError.no_fresh_capability t.task_id)

unfoldable pub validate_task_capabilities :
    List ResearchTask → List Capability → Outcome ContractError (Unit {0})
unfolding check_task_capabilities for_each
validate_task_capabilities tasks catalog = for_each (check_task_capabilities catalog) tasks
