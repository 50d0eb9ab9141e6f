-- ===== src/Contracts/Policy.antt =====
-- `RunPolicy` of backend/src/atlasflow/agents/contracts.py.
use atlas_flow_agent.Base.{
  ℕ, ◌≤◌, String, ◌≡◌, ◌↔◌, Bool, true, false, not, ◌&&◌, ◌||◌, Option, none, some, arith, ltb, eqb,
  Outcome, ok, raise_if, is_some, codes, text_length, matches, is_digit, is_lower, ◌>>◌,
}
use atlas_flow_agent.Contracts.Errors.{ContractError, in_range, in_range?}

pub data KnowledgeMode : Type 0 where
  default selected off : KnowledgeMode

abbrev pub is_selected : KnowledgeMode → Bool
is_selected KnowledgeMode.selected = true
is_selected _ = false

pub record RunPolicy : Type 0 where
  pub initial_task_count : Option ℕ
  pub required_supplement_rounds : ℕ
  pub supplement_task_count : Option ℕ
  pub replan_requires_critical_issue : Bool
  pub max_tool_calls_per_turn : ℕ
  pub max_tool_calls_per_run : ℕ
  pub planner_allow_research : Bool
  pub knowledge_mode : KnowledgeMode
  pub knowledge_space : Option String

-- `RunPolicy()`
abbrev pub default_policy : RunPolicy
default_policy = record {
  initial_task_count = none;
  required_supplement_rounds = 0;
  supplement_task_count = none;
  replan_requires_critical_issue = true;
  max_tool_calls_per_turn = 10;
  max_tool_calls_per_run = 40;
  planner_allow_research = false;
  knowledge_mode = KnowledgeMode.default;
  knowledge_space = none;
}

-- `^[a-z0-9][a-z0-9-]{1,62}$`
unfoldable pub is_space_name : String → Bool
unfolding matches is_digit is_lower text_length
is_space_name s =
    matches (λ c. is_lower c || is_digit c) (λ c. is_lower c || is_digit c || eqb c b'-') (codes s)
    && in_range 2 63 (text_length s)

unfoldable pub is_space_name? : Option String → Bool
unfolding is_space_name
is_space_name? none = true
is_space_name? (some s) = is_space_name s

-- The constraints that the fields declare.
unfoldable pub policy_fields_ok : RunPolicy → Bool
policy_fields_ok p =
    in_range? 2 5 p.initial_task_count
    && in_range 0 1 p.required_supplement_rounds
    && in_range? 1 2 p.supplement_task_count
    && in_range 1 10 p.max_tool_calls_per_turn
    && in_range 1 50 p.max_tool_calls_per_run
    && is_space_name? p.knowledge_space

unfoldable pub validate_tool_budget : RunPolicy → Outcome ContractError RunPolicy
validate_tool_budget p = do
  raise_if (ltb p.max_tool_calls_per_run p.max_tool_calls_per_turn)
      ContractError.run_budget_below_turn_budget
  raise_if (is_selected p.knowledge_mode && not (is_some p.knowledge_space))
      ContractError.space_required
  raise_if (not (is_selected p.knowledge_mode) && is_some p.knowledge_space)
      ContractError.space_not_allowed
  ok p

-- `RunPolicy.model_validate`
unfoldable pub validate_policy : RunPolicy → Outcome ContractError RunPolicy
unfolding validate_tool_budget policy_fields_ok
validate_policy p = do
  raise_if (not (policy_fields_ok p)) ContractError.invalid_field
  validate_tool_budget p

pub record PolicyIsSound (p : RunPolicy) : Type 0 where
  pub turn_positive : 1 ≤ p.max_tool_calls_per_turn
  pub turn_le_run : p.max_tool_calls_per_turn ≤ p.max_tool_calls_per_run
  pub turn_bounded : p.max_tool_calls_per_turn ≤ 10
  pub run_bounded : p.max_tool_calls_per_run ≤ 50
  pub rounds_bounded : p.required_supplement_rounds ≤ 1
  pub space_iff : (is_selected p.knowledge_mode ≡ true) ↔ (is_some p.knowledge_space ≡ true)

-- An accepted run policy is returned unchanged. It allows 1 to 10 tool calls in a turn and at
-- least as many, at most 50, in a run, it requires at most one supplement round, and it names a
-- knowledge space exactly if its mode is `selected`.
pub validate_policy-PolicyIsSound :
    (p q : RunPolicy) → validate_policy p ≡ ok q → (q ≡ p) × PolicyIsSound q
unfolding validate_policy
validate_policy-PolicyIsSound p q h = ground arith
