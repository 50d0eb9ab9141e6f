-- ===== src/Tools/Registry.antt =====
-- `ToolRegistry` of backend/src/atlasflow/tools/registry.py. A tool's answer to `unavailable_reason` is
-- a field; what its arguments' model, its check of the context and its runs do are arguments.
use atlas_flow_agent.Base.{
  ℕ, zero, suc, ◌+◌, ◌*◌, String, Bool, true, false, not, ◌&&◌, ◌||◌, Option, none, some, List, ◌∷◌,
  map, leb, eqb, if◌then◌else◌, is_some, Outcome, ok, raise, raise_if, for_each, ◌==◌, nat_eq,
  string_eq, contains, dedup, length, any, all, keep, codes, text_length, is_digit, is_lower,
  matches, [], ◌>>◌,
}
use atlas_flow_agent.Base.Dict.{Dict, lookup, insert, values}
use atlas_flow_agent.Knowledge.Models.{truthy}

pub data RiskLevel : Type 0 where
  low medium high : RiskLevel

abbrev pub is_low : RiskLevel → Bool
is_low RiskLevel.low = true
is_low _ = false

abbrev pub same_risk : RiskLevel → RiskLevel → Bool
same_risk RiskLevel.low RiskLevel.low = true
same_risk RiskLevel.medium RiskLevel.medium = true
same_risk RiskLevel.high RiskLevel.high = true
same_risk _ _ = false

pub record ToolCapability : Type 0 where
  pub id : String
  pub description : String
  pub supports_fresh_data : Bool

pub record Tool : Type 0 where
  pub name : String
  pub risk_level : RiskLevel
  pub capabilities : List ToolCapability
  pub allowed_agents : List String
  pub planning_safe : Bool
  pub unavailable_reason : Option String

pub record ToolRegistry : Type 0 where
  pub tools : Dict Tool
  pub max_retries : ℕ

pub data ToolError : Type 0 where
  value_error not_found permission invalid crashed : String → ToolError

abbrev pub same_bool : Bool → Bool → Bool
same_bool true b = b
same_bool false b = not b

abbrev pub same_capability : ToolCapability → ToolCapability → Bool
same_capability c d =
    c.id == d.id
    && c.description == d.description
    && same_bool c.supports_fresh_data d.supports_fresh_data

-- `[a-z][a-z0-9_]{0,63}`
unfoldable pub is_capability_id : String → Bool
unfolding matches all is_lower is_digit
is_capability_id id =
    matches is_lower (λ c. is_lower c || is_digit c || eqb c b'_') (codes id)
    && leb (text_length id) 64

abbrev pub conflicts : ToolCapability → Tool → Bool
conflicts c tool =
    any (λ previous. previous.id == c.id && not (same_capability previous c)) tool.capabilities

-- The loop of `register` over the capabilities
unfoldable pub check_capability : List Tool → ToolCapability → Outcome ToolError (Unit {0})
unfolding is_capability_id any
check_capability tools c = do
  raise_if (not (is_capability_id c.id)) (ToolError.value_error "invalid capability id")
  raise_if (any (conflicts c) tools) (ToolError.value_error "conflicting capability definition")

unfoldable pub register : Tool → ToolRegistry → Outcome ToolError ToolRegistry
unfolding check_capability dedup
register tool r = do
  raise_if (is_some (lookup tool.name r.tools)) (ToolError.value_error "Tool already registered")
  raise_if
      (not (eqb (length (dedup (map (λ c. c.id) tool.capabilities))) (length tool.capabilities)))
      (ToolError.value_error "duplicate tool capabilities")
  for_each (check_capability (values r.tools)) tool.capabilities
  ok (record r { tools = insert tool.name tool r.tools })

-- The test of `available_for` on a tool that is described
unfoldable pub is_available : String → Tool → Bool
unfolding contains
is_available agent tool =
    contains tool.allowed_agents agent
    && not (is_some tool.unavailable_reason)
    && is_low tool.risk_level
    && (not (agent == "planner") || tool.planning_safe)

-- `available_for`, up to the description of each tool
unfoldable pub available_for : String → ToolRegistry → List Tool
unfolding keep is_available
available_for agent r = keep (is_available agent) (values r.tools)

pub record ToolContext : Type 0 where
  pub agent_name : String
  pub approved_risks : List RiskLevel

pub record ToolResult : Type 0 where
  pub success : Bool
  pub error : Option String
  pub retryable : Bool

abbrev pub failed_result : Option String → Bool → ToolResult
failed_result error retryable = record { success = false; error = error; retryable = retryable }

-- What one run of a tool does: it returns, fails with a timeout or a lost connection, or raises
-- something else.
pub data RunOutcome : Type 0 where
  returned : ToolResult → RunOutcome
  transient crashed : String → RunOutcome

-- What the loop over the attempts ends with, how often it ran the tool, and how long it slept after
-- each run, in units of 50 milliseconds
pub record Execution : Type 0 where
  pub result : Outcome ToolError ToolResult
  pub runs : ℕ
  pub sleeps : List ℕ

-- `2**n`
abbrev pub power_of_two : ℕ → ℕ
power_of_two zero = 1
power_of_two (suc n) = 2 * power_of_two n

abbrev pub after_run : Execution → Execution
after_run e = record e { runs = e.runs + 1 }

abbrev pub after_sleep : Bool → ℕ → Execution → Execution
after_sleep slept attempt e =
    if slept then record e { sleeps = power_of_two attempt ∷ e.sleeps } else e

-- `for attempt in range(attempts)`: the attempts that are left, the next attempt and the last error
unfoldable pub attempts_from : (ℕ → RunOutcome) → ℕ → ℕ → Option String → Execution
attempts_from run zero attempt last_error = record {
  result = ok (failed_result last_error true);
  runs = 0;
  sleeps = [];
}
attempts_from run (suc left) attempt last_error = elim (run attempt) [
  | RunOutcome.returned result ↦ record { result = ok result; runs = 1; sleeps = [] }
  | RunOutcome.crashed message ↦ record {
    result = raise (ToolError.crashed message);
    runs = 1;
    sleeps = [];
  }
  | RunOutcome.transient message ↦
      after_run (
        after_sleep (not (eqb left 0)) attempt
          (attempts_from run left (attempt + 1) (some message)))
]

abbrev pub refused : Outcome ToolError ToolResult → Execution
refused result = record { result = result; runs = 0; sleeps = [] }

-- `execute` on a tool that is there, with what the validations of its arguments and of the context say
unfoldable pub execute_tool :
    Tool → Option String → Option String → (ℕ → RunOutcome) → ℕ → ToolContext → Execution
unfolding attempts_from any
execute_tool tool argument_error constraint_error run max_retries context =
    if not (any (same_risk tool.risk_level) context.approved_risks)
    then refused (raise (ToolError.permission "requires approval"))
    else if context.agent_name == "planner" && not tool.planning_safe
    then refused
        (raise (ToolError.permission "Planner only permits planning-safe reconnaissance tools"))
    else if truthy tool.unavailable_reason
    then refused (ok (failed_result tool.unavailable_reason false))
    else if is_some argument_error
    then refused (raise (ToolError.invalid "arguments"))
    else if truthy constraint_error
    then refused (ok (failed_result constraint_error false))
    else attempts_from run (max_retries + 1) 0 none

abbrev pub execute_found :
    Option Tool
    → String
    → Option String
    → Option String
    → (ℕ → RunOutcome)
    → ℕ
    → ToolContext
    → Execution
execute_found none name argument_error constraint_error run max_retries context =
    refused (raise (ToolError.not_found name))
execute_found (some tool) name argument_error constraint_error run max_retries context =
    execute_tool tool argument_error constraint_error run max_retries context

unfoldable pub execute :
    String
    → Option String
    → Option String
    → (ℕ → RunOutcome)
    → ToolContext
    → ToolRegistry
    → Execution
unfolding execute_tool lookup
execute name argument_error constraint_error run context r =
    execute_found (lookup name r.tools) name argument_error constraint_error run r.max_retries
      context
