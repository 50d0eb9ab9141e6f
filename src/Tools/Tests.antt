-- ===== src/Tools/Tests.antt =====
-- A tool that times out once, the budget of one run, and two failures of one site.
use atlas_flow_agent.Base.{
  ℕ, zero, suc, ◌+◌, ◌≤◌, String, ◌≡◌, refl, true, false, none, some, List, ◌∷◌, arith, is_some, ok,
  for_each, nat_eq, string_eq, dedup, any, all, keep, text_length, is_blank, [],
}
use atlas_flow_agent.Base.Dict.{lookup, insert, without}
use atlas_flow_agent.Base.Sorting.{insert_stable, sort_by}
use atlas_flow_agent.Tools.Budget.{
  Request, answer, promised, reserve_call, remaining, clear_budget, answer-promised,
}
use atlas_flow_agent.Tools.Failures.{
  ToolCallRecord, FailurePolicy, observe, put_record, blocking_record, count_failures, all_fail,
  of_target, newest_first, records_of, blocking_record-all_fail,
}
use atlas_flow_agent.Tools.Registry.{
  Tool, ToolRegistry, RiskLevel, ToolContext, ToolResult, RunOutcome, register, check_capability,
  is_capability_id, execute, execute_tool, attempts_from,
}
use atlas_flow_agent.Tools.Retries.{Ended, execute-Ended}

-- What the tests run.
unfoldable program : Unit {0}
unfolding lookup insert without insert_stable sort_by answer reserve_call remaining clear_budget
    observe put_record blocking_record count_failures keep all any execute execute_tool
    attempts_from register check_capability is_capability_id dedup for_each is_blank text_length
program = tt

abbrev search : Tool
search = record {
  name = "web_search";
  risk_level = RiskLevel.low;
  capabilities = record { id = "web_search"; description = ""; supports_fresh_data = true } ∷ [];
  allowed_agents = "researcher" ∷ [];
  planning_safe = true;
  unavailable_reason = none;
}

abbrev registry : ToolRegistry
registry = record { tools = ("web_search", search) ∷ []; max_retries = 2 }

registers : register search (record { tools = []; max_retries = 2 }) ≡ ok registry
unfolding program
registers = refl

abbrev researcher : ToolContext
researcher = record { agent_name = "researcher"; approved_risks = RiskLevel.low ∷ [] }

abbrev found_page : ToolResult
found_page = record { success = true; error = none; retryable = false }

abbrev times_out_once : ℕ → RunOutcome
times_out_once zero = RunOutcome.transient "timeout"
times_out_once (suc n) = RunOutcome.returned found_page

runs_twice :
    execute "web_search" none none times_out_once researcher registry
    ≡ record { result = ok found_page; runs = 2; sleeps = 1 ∷ [] }
unfolding program
runs_twice = refl

execute-Ended_example :
    ((execute "web_search" none none times_out_once researcher registry).runs ≤ 2 + 1)
    × ((k : ℕ) × Ended times_out_once
          (2 + 1)
          0
          none
          (execute "web_search" none none times_out_once researcher registry)
          k)
unfolding program
execute-Ended_example =
    execute-Ended "web_search" search times_out_once researcher registry refl refl refl refl

abbrev requests : List Request
requests =
    Request.reserving "run" 0 2
    ∷ Request.reserving "run" 0 2
    ∷ Request.reserving "run" 0 2
    ∷ Request.clearing "run"
    ∷ Request.asking "run" 1 2
    ∷ []

answer-promised_example : (answer requests []).0 ≡ promised requests (λ _. 0)
unfolding program
answer-promised_example = answer-promised requests [] (λ _. 0) (λ k. refl)

abbrev timed_out : String → ℕ → ToolCallRecord String
timed_out call_id created_at = record {
  call_id = call_id;
  tool_name = "web_page";
  arguments = "https://a.example";
  success = false;
  retryable = some true;
  reused_from_call_id = none;
  created_at = created_at;
}

abbrev page_tool : FailurePolicy String
page_tool = record {
  name = "web_page";
  transient_failure_limit = 2;
  transient_failure_scope = some;
}

abbrev failed_twice : List (ToolCallRecord String)
failed_twice = timed_out "c1" 1 ∷ timed_out "c2" 2 ∷ []

blocks :
    blocking_record "run" page_tool "https://a.example" (observe "run" failed_twice [])
    ≡ some (timed_out "c1" 1)
unfolding program
blocks = refl

blocking_record-all_fail_example :
    is_some (blocking_record "run" page_tool "https://a.example" (observe "run" failed_twice []))
    ≡ all_fail 2 (
        keep
          (of_target page_tool (some "https://a.example"))
          (newest_first (records_of (lookup "run" (observe "run" failed_twice [])))))
unfolding program
blocking_record-all_fail_example =
    blocking_record-all_fail "run" page_tool "https://a.example" (observe "run" failed_twice [])
      (omega arith) refl
