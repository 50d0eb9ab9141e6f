-- ===== src/Evaluation/Tests.antt =====
-- A budget of two attempts of backend/src/atlasflow/evaluation/budget.py.
use atlas_flow_agent.Base.{
  length, String, ◌≤◌, ◌≡◌, refl, true, List, ◌∷◌, raise, nat_eq, string_eq, is_blank, clip, [],
}
use atlas_flow_agent.Base.Dict.{values, lookup, insert}
use atlas_flow_agent.Evaluation.{
  EvaluationBudgetSpec, new_budget, reserve_attempt, reason_to_stop, remaining_seconds, stop,
  count_kinds, count_of, ledger,
}
use atlas_flow_agent.Evaluation.Limits.{Call, run, Numbered, sum, of_kind, run-WithinBudget}

-- What the tests run.
unfoldable program : Unit {0}
unfolding new_budget reserve_attempt reason_to_stop remaining_seconds stop count_kinds ledger run
    lookup insert clip is_blank
program = tt

abbrev two_attempts : EvaluationBudgetSpec
two_attempts = record { max_http_attempts = 2; max_elapsed_seconds = 60 }

abbrev calls : List Call
calls =
    Call.reserving 1 true "chat" "plan"
    ∷ Call.reserving 2 true "chat" "review"
    ∷ Call.reserving 3 true "search" "page"
    ∷ []

refuses_the_third :
    (reserve_attempt 3 true "search" "page" (run calls (new_budget two_attempts 0))).0
    ≡ raise "http_attempt_budget_exhausted"
unfolding program
refuses_the_third = refl

run-WithinBudget_example :
    ((ledger 3 (run calls (new_budget two_attempts 0))).http_attempts ≤ 2)
    × Numbered 1 (run calls (new_budget two_attempts 0)).attempts
    × ((ledger 3 (run calls (new_budget two_attempts 0))).http_attempts
        ≡ length (run calls (new_budget two_attempts 0)).attempts)
    × ((k : String)
        → count_of (lookup k (ledger 3 (run calls (new_budget two_attempts 0))).by_kind)
          ≡ length (of_kind k (run calls (new_budget two_attempts 0)).attempts))
    × (sum (values (ledger 3 (run calls (new_budget two_attempts 0))).by_kind)
        ≡ (ledger 3 (run calls (new_budget two_attempts 0))).http_attempts)
unfolding program
run-WithinBudget_example = run-WithinBudget two_attempts 0 3 calls
