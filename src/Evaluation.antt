-- ===== src/Evaluation.antt =====
-- The budget of backend/src/atlasflow/evaluation/budget.py. The clock's reading is an argument, and so
-- is what the callback `on_reserve` does. An exception leaves what was written before it.
pub mod Limits
mod Tests
use atlas_flow_agent.Base.{
  ℕ, ◌+◌, ◌-◌, String, Bool, Option, none, some, List, ◌∷◌, ◌++◌, leb, eqb, if◌then◌else◌, Outcome,
  ok, raise, nat_eq, string_eq, length, clip, [],
}
use atlas_flow_agent.Base.Dict.{Dict, lookup, insert}
use atlas_flow_agent.Knowledge.Models.{truthy}

pub record EvaluationBudgetSpec : Type 0 where
  pub max_http_attempts : ℕ
  pub max_elapsed_seconds : ℕ

pub record Attempt : Type 0 where
  pub sequence : ℕ
  pub kind : String
  pub operation : String

pub record EvaluationBudget : Type 0 where
  pub spec : EvaluationBudgetSpec
  pub started : ℕ
  pub attempts : List Attempt
  pub stop_reason : Option String

-- `EvaluationBudget.__init__`
unfoldable pub new_budget : EvaluationBudgetSpec → ℕ → EvaluationBudget
new_budget spec now = record { spec = spec; started = now; attempts = []; stop_reason = none }

unfoldable pub remaining_seconds : ℕ → EvaluationBudget → ℕ
remaining_seconds now b = b.spec.max_elapsed_seconds - (now - b.started)

-- What the reservation finds before it makes an attempt: the reason to stop, if there is one
unfoldable pub reason_to_stop : ℕ → EvaluationBudget → Option String
unfolding remaining_seconds
reason_to_stop now b =
    if eqb (remaining_seconds now b) 0
    then some "elapsed_budget_exhausted"
    else if leb b.spec.max_http_attempts (length b.attempts)
    then some "http_attempt_budget_exhausted"
    else b.stop_reason

abbrev pub reason_text : Option String → String
reason_text none = ""
reason_text (some s) = s

abbrev pub attempt_of : String → String → EvaluationBudget → Attempt
attempt_of kind operation b = record {
  sequence = length b.attempts + 1;
  kind = clip 80 kind;
  operation = clip 120 operation;
}

-- The attempt is recorded before the callback is called, and stays recorded when it fails.
abbrev pub record_attempt :
    Bool → Attempt → EvaluationBudget → Outcome String (Unit {0}) × EvaluationBudget
record_attempt persisted attempt b =
    let after = record b { attempts = b.attempts ++ attempt ∷ [] } in
    if persisted then (ok tt, after) else (
      raise "budget_ledger_persistence_failed",
      record after { stop_reason = some "budget_ledger_persistence_failed" },
    )

-- `reserve`; `persisted` says whether the callback returns, and is true where there is none.
unfoldable pub reserve_attempt :
    ℕ → Bool → String → String → EvaluationBudget → Outcome String (Unit {0}) × EvaluationBudget
unfolding reason_to_stop clip
reserve_attempt now persisted kind operation b =
    if truthy b.stop_reason
    then (raise (reason_text b.stop_reason), b)
    else let reason = reason_to_stop now b in
      if truthy reason
      then (raise (reason_text reason), record b { stop_reason = reason })
      else record_attempt persisted (attempt_of kind operation b)
          (record b { stop_reason = reason })

-- `stop`
unfoldable pub stop : String → EvaluationBudget → EvaluationBudget
stop reason b = record b {
  stop_reason = if truthy b.stop_reason then b.stop_reason else some reason;
}

abbrev pub count_of : Option ℕ → ℕ
count_of none = 0
count_of (some n) = n

-- The loop of `ledger`
unfoldable pub count_kinds : Dict ℕ → List Attempt → Dict ℕ
unfolding lookup insert
count_kinds kinds [] = kinds
count_kinds kinds (a ∷ xs) =
    count_kinds (insert a.kind (count_of (lookup a.kind kinds) + 1) kinds) xs

pub record Ledger : Type 0 where
  pub http_attempts : ℕ
  pub by_kind : Dict ℕ
  pub max_http_attempts : ℕ
  pub elapsed_seconds : ℕ
  pub max_elapsed_seconds : ℕ
  pub stop_reason : Option String

unfoldable pub ledger : ℕ → EvaluationBudget → Ledger
unfolding count_kinds
ledger now b = record {
  http_attempts = length b.attempts;
  by_kind = count_kinds [] b.attempts;
  max_http_attempts = b.spec.max_http_attempts;
  elapsed_seconds = now - b.started;
  max_elapsed_seconds = b.spec.max_elapsed_seconds;
  stop_reason = b.stop_reason;
}
