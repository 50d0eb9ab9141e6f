-- ===== src/Tools/Retries.antt =====
-- How often `execute` of backend/src/atlasflow/tools/registry.py runs a tool, and what it returns.
use atlas_flow_agent.Base.{
  ℕ, zero, suc, ◌+◌, ◌-◌, ◌≤◌, ◌<◌, String, ◌≡◌, refl, sym, subst, ◌⊎◌, inl, inr, true, false, not,
  ◌&&◌, Option, none, some, arith, eqb, Bool-cases, Outcome, ok, raise, ◌==◌, nat_eq, string_eq,
  length, any,
}
use atlas_flow_agent.Base.Dict.{lookup}
use atlas_flow_agent.Knowledge.Models.{truthy}
use atlas_flow_agent.Tools.Registry.{
  Tool, ToolRegistry, ToolError, ToolContext, ToolResult, RunOutcome, Execution, attempts_from,
  execute, execute_tool, failed_result, same_risk, after_run, after_sleep,
}

-- What ends the loop: a run that returns, or that raises what is not retried.
abbrev pub settled : RunOutcome → Option (Outcome ToolError ToolResult)
settled (RunOutcome.returned result) = some (ok result)
settled (RunOutcome.crashed message) = some (raise (ToolError.crashed message))
settled (RunOutcome.transient message) = none

abbrev pub message_of : RunOutcome → Option String
message_of (RunOutcome.returned result) = none
message_of (RunOutcome.crashed message) = some message
message_of (RunOutcome.transient message) = some message

-- The error of the last of the runs, or the one before them if there is no run.
abbrev pub last_error : (ℕ → RunOutcome) → ℕ → ℕ → Option String → Option String
last_error run attempt zero last = last
last_error run attempt (suc k) last = last_error run (attempt + 1) k (message_of (run attempt))

-- The first `k` attempts are all transient failures.
abbrev pub AllTransient : (ℕ → RunOutcome) → ℕ → ℕ → Type 0
AllTransient run attempt zero = Unit
AllTransient run attempt (suc k) = (settled (run attempt) ≡ none) × AllTransient run (attempt + 1) k

-- Of `left` attempts, `k` have failed in passing. Either the next one settled the result, or there was
-- none left and the result is a failure that may be retried, with the error of the last one.
abbrev pub Ended : (ℕ → RunOutcome) → ℕ → ℕ → Option String → Execution → ℕ → Type 0
Ended run left attempt last e k =
    AllTransient run attempt k
    × (length e.sleeps ≡ e.runs - 1)
    × (((k < left) × (e.runs ≡ k + 1) × (settled (run (attempt + k)) ≡ some e.result))
        ⊎ ((k ≡ left)
            × (e.runs ≡ k)
            × (e.result ≡ ok (failed_result (last_error run attempt k last) true))))

transient_step :
    (run : ℕ → RunOutcome) (left attempt : ℕ) (last : Option String) (message : String)
    (e : Execution)
    → run attempt ≡ RunOutcome.transient message
    → (k : ℕ) → Ended run left (attempt + 1) (some message) e k
    → Ended run
        (suc left)
        attempt
        last
        (after_run (after_sleep (not (eqb left 0)) attempt e))
        (suc k)
transient_step run left attempt last message e h k (t, s, inl (l, r, f)) =
    let waits : eqb left 0 ≡ false = ground arith in
    rw waits (
      (rw h refl, t),
      omega arith,
      inl (
        omega arith,
        omega arith,
        subst (λ n. settled (run n) ≡ some e.result)
            (let same : attempt + 1 + k ≡ attempt + suc k = omega arith in same) f,
      ),
    )
transient_step run left attempt last message e h k (t, s, inr (l, r, f)) =
    elim (Bool-cases (eqb left 0)) [
      | inl z ↦ rw z ((rw h refl, t), ground arith, inr (omega arith, omega arith, same_error))
      | inr z ↦ rw z ((rw h refl, t), ground arith, inr (omega arith, omega arith, same_error))
    ]
  where
    same_error :
        e.result
        ≡ ok (failed_result (last_error run (attempt + 1) k (message_of (run attempt))) true)
    same_error =
        subst
          (λ o. e.result ≡ ok (failed_result (last_error run (attempt + 1) k (message_of o)) true))
          (sym h) f

attempts_from-Ended :
    (run : ℕ → RunOutcome) (left attempt : ℕ) (last : Option String)
    → (k : ℕ) × Ended run left attempt last (attempts_from run left attempt last) k
unfolding attempts_from
attempts_from-Ended run zero attempt last = (0, (tt, refl, inr (refl, refl, refl)))
attempts_from-Ended run (suc left) attempt last =
    by_outcome (run attempt) refl
      (λ message. attempts_from-Ended run left (attempt + 1) (some message))
  where
    at_once :
        {e : Outcome ToolError ToolResult}
        → settled (run attempt) ≡ some e
        → settled (run (attempt + 0)) ≡ some e
    at_once {e} h =
        subst (λ n. settled (run n) ≡ some e)
          (let same : attempt ≡ attempt + 0 = omega arith in same) h

    goes_on :
        (message : String)
        → run attempt ≡ RunOutcome.transient message
        → attempts_from run (suc left) attempt last
          ≡ after_run (
              after_sleep
                (not (eqb left 0))
                attempt
                (attempts_from run left (attempt + 1) (some message)))
    goes_on message h = rw (h, attempts_from) refl

    by_outcome :
        (o : RunOutcome)
        → run attempt ≡ o
        → ((message : String)
            → (k : ℕ) × Ended run left
                (attempt + 1)
                (some message)
                (attempts_from run left (attempt + 1) (some message))
                k)
        → (k : ℕ) × Ended run (suc left) attempt last (attempts_from run (suc left) attempt last) k
    by_outcome (RunOutcome.returned result) h rest =
        (0, rw (h, attempts_from) (tt, refl, inl (omega arith, refl, at_once (rw h refl))))
    by_outcome (RunOutcome.crashed message) h rest =
        (0, rw (h, attempts_from) (tt, refl, inl (omega arith, refl, at_once (rw h refl))))
    by_outcome (RunOutcome.transient message) h rest =
        let (k, ended) = rest message in
        (
          suc k,
          subst (λ e. Ended run (suc left) attempt last e (suc k)) (sym (goes_on message h))
              (transient_step run left attempt last message
                (attempts_from run left (attempt + 1) (some message)) h k ended),
        )

Ended-runs :
    (run : ℕ → RunOutcome) (left attempt : ℕ) (last : Option String) (e : Execution) (k : ℕ)
    → Ended run left attempt last e k
    → e.runs ≤ left
Ended-runs run left attempt last e k (t, s, inl (l, r, f)) = omega arith
Ended-runs run left attempt last e k (t, s, inr (l, r, f)) = omega arith

execute_allowed :
    (name : String) (tool : Tool) (run : ℕ → RunOutcome) (context : ToolContext) (r : ToolRegistry)
    → lookup name r.tools ≡ some tool
    → any (same_risk tool.risk_level) context.approved_risks ≡ true
    → (context.agent_name == "planner" && not tool.planning_safe) ≡ false
    → truthy tool.unavailable_reason ≡ false
    → execute name none none run context r ≡ attempts_from run (r.max_retries + 1) 0 none
unfolding execute execute_tool
execute_allowed name tool run context r l a p u = rw l (rw a (rw p (rw u refl)))

-- A call of a registered tool that is allowed, available and valid runs it `max_retries + 1` times at
-- most, and sleeps between the runs only. Some number of attempts fail in passing, by a timeout or a
-- lost connection; the first run that does not, if there is one, settles the result: what it returned or raised.
-- Otherwise the result is a failure that may be retried, with the error of the last run.
pub execute-Ended :
    (name : String) (tool : Tool) (run : ℕ → RunOutcome) (context : ToolContext) (r : ToolRegistry)
    → lookup name r.tools ≡ some tool
    → any (same_risk tool.risk_level) context.approved_risks ≡ true
    → (context.agent_name == "planner" && not tool.planning_safe) ≡ false
    → truthy tool.unavailable_reason ≡ false
    → ((execute name none none run context r).runs ≤ r.max_retries + 1)
      × ((k : ℕ) × Ended run (r.max_retries + 1) 0 none (execute name none none run context r) k)
execute-Ended name tool run context r l a p u =
    let (k, ended) = attempts_from-Ended run (r.max_retries + 1) 0 none in
    let same = sym (execute_allowed name tool run context r l a p u) in
    (
      subst (λ e. e.runs ≤ r.max_retries + 1) same
          (Ended-runs run (r.max_retries + 1) 0 none _ k ended),
      (k, subst (λ e. Ended run (r.max_retries + 1) 0 none e k) same ended),
    )
