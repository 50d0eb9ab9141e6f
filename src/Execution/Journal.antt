-- ===== src/Execution/Journal.antt =====
-- Invocations of backend/src/atlasflow/execution/runtime.py: the journal entry of each external
-- call, from its reservation to its result, and what is replayed from it.
mod Replayed
unfoldable pub use Replayed.*
use atlas_flow_agent.Base.{
  ℕ, ◌+◌, String, Bool, true, false, not, ◌&&◌, ◌||◌, Option, none, some, List, ◌∷◌, ltb, leb,
  if◌then◌else◌, is_some, Outcome, ok, raise, raise_if, ◌==◌, nat_eq, string_eq, length, is_empty,
  any, keep, [], ◌>>=◌, ◌>>◌,
}
use mathlib.Core.List.{reverse}
use atlas_flow_agent.Base.Dict.{Dict, lookup, insert, adjust, values}
use atlas_flow_agent.Base.Sorting.{sort_by}
use atlas_flow_agent.Execution.Bundle.{
  ExecutionError, ExecutionClaim, Status, Invocation, InvocationLease, RunBundle, Usage,
  is_reserved, is_dispatched, is_succeeded, is_unknown,
}
use atlas_flow_agent.Execution.Claims.{assert_claim}

module _ {P V : Type 0} where
  -- A call that is not replayed: it reserves its share of the tool budget and an entry.
  unfoldable pub reserve :
      BeginRequest → ℕ → RunBundle P V → Outcome ExecutionError (InvocationLease V × RunBundle P V)
  unfolding insert
  reserve r attempt b = do
    raise_if (r.consumes_tool_budget && leb b.control.tool_limit b.control.tool_reserved)
        ExecutionError.tool_limit
    let used =
        if r.consumes_tool_budget then b.control.tool_reserved + 1 else b.control.tool_reserved
    ok (
      record {
        run_id = r.claim.run_id;
        invocation_id = r.invocation_id;
        slot = r.slot;
        claim = r.claim;
        replay = none;
        replayed = false;
      },
      record b {
        control = record (b.control) { tool_reserved = used };
        invocations = insert r.invocation_id (new_invocation r attempt) b.invocations;
      },
    )

  abbrev pub begin_by :
      BeginRequest
      → ℕ
      → RunBundle P V
      → Option (Invocation V)
      → Outcome ExecutionError (InvocationLease V × RunBundle P V)
  begin_by r attempt b none = reserve r attempt b
  begin_by r attempt b (some i) = ok (
    record {
      run_id = r.claim.run_id;
      invocation_id = i.id;
      slot = r.slot;
      claim = r.claim;
      replay = i.result;
      replayed = true;
    },
    b,
  )

  -- `begin_invocation`
  unfoldable pub begin_invocation :
      BeginRequest → RunBundle P V → Outcome ExecutionError (InvocationLease V × RunBundle P V)
  begin_invocation r b = do
    assert_claim b r.claim
    let attempts = matches_of r.slot b.invocations
    raise_if (input_changed r attempts) ExecutionError.conflict
    found ← find_replay r.input_hash (reverse attempts)
    begin_by r (length attempts) b found

  -- `bundle.invocations[lease.invocation_id]` under an update
  unfoldable pub update_invocation :
      InvocationLease V
      → (Invocation V → Invocation V)
      → RunBundle P V
      → Outcome ExecutionError (RunBundle P V)
  update_invocation lease change b = do
    assert_claim b lease.claim
    raise_if (not (is_some (lookup lease.invocation_id b.invocations))) ExecutionError.missing_key
    ok (record b { invocations = adjust lease.invocation_id change b.invocations })

  -- `dispatch`
  unfoldable pub dispatch :
      InvocationLease V → RunBundle P V → Outcome ExecutionError (RunBundle P V)
  dispatch lease b = update_invocation lease (set_status Status.dispatched) b

  -- `confirm`; the result is the encoded one.
  unfoldable pub confirm :
      InvocationLease V → V → Option Bool → RunBundle P V → Outcome ExecutionError (RunBundle P V)
  confirm lease result replayable b = update_invocation lease (confirmed result replayable) b

  -- `fail`
  unfoldable pub fail : InvocationLease V → RunBundle P V → Outcome ExecutionError (RunBundle P V)
  fail lease b = update_invocation lease (set_status Status.failed) b

  -- `annotate_http`
  unfoldable pub annotate_http :
      InvocationLease V
      → String
      → ℕ
      → Option String
      → RunBundle P V
      → Outcome ExecutionError (RunBundle P V)
  annotate_http lease group number model b =
      update_invocation lease (annotated group number model) b

  -- `has_tool_replay`
  unfoldable pub has_tool_replay : String → RunBundle P V → Bool
  unfolding any
  has_tool_replay node_key b =
      any
        (λ i.
          i.node_key == node_key
          && i.kind == "tool_decision"
          && is_succeeded i.status
          && i.replayable)
        (values b.invocations)

-- The outcome that a provider's answer has.
pub data HttpOutcome : Type 0 where
  succeeded failed unknown : HttpOutcome

abbrev pub outcome_status : HttpOutcome → Status
outcome_status HttpOutcome.succeeded = Status.succeeded
outcome_status HttpOutcome.failed = Status.failed
outcome_status HttpOutcome.unknown = Status.unknown

abbrev outcome_is_unknown : HttpOutcome → Bool
outcome_is_unknown HttpOutcome.unknown = true
outcome_is_unknown _ = false

-- A value of a usage report: a finite number that is not negative, or anything else.
pub data UsageValue : Type 0 where
  amount : ℕ → UsageValue
  other : UsageValue

abbrev pub UsageReport : Type 0
UsageReport = List (String × UsageValue)

abbrev amount_of : UsageValue → Option ℕ
amount_of (amount n) = some n
amount_of other = none

abbrev is_amount : UsageValue → Bool
is_amount (amount n) = true
is_amount other = false

abbrev last_amount : String → UsageReport → Option ℕ
last_amount k [] = none
last_amount k ((j, v) ∷ rest) =
    let later = last_amount k rest in if j == k && not (is_some later) then amount_of v else later

-- `safe_usage`: the token counts and the cost, where they are amounts, and nothing else.
unfoldable pub safe_usage : UsageReport → Option Usage
unfolding keep
safe_usage report =
    let known = λ (e : String × UsageValue).
      is_amount e.1
      && (e.0 == "prompt_tokens"
          || e.0 == "completion_tokens"
          || e.0 == "total_tokens"
          || e.0 == "cost") in
    let kept = keep known report in
    let others =
      λ (e : String × UsageValue). e.0 == "prompt_tokens" || e.0 == "completion_tokens" in
    if is_empty kept
    then none
    else some (record {
      total_tokens = last_amount "total_tokens" kept;
      cost = last_amount "cost" kept;
      other_amounts = length (keep others kept);
    })

module _ {V : Type 0} where
  abbrev pub answered :
      HttpOutcome → Option String → Option ℕ → UsageReport → Invocation V → Invocation V
  answered outcome request_id http_status report i = record i {
    status = outcome_status outcome;
    request_id = request_id;
    http_status = http_status;
    usage = safe_usage report;
  }

module _ {P V : Type 0} where
  -- `finish_http`: the new bundle is stored, and then an unknown outcome raises.
  unfoldable pub finish_http :
      InvocationLease V
      → HttpOutcome
      → Option String
      → Option ℕ
      → UsageReport
      → RunBundle P V
      → Outcome ExecutionError (RunBundle P V × Outcome ExecutionError (Unit {0}))
  finish_http lease outcome request_id http_status report b = do
    after ← update_invocation lease (answered outcome request_id http_status report) b
    ok (after, raise_if (outcome_is_unknown outcome) ExecutionError.unknown_invocation)
