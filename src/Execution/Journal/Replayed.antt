-- ===== src/Execution/Journal/Replayed.antt =====
-- The journal entries of backend/src/atlasflow/execution/runtime.py that are
-- replayed, and the new ones.
use atlas_flow_agent.Base.{
  ℕ, String, Bool, false, not, ◌&&◌, ◌||◌, Option, none, some, List, ◌∷◌, ltb, if◌then◌else◌,
  Outcome, ok, raise, ◌==◌, nat_eq, string_eq, any, keep, [],
}
use atlas_flow_agent.Base.Dict.{Dict, values}
use atlas_flow_agent.Base.Sorting.{sort_by}
use atlas_flow_agent.Execution.Bundle.{
  ExecutionError, ExecutionClaim, Status, Invocation, is_reserved, is_dispatched, is_succeeded,
  is_unknown,
}

-- The arguments of `begin_invocation`, the hash of its inputs, and the id and time that it draws.
pub record BeginRequest : Type 0 where
  pub claim : ExecutionClaim
  pub node_key : String
  pub kind : String
  pub name : String
  pub slot : String
  pub input_hash : String
  pub replayable : Bool
  pub consumes_tool_budget : Bool
  pub invocation_id : String
  pub created_at : ℕ

abbrev or_else : Option Bool → Bool → Bool
or_else none d = d
or_else (some x) d = x

module _ {V : Type 0} where
  -- `sorted(…, key=attempt)`, which keeps the order of equal keys
  unfoldable pub sort_by_attempt : List (Invocation V) → List (Invocation V)
  unfolding sort_by
  sort_by_attempt is = sort_by (λ i j. ltb i.attempt j.attempt) is

  -- The attempts at a slot, the earliest first.
  unfoldable pub matches_of : String → Dict (Invocation V) → List (Invocation V)
  unfolding sort_by_attempt keep
  matches_of slot invocations = sort_by_attempt (keep (λ i. i.slot == slot) (values invocations))

  -- The first loop: a durable call's input must not change.
  unfoldable pub input_changed : BeginRequest → List (Invocation V) → Bool
  unfolding any
  input_changed r items =
      (r.kind == "llm" || r.kind == "node_result")
      && any (λ i. not (i.input_hash == r.input_hash)) items

  -- The second loop, over the attempts from the latest: an attempt to replay, if there is one.
  unfoldable pub find_replay :
      String → List (Invocation V) → Outcome ExecutionError (Option (Invocation V))
  find_replay h [] = ok none
  find_replay h (i ∷ rest) =
      let earlier = find_replay h rest in
      if not (i.input_hash == h)
      then earlier
      else if is_succeeded i.status && i.replayable
      then ok (some i)
      else if is_reserved i.status || is_dispatched i.status
      then raise ExecutionError.conflict
      else if is_unknown i.status && not i.acknowledged
      then raise ExecutionError.unknown_invocation
      else earlier

  abbrev pub new_invocation : BeginRequest → ℕ → Invocation V
  new_invocation r attempt = record {
    id = r.invocation_id;
    slot = r.slot;
    input_hash = r.input_hash;
    kind = r.kind;
    name = r.name;
    node_key = r.node_key;
    status = Status.reserved;
    replayable = r.replayable;
    result = none;
    tool_budget_counted = r.consumes_tool_budget;
    acknowledged = false;
    not_sent = false;
    created_at = r.created_at;
    attempt = attempt;
    request_group = none;
    attempt_number = none;
    requested_model = none;
    request_id = none;
    http_status = none;
    usage = none;
  }

  abbrev pub set_status : Status → Invocation V → Invocation V
  set_status status i = record i { status = status }

  abbrev pub annotated : String → ℕ → Option String → Invocation V → Invocation V
  annotated group number model i = record i {
    request_group = some group;
    attempt_number = some number;
    requested_model = model;
  }

  abbrev pub confirmed : V → Option Bool → Invocation V → Invocation V
  confirmed result replayable i = record i {
    status = Status.succeeded;
    result = some result;
    replayable = or_else replayable i.replayable;
  }
