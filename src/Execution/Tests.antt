-- ===== src/Execution/Tests.antt =====
-- One run of backend/src/atlasflow/execution/runtime.py on small values: a payload and a result are
-- texts, and a payload's digest is its text.
use atlas_flow_agent.Base.{
  ◌≤◌, String, ◌≡◌, refl, ◌≢◌, Bool, true, false, Option, none, some, ◌∷◌, arith, Outcome, ok,
  raise, contains, subset, keep, string_eq, [],
}
use atlas_flow_agent.Base.Dict.{lookup, insert, adjust, map_values, count}
use atlas_flow_agent.Base.Sorting.{insert_stable, sort_by}
use atlas_flow_agent.Execution.Bundle.{
  ExecutionError, ExecutionClaim, Payloads, RunBundle, initial_bundle, Invocation, InvocationLease,
  Status,
}
use atlas_flow_agent.Base.Sorting.{insert_stable, sort_by}
use atlas_flow_agent.Execution.Bundle.{initial_control}
use atlas_flow_agent.Execution.Claims.{
  ClaimRequest, assert_claim, completed_nodes, active_unknown, acknowledge_all, claim_new, claim,
  cancel, recover_invocation, refunds, recover_owner,
}
use atlas_flow_agent.Execution.Journal.{
  BeginRequest, sort_by_attempt, matches_of, input_changed, find_replay, reserve, begin_invocation,
  update_invocation, dispatch, confirm,
}
use atlas_flow_agent.Execution.Steps.{here, next, claimed as claimed_step, recovered, begun}
use atlas_flow_agent.Execution.Fencing.{
  claim_takes_over, cancel_is_final, recover_owner_fences, claim_again,
}
use atlas_flow_agent.Execution.Budget.{Reaches-within_budget, is_counted}
use atlas_flow_agent.Execution.Replay.{confirm-replays, replay_lease}
use atlas_flow_agent.Execution.Recovery.{recover_owner_bars, is_under_way}

abbrev codec : Payloads String
codec = record { digest = λ p. p; kind = λ p. p; cancel = "cancel" }

abbrev start : RunBundle String String
start = initial_bundle "profile" 2 none

abbrev request : ClaimRequest String
request = record {
  run_id = "run";
  request_id = "request";
  payload = "start";
  acknowledged = [];
  recovery = false;
  checkpoint_id = none;
  owner_token = "token";
  instance_id = "instance";
  profile_hash = "profile";
}

abbrev owner : ExecutionClaim
owner = record { run_id = "run"; owner_token = "token"; fencing_epoch = 1 }

abbrev bundle_of_claim :
    Outcome ExecutionError (Option ExecutionClaim × Bool × RunBundle String String)
    → RunBundle String String
bundle_of_claim (ok (given, repeated, b)) = b
bundle_of_claim (raise e) = start

abbrev bundle_of : Outcome ExecutionError (RunBundle String String) → RunBundle String String
bundle_of (ok b) = b
bundle_of (raise e) = start

abbrev claimed : RunBundle String String
claimed = bundle_of_claim (claim codec request start)

-- What the tests run.
unfoldable program : Unit {0}
unfolding initial_control assert_claim completed_nodes active_unknown acknowledge_all claim_new
    claim cancel recover_invocation refunds recover_owner insert_stable sort_by sort_by_attempt
    matches_of input_changed find_replay reserve begin_invocation update_invocation dispatch confirm
    lookup insert adjust map_values count contains subset keep
program = tt

claim_takes_over_example :
    (assert_claim claimed owner ≡ ok tt)
    × (start.control.owner ≡ none)
    × (assert_claim claimed (record { run_id = "run"; owner_token = "old"; fencing_epoch = 0 })
        ≢ ok tt)
unfolding program
claim_takes_over_example =
    claim_takes_over codec request owner
      (record { run_id = "run"; owner_token = "old"; fencing_epoch = 0 }) false start claimed
      claimed refl (omega arith) here

abbrev owner_later : ExecutionClaim
owner_later = record { run_id = "run"; owner_token = "token"; fencing_epoch = 3 }

abbrev stopped : RunBundle String String
stopped = bundle_of (cancel codec false none claimed)

cancel_is_final_example :
    (assert_claim (recover_owner stopped) owner ≡ raise ExecutionError.cancelled)
    × (claim codec request (recover_owner stopped) ≡ raise ExecutionError.conflict)
unfolding program
cancel_is_final_example =
    cancel_is_final codec false none owner request claimed stopped (recover_owner stopped) refl
      (next here (recovered refl))

recover_owner_fences_example : assert_claim (recover_owner claimed) owner ≢ ok tt
unfolding program
recover_owner_fences_example =
    recover_owner_fences codec claimed (recover_owner claimed) owner (omega arith) here

claim_again_example : claim codec request claimed ≡ ok (none, true, claimed)
unfolding program
claim_again_example = claim_again codec request request owner false start claimed refl refl refl

abbrev search_call : BeginRequest
search_call = record {
  claim = owner;
  node_key = "node";
  kind = "tool";
  name = "search";
  slot = "slot";
  input_hash = "input";
  replayable = true;
  consumes_tool_budget = true;
  invocation_id = "first";
  created_at = 1;
}

abbrev lease_of : InvocationLease String
lease_of = record {
  run_id = "run";
  invocation_id = "first";
  slot = "slot";
  claim = owner;
  replay = none;
  replayed = false;
}

abbrev bundle_of_begin :
    Outcome ExecutionError (InvocationLease String × RunBundle String String)
    → RunBundle String String
bundle_of_begin (ok (lease, b)) = b
bundle_of_begin (raise e) = start

abbrev begun_bundle : RunBundle String String
begun_bundle = bundle_of_begin (begin_invocation search_call claimed)

abbrev sent : RunBundle String String
sent = bundle_of (dispatch lease_of begun_bundle)

abbrev done : RunBundle String String
done = bundle_of (confirm lease_of "found" none begun_bundle)

Reaches-within_budget_example :
    (begun_bundle.control.tool_reserved ≡ count is_counted begun_bundle.invocations)
    × (begun_bundle.control.tool_reserved ≤ 2)
unfolding program
Reaches-within_budget_example = Reaches-within_budget codec "profile" 2 none begun_bundle (
    next (next here (claimed_step request (some owner) false refl))
      (begun search_call lease_of refl refl))

confirm-replays_example :
    begin_invocation (record search_call { invocation_id = "second"; created_at = 2 }) done
    ≡ ok (replay_lease search_call "found", done)
unfolding program
confirm-replays_example =
    confirm-replays search_call lease_of "found" claimed begun_bundle done "second" 2 refl tt refl
      refl refl refl

abbrev sent_call : Invocation String
sent_call = record {
  id = "first";
  slot = "slot";
  input_hash = "input";
  kind = "tool";
  name = "search";
  node_key = "node";
  status = Status.dispatched;
  replayable = true;
  result = none;
  tool_budget_counted = true;
  acknowledged = false;
  not_sent = false;
  created_at = 1;
  attempt = 0;
  request_group = none;
  attempt_number = none;
  requested_model = none;
  request_id = none;
  http_status = none;
  usage = none;
}

recover_owner_bars_example :
    (count is_under_way (recover_owner sent).invocations ≡ 0)
    × (contains {A = String} ("first" ∷ []) "first" ≡ true)
unfolding program
recover_owner_bars_example =
    recover_owner_bars codec sent
      (bundle_of_claim (
        claim codec (record request { request_id = "again"; acknowledged = "first" ∷ [] })
          (recover_owner sent)))
      "first" sent_call (record request { request_id = "again"; acknowledged = "first" ∷ [] })
      owner_later false refl refl refl refl refl
