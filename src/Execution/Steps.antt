-- ===== src/Execution/Steps.antt =====
-- The life of a run's bundle in backend/src/atlasflow/execution/runtime.py: one step for each
-- operation that changes the bundle, with any arguments, by whichever task calls it.
use atlas_flow_agent.Base.{ℕ, String, ◌≡◌, Bool, Option, none, Outcome, ok, nat_eq, string_eq}
use atlas_flow_agent.Base.Dict.{lookup}
use atlas_flow_agent.Execution.Bundle.{
  ExecutionError, ExecutionClaim, InvocationLease, RunBundle, Payloads,
}
use atlas_flow_agent.Execution.Claims.{
  ClaimRequest, claim, complete_command, release, cancel, recover_owner,
}
use atlas_flow_agent.Execution.Journal.{
  BeginRequest, begin_invocation, dispatch, confirm, fail, annotate_http, HttpOutcome, UsageReport,
  finish_http,
}
use atlas_flow_agent.Execution.Outbox.{EmitRequest, emit, flush}

module _ {P V : Type 0} (codec : Payloads P) where
  -- A new invocation draws an id that no entry has: a version 4 UUID.
  pub data Step (b c : RunBundle P V) : Type 0 where
    claimed :
        (r : ClaimRequest P) (given : Option ExecutionClaim) (repeated : Bool)
        → claim codec r b ≡ ok (given, repeated, c)
        → Step b c
    completed :
        (by : ExecutionClaim) (approval : Option String)
        → complete_command by approval b ≡ ok c
        → Step b c
    released : (by : ExecutionClaim) → c ≡ release by b → Step b c
    cancelled :
        (deleted : Bool) (request_id : Option String)
        → cancel codec deleted request_id b ≡ ok c
        → Step b c
    recovered : c ≡ recover_owner b → Step b c
    begun :
        (r : BeginRequest) (lease : InvocationLease V)
        → lookup r.invocation_id b.invocations ≡ none
        → begin_invocation r b ≡ ok (lease, c)
        → Step b c
    dispatched : (lease : InvocationLease V) → dispatch lease b ≡ ok c → Step b c
    confirmed :
        (lease : InvocationLease V) (result : V) (replayable : Option Bool)
        → confirm lease result replayable b ≡ ok c
        → Step b c
    failed : (lease : InvocationLease V) → fail lease b ≡ ok c → Step b c
    annotated :
        (lease : InvocationLease V) (group : String) (number : ℕ) (model : Option String)
        → annotate_http lease group number model b ≡ ok c
        → Step b c
    finished :
        (lease : InvocationLease V) (outcome : HttpOutcome) (request_id : Option String)
        (http_status : Option ℕ) (report : UsageReport) (raised : Outcome ExecutionError (Unit {0}))
        → finish_http lease outcome request_id http_status report b ≡ ok (c, raised)
        → Step b c
    emitted : (r : EmitRequest V) → emit r b ≡ ok c → Step b c
    flushed : c ≡ (flush b).1 → Step b c

  -- The bundles that a run can come to.
  pub data Reaches (b : RunBundle P V) : RunBundle P V → Type 0 where
    here : Reaches b b
    next : {c d : RunBundle P V} → Reaches b c → Step c d → Reaches b d
