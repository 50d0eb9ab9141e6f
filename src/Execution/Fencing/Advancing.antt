-- ===== src/Execution/Fencing/Advancing.antt =====
-- What no operation of backend/src/atlasflow/execution/runtime.py takes back.
use atlas_flow_agent.Base.{ℕ, ◌≤◌, String, ◌≡◌, true, Option, arith, Outcome, ok, nat_eq, string_eq}
use atlas_flow_agent.Base.Dict.{adjust}
use atlas_flow_agent.Execution.Bundle.{
  ExecutionError, ExecutionClaim, Invocation, InvocationLease, RunBundle,
}
use atlas_flow_agent.Execution.Claims.{assert_claim, complete_command, release, recover_owner}
use atlas_flow_agent.Execution.Journal.{
  BeginRequest, reserve, begin_invocation, update_invocation, finish_http, answered, HttpOutcome,
  UsageReport,
}
use atlas_flow_agent.Execution.Outbox.{EmitRequest, emit, flush}

-- What no step takes back.
pub record Advances {P V : Type 0} (b c : RunBundle P V) : Type 0 where
  pub epoch : b.control.fencing_epoch ≤ c.control.fencing_epoch
  pub cancel : b.control.cancel_requested ≡ true → c.control.cancel_requested ≡ true
  pub limit : c.control.tool_limit ≡ b.control.tool_limit

module _ {P V : Type 0} where
  pub update_invocation_parts :
      (lease : InvocationLease V) (f : Invocation V → Invocation V) (b c : RunBundle P V)
      → update_invocation lease f b ≡ ok c
      → (assert_claim b lease.claim ≡ ok tt)
        × (c ≡ record b { invocations = adjust lease.invocation_id f b.invocations })
  unfolding update_invocation
  update_invocation_parts lease f b c h = ground arith

  pub update_invocation-Advances :
      (lease : InvocationLease V) (f : Invocation V → Invocation V) (b c : RunBundle P V)
      → update_invocation lease f b ≡ ok c
      → Advances b c
  update_invocation-Advances lease f b c h = ground (arith, update_invocation_parts lease f b c h)

  pub finish_http_update :
      (lease : InvocationLease V) (outcome : HttpOutcome) (request_id : Option String)
      (http_status : Option ℕ) (report : UsageReport) (b c : RunBundle P V)
      (raised : Outcome ExecutionError (Unit {0}))
      → finish_http lease outcome request_id http_status report b ≡ ok (c, raised)
      → update_invocation lease (answered outcome request_id http_status report) b ≡ ok c
  unfolding finish_http
  finish_http_update lease outcome request_id http_status report b c raised h = ground arith

  pub begin-Advances :
      (r : BeginRequest) (lease : InvocationLease V) (b c : RunBundle P V)
      → begin_invocation r b ≡ ok (lease, c)
      → Advances b c
  unfolding begin_invocation reserve
  begin-Advances r lease b c h = ground arith

  pub emit-Advances : (r : EmitRequest V) (b c : RunBundle P V) → emit r b ≡ ok c → Advances b c
  unfolding emit
  emit-Advances r b c h = ground arith

  pub flush-Advances : (b : RunBundle P V) → Advances b (flush b).1
  unfolding flush
  flush-Advances b = ground arith

  pub complete-Advances :
      (by : ExecutionClaim) (approval : Option String) (b c : RunBundle P V)
      → complete_command by approval b ≡ ok c
      → Advances b c
  unfolding complete_command
  complete-Advances by approval b c h = ground arith

  pub release-Advances : (by : ExecutionClaim) (b : RunBundle P V) → Advances b (release by b)
  unfolding release
  release-Advances by b = ground arith

  pub recover-Advances : (b : RunBundle P V) → Advances b (recover_owner b)
  unfolding recover_owner
  recover-Advances b = ground arith
