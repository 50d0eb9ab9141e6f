-- ===== src/Execution/Fencing.antt =====
-- Fencing in backend/src/atlasflow/execution/runtime.py: the epochs and the cancellation along the
-- life of a run.
mod Advancing
unfoldable pub use Advancing.*
use atlas_flow_agent.Base.{
  ℕ, suc, ◌+◌, ◌≤◌, ◌<◌, String, ◌≡◌, refl, sym, ◌∙◌, subst, ◌≢◌, Bool, true, false, ◌||◌, Option,
  none, some, arith, if◌then◌else◌, Outcome, ok, raise, ◌==◌, nat_eq, string_eq, ==_refl, length,
}
use atlas_flow_agent.Base.Dict.{adjust, lookup, insert, lookup-insert}
use atlas_flow_agent.Execution.Bundle.{
  ExecutionError, ExecutionClaim, Invocation, InvocationLease, Command, RunBundle, Payloads,
}
use atlas_flow_agent.Execution.Claims.{
  assert_claim, ClaimRequest, granted_command, claim_new, claim, complete_command, release, cancel,
  recover_owner,
}
use atlas_flow_agent.Execution.Journal.{
  BeginRequest, reserve, begin_invocation, update_invocation, dispatch, confirm, fail,
  annotate_http, finish_http, answered, HttpOutcome, UsageReport,
}
use atlas_flow_agent.Execution.Outbox.{EmitRequest, emit, flush}
use atlas_flow_agent.Execution.Steps.{
  Step, Reaches, here, next, claimed, completed, released, cancelled, recovered, begun, dispatched,
  confirmed, failed, annotated, finished, emitted, flushed,
}

module _ {P V : Type 0} (codec : Payloads P) where
  claim-Advances :
      (r : ClaimRequest P) (given : Option ExecutionClaim) (repeated : Bool) (b c : RunBundle P V)
      → claim codec r b ≡ ok (given, repeated, c)
      → Advances b c
  unfolding claim claim_new
  claim-Advances r given repeated b c h = ground arith

  cancel-Advances :
      (deleted : Bool) (request_id : Option String) (b c : RunBundle P V)
      → cancel codec deleted request_id b ≡ ok c
      → Advances b c
  unfolding cancel
  cancel-Advances deleted request_id b c h = ground arith

  pub Step-Advances : (b c : RunBundle P V) → Step codec b c → Advances b c
  unfolding dispatch confirm fail annotate_http
  Step-Advances b c (claimed r given repeated h) = claim-Advances r given repeated b c h
  Step-Advances b c (completed by approval h) = complete-Advances by approval b c h
  Step-Advances b c (released by e) = rw e (release-Advances by b)
  Step-Advances b c (cancelled deleted request_id h) = cancel-Advances deleted request_id b c h
  Step-Advances b c (recovered e) = rw e (recover-Advances b)
  Step-Advances b c (begun r lease new h) = begin-Advances r lease b c h
  Step-Advances b c (dispatched lease h) = update_invocation-Advances lease _ b c h
  Step-Advances b c (confirmed lease result replayable h) = update_invocation-Advances lease _ b c h
  Step-Advances b c (failed lease h) = update_invocation-Advances lease _ b c h
  Step-Advances b c (annotated lease group number model h) =
      update_invocation-Advances lease _ b c h
  Step-Advances b c (finished lease outcome request_id http_status report raised h) =
      update_invocation-Advances lease _ b c
        (finish_http_update lease outcome request_id http_status report b c raised h)
  Step-Advances b c (emitted r h) = emit-Advances r b c h
  Step-Advances b c (flushed e) = rw e (flush-Advances b)

  pub Reaches-Advances : (b c : RunBundle P V) → Reaches codec b c → Advances b c
  Reaches-Advances b c here = record { epoch = omega arith; cancel = λ e. e; limit = refl }
  Reaches-Advances b c (next {c = m} r s) =
      let first = Reaches-Advances b m r in
      let last = Step-Advances m c s in
      record {
        epoch = omega (arith, first.epoch, last.epoch);
        cancel = λ e. last.cancel (first.cancel e);
        limit = last.limit ∙ first.limit;
      }

  stale_refused :
      (b : RunBundle P V) (old : ExecutionClaim)
      → old.fencing_epoch < b.control.fencing_epoch
      → assert_claim b old ≢ ok tt
  unfolding assert_claim
  stale_refused b old h e = ground arith

  -- A claim whose epoch is behind the bundle's is refused there and wherever the run gets from
  -- there.
  pub fenced_for_good :
      (b c : RunBundle P V) (old : ExecutionClaim)
      → old.fencing_epoch < b.control.fencing_epoch
      → Reaches codec b c
      → assert_claim c old ≢ ok tt
  fenced_for_good b c old h r = stale_refused c old (omega (arith, (Reaches-Advances b c r).epoch))

  claim_given :
      (r : ClaimRequest P) (given : ExecutionClaim) (repeated : Bool) (b c : RunBundle P V)
      → claim codec r b ≡ ok (some given, repeated, c)
      → (given.fencing_epoch ≡ suc b.control.fencing_epoch)
        × (c.control.fencing_epoch ≡ given.fencing_epoch)
        × (c.control.owner ≡ some given.owner_token)
        × ((c.control.deleted || c.control.cancel_requested) ≡ false)
        × (b.control.owner ≡ none)
  unfolding claim claim_new
  claim_given r given repeated b c h = ground arith

  -- A claim that is given out is accepted at once, was given to a run without owner, and from then
  -- on every claim of an earlier epoch is refused, wherever the run gets.
  pub claim_takes_over :
      (r : ClaimRequest P) (given old : ExecutionClaim) (repeated : Bool) (b c d : RunBundle P V)
      → claim codec r b ≡ ok (some given, repeated, c)
      → old.fencing_epoch ≤ b.control.fencing_epoch
      → Reaches codec c d
      → (assert_claim c given ≡ ok tt) × (b.control.owner ≡ none) × (assert_claim d old ≢ ok tt)
  unfolding assert_claim
  claim_takes_over r given old repeated b c d h le reach =
      let (grown, kept, owner, live, free) = claim_given r given repeated b c h in
      (ground (arith, ==_refl given.owner_token), free, fenced_for_good c d old (omega arith) reach)

  cancel_raises_epoch :
      (deleted : Bool) (request_id : Option String) (b c : RunBundle P V)
      → cancel codec deleted request_id b ≡ ok c
      → (c.control.fencing_epoch ≡ suc b.control.fencing_epoch)
        × (c.control.cancel_requested ≡ true)
  unfolding cancel
  cancel_raises_epoch deleted request_id b c h = ground arith

  refused_when_cancelled :
      (b : RunBundle P V) (any_claim : ExecutionClaim)
      → b.control.cancel_requested ≡ true
      → assert_claim b any_claim ≡ raise ExecutionError.cancelled
  unfolding assert_claim
  refused_when_cancelled b any_claim h = ground arith

  no_claim_when_cancelled :
      (b : RunBundle P V) (r : ClaimRequest P)
      → b.control.cancel_requested ≡ true
      → claim codec r b ≡ raise ExecutionError.conflict
  unfolding claim
  no_claim_when_cancelled b r h = ground arith

  -- A cancellation is final: wherever the run gets from there, every claim is refused as cancelled
  -- and no new one is given out.
  pub cancel_is_final :
      (deleted : Bool) (request_id : Option String) (by : ExecutionClaim) (r : ClaimRequest P)
      (b c d : RunBundle P V)
      → cancel codec deleted request_id b ≡ ok c
      → Reaches codec c d
      → (assert_claim d by ≡ raise ExecutionError.cancelled)
        × (claim codec r d ≡ raise ExecutionError.conflict)
  cancel_is_final deleted request_id by r b c d h reach =
      let stopped =
        (Reaches-Advances c d reach).cancel (cancel_raises_epoch deleted request_id b c h).1 in
      (refused_when_cancelled d by stopped, no_claim_when_cancelled d r stopped)

  -- After a restart has taken a run from its owner, every claim that was given out before it is
  -- refused, wherever the run gets.
  pub recover_owner_fences :
      (b d : RunBundle P V) (old : ExecutionClaim)
      → old.fencing_epoch ≤ b.control.fencing_epoch
      → Reaches codec (recover_owner b) d
      → assert_claim d old ≢ ok tt
  unfolding recover_owner
  recover_owner_fences b d old h reach = fenced_for_good (recover_owner b) d old (omega arith) reach

  claim_stored :
      (r : ClaimRequest P) (given : ExecutionClaim) (repeated : Bool) (b c : RunBundle P V)
      → claim codec r b ≡ ok (some given, repeated, c)
      → (stored : Command P) × (stored.hash ≡ codec.digest r.payload)
        × (c.commands ≡ insert r.request_id stored b.commands)
        × (c.control.profile_hash ≡ r.profile_hash)
        × ((c.control.deleted || c.control.cancel_requested) ≡ false)
  unfolding claim claim_new
  claim_stored r given repeated b c h = (
    granted_command codec r (b.control.fencing_epoch + 1) (length b.commands),
    refl,
    ground arith,
    ground (arith, string_eq.same_iff b.control.profile_hash r.profile_hash),
    ground arith,
  )

  claim_by_stored :
      (s : ClaimRequest P) (c : RunBundle P V) (stored : Command P)
      → lookup s.request_id c.commands ≡ some stored
      → c.control.profile_hash ≡ s.profile_hash
      → (c.control.deleted || c.control.cancel_requested) ≡ false
      → claim codec s c ≡ (
          if stored.hash == codec.digest s.payload
          then ok (none, true, c)
          else raise ExecutionError.conflict)
  unfolding claim
  claim_by_stored s c stored h p live =
      ground (arith, string_eq.same_iff c.control.profile_hash s.profile_hash)

  -- A request that was granted can be repeated: with the same payload nothing changes and no second
  -- claim is given out, and a different payload under the same request id is refused.
  pub claim_again :
      (r s : ClaimRequest P) (given : ExecutionClaim) (repeated : Bool) (b c : RunBundle P V)
      → claim codec r b ≡ ok (some given, repeated, c)
      → s.request_id ≡ r.request_id
      → s.profile_hash ≡ r.profile_hash
      → claim codec s c ≡ (
          if codec.digest r.payload == codec.digest s.payload
          then ok (none, true, c)
          else raise ExecutionError.conflict)
  claim_again r s given repeated b c h same_id same_profile =
      let (stored, hash, commands, profile, live) = claim_stored r given repeated b c h in
      let found : lookup s.request_id c.commands ≡ some stored =
        rw (same_id, commands, lookup-insert, ==_refl r.request_id) in
      subst
        (λ h. claim codec s c ≡ (
          if h == codec.digest s.payload
          then ok (none, true, c)
          else raise ExecutionError.conflict))
        hash (claim_by_stored s c stored found (profile ∙ sym same_profile) live)
