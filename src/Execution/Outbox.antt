-- ===== src/Execution/Outbox.antt =====
-- The outbox of backend/src/atlasflow/execution/runtime.py: events are put once under their id and
-- handed to the run's store in order.
pub mod Repeats
pub mod Delivery
mod Tests
use atlas_flow_agent.Base.{
  ℕ, String, Bool, true, false, ◌&&◌, ◌||◌, Option, none, some, List, ◌∷◌, ltb, if◌then◌else◌,
  Outcome, ok, nat_eq, string_eq, length, [], ◌>>=◌, ◌>>◌,
}
use atlas_flow_agent.Base.Dict.{Dict, adjust, set_default}
use atlas_flow_agent.Base.Sorting.{sort_by}
use atlas_flow_agent.Execution.Bundle.{ExecutionError, ExecutionClaim, Patch, Envelope, RunBundle}
use atlas_flow_agent.Execution.Claims.{assert_claim, is_barred}

-- The arguments of `emit`: the id that `uuid5` derives from the run and the logical key, the event
-- and the patch as they are stored, and the claim of the node that emits, if one does.
pub record EmitRequest (V : Type 0) : Type 0 where
  pub event_id : String
  pub event : V
  pub patch : Patch V
  pub claim : Option ExecutionClaim

module _ {V : Type 0} where
  abbrev pub envelope : EmitRequest V → ℕ → Envelope V
  envelope r order = record {
    event = r.event;
    patch = r.patch;
    delivered = false;
    discarded = false;
    order = order;
  }

module _ {P V : Type 0} where
  abbrev pub assert_context :
      RunBundle P V → Option ExecutionClaim → Outcome ExecutionError (Unit {0})
  assert_context b none = ok tt
  assert_context b (some c) = assert_claim b c

  abbrev pub put : EmitRequest V → RunBundle P V → Outcome ExecutionError (RunBundle P V)
  put r b = do
    assert_context b r.claim
    ok (record b { outbox = set_default r.event_id (envelope r (length b.outbox)) b.outbox })

  -- `emit`, up to the delivery that follows it
  unfoldable pub emit : EmitRequest V → RunBundle P V → Outcome ExecutionError (RunBundle P V)
  emit r b =
      if b.control.deleted
      then ok b
      else if b.control.cancel_requested && is_barred r.patch.status
      then ok b
      else put r b

module _ {V : Type 0} where
  -- `sorted(…, key=order)`
  unfoldable pub sort_by_order : List (String × Envelope V) → List (String × Envelope V)
  unfolding sort_by
  sort_by_order es = sort_by (λ e f. ltb e.1.order f.1.order) es

  abbrev pub mark_delivered : Envelope V → Envelope V
  mark_delivered e = record e { delivered = true }

  -- The loop: what the store is given, and the outbox with the delivered events marked.
  unfoldable pub deliver :
      Bool → List (String × Envelope V) → Dict (Envelope V) → List (V × Patch V) × Dict (Envelope V)
  unfolding adjust
  deliver stopped [] box = ([], box)
  deliver stopped ((k, e) ∷ es) box =
      let passed = deliver stopped es box in
      let (given, after) = deliver stopped es (adjust k mark_delivered box) in
      if e.delivered || stopped && is_barred e.patch.status
      then passed
      else ((e.event, e.patch) ∷ given, after)

module _ {P V : Type 0} where
  -- `_flush_run_locked`, with no other change of the bundle between two deliveries
  unfoldable pub flush : RunBundle P V → List (V × Patch V) × RunBundle P V
  unfolding deliver sort_by_order
  flush b =
      let (given, box) = deliver b.control.cancel_requested (sort_by_order b.outbox) b.outbox in
      if b.control.deleted then ([], b) else (given, record b { outbox = box })
