-- ===== src/Execution/Recovery.antt =====
-- Crash recovery in backend/src/atlasflow/execution/runtime.py: calls of unknown outcome.
use atlas_flow_agent.Base.{
  String, ◌≡◌, refl, Bool, true, false, ◌||◌, some, List, ◌∷◌, arith, ok, nat_eq, string_eq,
  contains, subset, subset-contains, keep, [],
}
use atlas_flow_agent.Base.Dict.{Dict, lookup, map_values, lookup-map_values, count}
use atlas_flow_agent.Execution.Bundle.{
  ExecutionClaim, Status, Invocation, RunBundle, Payloads, is_reserved, is_dispatched, is_succeeded,
}
use atlas_flow_agent.Execution.Claims.{
  ClaimRequest, completed_nodes, is_open, keys_if, active_unknown, claim_new, claim,
  recover_invocation, recover_owner,
}

module _ {V : Type 0} where
  recover_status :
      (i : Invocation V)
      → (is_succeeded (recover_invocation i).status ≡ is_succeeded i.status)
        × ((recover_invocation i).kind ≡ i.kind)
        × ((recover_invocation i).node_key ≡ i.node_key)
  unfolding recover_invocation
  recover_status i = ground arith

  -- A restart commits no node, and takes back none.
  completed_nodes-recover :
      (d : Dict (Invocation V))
      → completed_nodes (map_values recover_invocation d) ≡ completed_nodes d
  unfolding completed_nodes keep map_values
  completed_nodes-recover [] = refl
  completed_nodes-recover ((k, i) ∷ d) = ground (arith, recover_status i, completed_nodes-recover d)

  contains-keys_if :
      (p : Invocation V → Bool) (k : String) (i : Invocation V) (d : Dict (Invocation V))
      → lookup k d ≡ some i
      → p i ≡ true
      → contains (keys_if p d) k ≡ true
  unfolding lookup contains
  contains-keys_if p k i [] h t = cc
  contains-keys_if p k i ((j, w) ∷ d) h t = ground (arith, contains-keys_if p k i d)

  -- No invocation of a recovered journal is under way.
  pub is_under_way : Invocation V → Bool
  is_under_way i = is_reserved i.status || is_dispatched i.status

  nothing_under_way :
      (d : Dict (Invocation V)) → count is_under_way (map_values recover_invocation d) ≡ 0
  unfolding count map_values recover_invocation is_under_way
  nothing_under_way [] = refl
  nothing_under_way ((k, i) ∷ d) = ground (arith, nothing_under_way d)

  dispatched_opens :
      (i : Invocation V) (completed : List String)
      → i.status ≡ Status.dispatched
      → i.acknowledged ≡ false
      → contains completed i.node_key ≡ false
      → is_open completed (recover_invocation i) ≡ true
  unfolding recover_invocation
  dispatched_opens i completed s a c = ground arith

module _ {P V : Type 0} (codec : Payloads P) where
  claim_needs_acknowledgment :
      (r : ClaimRequest P) (given : ExecutionClaim) (repeated : Bool) (b c : RunBundle P V)
      → claim codec r b ≡ ok (some given, repeated, c)
      → subset (active_unknown b.invocations) r.acknowledged ≡ true
  unfolding claim claim_new
  claim_needs_acknowledgment r given repeated b c h = ground arith

  -- If an invocation was dispatched, is not acknowledged yet and belongs to a node whose result is not
  -- committed, and if the first claim after a restart is given out, then the request for this claim
  -- acknowledged the invocation, and the restart has left none reserved or dispatched.
  pub recover_owner_bars :
      (b c : RunBundle P V) (k : String) (i : Invocation V) (r : ClaimRequest P)
      (given : ExecutionClaim) (repeated : Bool)
      → lookup k b.invocations ≡ some i
      → i.status ≡ Status.dispatched
      → i.acknowledged ≡ false
      → contains (completed_nodes b.invocations) i.node_key ≡ false
      → claim codec r (recover_owner b) ≡ ok (some given, repeated, c)
      → (count is_under_way (recover_owner b).invocations ≡ 0) × (contains r.acknowledged k ≡ true)
  unfolding recover_owner active_unknown
  recover_owner_bars b c k i r given repeated found sent open_call uncommitted h =
      let d = map_values recover_invocation b.invocations in
      let is_barred : is_open (completed_nodes d) (recover_invocation i) ≡ true =
        dispatched_opens i (completed_nodes d) sent open_call
          (rw (completed_nodes-recover b.invocations) uncommitted) in
      let listed : contains (active_unknown d) k ≡ true =
        contains-keys_if (is_open (completed_nodes d)) k (recover_invocation i) d
          (lookup-map_values recover_invocation k b.invocations i found) is_barred in
      (
        nothing_under_way b.invocations,
        subset-contains (active_unknown d) r.acknowledged k
            (claim_needs_acknowledgment r given repeated (recover_owner b) c h) listed,
      )
