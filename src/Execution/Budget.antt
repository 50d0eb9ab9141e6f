-- ===== src/Execution/Budget.antt =====
-- The durable tool budget of backend/src/atlasflow/execution/runtime.py: the reserved calls and
-- the invocations that the journal counts.
use atlas_flow_agent.Base.{
  ℕ, ◌+◌, ◌≤◌, String, ◌≡◌, refl, ◌∙◌, ◌⊎◌, inl, inr, Bool, Option, none, List, ◌∷◌, arith, ok,
  nat_eq, string_eq, length, [],
}
use atlas_flow_agent.Base.Dict.{Dict, lookup, adjust, map_values, count, count-insert, count-adjust}
use atlas_flow_agent.Execution.Bundle.{
  ExecutionClaim, Status, Invocation, InvocationLease, RunBundle, Payloads, initial_bundle,
  initial_control,
}
use atlas_flow_agent.Execution.Claims.{
  ClaimRequest, acknowledge, active_unknown, acknowledge_all, claim_new, claim, complete_command,
  release, cancel, recover_invocation, refunds, recover_owner,
}
use atlas_flow_agent.Execution.Journal.{
  BeginRequest, matches_of, reserve, new_invocation, begin_invocation, update_invocation, dispatch,
  confirm, fail, annotate_http, answered, set_status, annotated, confirmed,
}
use atlas_flow_agent.Execution.Outbox.{EmitRequest, emit, flush}
use atlas_flow_agent.Execution.Steps.{Step, Reaches, here, next}
use atlas_flow_agent.Execution.Fencing.{
  update_invocation_parts, finish_http_update, Reaches-Advances,
}

abbrev pub is_counted : {V : Type 0} → Invocation V → Bool
is_counted i = i.tool_budget_counted

-- The reserved calls are those of the journal, and within the limit.
pub record BudgetIsExact {P V : Type 0} (b : RunBundle P V) : Type 0 where
  pub exact : b.control.tool_reserved ≡ count is_counted b.invocations
  pub within : b.control.tool_reserved ≤ b.control.tool_limit

module _ {V : Type 0} where
  count-acknowledge_all :
      (ks : List String) (d : Dict (Invocation V))
      → count is_counted (acknowledge_all ks d) ≡ count is_counted d
  unfolding acknowledge_all
  count-acknowledge_all [] d = refl
  count-acknowledge_all (k ∷ ks) d =
      count-acknowledge_all ks (adjust k acknowledge d)
      ∙ count-adjust is_counted k acknowledge d (λ i. refl)

  -- A restart gives back exactly what it no longer counts.
  count-recover :
      (d : Dict (Invocation V))
      → count is_counted (map_values recover_invocation d) + refunds d ≡ count is_counted d
  unfolding map_values recover_invocation refunds count
  count-recover [] = omega arith
  count-recover ((k, i) ∷ d) = ground (arith, count-recover d)

module _ {P V : Type 0} where
  update-BudgetIsExact :
      (lease : InvocationLease V) (f : Invocation V → Invocation V) (b c : RunBundle P V)
      → ((i : Invocation V) → is_counted (f i) ≡ is_counted i)
      → update_invocation lease f b ≡ ok c
      → BudgetIsExact b
      → BudgetIsExact c
  update-BudgetIsExact lease f b c keeps h exact =
      let same = (update_invocation_parts lease f b c h).1 in
      let counted = count-adjust is_counted lease.invocation_id f b.invocations keeps in
      ground (arith, same, counted)

  reserve-BudgetIsExact :
      (r : BeginRequest) (attempt : ℕ) (lease : InvocationLease V) (b c : RunBundle P V)
      → lookup r.invocation_id b.invocations ≡ none
      → reserve r attempt b ≡ ok (lease, c)
      → BudgetIsExact b
      → BudgetIsExact c
  unfolding reserve
  reserve-BudgetIsExact r attempt lease b c new h exact =
      ground (
        arith,
        count-insert is_counted r.invocation_id (new_invocation r attempt) b.invocations new,
      )

  begin_cases :
      (r : BeginRequest) (lease : InvocationLease V) (b c : RunBundle P V)
      → begin_invocation r b ≡ ok (lease, c)
      → (c ≡ b) ⊎ (reserve r (length (matches_of r.slot b.invocations)) b ≡ ok (lease, c))
  unfolding begin_invocation
  begin_cases r lease b c h = ground arith

  release-BudgetIsExact :
      (by : ExecutionClaim) (b : RunBundle P V) → BudgetIsExact b → BudgetIsExact (release by b)
  unfolding release
  release-BudgetIsExact by b e = ground arith

  complete-BudgetIsExact :
      (by : ExecutionClaim) (approval : Option String) (b c : RunBundle P V)
      → complete_command by approval b ≡ ok c
      → BudgetIsExact b
      → BudgetIsExact c
  unfolding complete_command
  complete-BudgetIsExact by approval b c h e = ground arith

  recover-BudgetIsExact : (b : RunBundle P V) → BudgetIsExact b → BudgetIsExact (recover_owner b)
  unfolding recover_owner
  recover-BudgetIsExact b e = ground (arith, count-recover b.invocations)

  emit-BudgetIsExact :
      (r : EmitRequest V) (b c : RunBundle P V)
      → emit r b ≡ ok c
      → BudgetIsExact b
      → BudgetIsExact c
  unfolding emit
  emit-BudgetIsExact r b c h e = ground arith

  flush-BudgetIsExact : (b : RunBundle P V) → BudgetIsExact b → BudgetIsExact (flush b).1
  unfolding flush
  flush-BudgetIsExact b e = ground arith

module _ {P V : Type 0} (codec : Payloads P) where
  claim-BudgetIsExact :
      (r : ClaimRequest P) (given : Option ExecutionClaim) (repeated : Bool) (b c : RunBundle P V)
      → claim codec r b ≡ ok (given, repeated, c)
      → BudgetIsExact b
      → BudgetIsExact c
  unfolding claim claim_new
  claim-BudgetIsExact r given repeated b c h e =
      ground (arith, count-acknowledge_all (active_unknown b.invocations) b.invocations)

  cancel-BudgetIsExact :
      (deleted : Bool) (request_id : Option String) (b c : RunBundle P V)
      → cancel codec deleted request_id b ≡ ok c
      → BudgetIsExact b
      → BudgetIsExact c
  unfolding cancel
  cancel-BudgetIsExact deleted request_id b c h e = ground arith

  Step-BudgetIsExact : (b c : RunBundle P V) → Step codec b c → BudgetIsExact b → BudgetIsExact c
  unfolding dispatch confirm fail annotate_http
  Step-BudgetIsExact b c (Step.claimed r given repeated h) e =
      claim-BudgetIsExact r given repeated b c h e
  Step-BudgetIsExact b c (Step.completed by approval h) e =
      complete-BudgetIsExact by approval b c h e
  Step-BudgetIsExact b c (Step.released by same) e = rw same (release-BudgetIsExact by b e)
  Step-BudgetIsExact b c (Step.cancelled deleted request_id h) e =
      cancel-BudgetIsExact deleted request_id b c h e
  Step-BudgetIsExact b c (Step.recovered same) e = rw same (recover-BudgetIsExact b e)
  Step-BudgetIsExact b c (Step.begun r lease new h) e = elim (begin_cases r lease b c h) [
    | inl same ↦ rw same e
    | inr done ↦
        reserve-BudgetIsExact r (length (matches_of r.slot b.invocations)) lease b c new done e
  ]
  Step-BudgetIsExact b c (Step.dispatched lease h) e =
      update-BudgetIsExact lease (set_status Status.dispatched) b c (λ i. refl) h e
  Step-BudgetIsExact b c (Step.confirmed lease result replayable h) e =
      update-BudgetIsExact lease (confirmed result replayable) b c (λ i. refl) h e
  Step-BudgetIsExact b c (Step.failed lease h) e =
      update-BudgetIsExact lease (set_status Status.failed) b c (λ i. refl) h e
  Step-BudgetIsExact b c (Step.annotated lease group number model h) e =
      update-BudgetIsExact lease (annotated group number model) b c (λ i. refl) h e
  Step-BudgetIsExact b c (Step.finished lease outcome request_id http_status report raised h) e =
      update-BudgetIsExact lease (answered outcome request_id http_status report) b c (λ i. refl)
        (finish_http_update lease outcome request_id http_status report b c raised h) e
  Step-BudgetIsExact b c (Step.emitted r h) e = emit-BudgetIsExact r b c h e
  Step-BudgetIsExact b c (Step.flushed same) e = rw same (flush-BudgetIsExact b e)

  Reaches-BudgetIsExact :
      (b c : RunBundle P V) → Reaches codec b c → BudgetIsExact b → BudgetIsExact c
  Reaches-BudgetIsExact b c here e = e
  Reaches-BudgetIsExact b c (next {c = m} r s) e =
      Step-BudgetIsExact m c s (Reaches-BudgetIsExact b m r e)

  -- Wherever a run gets from its first bundle, by whatever operations in whatever order, restarts
  -- and cancellations included, the tool calls that its control record counts as reserved are
  -- exactly the journal's counted invocations, and never more than the limit it was bound with.
  pub Reaches-within_budget :
      (profile_hash : String) (limit : ℕ) (snapshot : Option V) (c : RunBundle P V)
      → Reaches codec (initial_bundle profile_hash limit snapshot) c
      → (c.control.tool_reserved ≡ count is_counted c.invocations)
        × (c.control.tool_reserved ≤ limit)
  unfolding initial_control count
  Reaches-within_budget profile_hash limit snapshot c r =
      let start : BudgetIsExact (initial_bundle profile_hash limit snapshot) = record {
        exact = refl;
        within = omega arith;
      } in
      let e = Reaches-BudgetIsExact (initial_bundle profile_hash limit snapshot) c r start in
      let same = (Reaches-Advances codec (initial_bundle profile_hash limit snapshot) c r).limit in
      (e.exact, omega (arith, e.within, same))
