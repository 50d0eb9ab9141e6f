-- ===== src/Execution/Outbox/Repeats.antt =====
-- Repeated events in backend/src/atlasflow/execution/runtime.py.
use atlas_flow_agent.Base.{
  ◌≡◌, refl, sym, ap, ◌∙◌, subst, inl, inr, false, ◌&&◌, Option, none, some, arith, Bool-cases, ok,
  >>=-eq-ok, nat_eq, string_eq, length,
}
use atlas_flow_agent.Base.Dict.{set_default, set_default-again}
use atlas_flow_agent.Execution.Bundle.{ExecutionClaim, RunBundle}
use atlas_flow_agent.Execution.Claims.{assert_claim, is_barred}
use atlas_flow_agent.Execution.Outbox.{EmitRequest, envelope, assert_context, put, emit}

module _ {P V : Type 0} where
  -- The check of the emitting claim reads the control record only.
  context_control :
      (b c : RunBundle P V) (by : Option ExecutionClaim)
      → c.control ≡ b.control
      → assert_context c by ≡ assert_context b by
  unfolding assert_claim
  context_control b c none h = refl
  context_control b c (some by) h = rw h refl

  put-eq-ok :
      (r : EmitRequest V) (b c : RunBundle P V)
      → put r b ≡ ok c
      → (assert_context b r.claim ≡ ok tt)
        × (c ≡ record b { outbox = set_default r.event_id (envelope r (length b.outbox)) b.outbox })
  put-eq-ok r b c h =
      let (u, checked, rest) =
        >>=-eq-ok (assert_context b r.claim)
          (λ _.
            ok (record b {
              outbox = set_default r.event_id (envelope r (length b.outbox)) b.outbox;
            }))
          h in
      (checked, ground arith)

  put_again :
      (r s : EmitRequest V) (b c : RunBundle P V)
      → put r b ≡ ok c
      → s.event_id ≡ r.event_id
      → s.claim ≡ r.claim
      → put s c ≡ ok c
  put_again r s b c h same_id same_claim =
      let (checked, e) = put-eq-ok r b c h in
      let kept : c.control ≡ b.control = ap (λ x. x.control) e in
      let live : assert_context c s.claim ≡ ok tt =
        rw same_claim (context_control b c r.claim kept ∙ checked) in
      let stored : c.outbox ≡ set_default r.event_id (envelope r (length b.outbox)) b.outbox =
        ap (λ x. x.outbox) e in
      let once : set_default s.event_id (envelope s (length c.outbox)) c.outbox ≡ c.outbox =
        rw (same_id, stored)
          (set_default-again r.event_id (envelope r (length b.outbox)) _ b.outbox) in
      rw (live, once) refl

  emit_puts :
      (r : EmitRequest V) (b : RunBundle P V)
      → b.control.deleted ≡ false
      → (b.control.cancel_requested && is_barred r.patch.status) ≡ false
      → emit r b ≡ put r b
  unfolding emit
  emit_puts r b live shown = ground arith

  -- An event that is emitted again under its id, with the same status and by the same claim, leaves
  -- the run as it is: it is recorded once, whatever the second event holds.
  pub emit_again :
      (r s : EmitRequest V) (b c : RunBundle P V)
      → emit r b ≡ ok c
      → s.event_id ≡ r.event_id
      → s.patch.status ≡ r.patch.status
      → s.claim ≡ r.claim
      → emit s c ≡ ok c
  unfolding emit
  emit_again r s b c h same_id same_status same_claim = elim (Bool-cases b.control.deleted) [
    | inl gone ↦ unchanged (ground arith) (rw gone refl)
    | inr live ↦ elim (Bool-cases (b.control.cancel_requested && is_barred r.patch.status)) [
      | inl late ↦ unchanged (ground arith) (rw (live, same_status, late) refl)
      | inr shown ↦ recorded live shown (sym (emit_puts r b live shown) ∙ h)
    ]
  ]
    where
      unchanged : c ≡ b → emit s b ≡ ok b → emit s c ≡ ok c
      unchanged same again = subst (λ x. emit s x ≡ ok x) (sym same) again

      recorded :
          b.control.deleted ≡ false
          → (b.control.cancel_requested && is_barred r.patch.status) ≡ false
          → put r b ≡ ok c
          → emit s c ≡ ok c
      recorded live shown done =
          let kept : c.control ≡ b.control = ap (λ x. x.control) (put-eq-ok r b c done).1 in
          emit_puts s c (ap (λ x. x.deleted) kept ∙ live) (
            ap (λ x. x.cancel_requested && is_barred s.patch.status) kept
            ∙ ap (λ status. b.control.cancel_requested && is_barred status) same_status
            ∙ shown)
          ∙ put_again r s b c done same_id same_claim
