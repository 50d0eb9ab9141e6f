-- ===== src/Workflow/Bounds/Quality.antt =====
-- The node `_quality_gate` of the workflow graph of backend/src/atlasflow/agents/workflow.py.
use atlas_flow_agent.Base.{
  ℕ, String, ◌≡◌, refl, subst, inl, inr, some, Bool, not, ◌&&◌, arith, ltb, eqb, Bool-cases,
  Outcome, ok, ◌>>=◌, ◌>>◌, raise_if, raise_if-eq-ok, >>=-eq-ok, ◌==◌, nat_eq, string_eq,
}
use atlas_flow_agent.Contracts.Quality.{QualityDecision, QualityRoute}
use atlas_flow_agent.Workflow.{Settings, AgentState}
use atlas_flow_agent.Workflow.Critic.{Turn}
use atlas_flow_agent.Workflow.QualityGate.{
  QualityError, QualityLimits, with_warning, on_accept, on_revise, replan_report, judge,
  without_replan, finish_quality, quality_gate,
}
use atlas_flow_agent.Workflow.Bounds.{IsBounded, KeepsPlan-IsBounded}

module _ (settings : Settings) (limits : QualityLimits) (s : AgentState)
    (b : IsBounded settings s) where
  with_warning-IsBounded : (reason : String) → IsBounded settings (with_warning reason s).state
  unfolding with_warning
  with_warning-IsBounded reason =
      KeepsPlan-IsBounded settings s _ (record { plan = refl; lineage = refl; rounds = refl }) b
        b.replans b.version b.next

  on_accept-IsBounded :
      (d : QualityDecision) (turn : Turn)
      → on_accept limits s d ≡ ok turn
      → IsBounded settings turn.state
  unfolding on_accept
  on_accept-IsBounded d turn h =
      let (t, e) = raise_if-eq-ok _ _ (ok accepted) h in
      let same : accepted ≡ turn = cc in
      subst (λ x. IsBounded settings x.state) same
        (KeepsPlan-IsBounded settings s _ (record { plan = refl; lineage = refl; rounds = refl }) b
          b.replans b.version b.next)
    where
      accepted : Turn
      accepted = record {
        target = "finalizer";
        reason = d.rationale;
        state = record s { requested_final_status = some "completed" };
      }

  on_revise-IsBounded : (d : QualityDecision) → IsBounded settings (on_revise limits s d).state
  unfolding on_revise
  on_revise-IsBounded d = elim (Bool-cases (ltb s.revision_count limits.max_revisions)) [
    | inl room ↦ rw room (
        KeepsPlan-IsBounded settings s _ (record { plan = refl; lineage = refl; rounds = refl }) b
          b.replans b.version b.next)
    | inr full ↦ rw full (with_warning-IsBounded _)
  ]

  replan_report-IsBounded :
      (d : QualityDecision) → IsBounded settings (replan_report settings s d).state
  unfolding replan_report
  replan_report-IsBounded d = elim (Bool-cases (ltb s.replan_count settings.max_replans)) [
    | inl room ↦ rw room (
        KeepsPlan-IsBounded settings s _ (record { plan = refl; lineage = refl; rounds = refl }) b
          (ground arith) (omega arith) (omega (arith, b.next, b.version)))
    | inr full ↦ rw full (with_warning-IsBounded _)
  ]

  judge-IsBounded :
      (d : QualityDecision) (turn : Turn)
      → judge settings limits s d ≡ ok turn
      → IsBounded settings turn.state
  unfolding judge
  judge-IsBounded d turn h = by_route d.decision refl
    where
      settled :
          (t : Turn)
          → ◌≡◌ {A = Outcome QualityError Turn} (ok t) (ok turn)
          → IsBounded settings t.state
          → IsBounded settings turn.state
      settled t e k = let same : t ≡ turn = cc in subst (λ x. IsBounded settings x.state) same k

      by_route : (r : QualityRoute) → d.decision ≡ r → IsBounded settings turn.state
      by_route QualityRoute.accept e = on_accept-IsBounded d turn (rw e at h)
      by_route QualityRoute.revise e =
          settled (on_revise limits s d) (rw e at h) (on_revise-IsBounded d)
      by_route QualityRoute.replan e =
          settled (replan_report settings s d) (rw e at h) (replan_report-IsBounded d)

  without_replan-IsBounded :
      (tools_empty : Bool) (turn : Turn)
      → IsBounded settings turn.state
      → IsBounded settings (without_replan tools_empty s turn).state
  unfolding without_replan
  without_replan-IsBounded tools_empty turn k =
      elim (Bool-cases (turn.target == "planner" && tools_empty)) [
        | inl stop ↦ rw stop (with_warning-IsBounded _)
        | inr go ↦
            elim (Bool-cases (turn.target == "planner" && s.execution_mode == "report_revision")) [
              | inl stop ↦ rw (go, stop) (with_warning-IsBounded _)
              | inr on ↦ rw (go, on) k
            ]
      ]

  finish_quality-IsBounded :
      (now draft_version : ℕ) (d : QualityDecision) (turn : Turn)
      → IsBounded settings turn.state
      → IsBounded settings (finish_quality now draft_version s d turn)
  unfolding finish_quality
  finish_quality-IsBounded now draft_version d turn k =
      KeepsPlan-IsBounded settings turn.state _
        (record { plan = refl; lineage = refl; rounds = refl }) k k.replans k.version k.next

-- What the quality gate does to the budgets.
pub quality_gate-IsBounded :
    (calibrate : QualityDecision → Outcome QualityError QualityDecision) (now : ℕ)
    (settings : Settings) (limits : QualityLimits) (tools_empty : Bool) (draft_version : ℕ)
    (s s' : AgentState) (answer : QualityDecision)
    → quality_gate calibrate now settings limits tools_empty draft_version s answer ≡ ok s'
    → IsBounded settings s
    → IsBounded settings s'
unfolding quality_gate
quality_gate-IsBounded calibrate now settings limits tools_empty draft_version s s' answer h b =
    let (_, h1) = raise_if-eq-ok _ _ after_plan h in
    let (_, h2) = raise_if-eq-ok _ _ (calibrate answer >>= judged) h1 in
    let (d, c, h3) = >>=-eq-ok (calibrate answer) judged h2 in
    let (turn, j, e) = >>=-eq-ok (judge settings limits s d) (λ turn. ok (done d turn)) h3 in
    let same : done d turn ≡ s' = cc in
    subst (IsBounded settings) same (
      finish_quality-IsBounded settings limits s b now draft_version d
        (without_replan tools_empty s turn)
        (without_replan-IsBounded settings limits s b tools_empty turn
          (judge-IsBounded settings limits s b d turn j)))
  where
    done : QualityDecision → Turn → AgentState
    done d turn = finish_quality now draft_version s d (without_replan tools_empty s turn)

    judged : QualityDecision → Outcome QualityError AgentState
    judged d = judge settings limits s d >>= λ turn. ok (done d turn)

    after_plan : Outcome QualityError AgentState
    after_plan = do
      raise_if (not (eqb answer.draft_version draft_version)) QualityError.wrong_draft_version
      calibrate answer >>= judged
