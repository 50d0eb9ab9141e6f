-- ===== src/Workflow/Bounds/Critic.antt =====
-- The node `_critic` of the workflow graph of
-- backend/src/atlasflow/agents/workflow.py.
use atlas_flow_agent.Base.{
  ℕ, ◌+◌, ◌<◌, String, ◌≡◌, refl, sym, ap, ◌∙◌, subst, inl, inr, Bool, ◌&&◌, ◌||◌, List, ◌∷◌, ◌++◌,
  arith, ltb, Bool-cases, Outcome, ok, ◌>>=◌, >>=-eq-ok, ◌==◌, nat_eq, string_eq, length-append, [],
}
use atlas_flow_agent.Contracts.Task.{ResearchTask, Capability}
use atlas_flow_agent.Contracts.Plan.{ResearchPlan, validate_plan}
use atlas_flow_agent.Contracts.Lineage.{
  PlanLineage, revision, joined_plan, active_plan, with_supplement,
}
use atlas_flow_agent.Contracts.Lineage.Growth.{validate_lineage_parts, with_supplement_parts}
use atlas_flow_agent.Contracts.Critique.{CritiqueDecision, CritiqueRoute}
use atlas_flow_agent.Workflow.{report_first, Settings, AgentState}
use atlas_flow_agent.Workflow.Schedule.{review_context}
use atlas_flow_agent.Contracts.Review.{ReviewContext}
use atlas_flow_agent.Workflow.Critic.{
  CriticError, on_error, critic, expand, act_on, without_tools, write_up, Turn, on_supplement,
  on_replan, check_answer, finish_review,
}
use atlas_flow_agent.Workflow.Bounds.{IsBounded, validate_plan-same, KeepsPlan, KeepsPlan-IsBounded}

-- The plan of a supplement.
expand_parts :
    (settings : Settings) (s : AgentState) (d : CritiqueDecision) (turn : Turn)
    → expand settings s d ≡ ok turn
    → (l : PlanLineage) × (p : ResearchPlan) × (with_supplement s.plan_lineage d.supplemental_tasks
          d.rationale
        ≡ ok l)
      × (active_plan l ≡ ok p)
      × (turn.state.plan ≡ p)
      × (turn.state.plan_lineage ≡ l)
      × (turn.state.replan_count ≡ s.replan_count)
      × (turn.state.supplement_rounds ≡ s.supplement_rounds + 1)
      × (turn.state.next_plan_version ≡ s.next_plan_version)
unfolding expand
expand_parts settings s d turn h = ground arith

active_plan-same :
    (l : PlanLineage) (p : ResearchPlan)
    → active_plan l ≡ ok p
    → (joined_plan l ≡ p) × (validate_plan p ≡ ok p)
unfolding active_plan
active_plan-same l p h =
    let same = validate_plan-same (joined_plan l) p h in
    (same, subst (λ q. validate_plan q ≡ ok p) same h)

supplement_version :
    (l m : PlanLineage) (tasks : List ResearchTask) (rationale : String)
    → with_supplement l tasks rationale ≡ ok m
    → (m.plan_version ≡ l.plan_version) × (revision m ≡ revision l + 1)
supplement_version l m tasks rationale h =
    let (b, _, built) = with_supplement_parts l m tasks rationale h in
    let (same, _, _, _) =
      validate_lineage_parts (record l { supplements = l.supplements ++ b ∷ [] }) m built in
    (ap (λ x. x.plan_version) same, ap revision same ∙ length-append l.supplements (b ∷ []))

expand-IsBounded :
    (settings : Settings) (s : AgentState) (d : CritiqueDecision) (turn : Turn)
    → expand settings s d ≡ ok turn
    → s.supplement_rounds < settings.max_supplement_rounds
    → IsBounded settings s
    → IsBounded settings turn.state
expand-IsBounded settings s d turn h room b =
    let (l, p, grown, active, e_plan, e_lineage, e_replans, e_rounds, e_next) =
      expand_parts settings s d turn h in
    let (same_plan, valid) = active_plan-same l p active in
    let (v, r) = supplement_version s.plan_lineage l d.supplemental_tasks d.rationale grown in
    let same_version : p.plan_version ≡ s.plan.plan_version =
      sym (ap (λ q. q.plan_version) same_plan) ∙ v ∙ ap (λ q. q.plan_version) b.lineage_plan in
    record {
      plan_valid = rw e_plan valid;
      lineage_plan = rw (e_plan, e_lineage) same_plan;
      replans = rw e_replans b.replans;
      rounds = omega (arith, e_rounds, room);
      revisions = rw (e_lineage, e_rounds, r) (omega (arith, b.revisions));
      version = rw (e_plan, e_next, same_version) b.version;
      next = rw (e_next, e_replans) b.next;
    }

write_up-IsBounded :
    (settings : Settings) (reason : String) (s : AgentState)
    → IsBounded settings s
    → IsBounded settings (write_up reason s).state
unfolding write_up
write_up-IsBounded settings reason s b =
    KeepsPlan-IsBounded settings s _ (record { plan = refl; lineage = refl; rounds = refl }) b
      b.replans b.version b.next

on_supplement-IsBounded :
    (settings : Settings) (s : AgentState) (d : CritiqueDecision) (turn : Turn)
    → on_supplement settings s d ≡ ok turn
    → IsBounded settings s
    → IsBounded settings turn.state
unfolding on_supplement
on_supplement-IsBounded settings s d turn h b =
    elim (Bool-cases (ltb s.supplement_rounds settings.max_supplement_rounds)) [
      | inl room ↦ expand-IsBounded settings s d turn (rw room at h) (ground arith) b
      | inr full ↦ kept (rw full at h)
    ]
  where
    kept :
        ◌≡◌ {A = Outcome CriticError Turn} (ok (write_up "Critic 再次请求补充研究，但补充预算已耗尽" s)) (ok turn)
        → IsBounded settings turn.state
    kept e =
        let same : write_up "Critic 再次请求补充研究，但补充预算已耗尽" s ≡ turn = ground arith in
        subst (λ t. IsBounded settings t.state) same (write_up-IsBounded settings _ s b)

on_replan-IsBounded :
    (settings : Settings) (s : AgentState) (d : CritiqueDecision)
    → IsBounded settings s
    → IsBounded settings (on_replan settings s d).state
unfolding on_replan
on_replan-IsBounded settings s d b = elim (Bool-cases (report_first settings)) [
  | inl first ↦ rw first (write_up-IsBounded settings _ s b)
  | inr other ↦ elim (Bool-cases (ltb s.replan_count settings.max_replans)) [
    | inr full ↦ rw (other, full) (write_up-IsBounded settings _ s b)
    | inl room ↦ rw (other, room) (again (ground arith))
  ]
]
  where
    again :
        s.replan_count < settings.max_replans
        → IsBounded settings (record s {
          replan_count = s.replan_count + 1;
          next_plan_version = s.plan.plan_version + 1;
        })
    again room =
        KeepsPlan-IsBounded settings s _ (record { plan = refl; lineage = refl; rounds = refl }) b
          (omega (arith, room)) (omega arith) (omega (arith, b.next, b.version))

act_on-IsBounded :
    (settings : Settings) (s : AgentState) (d : CritiqueDecision) (turn : Turn)
    → act_on settings s d ≡ ok turn
    → IsBounded settings s
    → IsBounded settings turn.state
unfolding act_on
act_on-IsBounded settings s d turn h b = by_route d.decision refl
  where
    accepted : AgentState → Turn
    accepted s' = record { target = "synthesizer"; reason = d.rationale; state = s' }

    by_route : (r : CritiqueRoute) → d.decision ≡ r → IsBounded settings turn.state
    by_route CritiqueRoute.supplement e = on_supplement-IsBounded settings s d turn (rw e at h) b
    by_route CritiqueRoute.replan e =
        let same : on_replan settings s d ≡ turn = ground arith in
        subst (λ t. IsBounded settings t.state) same (on_replan-IsBounded settings s d b)
    by_route CritiqueRoute.accept e =
        let same : record s { synthesis_mode = "fresh" } ≡ turn.state = ground arith in
        subst (IsBounded settings) same (
          KeepsPlan-IsBounded settings s (record s { synthesis_mode = "fresh" })
            (record { plan = refl; lineage = refl; rounds = refl }) b b.replans b.version b.next)

without_tools-IsBounded :
    (settings : Settings) (tools_empty : Bool) (s : AgentState) (turn : Turn)
    → IsBounded settings s
    → IsBounded settings turn.state
    → IsBounded settings (without_tools tools_empty s turn).state
unfolding without_tools
without_tools-IsBounded settings tools_empty s turn b b' =
    elim (Bool-cases
      ((turn.target == "planner" || turn.target == "schedule_wave") && tools_empty)) [
        | inl stop ↦ rw stop (write_up-IsBounded settings _ s b)
        | inr go ↦ rw go b'
      ]

critic_parts :
    (catalog : List Capability) (now : ℕ) (settings : Settings) (tools_empty : Bool)
    (s s' : AgentState) (answer : CritiqueDecision)
    → critic catalog now settings tools_empty s answer ≡ ok s'
    → (d : CritiqueDecision) × (turn : Turn) × (act_on settings s d ≡ ok turn)
      × KeepsPlan (without_tools tools_empty s turn).state s'
      × (s'.replan_count ≡ (without_tools tools_empty s turn).state.replan_count)
      × (s'.next_plan_version ≡ (without_tools tools_empty s turn).state.next_plan_version)
unfolding critic
critic_parts catalog now settings tools_empty s s' answer h =
    let (c, _, rest) =
      >>=-eq-ok (on_error CriticError.contract (review_context settings s))
        (λ c. check_answer catalog settings c s answer >>= λ d.
          act_on settings s d >>= λ t. finish c d t)
        h in
    let (d, _, rest') =
      >>=-eq-ok (check_answer catalog settings c s answer)
        (λ d. act_on settings s d >>= λ t. finish c d t) rest in
    let (turn, acted, last) = >>=-eq-ok (act_on settings s d) (finish c d) rest' in
    (
      d,
      turn,
      acted,
      record { plan = ground arith; lineage = ground arith; rounds = ground arith },
      ground arith,
      ground arith,
    )
  where
    finish : ReviewContext → CritiqueDecision → Turn → Outcome CriticError AgentState
    finish c d acted = finish_review now c d s (without_tools tools_empty s acted)

-- What the critic does to the budgets.
pub critic-IsBounded :
    (catalog : List Capability) (now : ℕ) (settings : Settings) (tools_empty : Bool)
    (s s' : AgentState) (answer : CritiqueDecision)
    → critic catalog now settings tools_empty s answer ≡ ok s'
    → IsBounded settings s
    → IsBounded settings s'
critic-IsBounded catalog now settings tools_empty s s' answer h b =
    let (d, turn, acted, keeps, e, e') =
      critic_parts catalog now settings tools_empty s s' answer h in
    let b' =
      without_tools-IsBounded settings tools_empty s turn b
        (act_on-IsBounded settings s d turn acted b) in
    KeepsPlan-IsBounded settings _ s' keeps b' (rw e b'.replans) (rw e' b'.version)
      (rw (e, e') b'.next)
