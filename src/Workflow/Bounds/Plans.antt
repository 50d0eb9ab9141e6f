-- ===== src/Workflow/Bounds/Plans.antt =====
-- The nodes that set a plan, `_planner` and `_approval`, of the workflow graph of
-- backend/src/atlasflow/agents/workflow.py.
use atlas_flow_agent.Base.{
  ℕ, ◌≤◌, ◌≡◌, refl, ◌⊎◌, inl, inr, Option, List, arith, if◌then◌else◌, ok, ◌>>=◌, >>=-eq-ok,
  nat_eq, string_eq,
}
use atlas_flow_agent.Contracts.Task.{Capability}
use atlas_flow_agent.Contracts.Plan.{ResearchPlan, validate_plan}
use atlas_flow_agent.Contracts.Lineage.Growth.{validate_plan_cases}
use atlas_flow_agent.Workflow.{Settings, AgentState}
use atlas_flow_agent.Workflow.Planning.{
  Response, ApprovalAction, parse_action, approve_plan, new_lineage, check_initial_plan, planner,
  approved_plan, approval,
}
use atlas_flow_agent.Workflow.Bounds.{IsBounded, joined_plan-new_lineage, Counts}

-- A new plan of the next or the present version, with a lineage of its own.
with_new_plan :
    (settings : Settings) (s s' : AgentState)
    → validate_plan s'.plan ≡ ok s'.plan
    → s'.plan_lineage ≡ new_lineage s'.plan
    → s'.plan.plan_version ≤ s'.next_plan_version
    → Counts settings s'
    → IsBounded settings s'
with_new_plan settings s s' valid l v (replans, rounds, next) = record {
  plan_valid = valid;
  lineage_plan = rw l (joined_plan-new_lineage s'.plan);
  replans = replans;
  rounds = rounds;
  revisions = rw l (omega arith);
  version = v;
  next = next;
}

check_initial_plan_parts :
    (catalog : List Capability) (settings : Settings) (s : AgentState) (v : ℕ) (p : ResearchPlan)
    → check_initial_plan catalog settings s v p ≡ ok tt
    → (validate_plan p ≡ ok p) × (p.plan_version ≡ v)
unfolding check_initial_plan
check_initial_plan_parts catalog settings s v p h = ground (arith, validate_plan_cases p)

-- What the nodes that set a plan leave behind.
record SetsPlan (s s' : AgentState) (p : ResearchPlan) : Type 0 where
  plan : s'.plan ≡ p
  lineage : s'.plan_lineage ≡ new_lineage p
  replans : s'.replan_count ≡ s.replan_count
  rounds : s'.supplement_rounds ≡ s.supplement_rounds
  next : s'.next_plan_version ≡ s.next_plan_version

SetsPlan-IsBounded :
    (settings : Settings) (s s' : AgentState) (p : ResearchPlan)
    → SetsPlan s s' p
    → validate_plan p ≡ ok p
    → p.plan_version ≤ s.next_plan_version
    → Counts settings s
    → IsBounded settings s'
SetsPlan-IsBounded settings s s' p e valid v counts =
    with_new_plan settings s s' (rw e.plan valid) (rw (e.plan, e.lineage) refl)
      (rw (e.plan, e.next) v) (rw (e.replans, e.rounds, e.next) counts)

planner-SetsPlan :
    (catalog : List Capability) (now : ℕ) (settings : Settings) (s s' : AgentState)
    (p : ResearchPlan)
    → planner catalog now settings s p ≡ ok s'
    → (check_initial_plan catalog settings s s.next_plan_version p ≡ ok tt) × SetsPlan s s' p
unfolding planner
planner-SetsPlan catalog now settings s s' p h = (
  ground arith,
  record {
    plan = ground arith;
    lineage = ground arith;
    replans = ground arith;
    rounds = ground arith;
    next = ground arith;
  },
)

pub planner-IsBounded :
    (catalog : List Capability) (now : ℕ) (settings : Settings) (s s' : AgentState)
    (p : ResearchPlan)
    → planner catalog now settings s p ≡ ok s'
    → Counts settings s
    → IsBounded settings s'
planner-IsBounded catalog now settings s s' p h counts =
    let (checked, sets) = planner-SetsPlan catalog now settings s s' p h in
    let (valid, v) = check_initial_plan_parts catalog settings s s.next_plan_version p checked in
    SetsPlan-IsBounded settings s s' p sets valid (omega (arith, v)) counts

approved_plan_cases :
    (catalog : List Capability) (settings : Settings) (s : AgentState) (a : ApprovalAction)
    (edited : Option ResearchPlan) (p : ResearchPlan)
    → approved_plan catalog settings s a edited ≡ ok p
    → (p ≡ s.plan) ⊎ (check_initial_plan catalog settings s s.plan.plan_version p ≡ ok tt)
unfolding approved_plan
approved_plan_cases catalog settings s a edited p h = ground arith

approval_tail :
    (s s' : AgentState) (a : ApprovalAction) (now : ℕ) (p : ResearchPlan)
    → approve_plan now s a p ≡ ok s'
    → SetsPlan s s' p
unfolding approve_plan
approval_tail s s' a now p h = record {
  plan = ground arith;
  lineage = ground arith;
  replans = ground arith;
  rounds = ground arith;
  next = ground arith;
}

approval-SetsPlan :
    (catalog : List Capability) (now : ℕ) (settings : Settings) (s s' : AgentState) (r : Response)
    → approval catalog now settings s r ≡ ok s'
    → (p : ResearchPlan) × SetsPlan s s' p
      × ((p ≡ s.plan) ⊎ (check_initial_plan catalog settings s s.plan.plan_version p ≡ ok tt))
unfolding approval
approval-SetsPlan catalog now settings s s' r h =
    let (a, _, rest) =
      >>=-eq-ok (if s.auto_approve then ok ApprovalAction.approve else parse_action r.action)
        (λ a. approved_plan catalog settings s a r.edited_plan >>= λ p. approve_plan now s a p) h in
    let (p, chosen, last) =
      >>=-eq-ok (approved_plan catalog settings s a r.edited_plan) (λ p. approve_plan now s a p)
        rest in
    (
      p,
      approval_tail s s' a now p last,
      approved_plan_cases catalog settings s a r.edited_plan p chosen,
    )

pub approval-IsBounded :
    (catalog : List Capability) (now : ℕ) (settings : Settings) (s s' : AgentState) (r : Response)
    → approval catalog now settings s r ≡ ok s'
    → IsBounded settings s
    → IsBounded settings s'
approval-IsBounded catalog now settings s s' r h b =
    let (p, sets, from) = approval-SetsPlan catalog now settings s s' r h in
    elim from [
      | inl same ↦
          SetsPlan-IsBounded settings s s' p sets (rw same b.plan_valid) (rw same b.version)
            (b.replans, b.rounds, b.next)
      | inr checked ↦
          let (valid, v) =
            check_initial_plan_parts catalog settings s s.plan.plan_version p checked in
          SetsPlan-IsBounded settings s s' p sets valid (omega (arith, v, b.version))
            (b.replans, b.rounds, b.next)
    ]
