-- ===== src/Workflow/Critic.antt =====
-- `_critic` of backend/src/atlasflow/agents/workflow.py: from the model's answer to the update of
-- the state. The model and the tool stage are outside, and so are their failures.
use atlas_flow_agent.Base.{
  ℕ, ◌+◌, String, Bool, ◌&&◌, ◌||◌, List, ◌∷◌, ◌++◌, ltb, eqb, if◌then◌else◌, Outcome, ok, raise,
  raise_if, ◌==◌, nat_eq, string_eq, length, [], ◌>>=◌, ◌>>◌,
}
use atlas_flow_agent.Contracts.Errors.{ContractError}
use atlas_flow_agent.Contracts.Task.{Capability, validate_task_capabilities}
use atlas_flow_agent.Contracts.Lineage.{active_plan, with_supplement}
use atlas_flow_agent.Contracts.Review.{ReviewContext}
use atlas_flow_agent.Contracts.Critique.{
  CritiqueDecision, CritiqueRoute, validate_decision, validate_for,
}
use atlas_flow_agent.TaskQuality.{
  QualityError, accept_noncritical_supplement, validate_local_repairs,
}
use atlas_flow_agent.Workflow.{
  Settings, AgentState, report_first, merge_warnings, effective_results, replace_plan,
  replace_lineage, replace_version,
}
use atlas_flow_agent.Workflow.Schedule.{record_route, review_context}
use atlas_flow_agent.Workflow.Decisions.{add_route}

-- What the node raises.
pub data CriticError : Type 0 where
  contract : ContractError → CriticError
  quality : QualityError → CriticError
  wrong_version supplement_too_large plan_too_large : CriticError

abbrev pub on_error : {E F A : Type 0} → (E → F) → Outcome E A → Outcome F A
on_error f (ok a) = ok a
on_error f (raise e) = raise (f e)

-- The checks of the model's answer, in order, and the decision that the node acts on.
unfoldable pub check_answer :
    List Capability
    → Settings
    → ReviewContext
    → AgentState
    → CritiqueDecision
    → Outcome CriticError CritiqueDecision
unfolding effective_results
check_answer catalog settings c s answer = do
  d ← on_error CriticError.contract (validate_decision answer)
  _ ← on_error CriticError.contract (validate_for d c)
  _ ← on_error CriticError.quality (validate_local_repairs d s.plan c)
  _ ← on_error CriticError.contract (validate_task_capabilities d.supplemental_tasks catalog)
  d' ←
      if settings.accept_partial_results
      then on_error CriticError.contract
          (accept_noncritical_supplement d s.plan (effective_results s) c)
      else ok d
  if eqb d'.plan_version s.plan.plan_version then ok d' else raise CriticError.wrong_version

-- Where the node goes, why, and the state with the decision's update.
pub record Turn : Type 0 where
  pub target : String
  pub reason : String
  pub state : AgentState

-- A turn to the writer with a warning.
unfoldable pub write_up : String → AgentState → Turn
unfolding merge_warnings
write_up reason s = record {
  target = "synthesizer";
  reason = reason;
  state = record s { warnings = merge_warnings s.warnings (reason ∷ []); synthesis_mode = "fresh" };
}

-- An accepted supplement: the plan grows by its tasks.
unfoldable pub expand : Settings → AgentState → CritiqueDecision → Outcome CriticError Turn
unfolding with_supplement active_plan replace_version
expand settings s d = do
  raise_if (ltb settings.max_supplement_tasks (length d.supplemental_tasks))
      CriticError.supplement_too_large
  expanded_lineage ←
      on_error CriticError.contract
        (with_supplement s.plan_lineage d.supplemental_tasks d.rationale)
  expanded ← on_error CriticError.contract (active_plan expanded_lineage)
  raise_if (ltb settings.max_tasks_per_plan (length expanded.tasks)) CriticError.plan_too_large
  ok (record {
    target = "schedule_wave";
    reason = d.rationale;
    state = record s {
      plan = expanded;
      plans = replace_plan s.plans expanded;
      plan_lineage = expanded_lineage;
      plan_lineages = replace_lineage s.plan_lineages expanded_lineage;
      supplement_rounds = s.supplement_rounds + 1;
      ready_tasks = [];
    };
  })

unfoldable pub on_supplement : Settings → AgentState → CritiqueDecision → Outcome CriticError Turn
unfolding expand write_up
on_supplement settings s d =
    if ltb s.supplement_rounds settings.max_supplement_rounds
    then expand settings s d
    else ok (write_up "Critic 再次请求补充研究，但补充预算已耗尽" s)

unfoldable pub on_replan : Settings → AgentState → CritiqueDecision → Turn
unfolding write_up
on_replan settings s d =
    if report_first settings
    then write_up "研究审查发现缺口，停止全局重规划；成稿仅保留可核实结论，并明确未覆盖范围" s
    else if ltb s.replan_count settings.max_replans
    then record {
      target = "planner";
      reason = d.rationale;
      state = record s {
        replan_count = s.replan_count + 1;
        next_plan_version = s.plan.plan_version + 1;
      };
    }
    else write_up "Critic 请求重规划，但全局重规划预算已耗尽" s

-- The decision's branches.
unfoldable pub act_on : Settings → AgentState → CritiqueDecision → Outcome CriticError Turn
unfolding on_supplement on_replan
act_on settings s d = elim (d.decision) [
  | CritiqueRoute.accept ↦ ok (record {
    target = "synthesizer";
    reason = d.rationale;
    state = record s { synthesis_mode = "fresh" };
  })
  | CritiqueRoute.supplement ↦ on_supplement settings s d
  | CritiqueRoute.replan ↦ ok (on_replan settings s d)
]

-- Without tools left, more research is dropped with its update.
unfoldable pub without_tools : Bool → AgentState → Turn → Turn
unfolding write_up
without_tools tools_empty s turn =
    if (turn.target == "planner" || turn.target == "schedule_wave") && tools_empty
    then write_up "工具预算已耗尽，停止补充/重规划；仅整理已有证据并明确未完成事项" s
    else turn

abbrev route_value : CritiqueRoute → String
route_value CritiqueRoute.accept = "accept"
route_value CritiqueRoute.supplement = "supplement"
route_value CritiqueRoute.replan = "replan"

-- The node's update: the review and its context, and the route.
unfoldable pub finish_review :
    ℕ → ReviewContext → CritiqueDecision → AgentState → Turn → Outcome CriticError AgentState
finish_review now c d s turn = ok (
    add_route (record_route now s "critic" turn.target turn.reason (route_value d.decision))
      (record (turn.state) {
        critique_history = s.critique_history ++ d ∷ [];
        review_contexts = s.review_contexts ++ c ∷ [];
      }))

-- `_critic`, given the model's answer.
unfoldable pub critic :
    List Capability
    → ℕ
    → Settings
    → Bool
    → AgentState
    → CritiqueDecision
    → Outcome CriticError AgentState
unfolding review_context check_answer act_on without_tools finish_review
critic catalog now settings tools_empty s answer = do
  c ← on_error CriticError.contract (review_context settings s)
  d ← check_answer catalog settings c s answer
  acted ← act_on settings s d
  finish_review now c d s (without_tools tools_empty s acted)
