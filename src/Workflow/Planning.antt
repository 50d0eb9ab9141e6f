-- ===== src/Workflow/Planning.antt =====
-- `_planner` and `_approval` of backend/src/atlasflow/agents/workflow.py, from the model's or the
-- user's answer to the update of the state, and the routers of the graph.
-- An exception in `_planner` is caught there and ends the run with a fatal error, which is outside.
use atlas_flow_agent.Base.{
  ℕ, String, Bool, true, false, not, ◌&&◌, ◌||◌, Option, none, some, List, ◌∷◌, eqb, if◌then◌else◌,
  Outcome, ok, raise, raise_if, ◌==◌, nat_eq, string_eq, length, is_blank, [], ◌>>=◌, ◌>>◌,
}
use atlas_flow_agent.Contracts.Errors.{ContractError, in_range}
use atlas_flow_agent.Contracts.Task.{Capability, validate_task_capabilities}
use atlas_flow_agent.Contracts.Plan.{ResearchPlan, validate_plan}
use atlas_flow_agent.Contracts.Lineage.{PlanLineage, validate_lineage}
use atlas_flow_agent.Contracts.Records.{RouteRecord}
use atlas_flow_agent.Workflow.{Settings, AgentState, replace_version, replace_plan, replace_lineage}
use atlas_flow_agent.Workflow.Decisions.{add_route}
use atlas_flow_agent.Workflow.Critic.{on_error}

-- What the nodes raise.
pub data PlanningError : Type 0 where
  contract : ContractError → PlanningError
  wrong_version bad_task_count not_the_policy_count : PlanningError
  unsupported_action edited_plan_missing : PlanningError

abbrev differs : Option ℕ → ℕ → Bool
differs none n = false
differs (some m) n = not (eqb n m)

-- The checks of a plan on top of its own validation, for the version that is expected.
unfoldable pub check_initial_plan :
    List Capability → Settings → AgentState → ℕ → ResearchPlan → Outcome PlanningError (Unit {0})
check_initial_plan catalog settings s version p = do
  _ ← on_error PlanningError.contract (validate_plan p)
  _ ← on_error PlanningError.contract (validate_task_capabilities p.tasks catalog)
  raise_if (not (eqb p.plan_version version)) PlanningError.wrong_version
  raise_if (not (in_range 2 settings.max_initial_tasks (length p.tasks)))
      PlanningError.bad_task_count
  raise_if (eqb version 1 && differs s.policy.initial_task_count (length p.tasks))
      PlanningError.not_the_policy_count

-- `PlanLineage(plan_version=plan.plan_version, base_plan=plan)`
abbrev pub new_lineage : ResearchPlan → PlanLineage
new_lineage p = record { plan_version = p.plan_version; base_plan = p; supplements = [] }

-- `_planner`, given the model's plan.
unfoldable pub planner :
    List Capability → ℕ → Settings → AgentState → ResearchPlan → Outcome PlanningError AgentState
unfolding check_initial_plan replace_version
planner catalog now settings s p = do
  check_initial_plan catalog settings s s.next_plan_version p
  _ ← on_error PlanningError.contract (validate_lineage (new_lineage p))
  ok (
      add_route
        (record {
          from_node = "planner";
          to_node = "approval";
          reason = "计划已通过 DAG 校验";
          decision = none;
          plan_version = s.next_plan_version;
          attempt = 1;
          created_at = now;
        })
        (record s {
          plan = p;
          plans = replace_plan s.plans p;
          plan_lineage = new_lineage p;
          plan_lineages = replace_lineage s.plan_lineages (new_lineage p);
          ready_tasks = [];
          synthesis_mode = "fresh";
          final_status = if s.auto_approve then none else some "waiting_approval";
          requested_final_status = none;
          fatal_error = none;
        }))

pub data ApprovalAction : Type 0 where
  approve edit cancel : ApprovalAction

abbrev action_value : ApprovalAction → String
action_value ApprovalAction.approve = "approve"
action_value ApprovalAction.edit = "edit"
action_value ApprovalAction.cancel = "cancel"

unfoldable pub parse_action : String → Outcome PlanningError ApprovalAction
parse_action text =
    if text == "approve"
    then ok ApprovalAction.approve
    else if text == "edit"
    then ok ApprovalAction.edit
    else if text == "cancel"
    then ok ApprovalAction.cancel
    else raise PlanningError.unsupported_action

-- The user's answer to the interrupt.
pub record Response : Type 0 where
  pub action : String
  pub edited_plan : Option ResearchPlan

-- The plan that the run goes on with.
unfoldable pub approved_plan :
    List Capability
    → Settings
    → AgentState
    → ApprovalAction
    → Option ResearchPlan
    → Outcome PlanningError ResearchPlan
unfolding check_initial_plan
approved_plan catalog settings s ApprovalAction.approve edited = ok s.plan
approved_plan catalog settings s ApprovalAction.cancel edited = ok s.plan
approved_plan catalog settings s ApprovalAction.edit none = raise PlanningError.edited_plan_missing
approved_plan catalog settings s ApprovalAction.edit (some p) = do
  check_initial_plan catalog settings s s.plan.plan_version p
  ok p

abbrev is_cancel : ApprovalAction → Bool
is_cancel ApprovalAction.cancel = true
is_cancel _ = false

abbrev approval_target : ApprovalAction → String
approval_target a = if is_cancel a then "finalizer" else "schedule_wave"

abbrev approval_reason : ApprovalAction → String
approval_reason ApprovalAction.approve = "计划已获批准"
approval_reason ApprovalAction.edit = "编辑后的计划已通过 DAG 校验"
approval_reason ApprovalAction.cancel = "用户取消运行"

-- The update of an approval: a lineage of its own for the plan.
unfoldable pub approve_plan :
    ℕ → AgentState → ApprovalAction → ResearchPlan → Outcome PlanningError AgentState
unfolding replace_version
approve_plan now s action p = do
  _ ← on_error PlanningError.contract (validate_lineage (new_lineage p))
  ok (
      add_route
        (record {
          from_node = "approval";
          to_node = approval_target action;
          reason = approval_reason action;
          decision = some (action_value action);
          plan_version = p.plan_version;
          attempt = 1;
          created_at = now;
        })
        (record s {
          plan = p;
          plans = replace_plan s.plans p;
          plan_lineage = new_lineage p;
          plan_lineages = replace_lineage s.plan_lineages (new_lineage p);
          ready_tasks = [];
          final_status = none;
          requested_final_status = if is_cancel action then some "cancelled" else none;
        }))

-- `_approval`, given the user's answer, which is not asked for with `auto_approve`.
unfoldable pub approval :
    List Capability → ℕ → Settings → AgentState → Response → Outcome PlanningError AgentState
unfolding parse_action approved_plan approve_plan
approval catalog now settings s response = do
  action ← if s.auto_approve then ok ApprovalAction.approve else parse_action response.action
  p ← approved_plan catalog settings s action response.edited_plan
  approve_plan now s action p

abbrev has_text : Option String → Bool
has_text none = false
has_text (some s) = not (is_blank s)

-- `_after_supervisor`, of `execution_mode`
unfoldable pub after_supervisor : String → String
after_supervisor mode = if mode == "report_revision" then "synthesizer" else "planner"

unfoldable pub after_planner : AgentState → String
unfolding is_blank
after_planner s =
    if has_text s.fatal_error || not (is_blank s.delivery_fallback_reason)
    then "finalizer"
    else "approval"

abbrev is_cancelled : Option String → Bool
is_cancelled none = false
is_cancelled (some s) = s == "cancelled"

unfoldable pub after_approval : AgentState → String
after_approval s = if is_cancelled s.requested_final_status then "finalizer" else "schedule_wave"

-- `route_history[-1].to_node`; a node that ends has added its route.
unfoldable pub last_target : List RouteRecord → Option String
last_target [] = none
last_target (r ∷ []) = some r.to_node
last_target (r ∷ q ∷ rs) = last_target (q ∷ rs)

unfoldable pub after_research_gate : AgentState → Option String
unfolding last_target
after_research_gate s = last_target s.route_history

-- `_after_critic` and `_after_quality_gate`
unfoldable pub after_critic : AgentState → Option String
unfolding last_target is_blank
after_critic s = if has_text s.fatal_error then some "finalizer" else last_target s.route_history

unfoldable pub after_synthesizer : AgentState → String
unfolding is_blank
after_synthesizer s =
    if has_text s.fatal_error || not (is_blank s.delivery_fallback_reason)
    then "finalizer"
    else "quality_gate"
