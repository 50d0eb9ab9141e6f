-- ===== src/Workflow/QualityGate.antt =====
-- `_quality_gate` of backend/src/atlasflow/agents/workflow.py, from the model's answer on. What the
-- review of the report does to the answer (`validate_review_locations` up to
-- `limit_to_report_repair`) is the argument `calibrate`, `tools_empty` is what `_tool_budget_empty`
-- answers and `draft_version` the version of the latest draft.
use atlas_flow_agent.Base.{
  ℕ, suc, ◌+◌, String, Bool, not, ◌&&◌, ◌∷◌, ◌++◌, some, ltb, eqb, if◌then◌else◌, Outcome, ok,
  raise_if, ◌==◌, nat_eq, string_eq, join, [], ◌>>=◌, ◌>>◌,
}
use atlas_flow_agent.Contracts.Quality.{QualityDecision, QualityRoute}
use atlas_flow_agent.Contracts.Records.{RouteRecord}
use atlas_flow_agent.Workflow.{Settings, AgentState, merge_warnings}
use atlas_flow_agent.Workflow.Schedule.{record_route}
use atlas_flow_agent.Workflow.Decisions.{add_route, decimal_within}
use atlas_flow_agent.Workflow.Critic.{Turn}

pub data QualityError : Type 0 where
  wrong_plan_version wrong_draft_version score_below_threshold contract : QualityError

-- What the constructor of the workflow fixes for the gate.
pub record QualityLimits : Type 0 where
  pub quality_threshold : ℕ
  pub max_revisions : ℕ

-- To the finalizer, with a warning.
unfoldable pub with_warning : String → AgentState → Turn
unfolding merge_warnings
with_warning reason s = record {
  target = "finalizer";
  reason = reason;
  state = record s {
    warnings = merge_warnings s.warnings (reason ∷ []);
    requested_final_status = some "completed_with_warnings";
  };
}

unfoldable pub on_accept : QualityLimits → AgentState → QualityDecision → Outcome QualityError Turn
on_accept limits s d = do
  raise_if (ltb d.score limits.quality_threshold) QualityError.score_below_threshold
  ok (record {
    target = "finalizer";
    reason = d.rationale;
    state = record s { requested_final_status = some "completed" };
  })

unfoldable pub on_revise : QualityLimits → AgentState → QualityDecision → Turn
unfolding with_warning join decimal_within
on_revise limits s d =
    if ltb s.revision_count limits.max_revisions
    then record {
      target = "synthesizer";
      reason = d.rationale;
      state = record s { revision_count = s.revision_count + 1; synthesis_mode = "revise" };
    }
    else with_warning
        (join "报告仍需修订，但 "
          (join (decimal_within (suc limits.max_revisions) limits.max_revisions) " 次修订预算已耗尽"))
        s

unfoldable pub replan_report : Settings → AgentState → QualityDecision → Turn
unfolding with_warning
replan_report settings s d =
    if ltb s.replan_count settings.max_replans
    then record {
      target = "planner";
      reason = d.rationale;
      state = record s {
        replan_count = s.replan_count + 1;
        next_plan_version = s.plan.plan_version + 1;
      };
    }
    else with_warning "QualityGate 请求重规划，但全局重规划预算已耗尽" s

-- The decision's branches.
unfoldable pub judge :
    Settings → QualityLimits → AgentState → QualityDecision → Outcome QualityError Turn
unfolding on_accept on_revise replan_report
judge settings limits s d = elim (d.decision) [
  | QualityRoute.accept ↦ on_accept limits s d
  | QualityRoute.revise ↦ ok (on_revise limits s d)
  | QualityRoute.replan ↦ ok (replan_report settings s d)
]

-- The two tests after the branches: a replan is dropped with its update.
unfoldable pub without_replan : Bool → AgentState → Turn → Turn
unfolding with_warning
without_replan tools_empty s turn =
    if turn.target == "planner" && tools_empty
    then with_warning "工具预算已耗尽，无法重新研究；报告仅为部分结果，保留未核实事项" s
    else if turn.target == "planner" && s.execution_mode == "report_revision"
    then with_warning "报告修订发现新的证据缺口；本轮只调整表达，请另行确认补充研究" s
    else turn

abbrev pub quality_value : QualityRoute → String
quality_value QualityRoute.accept = "accept"
quality_value QualityRoute.revise = "revise"
quality_value QualityRoute.replan = "replan"

abbrev pub quality_route : ℕ → ℕ → AgentState → QualityDecision → Turn → RouteRecord
quality_route now draft_version s d turn =
    record (record_route now s "quality_gate" turn.target turn.reason (quality_value d.decision)) {
      attempt = draft_version;
    }

-- The node's update: the decision and the route.
unfoldable pub finish_quality : ℕ → ℕ → AgentState → QualityDecision → Turn → AgentState
finish_quality now draft_version s d turn =
    add_route (quality_route now draft_version s d turn)
      (record (turn.state) { quality_history = s.quality_history ++ d ∷ [] })

-- `_quality_gate`
unfoldable pub quality_gate :
    (QualityDecision → Outcome QualityError QualityDecision)
    → ℕ
    → Settings
    → QualityLimits
    → Bool
    → ℕ
    → AgentState
    → QualityDecision
    → Outcome QualityError AgentState
unfolding judge without_replan finish_quality
quality_gate calibrate now settings limits tools_empty draft_version s answer = do
  raise_if (not (eqb answer.plan_version s.plan.plan_version)) QualityError.wrong_plan_version
  raise_if (not (eqb answer.draft_version draft_version)) QualityError.wrong_draft_version
  d ← calibrate answer
  turn ← judge settings limits s d
  ok (finish_quality now draft_version s d (without_replan tools_empty s turn))
