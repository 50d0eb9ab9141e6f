-- ===== src/Workflow/Decisions.antt =====
-- `_research_gate` of backend/src/atlasflow/agents/workflow.py. `tools_empty` is what
-- `_tool_budget_empty` answers, `percent` how a ratio is written, `now` the clock.
use atlas_flow_agent.Base.{
  ℕ, zero, suc, ◌+◌, ◌*◌, String, Bool, false, not, ◌||◌, Option, none, some, ◌∷◌, ◌++◌, ltb, leb,
  eqb, if◌then◌else◌, nat_eq, string_eq, dedup, length, keep, join, [],
}
use Prim.Native.Nat.{◌/◌, ◌%◌}
use atlas_flow_agent.Contracts.Research.{ResearchResult, is_partial}
use atlas_flow_agent.Contracts.Records.{RouteRecord}
use atlas_flow_agent.TaskQuality.{repaired_task_ids}
use atlas_flow_agent.Workflow.{Settings, AgentState, report_first, merge_warnings, current_results}
use atlas_flow_agent.Workflow.Schedule.{result_ids, record_route}

abbrev digit : ℕ → String
digit n =
    if eqb n 0
    then "0"
    else if eqb n 1
    then "1"
    else if eqb n 2
    then "2"
    else if eqb n 3
    then "3"
    else if eqb n 4
    then "4"
    else if eqb n 5
    then "5"
    else if eqb n 6
    then "6"
    else if eqb n 7
    then "7"
    else if eqb n 8
    then "8"
    else "9"

-- `str(n)`; a number has at most as many digits as the fuel below.
unfoldable pub decimal_within : ℕ → ℕ → String
unfolding join
decimal_within zero n = ""
decimal_within (suc fuel) n =
    let front = decimal_within fuel (n / 10) in
    if ltb n 10 then digit n else join front (digit (n % 10))

-- `（{m}/{n}）`
unfoldable pub fraction : ℕ → ℕ → String
unfolding join decimal_within
fraction m n =
    join "（" (join (decimal_within (suc m) m) (join "/" (join (decimal_within (suc n) n) "）")))

abbrev pub has_coverage : Option ℕ → Bool
has_coverage none = false
has_coverage (some n) = ltb 0 n

-- A result counts if it is not partial or covers some criterion.
unfoldable pub is_usable : ResearchResult → Bool
is_usable r = not (is_partial r.outcome) || has_coverage r.criteria_coverage

-- `successful`
unfoldable pub usable_count : AgentState → ℕ
unfolding keep dedup is_usable current_results repaired_task_ids
usable_count s =
    let results = current_results s in
    length (dedup (result_ids (keep is_usable results) ++ repaired_task_ids s.plan results))

-- `ratio >= self.quorum_ratio`
unfoldable pub meets_quorum : Settings → AgentState → Bool
unfolding usable_count
meets_quorum settings s =
    leb (settings.quorum_ratio * length s.plan.tasks) (usable_count s * 10_000)

-- The branches of the gate.
pub data GateDecision : Type 0 where
  quorum_met limited_delivery tool_budget_exhausted replan failed : GateDecision

unfoldable pub gate_decision : Settings → Bool → AgentState → GateDecision
unfolding meets_quorum
gate_decision settings tools_empty s =
    if meets_quorum settings s
    then GateDecision.quorum_met
    else if report_first settings
    then GateDecision.limited_delivery
    else if tools_empty
    then GateDecision.tool_budget_exhausted
    else if ltb s.replan_count settings.max_replans
    then GateDecision.replan
    else GateDecision.failed

-- `（{successful}/{len(plan.tasks)}）`
abbrev share : AgentState → String
share s = fraction (usable_count s) (length s.plan.tasks)

unfoldable pub gate_reason : (ℕ → String) → Settings → AgentState → GateDecision → String
unfolding join fraction usable_count
gate_reason percent settings s GateDecision.quorum_met = join "研究 Quorum 达标" (share s)
gate_reason percent settings s GateDecision.limited_delivery =
    join "研究覆盖不足" (join (share s) "，停止整轮重规划，交付已有材料及未核实范围")
gate_reason percent settings s GateDecision.tool_budget_exhausted =
    join "工具预算已耗尽，研究 Quorum 未达标" (join (share s) "；保留已获取结果，不再无效重规划")
gate_reason percent settings s GateDecision.replan =
    join "研究 Quorum 未达 " (join (percent settings.quorum_ratio) (join (share s) "，触发重规划"))
gate_reason percent settings s GateDecision.failed =
    join "重规划后研究 Quorum 仍未达 " (join (percent settings.quorum_ratio) (share s))

unfoldable pub gate_target : AgentState → GateDecision → String
unfolding usable_count
gate_target s GateDecision.quorum_met = "critic"
gate_target s GateDecision.limited_delivery =
    if eqb (usable_count s) 0 then "finalizer" else "synthesizer"
gate_target s GateDecision.tool_budget_exhausted = "finalizer"
gate_target s GateDecision.replan = "planner"
gate_target s GateDecision.failed = "finalizer"

abbrev decision_name : GateDecision → String
decision_name GateDecision.quorum_met = "quorum_met"
decision_name GateDecision.limited_delivery = "limited_delivery"
decision_name GateDecision.tool_budget_exhausted = "tool_budget_exhausted"
decision_name GateDecision.replan = "replan"
decision_name GateDecision.failed = "failed"

-- The update of each branch, merged into the state.
unfoldable pub gate_update : ℕ → String → AgentState → GateDecision → AgentState
unfolding merge_warnings usable_count
gate_update now reason s GateDecision.quorum_met = s
gate_update now reason s GateDecision.limited_delivery =
    let warned = record s {
      warnings = merge_warnings s.warnings (reason ∷ []);
      synthesis_mode = "fresh";
    } in
    if eqb (usable_count s) 0
    then record warned {
      delivery_fallback_reason = reason;
      requested_final_status = some "completed_with_warnings";
    }
    else warned
gate_update now reason s GateDecision.tool_budget_exhausted = record s {
  fatal_error = some reason;
  warnings = merge_warnings s.warnings (reason ∷ []);
  requested_final_status = some "failed";
}
gate_update now reason s GateDecision.replan = record s {
  replan_count = s.replan_count + 1;
  next_plan_version = s.plan.plan_version + 1;
}
gate_update now reason s GateDecision.failed = record s {
  errors =
      s.errors
      ++ record {
        agent = "supervisor";
        node = "research_gate";
        code = "quorum_not_met";
        message = reason;
        retryable = false;
        attempt = 1;
        task_id = none;
        plan_version = some s.plan.plan_version;
        created_at = now;
      }
        ∷ [];
  fatal_error = some reason;
  requested_final_status = some "failed";
}

-- The new route, added to a node's update.
abbrev pub add_route : RouteRecord → AgentState → AgentState
add_route route s = record s { route_history = s.route_history ++ route ∷ [] }

-- `_research_gate`
unfoldable pub research_gate : (ℕ → String) → ℕ → Settings → Bool → AgentState → AgentState
unfolding gate_decision gate_reason gate_target gate_update
research_gate percent now settings tools_empty s =
    let decision = gate_decision settings tools_empty s in
    let reason = gate_reason percent settings s decision in
    add_route
      (record_route now s "research_gate" (gate_target s decision) reason (decision_name decision))
      (gate_update now reason s decision)
