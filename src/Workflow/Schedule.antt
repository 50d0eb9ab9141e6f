-- ===== src/Workflow/Schedule.antt =====
-- `_schedule_wave`, `_dispatch_wave`, `_wave_join` and `_review_context` of
-- backend/src/atlasflow/agents/workflow.py. The events that they emit are not state of the
-- workflow.
use atlas_flow_agent.Base.{
  ℕ, ◌+◌, ◌-◌, String, Bool, false, not, ◌&&◌, ◌||◌, Option, none, some, List, ◌∷◌, ◌++◌, map, eqb,
  if◌then◌else◌, Outcome, ◌==◌, nat_eq, string_eq, contains, subset, length, is_empty, keep, join,
  [],
}
use atlas_flow_agent.Contracts.Errors.{ContractError}
use atlas_flow_agent.Contracts.Task.{ResearchTask}
use atlas_flow_agent.Contracts.Plan.{task_ids}
use atlas_flow_agent.Contracts.Lineage.{revision, initial_task_ids, supplemental_task_ids}
use atlas_flow_agent.Contracts.Review.{ReviewContext, validate_context}
use atlas_flow_agent.Contracts.Research.{ResearchResult, is_partial}
use atlas_flow_agent.Contracts.Records.{AgentError, RouteRecord}
use atlas_flow_agent.TaskQuality.{repaired_task_ids}
use atlas_flow_agent.Workflow.{Settings, AgentState, current_results}

-- `{item.task_id for item in results}`
abbrev pub result_ids : List ResearchResult → List String
result_ids results = map (λ r. r.task_id) results

abbrev pub versioned : Option ℕ → ℕ → Bool
versioned none version = false
versioned (some v) version = eqb v version

-- The tasks of this version with a `research_failed` error, but for those in `found`.
unfoldable pub failures : ℕ → List String → List AgentError → List String
unfolding contains
failures version found [] = []
failures version found (e ∷ es) =
    let rest = failures version found es in
    elim (e.task_id) [
      | none ↦ rest
      | some k ↦
          if versioned e.plan_version version
            && e.code == "research_failed"
            && not (contains found k)
          then k ∷ rest
          else rest
    ]

-- `succeeded`
unfoldable pub succeeded : AgentState → List String
unfolding current_results repaired_task_ids
succeeded s =
    let results = current_results s in result_ids results ++ repaired_task_ids s.plan results

-- `terminal_failures`
unfoldable pub terminal_failures : AgentState → List String
unfolding succeeded failures
terminal_failures s = failures s.plan.plan_version (succeeded s) s.errors

-- Whether a task starts in this wave: it has not ended, and all that it depends on succeeded.
unfoldable pub is_ready : List String → List String → ResearchTask → Bool
unfolding contains subset
is_ready done failed t =
    not (contains done t.task_id || contains failed t.task_id) && subset t.dependencies done

-- `ready`
unfoldable pub ready_tasks : AgentState → List ResearchTask
unfolding is_ready keep succeeded terminal_failures
ready_tasks s = keep (is_ready (succeeded s) (terminal_failures s)) s.plan.tasks

-- `_record_route`, but for its event.
abbrev pub record_route : ℕ → AgentState → String → String → String → String → RouteRecord
record_route now s source target reason decision = record {
  from_node = source;
  to_node = target;
  reason = reason;
  decision = some decision;
  plan_version = s.plan.plan_version;
  attempt = 1;
  created_at = now;
}

abbrev dispatch_routes : ℕ → AgentState → List ResearchTask → List RouteRecord
dispatch_routes now s [] = []
dispatch_routes now s (t ∷ ts) =
    record_route now s "schedule_wave" "researcher" (join "任务 " (join t.task_id " 的依赖均已完成"))
      "dispatch"
    ∷ dispatch_routes now s ts

-- `_schedule_wave`, with its update merged into the state.
unfoldable pub schedule_wave : ℕ → AgentState → AgentState
unfolding ready_tasks join
schedule_wave now s =
    if is_empty (ready_tasks s)
    then record s {
      ready_tasks = [];
      route_history =
          s.route_history
          ++ record_route now s "schedule_wave" "research_gate" "没有更多可执行的拓扑任务" "wave_complete" ∷ [];
    }
    else record s {
      ready_tasks = ready_tasks s;
      route_history = s.route_history ++ dispatch_routes now s (ready_tasks s);
    }

-- Where the wave goes: one `Send` to the researcher for each ready task, or the gate. What a `Send`
-- carries besides its task, texts and results for the prompt, is left out.
unfoldable pub dispatch_wave : AgentState → List (String × Option ResearchTask)
dispatch_wave s =
    if is_empty s.ready_tasks
    then ("research_gate", none) ∷ []
    else map (λ t. ("researcher", some t)) s.ready_tasks

unfoldable pub wave_join : ℕ → AgentState → AgentState
wave_join now s = record s {
  ready_tasks = [];
  route_history =
      s.route_history
      ++ record_route now s "wave_join" "schedule_wave" "本轮并行研究结果已汇合" "next_wave" ∷ [];
}

abbrev pub complete_ids : AgentState → List String
complete_ids s = result_ids (keep (λ r. not (is_partial r.outcome)) (current_results s))

abbrev pub partial_ids : AgentState → List String
partial_ids s = result_ids (keep (λ r. is_partial r.outcome) (current_results s))

-- The failed tasks of a review: those with an error and without a result.
unfoldable pub failed_ids : AgentState → List String
unfolding failures keep current_results
failed_ids s = failures s.plan.plan_version (complete_ids s ++ partial_ids s) s.errors

-- Whether a task is blocked: it has neither a result nor an error and waits for a task that has
-- no result and no repair.
unfoldable pub is_blocked : AgentState → ResearchTask → Bool
unfolding contains subset failed_ids current_results keep repaired_task_ids
is_blocked s t =
    not (contains ((complete_ids s ++ partial_ids s) ++ failed_ids s) t.task_id)
    && not (
        subset t.dependencies
          ((complete_ids s ++ partial_ids s) ++ repaired_task_ids s.plan (current_results s)))

unfoldable pub blocked_ids : AgentState → List String
unfolding is_blocked keep
blocked_ids s = map (λ t. t.task_id) (keep (is_blocked s) s.plan.tasks)

-- The facts of `_review_context`, before the check of the constructor.
unfoldable pub review_facts : Settings → AgentState → ReviewContext
unfolding contains keep current_results repaired_task_ids failed_ids blocked_ids
review_facts settings s =
    let l = s.plan_lineage in
    let order = task_ids s.plan in
    record {
      review_round = length s.critique_history + 1;
      plan_version = s.plan.plan_version;
      plan_revision = revision l;
      initial_task_ids = initial_task_ids l;
      supplemental_task_ids = supplemental_task_ids l;
      completed_task_ids = keep (contains (complete_ids s)) order;
      failed_task_ids = keep (contains (failed_ids s)) order;
      partial_task_ids = keep (contains (partial_ids s)) order;
      repaired_task_ids = keep (contains (repaired_task_ids s.plan (current_results s))) order;
      blocked_task_ids = keep (contains (blocked_ids s)) order;
      supplement_rounds_used = s.supplement_rounds;
      supplement_rounds_remaining = settings.max_supplement_rounds - s.supplement_rounds;
      current_task_count = length s.plan.tasks;
      expected_task_count = length (initial_task_ids l) + length (supplemental_task_ids l);
      policy = s.policy;
    }

unfoldable pub review_context : Settings → AgentState → Outcome ContractError ReviewContext
unfolding review_facts
review_context settings s = validate_context (review_facts settings s)
