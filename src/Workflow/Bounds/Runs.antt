-- ===== src/Workflow/Bounds/Runs.antt =====
-- Every state that a run of the workflow graph of backend/src/atlasflow/agents/workflow.py reaches.
use atlas_flow_agent.Base.{ℕ, String, ◌≡◌, refl, List, arith, nat_eq, string_eq}
use atlas_flow_agent.Contracts.Task.{Capability}
use atlas_flow_agent.Workflow.{Settings, AgentState}
use atlas_flow_agent.Workflow.Schedule.{schedule_wave, wave_join}
use atlas_flow_agent.Workflow.Bounds.{
  absorb, Reaches, first_plan, planned, approved, scheduled, researched, joined, gated, reviewed,
  judged, written, IsBounded, KeepsPlan, KeepsPlan-IsBounded,
}
use atlas_flow_agent.Workflow.Bounds.Plans.{planner-IsBounded, approval-IsBounded}
use atlas_flow_agent.Workflow.Bounds.Gate.{research_gate-IsBounded}
use atlas_flow_agent.Workflow.Bounds.Critic.{critic-IsBounded}
use atlas_flow_agent.Workflow.Bounds.Quality.{quality_gate-IsBounded}

schedule_wave-KeepsPlan :
    (now : ℕ) (s : AgentState)
    → KeepsPlan s (schedule_wave now s)
      × ((schedule_wave now s).replan_count ≡ s.replan_count)
      × ((schedule_wave now s).next_plan_version ≡ s.next_plan_version)
unfolding schedule_wave
schedule_wave-KeepsPlan now s = (
  record { plan = ground arith; lineage = ground arith; rounds = ground arith },
  ground arith,
  ground arith,
)

-- In every state that a run which starts at the planner reaches, whatever the models, the tools, the
-- user and the review of the report answer and in whatever order the nodes run, the plan is one that the validation accepts and the one that its
-- lineage describes, the replans and the supplement rounds are within their limits, and no plan's
-- version exceeds the number of replans by more than one.
pub Reaches-IsBounded :
    (percent : ℕ → String) (catalog : List Capability) (settings : Settings) (s : AgentState)
    → Reaches percent catalog settings s
    → IsBounded settings s
unfolding absorb wave_join
Reaches-IsBounded percent catalog settings s (first_plan {s = s0} now p fresh h) =
    planner-IsBounded catalog now settings s0 s p h (
      omega (arith, fresh.replans),
      omega (arith, fresh.rounds),
      omega (arith, fresh.next, fresh.replans),
    )
Reaches-IsBounded percent catalog settings s (planned {s = s0} now p run h) =
    let b = Reaches-IsBounded percent catalog settings s0 run in
    planner-IsBounded catalog now settings s0 s p h (b.replans, b.rounds, b.next)
Reaches-IsBounded percent catalog settings s (approved {s = s0} now r run h) =
    approval-IsBounded catalog now settings s0 s r h
      (Reaches-IsBounded percent catalog settings s0 run)
Reaches-IsBounded percent catalog settings s (scheduled {s = s0} now run) =
    let b = Reaches-IsBounded percent catalog settings s0 run in
    let (keeps, e, e') = schedule_wave-KeepsPlan now s0 in
    KeepsPlan-IsBounded settings s0 (schedule_wave now s0) keeps b (rw e b.replans)
      (rw e' b.version) (rw (e, e') b.next)
Reaches-IsBounded percent catalog settings s (researched {s = s0} results errors run) =
    let b = Reaches-IsBounded percent catalog settings s0 run in
    KeepsPlan-IsBounded settings s0 _ (record { plan = refl; lineage = refl; rounds = refl }) b
      b.replans b.version b.next
Reaches-IsBounded percent catalog settings s (joined {s = s0} now run) =
    let b = Reaches-IsBounded percent catalog settings s0 run in
    KeepsPlan-IsBounded settings s0 _ (record { plan = refl; lineage = refl; rounds = refl }) b
      b.replans b.version b.next
Reaches-IsBounded percent catalog settings s (gated {s = s0} now tools_empty run) =
    research_gate-IsBounded percent settings now tools_empty s0
      (Reaches-IsBounded percent catalog settings s0 run)
Reaches-IsBounded percent catalog settings s (reviewed {s = s0} now tools_empty answer run h) =
    critic-IsBounded catalog now settings tools_empty s0 s answer h
      (Reaches-IsBounded percent catalog settings s0 run)
Reaches-IsBounded percent catalog settings s
      (judged {s = s0} calibrate now limits tools_empty draft_version answer run h) =
    quality_gate-IsBounded calibrate now settings limits tools_empty draft_version s0 s answer h
      (Reaches-IsBounded percent catalog settings s0 run)
Reaches-IsBounded percent catalog settings s (written {s = s0} run keeps e e') =
    let b = Reaches-IsBounded percent catalog settings s0 run in
    KeepsPlan-IsBounded settings s0 s keeps b (rw e b.replans) (rw e' b.version) (rw (e, e') b.next)
