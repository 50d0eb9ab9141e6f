-- ===== src/Workflow/Bounds/Gate.antt =====
-- The node `_research_gate` of the workflow graph of
-- backend/src/atlasflow/agents/workflow.py.
use atlas_flow_agent.Base.{ℕ, ◌<◌, String, ◌≡◌, refl, Bool, arith, nat_eq, string_eq}
use atlas_flow_agent.Workflow.{Settings, AgentState}
use atlas_flow_agent.Workflow.Decisions.{
  research_gate, gate_decision, gate_update, gate_reason, GateDecision,
}
use atlas_flow_agent.Workflow.Bounds.{IsBounded, KeepsPlan-IsBounded}

gate_decision-replan :
    (settings : Settings) (tools_empty : Bool) (s : AgentState)
    → gate_decision settings tools_empty s ≡ GateDecision.replan
    → s.replan_count < settings.max_replans
unfolding gate_decision
gate_decision-replan settings tools_empty s h = ground arith

gate_update-IsBounded :
    (settings : Settings) (now : ℕ) (reason : String) (s : AgentState) (d : GateDecision)
    → (d ≡ GateDecision.replan → s.replan_count < settings.max_replans)
    → IsBounded settings s
    → IsBounded settings (gate_update now reason s d)
unfolding gate_update
gate_update-IsBounded settings now reason s GateDecision.quorum_met room b = b
gate_update-IsBounded settings now reason s GateDecision.limited_delivery room b =
    KeepsPlan-IsBounded settings s (gate_update now reason s GateDecision.limited_delivery)
      (record { plan = ground arith; lineage = ground arith; rounds = ground arith }) b
      (ground (arith, b.replans)) (ground (arith, b.version)) (ground (arith, b.next))
gate_update-IsBounded settings now reason s GateDecision.tool_budget_exhausted room b =
    KeepsPlan-IsBounded settings s _ (record { plan = refl; lineage = refl; rounds = refl }) b
      b.replans b.version b.next
gate_update-IsBounded settings now reason s GateDecision.replan room b =
    KeepsPlan-IsBounded settings s _ (record { plan = refl; lineage = refl; rounds = refl }) b
      (omega (arith, room refl)) (omega arith) (omega (arith, b.next, b.version))
gate_update-IsBounded settings now reason s GateDecision.failed room b =
    KeepsPlan-IsBounded settings s _ (record { plan = refl; lineage = refl; rounds = refl }) b
      b.replans b.version b.next

-- What the gate does to the budgets.
pub research_gate-IsBounded :
    (percent : ℕ → String) (settings : Settings) (now : ℕ) (tools_empty : Bool) (s : AgentState)
    → IsBounded settings s
    → IsBounded settings (research_gate percent now settings tools_empty s)
unfolding research_gate
research_gate-IsBounded percent settings now tools_empty s b =
    let b' =
      gate_update-IsBounded settings now
        (gate_reason percent settings s (gate_decision settings tools_empty s)) s
        (gate_decision settings tools_empty s) (gate_decision-replan settings tools_empty s) b in
    KeepsPlan-IsBounded settings _ _ (record { plan = refl; lineage = refl; rounds = refl }) b'
      b'.replans b'.version b'.next
