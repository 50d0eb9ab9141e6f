-- ===== src/TaskQuality/Acceptance.antt =====
-- Acceptance in backend/src/atlasflow/agents/task_quality.py: when a critic's review may be skipped
-- and when its supplement is dropped.
use atlas_flow_agent.Base.{
  ◌≤◌, String, ◌≡◌, refl, ◌≢◌, ◌⊎◌, inl, inr, true, false, ◌&&◌, none, some, List, ◌++◌, map, arith,
  leb, eqb, Bool-cases, ok, nat_eq, string_eq, contains, distinct, subset, contains-append,
  subset-contains, length, any, keep, In, In-keep, join, clip, text_length-clip, text_length-join,
  [],
}
use atlas_flow_agent.Contracts.Errors.{text_in_range}
use atlas_flow_agent.Contracts.Plan.{ResearchPlan, task_ids}
use atlas_flow_agent.Contracts.Review.{ReviewContext}
use atlas_flow_agent.Contracts.Critique.{
  CritiqueDecision, CritiqueRoute, ReviewIssue, Severity, is_critical, decision_fields_ok,
  validate_route_payload, validate_decision,
}
use atlas_flow_agent.Contracts.Research.{ResearchResult}
use atlas_flow_agent.TaskQuality.{
  execution_accepted, is_accepted, repaired_task_ids, accepted_results, can_degrade_critic_review,
  is_optional_supplement, accept_noncritical_supplement, acceptance_note,
}
use atlas_flow_agent.TaskQuality.Repairs.{
  IsRepaired, repaired_task_ids_iff, contains-map-In, not_any-In,
}

-- Task `k` has an explicitly accepted result for this version of the plan.
pub record IsAcceptedNow (p : ResearchPlan) (results : List ResearchResult) (k : String)
    : Type 0 where
  pub result : ResearchResult
  pub listed : In result results
  pub of_task : result.task_id ≡ k
  pub accepted : result.execution_accepted ≡ some true
  pub current : result.plan_version ≡ p.plan_version

accepted_parts :
    (p : ResearchPlan) (results : List ResearchResult) (r : ResearchResult)
    → In r (accepted_results p results)
    → In r results × (r.execution_accepted ≡ some true) × (r.plan_version ≡ p.plan_version)
accepted_parts p results r m =
    let (listed, t) =
      In-keep
        (λ (r : ResearchResult).
          is_accepted r.execution_accepted && eqb r.plan_version p.plan_version)
        results r m in
    (listed, ground arith, ground arith)

degrade_parts :
    (p : ResearchPlan) (results : List ResearchResult) (c : ReviewContext)
    → can_degrade_critic_review p results c ≡ true
    → (c.plan_version ≡ p.plan_version)
      × (c.policy.required_supplement_rounds ≤ c.supplement_rounds_used)
      × (subset (task_ids p) (
            map (λ r. r.task_id) (accepted_results p results)
            ++ repaired_task_ids p (accepted_results p results))
          ≡ true)
unfolding can_degrade_critic_review
degrade_parts p results c h = ground arith

-- A malformed review is skipped only if the round speaks of the plan's version, no supplement round
-- is still required, and each task of the plan has an explicitly accepted result for that version
-- or is repaired by such results.
pub can_degrade_needs_acceptance :
    (p : ResearchPlan) (results : List ResearchResult) (c : ReviewContext) (task_id : String)
    → can_degrade_critic_review p results c ≡ true
    → contains (task_ids p) task_id ≡ true
    → (c.plan_version ≡ p.plan_version)
      × (c.policy.required_supplement_rounds ≤ c.supplement_rounds_used)
      × (IsAcceptedNow p results task_id ⊎ IsRepaired p (accepted_results p results) task_id)
can_degrade_needs_acceptance p results c task_id h m =
    let (version, rounds, all_covered) = degrade_parts p results c h in
    (version, rounds, covered task_id (subset-contains _ _ task_id all_covered m))
  where
    accepted_now :
        (k : String)
        → contains (map (λ r. r.task_id) (accepted_results p results)) k ≡ true
        → IsAcceptedNow p results k
    accepted_now k m =
        let (r, n, e) =
          contains-map-In (λ (r : ResearchResult). r.task_id) (accepted_results p results) k m in
        let (listed, accepted, current) = accepted_parts p results r n in
        record { result = r; listed = listed; of_task = e; accepted = accepted; current = current }

    covered :
        (k : String)
        → contains
            (map (λ r. r.task_id) (accepted_results p results)
              ++ repaired_task_ids p (accepted_results p results))
            k
          ≡ true
        → IsAcceptedNow p results k ⊎ IsRepaired p (accepted_results p results) k
    covered k m =
        elim (Bool-cases (contains (map (λ r. r.task_id) (accepted_results p results)) k)) [
          | inl yes_now ↦ inl (accepted_now k yes_now)
          | inr not_now ↦ inr (
              (repaired_task_ids_iff p (accepted_results p results) k).0 (
                ground (
                  arith,
                  contains-append (map (λ r. r.task_id) (accepted_results p results))
                      (repaired_task_ids p (accepted_results p results)) k,
                )))
        ]

note_fits :
    (s : String)
    → text_in_range 1 4_000 s ≡ true
    → text_in_range 1 4_000 (clip 2_000 (join s acceptance_note)) ≡ true
note_fits s h =
    ground
      (arith, text_length-clip 2_000 (join s acceptance_note), text_length-join s acceptance_note)

-- The decision that takes an optional supplement's place.
abbrev accepting : CritiqueDecision → CritiqueDecision
accepting d = record d {
  decision = CritiqueRoute.accept;
  supplemental_tasks = [];
  rationale = clip 2_000 (join d.rationale acceptance_note);
}

decision_parts :
    (d e : CritiqueDecision)
    → validate_decision d ≡ ok e
    → d.decision ≡ CritiqueRoute.supplement
    → (leb 1 d.plan_version ≡ true)
      × (text_in_range 1 4_000 d.rationale ≡ true)
      × (leb (length d.issues) 20 ≡ true)
      × (d.replan_reason ≡ none)
unfolding validate_decision validate_route_payload decision_fields_ok
decision_parts d e h s = ground arith

accepting_valid :
    (d e : CritiqueDecision)
    → validate_decision d ≡ ok e
    → d.decision ≡ CritiqueRoute.supplement
    → validate_decision (accepting d) ≡ ok (accepting d)
unfolding validate_decision validate_route_payload decision_fields_ok distinct any
accepting_valid d e h s =
    let (version, text, issues, reason) = decision_parts d e h s in
    rw (version, issues, reason, note_fits d.rationale text)

-- The supplement asked for optional improvements of finished work only.
pub record IsOptional (d : CritiqueDecision) (p : ResearchPlan) (results : List ResearchResult)
    (c : ReviewContext) : Type 0 where
  pub supplement : d.decision ≡ CritiqueRoute.supplement
  pub rounds : c.policy.required_supplement_rounds ≤ c.supplement_rounds_used
  pub no_critical : (i : ReviewIssue) → In i d.issues → i.severity ≢ Severity.critical
  pub usable :
      (k : String)
      → contains (task_ids p) k ≡ true
      → (contains (map (λ r. r.task_id) (keep execution_accepted results)) k ≡ true)
        ⊎ IsRepaired p results k

optional_parts :
    (d : CritiqueDecision) (p : ResearchPlan) (results : List ResearchResult) (c : ReviewContext)
    → is_optional_supplement d p results c ≡ true
    → (d.decision ≡ CritiqueRoute.supplement)
      × (c.policy.required_supplement_rounds ≤ c.supplement_rounds_used)
      × (subset
            (task_ids p)
            (map (λ r. r.task_id) (keep execution_accepted results) ++ repaired_task_ids p results)
          ≡ true)
      × (any (λ i. is_critical i.severity) d.issues ≡ false)
unfolding is_optional_supplement
optional_parts d p results c h = ground arith

critical_is_critical :
    (i : ReviewIssue) → is_critical i.severity ≡ false → i.severity ≢ Severity.critical
critical_is_critical i h e = ground arith

is_optional_supplement-IsOptional :
    (d : CritiqueDecision) (p : ResearchPlan) (results : List ResearchResult) (c : ReviewContext)
    → is_optional_supplement d p results c ≡ true
    → IsOptional d p results c
is_optional_supplement-IsOptional d p results c h =
    let (supplement, rounds, all_usable, calm) = optional_parts d p results c h in
    record {
      supplement = supplement;
      rounds = rounds;
      no_critical = λ i m.
          critical_is_critical i
            (not_any-In (λ (j : ReviewIssue). is_critical j.severity) d.issues i calm m);
      usable = λ k m. split k (subset-contains _ _ k all_usable m);
    }
  where
    split :
        (k : String)
        → contains
            (map (λ r. r.task_id) (keep execution_accepted results) ++ repaired_task_ids p results)
            k
          ≡ true
        → (contains (map (λ r. r.task_id) (keep execution_accepted results)) k ≡ true)
          ⊎ IsRepaired p results k
    split k m =
        elim (Bool-cases (contains (map (λ r. r.task_id) (keep execution_accepted results)) k)) [
          | inl used ↦ inl used
          | inr unused ↦ inr (
              (repaired_task_ids_iff p results k).0 (
                ground (
                  arith,
                  contains-append (map (λ r. r.task_id) (keep execution_accepted results))
                      (repaired_task_ids p results) k,
                )))
        ]

-- On a valid decision the step never raises. It returns the decision unchanged, or, where the
-- decision is a supplement of optional improvements only, an acceptance with no tasks and the same
-- issues.
pub accept_noncritical_supplement_total :
    (d : CritiqueDecision) (p : ResearchPlan) (results : List ResearchResult) (c : ReviewContext)
    → validate_decision d ≡ ok d
    → (e : CritiqueDecision) × (accept_noncritical_supplement d p results c ≡ ok e)
      × ((e ≡ d)
          ⊎ (IsOptional d p results c
              × (e.decision ≡ CritiqueRoute.accept)
              × (e.supplemental_tasks ≡ [])
              × (e.issues ≡ d.issues)))
unfolding accept_noncritical_supplement
accept_noncritical_supplement_total d p results c h =
    elim (Bool-cases (is_optional_supplement d p results c)) [
      | inl t ↦
          let q = is_optional_supplement-IsOptional d p results c t in
          (accepting d, rw t (accepting_valid d d h q.supplement), inr (q, refl, refl, refl))
      | inr f ↦ (d, rw f, inl refl)
    ]
