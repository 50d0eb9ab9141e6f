-- ===== src/Contracts/Critique/Sound.antt =====
-- What a critic's decision satisfies once it is accepted for a review round.
use atlas_flow_agent.Base.{
  ◌+◌, ◌≤◌, String, ◌≡◌, refl, ◌≢◌, ◌⊎◌, inl, inr, true, false, Option, none, some, ◌++◌, arith, ok,
  nat_eq, string_eq, contains, disjoint, contains-append, disjoint-contains, length, any,
  length-map, In, any-In, In-keep, [],
}
use atlas_flow_agent.Contracts.Plan.{ids}
use atlas_flow_agent.Contracts.Review.{ReviewContext}
use atlas_flow_agent.Contracts.Critique.{
  CritiqueRoute, ReplanReason, reason_value, ReviewIssue, Severity, CritiqueDecision, is_critical,
  has_code, critical_issues, check_supplement, check_replan, validate_for,
}

-- A supplement fits into the round: a round is left, its task ids are new, and the plan stays
-- within seven tasks.
pub record SupplementFits (d : CritiqueDecision) (c : ReviewContext) : Type 0 where
  pub round_left : 1 ≤ c.supplement_rounds_remaining
  pub ids_new :
      (k : String)
      → contains (ids d.supplemental_tasks) k ≡ true
      → (contains c.initial_task_ids k ≡ false) × (contains c.supplemental_task_ids k ≡ false)
  pub plan_bounded : c.current_task_count + length d.supplemental_tasks ≤ 7

-- A replan is backed by a critical issue whose code is the stated reason.
pub record ReplanIsBacked (d : CritiqueDecision) : Type 0 where
  pub issue : ReviewIssue
  pub listed : In issue d.issues
  pub critical : issue.severity ≡ Severity.critical
  pub reason : ReplanReason
  pub stated : d.replan_reason ≡ some reason
  pub coded : issue.code ≡ reason_value reason

check_supplement-SupplementFits :
    (d : CritiqueDecision) (c : ReviewContext) → check_supplement d c ≡ ok tt → SupplementFits d c
unfolding check_supplement
check_supplement-SupplementFits d c h =
    let old = c.initial_task_ids ++ c.supplemental_task_ids in
    let apart : disjoint (ids d.supplemental_tasks) old ≡ true = ground arith in
    let size = length-map (λ t. t.task_id) d.supplemental_tasks in
    record {
      round_left = ground arith;
      ids_new = λ k m. ground (
        arith,
        disjoint-contains (ids d.supplemental_tasks) old k apart m,
        contains-append c.initial_task_ids c.supplemental_task_ids k,
      );
      plan_bounded = ground (arith, size);
    }

code_of :
    (r : Option ReplanReason) (i : ReviewIssue)
    → has_code r i ≡ true
    → (s : ReplanReason) × (r ≡ some s) × (i.code ≡ reason_value s)
code_of none i h = cc
code_of (some s) i h = (s, refl, (string_eq.same_iff i.code (reason_value s)).0 h)

critical_of : (s : Severity) → is_critical s ≡ true → s ≡ Severity.critical
critical_of s h = ground arith

check_replan-ReplanIsBacked : (d : CritiqueDecision) → check_replan d ≡ ok tt → ReplanIsBacked d
unfolding check_replan
check_replan-ReplanIsBacked d h =
    let matched : any (has_code d.replan_reason) (critical_issues d.issues) ≡ true = ground arith in
    let (i, m, coded) = any-In (has_code d.replan_reason) (critical_issues d.issues) matched in
    let (listed, critical) = In-keep (λ x. is_critical x.severity) d.issues i m in
    let (r, stated, same) = code_of d.replan_reason i coded in
    record {
      issue = i;
      listed = listed;
      critical = critical_of i.severity critical;
      reason = r;
      stated = stated;
      coded = same;
    }

-- What an accepted decision has passed.
validate_for_parts :
    (d e : CritiqueDecision) (c : ReviewContext)
    → validate_for d c ≡ ok e
    → (e ≡ d)
      × (d.plan_version ≡ c.plan_version)
      × ((c.policy.required_supplement_rounds ≤ c.supplement_rounds_used)
          ⊎ (d.decision ≡ CritiqueRoute.supplement))
      × (d.decision ≡ CritiqueRoute.supplement → check_supplement d c ≡ ok tt)
      × (d.decision ≡ CritiqueRoute.replan
          → (c.policy.replan_requires_critical_issue ≡ false) ⊎ (check_replan d ≡ ok tt))
      × (d.decision ≡ CritiqueRoute.replan
          → (d.replan_reason ≢ some ReplanReason.dependency_dead_end) ⊎ (c.blocked_task_ids ≢ []))
unfolding validate_for
validate_for_parts d e c h = ground arith

-- What each route asks for.
abbrev pub RouteIsSound : CritiqueDecision → ReviewContext → CritiqueRoute → Type 0
RouteIsSound d c CritiqueRoute.accept = Unit
RouteIsSound d c CritiqueRoute.supplement = SupplementFits d c
RouteIsSound d c CritiqueRoute.replan =
    ((c.policy.replan_requires_critical_issue ≡ false) ⊎ ReplanIsBacked d)
    × ((d.replan_reason ≢ some ReplanReason.dependency_dead_end) ⊎ (c.blocked_task_ids ≢ []))

pub record DecisionIsSound (d : CritiqueDecision) (c : ReviewContext) : Type 0 where
  pub version : d.plan_version ≡ c.plan_version
  pub required :
      (c.policy.required_supplement_rounds ≤ c.supplement_rounds_used)
      ⊎ (d.decision ≡ CritiqueRoute.supplement)
  pub route : RouteIsSound d c d.decision

-- A decision that is accepted for a review round is returned unchanged and speaks of the round's
-- plan version. It is a supplement while a required round is pending; a supplement fits into the
-- round; a replan is backed by a critical issue with the stated reason's code if the policy demands
-- one; and a replan for a dependency dead end needs a blocked task.
pub validate_for-DecisionIsSound :
    (d e : CritiqueDecision) (c : ReviewContext)
    → validate_for d c ≡ ok e
    → (e ≡ d) × DecisionIsSound d c
validate_for-DecisionIsSound d e c h =
    let (same, version, required, supplement, replan, dead_end) = validate_for_parts d e c h in
    (
      same,
      record {
        version = version;
        required = required;
        route = by_route d.decision refl supplement replan dead_end;
      },
    )
  where
    by_route :
        (r : CritiqueRoute)
        → d.decision ≡ r
        → (d.decision ≡ CritiqueRoute.supplement → check_supplement d c ≡ ok tt)
        → (d.decision ≡ CritiqueRoute.replan
            → (c.policy.replan_requires_critical_issue ≡ false) ⊎ (check_replan d ≡ ok tt))
        → (d.decision ≡ CritiqueRoute.replan
            → (d.replan_reason ≢ some ReplanReason.dependency_dead_end) ⊎ (c.blocked_task_ids ≢ []))
        → RouteIsSound d c r
    by_route CritiqueRoute.accept e supplement replan dead_end = tt
    by_route CritiqueRoute.supplement e supplement replan dead_end =
        check_supplement-SupplementFits d c (supplement e)
    by_route CritiqueRoute.replan e supplement replan dead_end = (
      elim (replan e) [
        | inl off ↦ inl off
        | inr checked ↦ inr (check_replan-ReplanIsBacked d checked)
      ],
      dead_end e,
    )
