-- ===== src/TaskQuality/Repairs.antt =====
-- Repairs in backend/src/atlasflow/agents/task_quality.py: the gaps that count as closed, and the
-- supplements that close them.
mod Closed
unfoldable pub use Closed.*
use atlas_flow_agent.Base.{
  String, ◌≡◌, refl, subst, ◌↔◌, inl, inr, Bool, true, false, ◌&&◌, some, List, ◌∷◌, ◌++◌, map,
  arith, Bool-cases, ok, for_each, All, All-map, for_each-eq-ok, nat_eq, string_eq, contains,
  subset, disjoint, contains-nil, contains-head, contains-tail, contains-cases, contains-append,
  contains-keep, any, keep, In, In-keep, keep-of_In, [],
}
use atlas_flow_agent.Contracts.Task.{ResearchTask, flatten}
use atlas_flow_agent.Contracts.Plan.{ResearchPlan, task_ids, find_task}
use atlas_flow_agent.Contracts.Review.{ReviewContext}
use atlas_flow_agent.Contracts.Critique.{CritiqueDecision, CritiqueRoute, ReviewIssue, Severity}
use atlas_flow_agent.Contracts.Research.{ResearchResult, ResultOutcome, is_complete}
use atlas_flow_agent.TaskQuality.{
  criteria_kept, repaired_by, repaired_in, completed_ids, repaired_task_ids, check_target,
  check_repair, is_uncovered, validate_local_repairs,
}

-- What an accepted supplement owns.
pub record RepairsAreOwned (d : CritiqueDecision) (p : ResearchPlan) (c : ReviewContext)
    : Type 0 where
  pub available :
      All
        (λ t. disjoint t.dependencies (c.failed_task_ids ++ c.blocked_task_ids) ≡ true)
        d.supplemental_tasks
  pub kept :
      All (λ t. All (λ k. criteria_kept p t k ≡ true) t.repairs_task_ids) d.supplemental_tasks
  pub covered :
      (i : ReviewIssue) (k : String)
      → In i d.issues
      → i.severity ≡ Severity.critical
      → i.task_id ≡ some k
      → contains (task_ids p) k ≡ true
      → contains
          (flatten (map (λ t. t.repairs_task_ids) d.supplemental_tasks) ++ c.repaired_task_ids)
          k
        ≡ true

check_target-kept :
    (p : ResearchPlan) (t : ResearchTask) (k : String)
    → check_target p t k ≡ ok tt
    → criteria_kept p t k ≡ true
unfolding check_target criteria_kept
check_target-kept p t k h = ground arith

check_repair_parts :
    (p : ResearchPlan) (c : ReviewContext) (t : ResearchTask)
    → check_repair p c t ≡ ok tt
    → (disjoint t.dependencies (c.failed_task_ids ++ c.blocked_task_ids) ≡ true)
      × (for_each (check_target p t) t.repairs_task_ids ≡ ok tt)
unfolding check_repair
check_repair_parts p c t h = ground arith

repairs_parts :
    (d : CritiqueDecision) (p : ResearchPlan) (c : ReviewContext)
    → validate_local_repairs d p c ≡ ok tt
    → d.decision ≡ CritiqueRoute.supplement
    → (for_each (check_repair p c) d.supplemental_tasks ≡ ok tt)
      × (any
            (is_uncovered p
              (flatten (map (λ t. t.repairs_task_ids) d.supplemental_tasks) ++ c.repaired_task_ids))
            d.issues
          ≡ false)
unfolding validate_local_repairs
repairs_parts d p c h s = ground arith

pub not_any-In :
    (q : ReviewIssue → Bool) (xs : List ReviewIssue) (x : ReviewIssue)
    → any q xs ≡ false
    → In x xs
    → q x ≡ false
unfolding any
not_any-In q [] x h m = absurd m
not_any-In q (y ∷ ys) x h (inl e) = ground arith
not_any-In q (y ∷ ys) x h (inr m) = not_any-In q ys x (ground arith) m

covered_of :
    (p : ResearchPlan) (covered : List String) (i : ReviewIssue) (k : String)
    → is_uncovered p covered i ≡ false
    → i.severity ≡ Severity.critical
    → i.task_id ≡ some k
    → contains (task_ids p) k ≡ true
    → contains covered k ≡ true
unfolding is_uncovered
covered_of p covered i k h s t m = ground arith

-- In an accepted supplement no task waits for a failed or blocked one, each repair keeps every
-- success criterion of its target, and each task of the plan with a critical issue is the target
-- of a repair or repaired already.
pub validate_local_repairs-RepairsAreOwned :
    (d : CritiqueDecision) (p : ResearchPlan) (c : ReviewContext)
    → validate_local_repairs d p c ≡ ok tt
    → d.decision ≡ CritiqueRoute.supplement
    → RepairsAreOwned d p c
validate_local_repairs-RepairsAreOwned d p c h s =
    let (each, no_gap) = repairs_parts d p c h s in
    let checked = for_each-eq-ok (check_repair p c) d.supplemental_tasks each in
    let targets = flatten (map (λ t. t.repairs_task_ids) d.supplemental_tasks) in
    record {
      available = All-map d.supplemental_tasks (λ t e. (check_repair_parts p c t e).0) checked;
      kept =
          All-map d.supplemental_tasks
            (λ t e.
              All-map t.repairs_task_ids (check_target-kept p t) (
                for_each-eq-ok (check_target p t) t.repairs_task_ids
                  (check_repair_parts p c t e).1))
            checked;
      covered = λ i k m.
          covered_of p (targets ++ c.repaired_task_ids) i k
            (not_any-In (is_uncovered p (targets ++ c.repaired_task_ids)) d.issues i no_gap m);
    }
