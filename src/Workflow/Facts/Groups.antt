-- ===== src/Workflow/Facts/Groups.antt =====
-- The groups of ids of a review in backend/src/atlasflow/agents/workflow.py against the checks of
-- `ReviewContext` in backend/src/atlasflow/agents/contracts.py.
use mathlib.Core.List.{map-append}
use atlas_flow_agent.Base.{
  String, ◌≡◌, refl, sym, ap, ◌∙◌, Bool, true, false, List, ◌∷◌, ◌++◌, arith, false_of_not, &&_elim,
  ok, All, for_each-ok, nat_eq, string_eq, contains, distinct, subset, disjoint, contains-append,
  subset_of_contains, distinct-keep, all, [],
}
use atlas_flow_agent.Contracts.Task.{ResearchTask}
use atlas_flow_agent.Contracts.Plan.{task_ids}
use atlas_flow_agent.Contracts.Plan.Complete.{validate_plan-eq-ok_iff}
use atlas_flow_agent.Contracts.Lineage.{
  batch_tasks, joined_plan, initial_task_ids, supplemental_task_ids,
}
use atlas_flow_agent.Contracts.Review.{ReviewContext, check_ids, check_group, id_groups, active_ids}
use atlas_flow_agent.Workflow.{Settings, AgentState}
use atlas_flow_agent.Workflow.Merging.{IsKeyed}
use atlas_flow_agent.Workflow.Schedule.{
  complete_ids, partial_ids, failed_ids, blocked_ids, review_facts,
}
use atlas_flow_agent.Workflow.Bounds.{IsBounded}
use atlas_flow_agent.Workflow.Facts.{
  pick, pick-disjoint, pick-subset, failures-apart, complete-partial_apart, blocked-apart,
}

-- The ids of a plan that its lineage describes.
active_ids-plan :
    (s : AgentState)
    → joined_plan s.plan_lineage ≡ s.plan
    → initial_task_ids s.plan_lineage ++ supplemental_task_ids s.plan_lineage ≡ task_ids s.plan
active_ids-plan s e =
    sym (
      map-append (λ (t : ResearchTask). t.task_id) s.plan_lineage.base_plan.tasks
        (batch_tasks s.plan_lineage.supplements))
    ∙ ap task_ids e

distinct-parts :
    (xs ys : List String)
    → distinct (xs ++ ys) ≡ true
    → (distinct xs ≡ true) × (distinct ys ≡ true) × (disjoint xs ys ≡ true)
unfolding distinct disjoint
distinct-parts [] ys h = (refl, h, refl)
distinct-parts (x ∷ xs) ys h =
    let rest = distinct-parts xs ys (&&_elim _ _ h).1 in ground (arith, contains-append xs ys x)

groups_ok :
    (c : ReviewContext)
    → All (λ g. check_group g ≡ ok tt) (id_groups c)
    → disjoint c.initial_task_ids c.supplemental_task_ids ≡ true
    → disjoint c.completed_task_ids c.failed_task_ids ≡ true
    → disjoint c.partial_task_ids (c.completed_task_ids ++ c.failed_task_ids) ≡ true
    → disjoint c.blocked_task_ids
        ((c.completed_task_ids ++ c.failed_task_ids) ++ c.partial_task_ids)
      ≡ true
    → all (λ g. subset g (active_ids c)) (id_groups c) ≡ true
    → check_ids c ≡ ok tt
unfolding check_ids
groups_ok c each a b d e f = rw (for_each-ok check_group (id_groups c) each, a, b, d, e, f)

one_group : (g : List String) → distinct g ≡ true → check_group g ≡ ok tt
one_group g h = ground arith

all-All :
    (p : List String → Bool) (gs : List (List String)) → All (λ g. p g ≡ true) gs → all p gs ≡ true
unfolding all
all-All p [] h = refl
all-All p (g ∷ gs) h = ground (arith, all-All p gs h.1)

subset-left : (xs ys : List String) → subset xs (xs ++ ys) ≡ true
subset-left xs ys =
    subset_of_contains xs (xs ++ ys) (λ k c. ground (arith, contains-append xs ys k))

subset-right : (xs ys : List String) → subset ys (xs ++ ys) ≡ true
subset-right xs ys =
    subset_of_contains ys (xs ++ ys) (λ k c. ground (arith, contains-append xs ys k))

disjoint-append :
    (xs ys zs : List String)
    → disjoint xs ys ≡ true
    → disjoint xs zs ≡ true
    → disjoint xs (ys ++ zs) ≡ true
unfolding disjoint
disjoint-append [] ys zs a b = refl
disjoint-append (x ∷ xs) ys zs a b =
    ground (arith, contains-append ys zs x, disjoint-append xs ys zs)

failed-apart :
    (s : AgentState) (k : String)
    → contains (failed_ids s) k ≡ true
    → (contains (complete_ids s) k ≡ false) × (contains (partial_ids s) k ≡ false)
unfolding failed_ids
failed-apart s k h =
    let apart = failures-apart s.plan.plan_version (complete_ids s ++ partial_ids s) s.errors k h in
    ground (arith, contains-append (complete_ids s) (partial_ids s) k)

swap :
    (xs ys : List String)
    → ((k : String) → contains ys k ≡ true → contains xs k ≡ false)
    → (k : String) → contains xs k ≡ true
    → contains ys k ≡ false
swap xs ys h k c = false_of_not (λ d. cc (h k d, c))

blocked_parts :
    (s : AgentState) (k : String)
    → contains (blocked_ids s) k ≡ true
    → (contains (complete_ids s) k ≡ false)
      × (contains (partial_ids s) k ≡ false)
      × (contains (failed_ids s) k ≡ false)
blocked_parts s k h = ground (
  arith,
  blocked-apart s k h,
  contains-append (complete_ids s ++ partial_ids s) (failed_ids s) k,
  contains-append (complete_ids s) (partial_ids s) k,
)

-- In a bounded state whose results have one entry for each version of the plan and task, the review
-- context that the workflow builds passes every check of `ReviewContext` on its groups of task ids:
-- none repeats an id, the finished, failed, partial and blocked ones do not overlap, and all lie in
-- the plan.
pub review_facts-check_ids :
    (settings : Settings) (s : AgentState)
    → IsBounded settings s
    → IsKeyed s.research_results
    → check_ids (review_facts settings s) ≡ ok tt
unfolding review_facts
review_facts-check_ids settings s b q =
    let o = task_ids s.plan in
    let same = active_ids-plan s b.lineage_plan in
    let unique = ((validate_plan-eq-ok_iff s.plan).0 b.plan_valid).0.unique in
    let (first, second, apart) =
      distinct-parts (initial_task_ids s.plan_lineage) (supplemental_task_ids s.plan_lineage)
        (rw same unique) in
    let picked : (xs : List String) → check_group (pick xs o) ≡ ok tt =
      λ xs. one_group (pick xs o) (distinct-keep (contains xs) o unique) in
    let within : (xs : List String)
        → subset (pick xs o)
            (initial_task_ids s.plan_lineage ++ supplemental_task_ids s.plan_lineage)
          ≡ true =
      λ xs. rw same (pick-subset xs o) in
    groups_ok (review_facts settings s)
      (
        one_group _ first,
        (one_group _ second, (picked _, (picked _, (picked _, (picked _, (picked _, tt)))))),
      )
      apart
      (pick-disjoint (complete_ids s) (failed_ids s) o
        (swap (complete_ids s) (failed_ids s) (λ k c. (failed-apart s k c).0)))
      (disjoint-append (pick (partial_ids s) o) (pick (complete_ids s) o) (pick (failed_ids s) o)
        (pick-disjoint (partial_ids s) (complete_ids s) o
          (swap (partial_ids s) (complete_ids s) (λ k c. complete-partial_apart s k q c)))
        (pick-disjoint (partial_ids s) (failed_ids s) o
          (swap (partial_ids s) (failed_ids s) (λ k c. (failed-apart s k c).1))))
      (disjoint-append (pick (blocked_ids s) o) (pick (complete_ids s) o ++ pick (failed_ids s) o)
        (pick (partial_ids s) o)
        (disjoint-append (pick (blocked_ids s) o) (pick (complete_ids s) o) (pick (failed_ids s) o)
          (pick-disjoint (blocked_ids s) (complete_ids s) o (λ k c. (blocked_parts s k c).0))
          (pick-disjoint (blocked_ids s) (failed_ids s) o (λ k c. (blocked_parts s k c).2)))
        (pick-disjoint (blocked_ids s) (partial_ids s) o (λ k c. (blocked_parts s k c).1)))
      (all-All (λ g. subset g (active_ids (review_facts settings s)))
        (id_groups (review_facts settings s))
        (
          subset-left (initial_task_ids s.plan_lineage) (supplemental_task_ids s.plan_lineage),
          (
            subset-right (initial_task_ids s.plan_lineage) (supplemental_task_ids s.plan_lineage),
            (within _, (within _, (within _, (within _, (within _, tt))))),
          ),
        ))
