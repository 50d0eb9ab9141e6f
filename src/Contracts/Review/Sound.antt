-- ===== src/Contracts/Review/Sound.antt =====
-- What a review context satisfies once it is accepted.
use atlas_flow_agent.Base.{
  ℕ, ◌+◌, ◌≤◌, String, ◌≡◌, refl, ap, ◌∙◌, ◌≢◌, ◌↔◌, Bool, true, false, not, ◌&&◌, List, ◌∷◌, ◌++◌,
  arith, eqb, false_of_not, &&_elim, ok, for_each, All, for_each-eq-ok, nat_eq, string_eq, contains,
  distinct, subset, disjoint, contains-append, disjoint-contains, dedup, dedup_of_distinct,
  distinct-append, length, is_empty, all, length-append, [],
}
use atlas_flow_agent.Contracts.Review.{
  ReviewContext, context_fields_ok, id_groups, active_ids, check_group, check_ids, check_counts,
  validate_context,
}

-- The ids are sorted into groups that do not overlap, all from the active plan.
pub record IdsAreSorted (c : ReviewContext) : Type 0 where
  pub active_unique : distinct (active_ids c) ≡ true
  pub failed_not_completed :
      (k : String) → contains c.failed_task_ids k ≡ true → contains c.completed_task_ids k ≡ false
  pub partial_unsettled :
      (k : String)
      → contains c.partial_task_ids k ≡ true
      → (contains c.completed_task_ids k ≡ false) × (contains c.failed_task_ids k ≡ false)
  pub blocked_unsettled :
      (k : String)
      → contains c.blocked_task_ids k ≡ true
      → (contains c.completed_task_ids k ≡ false)
        × (contains c.failed_task_ids k ≡ false)
        × (contains c.partial_task_ids k ≡ false)
  pub within_plan : All (λ group. subset group (active_ids c) ≡ true) (id_groups c)

pub record CountsAreRight (c : ReviewContext) : Type 0 where
  pub current_is_size :
      c.current_task_count ≡ length c.initial_task_ids + length c.supplemental_task_ids
  pub current_bounded : (2 ≤ c.current_task_count) × (c.current_task_count ≤ 7)
  pub rounds_bounded : c.supplement_rounds_used + c.supplement_rounds_remaining ≤ 1
  pub revision_le_used : c.plan_revision ≤ c.supplement_rounds_used
  pub revised_iff : (c.plan_revision ≡ 1) ↔ (c.supplemental_task_ids ≢ [])

disjoint-flip :
    (xs ys : List String) (k : String)
    → disjoint xs ys ≡ true
    → contains ys k ≡ true
    → contains xs k ≡ false
disjoint-flip xs ys k d h = false_of_not (λ m. cc (disjoint-contains xs ys k d m))

check_ids_parts :
    (c : ReviewContext)
    → check_ids c ≡ ok tt
    → (for_each check_group (id_groups c) ≡ ok tt)
      × (disjoint c.initial_task_ids c.supplemental_task_ids ≡ true)
      × (disjoint c.completed_task_ids c.failed_task_ids ≡ true)
      × (disjoint c.partial_task_ids (c.completed_task_ids ++ c.failed_task_ids) ≡ true)
      × (disjoint c.blocked_task_ids
            ((c.completed_task_ids ++ c.failed_task_ids) ++ c.partial_task_ids)
          ≡ true)
      × (all (λ group. subset group (active_ids c)) (id_groups c) ≡ true)
unfolding check_ids
check_ids_parts c h = ground arith

all-All :
    (p : List String → Bool) (xs : List (List String)) → all p xs ≡ true → All (λ g. p g ≡ true) xs
unfolding all
all-All p [] h = tt
all-All p (x ∷ xs) h = ((&&_elim _ _ h).0, all-All p xs (&&_elim _ _ h).1)

check_ids-IdsAreSorted : (c : ReviewContext) → check_ids c ≡ ok tt → IdsAreSorted c
check_ids-IdsAreSorted c h =
    let (groups, apart, settled, partial, blocked, within) = check_ids_parts c h in
    let each = for_each-eq-ok check_group (id_groups c) groups in
    record {
      active_unique =
          distinct-append c.initial_task_ids c.supplemental_task_ids (ground arith) (ground arith)
            apart;
      failed_not_completed =
          λ k m. disjoint-flip c.completed_task_ids c.failed_task_ids k settled m;
      partial_unsettled = λ k m. ground (
        arith,
        disjoint-contains c.partial_task_ids (c.completed_task_ids ++ c.failed_task_ids) k partial
            m,
        contains-append c.completed_task_ids c.failed_task_ids k,
      );
      blocked_unsettled = λ k m. ground (
        arith,
        disjoint-contains c.blocked_task_ids
            ((c.completed_task_ids ++ c.failed_task_ids) ++ c.partial_task_ids) k blocked m,
        contains-append (c.completed_task_ids ++ c.failed_task_ids) c.partial_task_ids k,
        contains-append c.completed_task_ids c.failed_task_ids k,
      );
      within_plan = all-All (λ group. subset group (active_ids c)) (id_groups c) within;
    }

context_bounds :
    (c : ReviewContext)
    → context_fields_ok c ≡ true
    → (2 ≤ c.current_task_count) × (c.current_task_count ≤ 7) × (c.plan_revision ≤ 1)
unfolding context_fields_ok
context_bounds c h = ground arith

check_counts_parts :
    (c : ReviewContext)
    → check_counts c ≡ ok tt
    → (c.plan_revision ≤ c.supplement_rounds_used)
      × (c.supplement_rounds_used + c.supplement_rounds_remaining ≤ 1)
      × ((eqb c.plan_revision 0 && not (is_empty c.supplemental_task_ids)) ≡ false)
      × ((eqb c.plan_revision 1 && is_empty c.supplemental_task_ids) ≡ false)
      × (c.current_task_count ≡ length (dedup (active_ids c)))
unfolding check_counts
check_counts_parts c h = ground arith

revised_cases :
    (n : ℕ) (xs : List String)
    → n ≤ 1
    → (eqb n 0 && not (is_empty xs)) ≡ false
    → (eqb n 1 && is_empty xs) ≡ false
    → (n ≡ 1) ↔ (xs ≢ [])
revised_cases n [] b h k = (λ e. absurd (ground arith), λ f. absurd (f refl))
revised_cases n (x ∷ xs) b h k = (λ e q. cc, λ f. ground arith)

check_counts-CountsAreRight :
    (c : ReviewContext)
    → context_fields_ok c ≡ true
    → distinct (active_ids c) ≡ true
    → check_counts c ≡ ok tt
    → CountsAreRight c
check_counts-CountsAreRight c f u h =
    let (revised, rounds, no_ids, no_revision, count) = check_counts_parts c h in
    let (low, high, small) = context_bounds c f in
    record {
      current_is_size =
          count
          ∙ ap length (dedup_of_distinct (active_ids c) u)
          ∙ length-append c.initial_task_ids c.supplemental_task_ids;
      current_bounded = (low, high);
      rounds_bounded = rounds;
      revision_le_used = revised;
      revised_iff = revised_cases c.plan_revision c.supplemental_task_ids small no_ids no_revision;
    }

validate_context_parts :
    (c d : ReviewContext)
    → validate_context c ≡ ok d
    → (d ≡ c) × (context_fields_ok c ≡ true) × (check_ids c ≡ ok tt) × (check_counts c ≡ ok tt)
unfolding validate_context
validate_context_parts c d h = ground arith

-- An accepted review context is returned unchanged. Its failed ids are apart from the completed
-- ones, its partial ids from both, its blocked ids from all three, and all groups lie in the active
-- plan, whose ids do not repeat. Its task count is the number of those, two to seven, at most one
-- supplement round is used or left, and the plan is revised exactly if it has supplemental tasks.
pub validate_context_sound :
    (c d : ReviewContext) → validate_context c ≡ ok d → (d ≡ c) × IdsAreSorted c × CountsAreRight c
validate_context_sound c d h =
    let (same, fields, checked, counted) = validate_context_parts c d h in
    let sorted = check_ids-IdsAreSorted c checked in
    (same, sorted, check_counts-CountsAreRight c fields sorted.active_unique counted)
