-- ===== src/Workflow/Facts.antt =====
-- The groups of task ids that `_review_context` of backend/src/atlasflow/agents/workflow.py hands to
-- `ReviewContext`.
pub mod Groups
use atlas_flow_agent.Base.{
  ℕ, String, ◌≡◌, refl, sym, ap, ◌∙◌, subst, ◌≢◌, inl, inr, Bool, true, false, not, ◌&&◌, Option,
  none, some, List, ◌∷◌, ◌++◌, arith, eqb, if◌then◌else◌, Bool-cases, false_of_not, &&_elim, ◌==◌,
  nat_eq, string_eq, contains, subset, disjoint, contains-nil, contains-head, contains-tail,
  contains-cases, subset_of_contains, contains-keep, keep, In, In-keep, [],
}
use atlas_flow_agent.Contracts.Task.{ResearchTask}
use atlas_flow_agent.Contracts.Research.{ResearchResult, is_partial}
use atlas_flow_agent.Contracts.Records.{AgentError}
use atlas_flow_agent.TaskQuality.Repairs.{contains-map-In}
use atlas_flow_agent.Workflow.{AgentState, current_results}
use atlas_flow_agent.Workflow.Merging.{has_key, find_result, IsKeyed}
use atlas_flow_agent.Workflow.Schedule.{
  result_ids, failures, complete_ids, partial_ids, failed_ids, is_blocked, blocked_ids, versioned,
}

pub disjoint_of :
    (xs ys : List String)
    → ((k : String) → contains xs k ≡ true → contains ys k ≡ false)
    → disjoint xs ys ≡ true
unfolding disjoint
disjoint_of [] ys h = refl
disjoint_of (x ∷ xs) ys h =
    ground
      (arith, h x (contains-head x xs), disjoint_of xs ys (λ k c. h k (contains-tail x k xs c)))

-- The part of the plan's ids that a test picks.
abbrev pub pick : List String → List String → List String
pick wanted order = keep (contains wanted) order

pub pick-contains :
    (wanted order : List String) (k : String)
    → contains (pick wanted order) k ≡ (contains order k && contains wanted k)
pick-contains wanted order k = contains-keep (contains wanted) order k

pub pick-disjoint :
    (xs ys order : List String)
    → ((k : String) → contains xs k ≡ true → contains ys k ≡ false)
    → disjoint (pick xs order) (pick ys order) ≡ true
pick-disjoint xs ys order h =
    disjoint_of (pick xs order) (pick ys order)
      (λ k c. apart k (rw (pick-contains xs order k) at c))
  where
    apart :
        (k : String)
        → (contains order k && contains xs k) ≡ true
        → contains (pick ys order) k ≡ false
    apart k c =
        ground
          (arith, pick-contains ys order k, h k (&&_elim (contains order k) (contains xs k) c).1)

pub pick-subset : (xs order : List String) → subset (pick xs order) order ≡ true
pick-subset xs order =
    subset_of_contains (pick xs order) order
      (λ k c. (&&_elim (contains order k) _ (rw (pick-contains xs order k) at c)).0)

-- A failed task is not among those that were found.
pub failures-apart :
    (version : ℕ) (found : List String) (es : List AgentError) (k : String)
    → contains (failures version found es) k ≡ true
    → contains found k ≡ false
unfolding failures
failures-apart version found [] k h = absurd (contains-nil k h)
failures-apart version found (e ∷ es) k h =
    by_task (failures-apart version found es k) e.task_id refl
  where
    here :
        (contains (failures version found es) k ≡ true → contains found k ≡ false)
        → (j : String)
        → (versioned e.plan_version version
            && e.code == "research_failed"
            && not (contains found j))
          ≡ true
        → contains (j ∷ failures version found es) k ≡ true
        → contains found k ≡ false
    here earlier j t c = elim (contains-cases j k (failures version found es) c) [
      | inl same ↦ rw (← same) (ground arith)
      | inr later ↦ earlier later
    ]

    by_task :
        (contains (failures version found es) k ≡ true → contains found k ≡ false)
        → (task : Option String) → e.task_id ≡ task
        → contains found k ≡ false
    by_task earlier none eq = earlier (rw eq at h)
    by_task earlier (some j) eq =
        elim (Bool-cases (
          versioned e.plan_version version
          && e.code == "research_failed"
          && not (contains found j))) [
            | inl t ↦ here earlier j t (rw (eq, t) at h)
            | inr f ↦ earlier (rw (eq, f) at h)
          ]

find_result-In :
    (v : ℕ) (k : String) (rs : List ResearchResult) (r : ResearchResult)
    → In r rs
    → has_key v k r ≡ true
    → find_result v k rs ≢ none
find_result-In v k [] r m h = absurd m
find_result-In v k (q ∷ rs) r (inl e) h = head (rw e at h)
  where
    head : has_key v k q ≡ true → (if has_key v k q then some q else find_result v k rs) ≢ none
    head t = λ n. ground arith
find_result-In v k (q ∷ rs) r (inr m) h = later (find_result-In v k rs r m h)
  where
    later :
        find_result v k rs ≢ none → (if has_key v k q then some q else find_result v k rs) ≢ none
    later rest = λ n. ground arith

has_key_of :
    (a b : ResearchResult)
    → a.plan_version ≡ b.plan_version
    → a.task_id ≡ b.task_id
    → has_key a.plan_version a.task_id b ≡ true
has_key_of a b e f = ground (
  arith,
  (nat_eq.same_iff b.plan_version a.plan_version).1 (sym e),
  (string_eq.same_iff b.task_id a.task_id).1 (sym f),
)

IsKeyed-same :
    (rs : List ResearchResult) (a b : ResearchResult)
    → IsKeyed rs
    → In a rs
    → In b rs
    → a.plan_version ≡ b.plan_version
    → a.task_id ≡ b.task_id
    → a ≡ b
IsKeyed-same [] a b q m n e f = absurd m
IsKeyed-same (r ∷ rs) a b q (inl x) (inl y) e f = x ∙ sym y
IsKeyed-same (r ∷ rs) a b q (inr m) (inr n) e f = IsKeyed-same rs a b q.1 m n e f
IsKeyed-same (r ∷ rs) a b q (inl x) (inr n) e f = absurd (
    find_result-In r.plan_version r.task_id rs b n
      (subst (λ h. has_key h.plan_version h.task_id b ≡ true) x (has_key_of a b e f)) q.0)
IsKeyed-same (r ∷ rs) a b q (inr m) (inl y) e f = absurd (
    find_result-In r.plan_version r.task_id rs a m
      (subst (λ h. has_key h.plan_version h.task_id a ≡ true) y (has_key_of b a (sym e) (sym f)))
      q.0)

-- The result of the plan's version behind an id of a filtered list.
current_of :
    (s : AgentState) (p : ResearchResult → Bool) (k : String)
    → contains (result_ids (keep p (current_results s))) k ≡ true
    → (r : ResearchResult) × In r s.research_results
      × (r.plan_version ≡ s.plan.plan_version)
      × (r.task_id ≡ k)
      × (p r ≡ true)
unfolding current_results
current_of s p k h =
    let (r, m, e) =
      contains-map-In (λ (r : ResearchResult). r.task_id) (keep p (current_results s)) k h in
    let (m', t) = In-keep p (current_results s) r m in
    let (listed, v) =
      In-keep (λ (r : ResearchResult). eqb r.plan_version s.plan.plan_version) s.research_results r
        m' in
    (r, listed, ground arith, e, t)

pub complete-partial_apart :
    (s : AgentState) (k : String)
    → IsKeyed s.research_results
    → contains (complete_ids s) k ≡ true
    → contains (partial_ids s) k ≡ false
complete-partial_apart s k q c = false_of_not (λ d. clash d)
  where
    clash : contains (partial_ids s) k ≡ true → ⊥
    clash d =
        let (a, m, v, e, t) = current_of s (λ r. not (is_partial r.outcome)) k c in
        let (b, n, w, f, u) = current_of s (λ r. is_partial r.outcome) k d in
        let same = IsKeyed-same s.research_results a b q m n (v ∙ sym w) (e ∙ sym f) in
        cc (ap (λ (r : ResearchResult). is_partial r.outcome) same, t, u)

-- A blocked id belongs to none of the other groups.
pub blocked-apart :
    (s : AgentState) (k : String)
    → contains (blocked_ids s) k ≡ true
    → contains ((complete_ids s ++ partial_ids s) ++ failed_ids s) k ≡ false
unfolding blocked_ids is_blocked
blocked-apart s k h =
    let (t, m, e) =
      contains-map-In (λ (t : ResearchTask). t.task_id) (keep (is_blocked s) s.plan.tasks) k h in
    let (_, b) = In-keep (is_blocked s) s.plan.tasks t m in
    let unsettled : contains ((complete_ids s ++ partial_ids s) ++ failed_ids s) t.task_id ≡ false =
      ground arith in
    rw e at unsettled
