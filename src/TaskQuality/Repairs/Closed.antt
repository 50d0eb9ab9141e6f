-- ===== src/TaskQuality/Repairs/Closed.antt =====
-- The tasks that count as repaired in backend/src/atlasflow/agents/task_quality.py.
use atlas_flow_agent.Base.{
  String, ◌≡◌, refl, subst, ◌↔◌, inl, inr, true, ◌&&◌, some, List, ◌∷◌, map, arith, Bool-cases,
  nat_eq, string_eq, contains, subset, contains-nil, contains-head, contains-tail, contains-cases,
  contains-append, contains-keep, keep, In, In-keep, keep-of_In, [],
}
use atlas_flow_agent.Contracts.Task.{ResearchTask}
use atlas_flow_agent.Contracts.Plan.{ResearchPlan, find_task}
use atlas_flow_agent.Contracts.Research.{ResearchResult, ResultOutcome, is_complete}
use atlas_flow_agent.TaskQuality.{
  criteria_kept, repaired_by, repaired_in, completed_ids, repaired_task_ids,
}

-- Task `k` is repaired: a task of the plan names it, has a complete result, and has every success
-- criterion of `k` among its own.
pub record IsRepaired (p : ResearchPlan) (results : List ResearchResult) (k : String) : Type 0 where
  pub repair : ResearchTask
  pub planned : In repair p.tasks
  pub names : contains repair.repairs_task_ids k ≡ true
  pub result : ResearchResult
  pub listed : In result results
  pub of_repair : result.task_id ≡ repair.task_id
  pub complete : result.outcome ≡ ResultOutcome.complete
  pub old : ResearchTask
  pub found : find_task p.tasks k ≡ some old
  pub kept : subset old.success_criteria repair.success_criteria ≡ true

pub contains-map-In :
    {A : Type 0} (f : A → String) (xs : List A) (k : String)
    → contains (map f xs) k ≡ true
    → (x : A) × In x xs × (f x ≡ k)
contains-map-In f [] k h = absurd (contains-nil k h)
contains-map-In f (x ∷ xs) k h = elim (contains-cases (f x) k (map f xs) h) [
  | inl e ↦ (x, inl refl, e)
  | inr m ↦ let (y, n, e) = contains-map-In f xs k m in (y, inr n, e)
]

pub In-contains-map :
    {A : Type 0} (f : A → String) (xs : List A) (x : A) → In x xs → contains (map f xs) (f x) ≡ true
In-contains-map f [] x m = absurd m
In-contains-map f (y ∷ ys) x (inl e) = rw e (contains-head (f y) (map f ys))
In-contains-map f (y ∷ ys) x (inr m) =
    contains-tail (f y) (f x) (map f ys) (In-contains-map f ys x m)

complete_of : (o : ResultOutcome) → is_complete o ≡ true → o ≡ ResultOutcome.complete
complete_of o h = ground arith

module _ (p : ResearchPlan) where
  repaired_by-contains :
      (completed : List String) (t : ResearchTask) (k : String)
      → contains (repaired_by p completed t) k
        ≡ (contains completed t.task_id && (contains t.repairs_task_ids k && criteria_kept p t k))
  unfolding repaired_by
  repaired_by-contains completed t k =
      ground (arith, contains-keep (criteria_kept p t) t.repairs_task_ids k, contains-nil k)

  repaired_in-contains :
      (completed : List String) (ts : List ResearchTask) (k : String)
      → contains (repaired_in p completed ts) k ≡ true
      → (t : ResearchTask) × In t ts × (contains (repaired_by p completed t) k ≡ true)
  repaired_in-contains completed [] k h = absurd (contains-nil k h)
  repaired_in-contains completed (t ∷ ts) k h =
      elim (Bool-cases (contains (repaired_by p completed t) k)) [
        | inl here ↦ (t, inl refl, here)
        | inr elsewhere ↦
            let rest : contains (repaired_in p completed ts) k ≡ true =
              ground (
                arith,
                contains-append (repaired_by p completed t) (repaired_in p completed ts) k,
              ) in
            let (u, m, found) = repaired_in-contains completed ts k rest in (u, inr m, found)
      ]

  repaired_in-of_In :
      (completed : List String) (ts : List ResearchTask) (t : ResearchTask) (k : String)
      → In t ts
      → contains (repaired_by p completed t) k ≡ true
      → contains (repaired_in p completed ts) k ≡ true
  repaired_in-of_In completed [] t k m h = absurd m
  repaired_in-of_In completed (u ∷ us) t k (inl e) h = rw contains-append (ground arith)
  repaired_in-of_In completed (u ∷ us) t k (inr m) h =
      rw contains-append (ground (arith, repaired_in-of_In completed us t k m h))

  kept_parts :
      (t : ResearchTask) (k : String)
      → criteria_kept p t k ≡ true
      → (old : ResearchTask) × (find_task p.tasks k ≡ some old)
        × (subset old.success_criteria t.success_criteria ≡ true)
  unfolding criteria_kept
  kept_parts t k h = ground arith

  kept_of :
      (t old : ResearchTask) (k : String)
      → find_task p.tasks k ≡ some old
      → subset old.success_criteria t.success_criteria ≡ true
      → criteria_kept p t k ≡ true
  unfolding criteria_kept
  kept_of t old k f s = ground arith

  -- An id counts as repaired exactly if a task of the plan which names it as its target has a
  -- complete result and keeps every success criterion of the target.
  pub repaired_task_ids_iff :
      (results : List ResearchResult) (k : String)
      → (contains (repaired_task_ids p results) k ≡ true) ↔ IsRepaired p results k
  unfolding repaired_task_ids
  repaired_task_ids_iff results k = (sound, complete)
    where
      sound :
          contains (repaired_in p (completed_ids results) p.tasks) k ≡ true → IsRepaired p results k
      sound h =
          let (t, planned, by) = repaired_in-contains (completed_ids results) p.tasks k h in
          let parts = repaired_by-contains (completed_ids results) t k in
          let done : contains (completed_ids results) t.task_id ≡ true = ground arith in
          let (r, m, e) =
            contains-map-In (λ (r : ResearchResult). r.task_id)
              (keep (λ r. is_complete r.outcome) results) t.task_id done in
          let (listed, complete_result) = In-keep (λ r. is_complete r.outcome) results r m in
          let (old, found, kept) = kept_parts t k (ground arith) in
          record {
            repair = t;
            planned = planned;
            names = ground arith;
            result = r;
            listed = listed;
            of_repair = e;
            complete = complete_of r.outcome complete_result;
            old = old;
            found = found;
            kept = kept;
          }

      complete :
          IsRepaired p results k → contains (repaired_in p (completed_ids results) p.tasks) k ≡ true
      complete q =
          let m =
            keep-of_In (λ (r : ResearchResult). is_complete r.outcome) results q.result q.listed
              (rw q.complete) in
          let done : contains (completed_ids results) q.repair.task_id ≡ true =
            subst (λ i. contains (completed_ids results) i ≡ true) q.of_repair
              (In-contains-map (λ (r : ResearchResult). r.task_id)
                (keep (λ r. is_complete r.outcome) results) q.result m) in
          let kept = kept_of q.repair q.old k q.found q.kept in
          repaired_in-of_In (completed_ids results) p.tasks q.repair k q.planned
            (rw (repaired_by-contains (completed_ids results) q.repair k, done, q.names) kept)
