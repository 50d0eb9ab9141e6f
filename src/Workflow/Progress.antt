-- ===== src/Workflow/Progress.antt =====
-- Progress of the scheduler of backend/src/atlasflow/agents/workflow.py through the task graph.
use atlas_flow_agent.Base.{
  ℕ, String, ◌≡◌, refl, subst, ◌⊎◌, inl, inr, Bool, true, false, none, List, ◌∷◌, arith, Bool-cases,
  false_of_not, ok, ◌==◌, nat_eq, string_eq, contains, subset, ==_refl, eq_cases, contains-nil,
  contains-head, contains-tail, contains-cases, subset-contains, keep, In, keep-of_In, [],
}
use atlas_flow_agent.Contracts.Task.{ResearchTask}
use atlas_flow_agent.Contracts.Plan.{ids, task_ids, deps_of, validate_plan}
use atlas_flow_agent.Contracts.Plan.Order.{IsOrdered, search_cycles-IsOrdered}
use atlas_flow_agent.Contracts.Plan.Acyclic.{Needs, direct, further}
use atlas_flow_agent.Contracts.Plan.Complete.{
  deps_of-contains, validate_plan_parts, validate_plan-eq-ok_iff,
}
use atlas_flow_agent.TaskQuality.Repairs.{In-contains-map}
use atlas_flow_agent.Workflow.{AgentState}
use atlas_flow_agent.Workflow.Schedule.{
  succeeded, terminal_failures, is_ready, ready_tasks, schedule_wave, dispatch_wave,
}

-- The task behind an id, with its dependencies.
task_of :
    (tasks : List ResearchTask) (k : String)
    → contains (ids tasks) k ≡ true
    → (t : ResearchTask) × In t tasks × (t.task_id ≡ k) × (deps_of tasks k ≡ t.dependencies)
unfolding deps_of
task_of [] k h = absurd (contains-nil k h)
task_of (t ∷ ts) k h = elim (eq_cases t.task_id k) [
  | inl (e, same) ↦ (t, inl refl, e, rw same refl)
  | inr other ↦ let (u, m, e, d) = task_of ts k (later other) in (u, inr m, e, rw other d)
]
  where
    later : (t.task_id == k) ≡ false → contains (ids ts) k ≡ true
    later other = elim (contains-cases t.task_id k (ids ts) h) [
      | inl e ↦ absurd (ground (arith, ==_refl k))
      | inr c ↦ c
    ]

-- An element of the first list that the second does not hold.
missing :
    (xs ys : List String)
    → subset xs ys ≡ false
    → (d : String) × (contains xs d ≡ true) × (contains ys d ≡ false)
unfolding subset
missing [] ys h = cc
missing (x ∷ xs) ys h = elim (Bool-cases (contains ys x)) [
  | inl found ↦ let (d, c, n) = missing xs ys (ground arith) in (d, contains-tail x d xs c, n)
  | inr lost ↦ (x, contains-head x xs, lost)
]

not_ready :
    (q : ResearchTask → Bool) (ts : List ResearchTask) (t : ResearchTask)
    → keep q ts ≡ []
    → In t ts
    → q t ≡ false
not_ready q ts t h m = false_of_not (λ ready. subst (In t) h (keep-of_In q ts t m ready))

is_ready-eq-false :
    (done failed : List String) (t : ResearchTask)
    → is_ready done failed t ≡ false
    → contains done t.task_id ≡ false
    → contains failed t.task_id ≡ false
    → subset t.dependencies done ≡ false
unfolding is_ready
is_ready-eq-false done failed t h d f = ground arith

Needs-prepend :
    (tasks : List ResearchTask) (a b c : String)
    → contains (deps_of tasks a) b ≡ true
    → Needs tasks b c
    → Needs tasks a c
Needs-prepend tasks a b c h (direct d) = further (direct h) d
Needs-prepend tasks a b c h (further {b = m} n d) = further (Needs-prepend tasks a b m h n) d

-- Task `k` has failed for good, or depends on a task that has.
abbrev pub IsStuck : List ResearchTask → List String → String → Type 0
IsStuck tasks failed k =
    (contains failed k ≡ true) ⊎ ((f : String) × (contains failed f ≡ true) × Needs tasks k f)

IsStuck-prepend :
    (tasks : List ResearchTask) (failed : List String) (k d : String)
    → contains (deps_of tasks k) d ≡ true
    → IsStuck tasks failed d
    → IsStuck tasks failed k
IsStuck-prepend tasks failed k d c (inl f) = inr (d, f, direct c)
IsStuck-prepend tasks failed k d c (inr (f, h, n)) = inr (f, h, Needs-prepend tasks k d f c n)

module _ (tasks : List ResearchTask) (done failed : List String) where
  -- What a task that is not ready waits for.
  waits_for :
      (t : ResearchTask) (k : String)
      → is_ready done failed t ≡ false
      → t.task_id ≡ k
      → contains done k ≡ false
      → contains failed k ≡ false
      → (d : String) × (contains t.dependencies d ≡ true) × (contains done d ≡ false)
  waits_for t k h e n f =
      missing t.dependencies done (is_ready-eq-false done failed t h (rw e n) (rw e f))

  all-IsStuck :
      keep (is_ready done failed) tasks ≡ []
      → ((k d : String) → contains (deps_of tasks k) d ≡ true → contains (ids tasks) d ≡ true)
      → (xs : List String) → IsOrdered tasks xs
      → (k : String) → contains xs k ≡ true
      → contains (ids tasks) k ≡ true
      → contains done k ≡ false
      → IsStuck tasks failed k
  all-IsStuck none_ready closed [] o k h known n = absurd (contains-nil k h)
  all-IsStuck none_ready closed (x ∷ xs) o k h known n = elim (contains-cases x k xs h) [
    | inr deeper ↦ all-IsStuck none_ready closed xs o.1 k deeper known n
    | inl here ↦ elim (Bool-cases (contains failed k)) [
      | inl f ↦ inl f
      | inr f ↦
          let (t, m, e, deps) = task_of tasks k known in
          let (d, c, n') =
            waits_for t k (not_ready (is_ready done failed) tasks t none_ready m) e n f in
          let c' : contains (deps_of tasks k) d ≡ true = rw deps c in
          let behind : contains xs d ≡ true =
            subset-contains (deps_of tasks k) xs d (rw here at o.0) c' in
          IsStuck-prepend tasks failed k d c'
            (all-IsStuck none_ready closed xs o.1 d behind (closed k d c') n')
    ]
  ]

-- Only a wave without ready tasks goes to the gate.
to_gate-none_ready :
    (now : ℕ) (s : AgentState)
    → dispatch_wave (schedule_wave now s) ≡ ("research_gate", none) ∷ []
    → ready_tasks s ≡ []
unfolding schedule_wave dispatch_wave
to_gate-none_ready now s h = ground arith

-- If the wave of an accepted plan starts no task and goes to the gate, then each task that has
-- not succeeded has failed for good, or depends through some chain on a task that has: nothing
-- that could run is left out.
pub schedule_wave-IsStuck :
    (now : ℕ) (s : AgentState)
    → validate_plan s.plan ≡ ok s.plan
    → dispatch_wave (schedule_wave now s) ≡ ("research_gate", none) ∷ []
    → (t : ResearchTask) → In t s.plan.tasks
    → contains (succeeded s) t.task_id ≡ false
    → IsStuck s.plan.tasks (terminal_failures s) t.task_id
unfolding ready_tasks
schedule_wave-IsStuck now s valid gate t m n =
    let (after, _, _, _, searched) = validate_plan_parts s.plan valid in
    let (o, all_found) = search_cycles-IsOrdered s.plan.tasks after searched in
    let (w, _) = (validate_plan-eq-ok_iff s.plan).0 valid in
    let known = In-contains-map (λ (t : ResearchTask). t.task_id) s.plan.tasks t m in
    all-IsStuck s.plan.tasks (succeeded s) (terminal_failures s) (to_gate-none_ready now s gate)
      (λ k d. deps_of-contains s.plan.tasks (task_ids s.plan) k d w.dependencies_known) after o
      t.task_id (subset-contains (task_ids s.plan) after t.task_id all_found known) known n
