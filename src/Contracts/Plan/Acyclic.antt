-- ===== src/Contracts/Plan/Acyclic.antt =====
-- Chains of dependencies in the plans of backend/src/atlasflow/agents/contracts.py.
use atlas_flow_agent.Base.{
  ℕ, suc, ◌≤◌, ◌<◌, String, ◌≡◌, ◌⊎◌, inl, inr, true, false, List, ◌∷◌, arith, if◌then◌else◌,
  Bool-cases, ok, nat_eq, string_eq, contains, contains-nil, contains-tail, contains-cases,
  subset-contains, length, [],
}
use atlas_flow_agent.Contracts.Task.{ResearchTask}
use atlas_flow_agent.Contracts.Plan.{ids, deps_of, search_cycles}
use atlas_flow_agent.Contracts.Plan.Order.{IsOrdered, search_cycles-IsOrdered}

-- Task `a` depends on task `b`, directly or through other tasks.
pub data Needs (tasks : List ResearchTask) (a : String) : String → Type 0 where
  direct : {b : String} → contains (deps_of tasks a) b ≡ true → Needs tasks a b
  further : {b c : String} → Needs tasks a b → contains (deps_of tasks b) c ≡ true → Needs tasks a c

-- No task depends on itself, through whatever chain.
abbrev pub IsAcyclic : List ResearchTask → Type 0
IsAcyclic tasks = (a : String) → ¬ Needs tasks a a

-- How many ids stand at or behind the last occurrence of `x`.
rank : List String → String → ℕ
rank [] x = 0
rank (y ∷ ys) x = let deeper = rank ys x in if contains ys x then deeper else suc (length ys)

rank-le-length : (xs : List String) (x : String) → rank xs x ≤ length xs
unfolding rank
rank-le-length [] x = omega arith
rank-le-length (y ∷ ys) x = ground (arith, rank-le-length ys x)

-- Only a task of the plan has dependencies.
deps_of-known :
    (tasks : List ResearchTask) (k d : String)
    → contains (deps_of tasks k) d ≡ true
    → contains (ids tasks) k ≡ true
unfolding deps_of contains
deps_of-known [] k d h = cc
deps_of-known (t ∷ ts) k d h = ground (arith, deps_of-known ts k d)

module _ (tasks : List ResearchTask) where
  rank-deps :
      (xs : List String) (x d : String)
      → IsOrdered tasks xs
      → contains xs x ≡ true
      → contains (deps_of tasks x) d ≡ true
      → (contains xs d ≡ true) × (rank xs d < rank xs x)
  unfolding rank
  rank-deps [] x d o h c = absurd (contains-nil x h)
  rank-deps (y ∷ ys) x d o h c = elim (Bool-cases (contains ys x)) [
    | inl deeper ↦
        let (found, less) = rank-deps ys x d o.1 deeper c in
        (contains-tail y d ys found, ground arith)
    | inr here ↦ at_head here (contains-cases y x ys h)
  ]
    where
      at_head :
          contains ys x ≡ false
          → (y ≡ x) ⊎ (contains ys x ≡ true)
          → (contains (y ∷ ys) d ≡ true) × (rank (y ∷ ys) d < rank (y ∷ ys) x)
      at_head here (inr deeper) = absurd (ground arith)
      at_head here (inl e) =
          let found : contains ys d ≡ true =
            subset-contains (deps_of tasks x) ys d (rw e at o.0) c in
          (contains-tail y d ys found, ground (arith, rank-le-length ys d))

  -- A chain of dependencies goes down in the order.
  Needs-rank :
      (xs : List String) (a b : String)
      → IsOrdered tasks xs
      → contains xs a ≡ true
      → Needs tasks a b
      → (contains xs b ≡ true) × (rank xs b < rank xs a)
  Needs-rank xs a b o h (direct c) = rank-deps xs a b o h c
  Needs-rank xs a b o h (further {b = m} n c) =
      let (found, less) = Needs-rank xs a m o h n in
      let (found', less') = rank-deps xs m b o found c in (found', omega arith)

  Needs-known : (a b : String) → Needs tasks a b → contains (ids tasks) a ≡ true
  Needs-known a b (direct c) = deps_of-known tasks a b c
  Needs-known a b (further {b = m} n c) = Needs-known a m n

  -- Where the search returns, no task needs itself.
  pub search_cycles-IsAcyclic :
      (after : List String) → search_cycles tasks ≡ ok after → IsAcyclic tasks
  search_cycles-IsAcyclic after h a n =
      let (o, all_found) = search_cycles-IsOrdered tasks after h in
      let found : contains after a ≡ true =
        subset-contains (ids tasks) after a all_found (Needs-known a a n) in
      let (_, less) = Needs-rank after a a o found n in omega arith
