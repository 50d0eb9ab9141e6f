-- ===== src/Contracts/Plan/Complete/Searching.antt =====
-- That the depth-first search of `ResearchPlan` in backend/src/atlasflow/agents/contracts.py ends
-- within its fuel.
use atlas_flow_agent.Base.{
  ℕ, zero, suc, ◌≤◌, ◌<◌, String, ◌≡◌, refl, inl, inr, true, false, not, List, ◌∷◌, arith,
  Bool-cases, false_of_not, Outcome, ok, raise, ◌>>=◌, ◌⊎◌, nat_eq, string_eq, contains, ==_refl,
  eq_cases, contains-nil, contains-head, contains-tail, contains-cases, length, keep,
  length-keep-le, length-map, [],
}
use atlas_flow_agent.Contracts.Errors.{ContractError}
use atlas_flow_agent.Contracts.Task.{ResearchTask}
use atlas_flow_agent.Contracts.Plan.{ids, deps_of, visit_each, visit, search_cycles}
use atlas_flow_agent.Contracts.Plan.Acyclic.{Needs, IsAcyclic, direct, further}

-- The known ids that are not on the path of the search.
abbrev off_path : List String → List String → List String
off_path known path = keep (λ x. not (contains path x)) known

off_path-le :
    (known path : List String) (k : String)
    → length (off_path known (k ∷ path)) ≤ length (off_path known path)
unfolding keep contains
off_path-le [] path k = omega arith
off_path-le (x ∷ xs) path k = ground (arith, off_path-le xs path k)

-- A step onto a new known id leaves fewer of them.
off_path_shrinks :
    (known path : List String) (k : String)
    → contains path k ≡ false
    → contains known k ≡ true
    → length (off_path known (k ∷ path)) < length (off_path known path)
unfolding keep contains
off_path_shrinks [] path k new h = cc
off_path_shrinks (x ∷ xs) path k new h = elim (eq_cases x k) [
  | inl (e, t) ↦ ground (arith, off_path-le xs path k, ==_refl k)
  | inr f ↦ ground (arith, off_path_shrinks xs path k new)
]

-- Every dependency of a known task is known.
abbrev pub IsClosed : List ResearchTask → Type 0
IsClosed tasks =
    (k d : String) → contains (deps_of tasks k) d ≡ true → contains (ids tasks) d ≡ true

module _ (tasks : List ResearchTask) (closed : IsClosed tasks) (acyclic : IsAcyclic tasks) where
  visit_each_returns :
      (go : List String → String → Outcome ContractError (List String)) (ks : List String)
      → ((before : List String) (k : String)
          → contains ks k ≡ true
          → (after : List String) × (go before k ≡ ok after))
      → (before : List String) → (after : List String) × (visit_each go before ks ≡ ok after)
  unfolding visit_each
  visit_each_returns go [] rule before = (before, refl)
  visit_each_returns go (k ∷ ks) rule before =
      let (mid, first) = rule before k (contains-head k ks) in
      let (after, rest) =
        visit_each_returns go ks (λ b d c. rule b d (contains-tail k d ks c)) mid in
      (after, rw first rest)

  -- Each id on the path needs the visited one.
  abbrev PathNeeds : List String → String → Type 0
  PathNeeds path k = (x : String) → contains path x ≡ true → Needs tasks x k

  PathNeeds-deps :
      (path : List String) (k d : String)
      → PathNeeds path k
      → contains (deps_of tasks k) d ≡ true
      → PathNeeds (k ∷ path) d
  PathNeeds-deps path k d needs c x h = elim (contains-cases k x path h) [
    | inl e ↦ rw (← e) (direct c)
    | inr on ↦ further (needs x on) c
  ]

  visit_returns :
      (fuel : ℕ) (path before : List String) (k : String)
      → contains (ids tasks) k ≡ true
      → PathNeeds path k
      → length (off_path (ids tasks) path) < fuel
      → (after : List String) × (visit tasks fuel path before k ≡ ok after)
  unfolding visit
  visit_returns zero path before k known needs enough = absurd (omega arith)
  visit_returns (suc fuel) path before k known needs enough =
      let new : contains path k ≡ false = false_of_not (λ on. acyclic k (needs k on)) in
      let (mid, below) =
        visit_each_returns (visit tasks fuel (k ∷ path)) (deps_of tasks k)
          (λ b d c.
            visit_returns fuel (k ∷ path) b d (closed k d c) (PathNeeds-deps path k d needs c)
              (omega (arith, off_path_shrinks (ids tasks) path k new known)))
          before in
      elim (Bool-cases (contains before k)) [
        | inl seen ↦ (before, rw (new, seen))
        | inr fresh ↦ (k ∷ mid, rw (new, fresh, below))
      ]

  -- The search over all tasks returns.
  pub search_cycles_returns : (after : List String) × (search_cycles tasks ≡ ok after)
  unfolding search_cycles
  search_cycles_returns =
      visit_each_returns (visit tasks (suc (length tasks)) []) (ids tasks)
        (λ b k c.
          visit_returns (suc (length tasks)) [] b k c (λ x h. absurd (contains-nil x h))
            (omega (
              arith,
              length-keep-le (λ x. not (contains {A = String} [] x)) (ids tasks),
              length-map (λ t. t.task_id) tasks,
            )))
        []

-- A visit returns, or finds a cycle: it has not run out of fuel.
abbrev pub Ends : Outcome ContractError (List String) → Type 0
Ends o = ((after : List String) × (o ≡ ok after)) ⊎ (o ≡ raise ContractError.cyclic_dependencies)

module _ (tasks : List ResearchTask) (closed : IsClosed tasks) where
  visit_each-Ends :
      (go : List String → String → Outcome ContractError (List String)) (ks : List String)
      → ((before : List String) (k : String) → contains ks k ≡ true → Ends (go before k))
      → (before : List String) → Ends (visit_each go before ks)
  unfolding visit_each
  visit_each-Ends go [] rule before = inl (before, refl)
  visit_each-Ends go (k ∷ ks) rule before = elim (rule before k (contains-head k ks)) [
    | inl (mid, first) ↦
        rw first (visit_each-Ends go ks (λ b d c. rule b d (contains-tail k d ks c)) mid)
    | inr cycle ↦ rw cycle (inr refl)
  ]

  visit-Ends :
      (fuel : ℕ) (path before : List String) (k : String)
      → contains (ids tasks) k ≡ true
      → length (off_path (ids tasks) path) < fuel
      → Ends (visit tasks fuel path before k)
  unfolding visit
  visit-Ends zero path before k known enough = absurd (omega arith)
  visit-Ends (suc fuel) path before k known enough = elim (Bool-cases (contains path k)) [
    | inl on ↦ rw on (inr refl)
    | inr new ↦
        let below =
          visit_each-Ends (visit tasks fuel (k ∷ path)) (deps_of tasks k)
            (λ b d c.
              visit-Ends fuel (k ∷ path) b d (closed k d c)
                (omega (arith, off_path_shrinks (ids tasks) path k new known)))
            before in
        elim (Bool-cases (contains before k)) [
          | inl seen ↦ rw (new, seen) (inl (before, refl))
          | inr fresh ↦ rw (new, fresh) (finished below)
        ]
  ]
    where
      finished :
          {o : Outcome ContractError (List String)} → Ends o → Ends (o >>= λ after. ok (k ∷ after))
      finished (inl (mid, e)) = rw e (inl (k ∷ mid, refl))
      finished (inr e) = rw e (inr refl)

  pub search_cycles-Ends : Ends (search_cycles tasks)
  unfolding search_cycles
  search_cycles-Ends =
      visit_each-Ends (visit tasks (suc (length tasks)) []) (ids tasks)
        (λ b k c. visit-Ends (suc (length tasks)) [] b k c (
          omega (
            arith,
            length-keep-le (λ x. not (contains {A = String} [] x)) (ids tasks),
            length-map (λ t. t.task_id) tasks,
          )))
        []
