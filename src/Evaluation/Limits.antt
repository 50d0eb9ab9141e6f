-- ===== src/Evaluation/Limits.antt =====
-- That the budget of backend/src/atlasflow/evaluation/budget.py is kept, and its ledger is complete.
use atlas_flow_agent.Base.{
  ℕ, ◌+◌, ◌≤◌, ◌<◌, String, ◌≡◌, refl, sym, ◌∙◌, subst, ◌⊎◌, inl, inr, Bool, false, List, ◌∷◌, ◌++◌,
  arith, Bool-cases, ◌==◌, nat_eq, string_eq, length, length-append, is_blank, eq_cases, keep, [],
}
use atlas_flow_agent.Base.Dict.{Dict, lookup, insert, values, lookup-insert}
use atlas_flow_agent.Knowledge.Models.{truthy}
use atlas_flow_agent.Evaluation.{
  EvaluationBudget, EvaluationBudgetSpec, Attempt, new_budget, reserve_attempt, reason_to_stop,
  stop, count_of, count_kinds, ledger, attempt_of,
}

-- A call on the budget: its time, whether the ledger is persisted, the attempt's kind and operation.
pub data Call : Type 0 where
  reserving : ℕ → Bool → String → String → Call
  stopping : String → Call

unfoldable pub run : List Call → EvaluationBudget → EvaluationBudget
unfolding reserve_attempt stop
run [] b = b
run (Call.reserving now persisted kind operation ∷ cs) b =
    run cs (reserve_attempt now persisted kind operation b).1
run (Call.stopping reason ∷ cs) b = run cs (stop reason b)

-- The attempts are numbered from `n` on.
abbrev pub Numbered : ℕ → List Attempt → Type 0
Numbered n [] = Unit
Numbered n (a ∷ xs) = (a.sequence ≡ n) × Numbered (n + 1) xs

Numbered-snoc :
    (n : ℕ) (xs : List Attempt) (a : Attempt)
    → Numbered n xs
    → a.sequence ≡ n + length xs
    → Numbered n (xs ++ a ∷ [])
Numbered-snoc n [] a h e = (omega arith, tt)
Numbered-snoc n (x ∷ xs) a h e = (h.0, Numbered-snoc (n + 1) xs a h.1 (omega arith))

-- The budget's invariant.
abbrev pub WithinBudget : EvaluationBudget → Type 0
WithinBudget b = (length b.attempts ≤ b.spec.max_http_attempts) × Numbered 1 b.attempts

below_limit :
    (now : ℕ) (b : EvaluationBudget)
    → truthy (reason_to_stop now b) ≡ false
    → length b.attempts < b.spec.max_http_attempts
unfolding reason_to_stop is_blank
below_limit now b h = ground arith

-- A reservation leaves the attempts, or adds the next one where the number is below the limit.
reserve_cases :
    (now : ℕ) (persisted : Bool) (kind operation : String) (b : EvaluationBudget)
    → ((reserve_attempt now persisted kind operation b).1.spec ≡ b.spec)
      × (((reserve_attempt now persisted kind operation b).1.attempts ≡ b.attempts)
          ⊎ ((length b.attempts < b.spec.max_http_attempts)
              × ((reserve_attempt now persisted kind operation b).1.attempts
                  ≡ b.attempts ++ attempt_of kind operation b ∷ [])))
unfolding reserve_attempt reason_to_stop
reserve_cases now persisted kind operation b = elim (Bool-cases (truthy b.stop_reason)) [
  | inl t ↦ rw t (refl, inl refl)
  | inr f ↦ rw f (elim (Bool-cases (truthy (reason_to_stop now b))) [
    | inl u ↦ rw u (refl, inl refl)
    | inr v ↦ rw v (elim (Bool-cases persisted) [
      | inl p ↦ rw p (refl, inr (below_limit now b v, refl))
      | inr q ↦ rw q (refl, inr (below_limit now b v, refl))
    ])
  ])
]

reserve_attempt-WithinBudget :
    (now : ℕ) (persisted : Bool) (kind operation : String) (b : EvaluationBudget)
    → WithinBudget b
    → WithinBudget (reserve_attempt now persisted kind operation b).1
reserve_attempt-WithinBudget now persisted kind operation b (l, n) =
    let (spec, cases) = reserve_cases now persisted kind operation b in
    elim cases [
      | inl e ↦ within b.attempts spec e l n
      | inr (h, e) ↦
          within (b.attempts ++ attempt_of kind operation b ∷ []) spec e
            (let k = length-append b.attempts (attempt_of kind operation b ∷ []) in omega arith)
            (Numbered-snoc 1 b.attempts (attempt_of kind operation b) n (omega arith))
    ]
  where
    within :
        (xs : List Attempt)
        → (reserve_attempt now persisted kind operation b).1.spec ≡ b.spec
        → (reserve_attempt now persisted kind operation b).1.attempts ≡ xs
        → length xs ≤ b.spec.max_http_attempts
        → Numbered 1 xs
        → WithinBudget (reserve_attempt now persisted kind operation b).1
    within xs spec e l n = (
      subst
          (λ ys.
            length ys ≤ (reserve_attempt now persisted kind operation b).1.spec.max_http_attempts)
          (sym e) (subst (λ s. length xs ≤ s.max_http_attempts) (sym spec) l),
      subst (Numbered 1) (sym e) n,
    )

run_within :
    (calls : List Call) (b : EvaluationBudget) → WithinBudget b → WithinBudget (run calls b)
unfolding run stop
run_within [] b h = h
run_within (Call.reserving now persisted kind operation ∷ cs) b h =
    run_within cs (reserve_attempt now persisted kind operation b).1
      (reserve_attempt-WithinBudget now persisted kind operation b h)
run_within (Call.stopping reason ∷ cs) b h = run_within cs (stop reason b) h

run_spec : (calls : List Call) (b : EvaluationBudget) → (run calls b).spec ≡ b.spec
unfolding run stop
run_spec [] b = refl
run_spec (Call.reserving now persisted kind operation ∷ cs) b =
    run_spec cs (reserve_attempt now persisted kind operation b).1
    ∙ (reserve_cases now persisted kind operation b).0
run_spec (Call.stopping reason ∷ cs) b = run_spec cs (stop reason b)

abbrev pub sum : List ℕ → ℕ
sum [] = 0
sum (n ∷ ns) = n + sum ns

sum-insert :
    (k : String) (v : ℕ) (d : Dict ℕ)
    → sum (values (insert k v d)) + count_of (lookup k d) ≡ sum (values d) + v
unfolding insert lookup
sum-insert k v [] = omega arith
sum-insert k v ((j, n) ∷ d) = elim (Bool-cases (j == k)) [
  | inl t ↦ rw t (omega arith)
  | inr f ↦ rw f (omega (arith, sum-insert k v d))
]

sum-count_kinds :
    (kinds : Dict ℕ) (xs : List Attempt)
    → sum (values (count_kinds kinds xs)) ≡ sum (values kinds) + length xs
unfolding count_kinds
sum-count_kinds kinds [] = omega arith
sum-count_kinds kinds (a ∷ xs) =
    let head = sum-insert a.kind (count_of (lookup a.kind kinds) + 1) kinds in
    let tail = sum-count_kinds (insert a.kind (count_of (lookup a.kind kinds) + 1) kinds) xs in
    omega arith

abbrev pub of_kind : String → List Attempt → List Attempt
of_kind k xs = keep (λ a. a.kind == k) xs

-- The loop of the ledger adds to each kind's number that of its attempts.
count_kinds-lookup :
    (k : String) (kinds : Dict ℕ) (xs : List Attempt)
    → count_of (lookup k (count_kinds kinds xs)) ≡ count_of (lookup k kinds) + length (of_kind k xs)
unfolding count_kinds keep
count_kinds-lookup k kinds [] = omega arith
count_kinds-lookup k kinds (a ∷ xs) =
    let here = lookup-insert a.kind k (count_of (lookup a.kind kinds) + 1) kinds in
    let rest = count_kinds-lookup k (insert a.kind (count_of (lookup a.kind kinds) + 1) kinds) xs in
    elim (eq_cases a.kind k) [
      | inl (e, t) ↦ rw t (rest ∙ rw (here, t, e) (omega arith))
      | inr f ↦ rw f (rest ∙ rw (here, f) refl)
    ]

-- After any reservations and stops, at any times and whether or not the ledger could be persisted, a
-- new budget has recorded no more attempts than its limit, they are numbered 1, 2, 3 and so on, and
-- the ledger counts them: its total is their number, its number for each kind is that of the attempts
-- of this kind, and the numbers of its kinds add up to the total.
pub run-WithinBudget :
    (spec : EvaluationBudgetSpec) (started now : ℕ) (calls : List Call)
    → ((ledger now (run calls (new_budget spec started))).http_attempts ≤ spec.max_http_attempts)
      × Numbered 1 (run calls (new_budget spec started)).attempts
      × ((ledger now (run calls (new_budget spec started))).http_attempts
          ≡ length (run calls (new_budget spec started)).attempts)
      × ((k : String)
          → count_of (lookup k (ledger now (run calls (new_budget spec started))).by_kind)
            ≡ length (of_kind k (run calls (new_budget spec started)).attempts))
      × (sum (values (ledger now (run calls (new_budget spec started))).by_kind)
          ≡ (ledger now (run calls (new_budget spec started))).http_attempts)
unfolding ledger new_budget
run-WithinBudget spec started now calls =
    let b = new_budget spec started in
    let (l, n) = run_within calls b (omega arith, tt) in
    (
      subst (λ s. length (run calls b).attempts ≤ s.max_http_attempts) (run_spec calls b) l,
      n,
      refl,
      (λ k. let e = count_kinds-lookup k [] (run calls b).attempts in omega arith),
      (let k = sum-count_kinds [] (run calls b).attempts in omega arith),
    )
