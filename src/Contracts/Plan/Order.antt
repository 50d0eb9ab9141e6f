-- ===== src/Contracts/Plan/Order.antt =====
-- The order in which the depth-first search of `ResearchPlan` in
-- backend/src/atlasflow/agents/contracts.py finishes its ids, the latest first.
use atlas_flow_agent.Base.{
  ℕ, zero, suc, String, ◌≡◌, refl, subst, ◌⊎◌, inl, inr, true, List, ◌∷◌, arith, Outcome, ok,
  >>=-eq-ok, nat_eq, string_eq, contains, subset, contains-head, contains-tail, length, [],
}
use atlas_flow_agent.Contracts.Errors.{ContractError}
use atlas_flow_agent.Contracts.Task.{ResearchTask}
use atlas_flow_agent.Contracts.Plan.{ids, deps_of, visit_each, visit, search_cycles}

-- Each id's dependencies stand behind it in the list.
abbrev pub IsOrdered : List ResearchTask → List String → Type 0
IsOrdered tasks [] = Unit
IsOrdered tasks (x ∷ xs) = (subset (deps_of tasks x) xs ≡ true) × IsOrdered tasks xs

abbrev pub Grows : List String → List String → Type 0
Grows xs ys = (a : String) → contains xs a ≡ true → contains ys a ≡ true

-- What a visit that returns has done.
abbrev pub Visits : List ResearchTask → List String → String → List String → Type 0
Visits tasks before k after = IsOrdered tasks after × Grows before after × (contains after k ≡ true)

abbrev VisitsAll : List ResearchTask → List String → List String → List String → Type 0
VisitsAll tasks before ks after =
    IsOrdered tasks after × Grows before after × (subset ks after ≡ true)

module _ (tasks : List ResearchTask) where
  visit_each-VisitsAll :
      (go : List String → String → Outcome ContractError (List String))
      → ((before : List String) (k : String) (after : List String)
          → IsOrdered tasks before
          → go before k ≡ ok after
          → Visits tasks before k after)
      → (ks before after : List String) → IsOrdered tasks before
      → visit_each go before ks ≡ ok after
      → VisitsAll tasks before ks after
  unfolding visit_each subset
  visit_each-VisitsAll go rule [] before after o h =
      (subst (IsOrdered tasks) ok_eq o, λ a c. subst (λ l. contains l a ≡ true) ok_eq c, refl)
    where
      ok_eq : before ≡ after
      ok_eq = ground arith
  visit_each-VisitsAll go rule (k ∷ ks) before after o h =
      let (mid, first, rest) = >>=-eq-ok (go before k) (λ v. visit_each go v ks) h in
      let (o', grows, found) = rule before k mid o first in
      let (o'', grows', all_found) = visit_each-VisitsAll go rule ks mid after o' rest in
      (o'', λ a c. grows' a (grows a c), ground (arith, grows' k found))

  -- The two ways in which a visit returns.
  visit_cases :
      (fuel : ℕ) (visiting before : List String) (k : String) (after : List String)
      → visit tasks (suc fuel) visiting before k ≡ ok after
      → ((contains before k ≡ true) × (after ≡ before))
        ⊎ ((mid : List String) × (visit_each
                (visit tasks fuel (k ∷ visiting))
                before
                (deps_of tasks k)
              ≡ ok mid)
            × (after ≡ k ∷ mid))
  unfolding visit
  visit_cases fuel visiting before k after h = ground arith

  visit-Visits :
      (fuel : ℕ) (visiting before : List String) (k : String) (after : List String)
      → IsOrdered tasks before
      → visit tasks fuel visiting before k ≡ ok after
      → Visits tasks before k after
  unfolding visit
  visit-Visits zero visiting before k after o h = cc
  visit-Visits (suc fuel) visiting before k after o h =
      elim (visit_cases fuel visiting before k after h) [
        | inl (seen, same) ↦ rw same (o, λ a c. c, seen)
        | inr (mid, below, e) ↦ rw e (
            push mid (
              visit_each-VisitsAll (visit tasks fuel (k ∷ visiting))
                (λ b d a o' h'. visit-Visits fuel (k ∷ visiting) b d a o' h') (deps_of tasks k)
                before mid o below))
      ]
    where
      push :
          (mid : List String)
          → VisitsAll tasks before (deps_of tasks k) mid
          → Visits tasks before k (k ∷ mid)
      push mid (o', grows, found) =
          ((found, o'), λ a c. contains-tail k a mid (grows a c), contains-head k mid)

  -- A search that returns has put every task's id into such an order.
  pub search_cycles-IsOrdered :
      (after : List String)
      → search_cycles tasks ≡ ok after
      → IsOrdered tasks after × (subset (ids tasks) after ≡ true)
  unfolding search_cycles
  search_cycles-IsOrdered after h =
      let (o, grows, found) =
        visit_each-VisitsAll (visit tasks (suc (length tasks)) [])
          (λ b d a o' h'. visit-Visits (suc (length tasks)) [] b d a o' h') (ids tasks) [] after tt
          h in
      (o, found)
