-- ===== src/Contracts/Task/Sound.antt =====
-- What a task, and a plan's demand for capabilities, satisfy once they are accepted.
use atlas_flow_agent.Base.{
  ◌≤◌, String, ◌≡◌, refl, ◌≢◌, ◌⊎◌, inl, inr, Bool, true, false, not, ◌&&◌, ◌||◌, List, ◌∷◌, ◌++◌,
  map, arith, Bool-cases, &&_elim, ok, for_each, All, All-map, All-zip, for_each-eq-ok, nat_eq,
  string_eq, contains, distinct, subset, disjoint, contains-nil, contains-cases, length, is_empty,
  any, all, [],
}
use atlas_flow_agent.Contracts.Task.{
  ResearchTask, task_fields_ok, check_alternatives, validate_dependencies, validate_task,
  Capability, supports_fresh, all_capabilities, has_fresh_source, check_task_capabilities,
  validate_task_capabilities,
}

pub record TaskIsSound (t : ResearchTask) : Type 0 where
  pub not_self_dependent : contains t.dependencies t.task_id ≡ false
  pub not_self_repairing : contains t.repairs_task_ids t.task_id ≡ false
  pub repairs_apart : disjoint t.repairs_task_ids t.dependencies ≡ true
  pub criteria_unique : distinct t.success_criteria ≡ true
  pub criteria_bounded : (1 ≤ length t.success_criteria) × (length t.success_criteria ≤ 10)
  pub alternatives_are_choices :
      All
        (λ g. (2 ≤ length g) × (disjoint g t.required_capabilities ≡ true))
        t.capability_alternatives
  pub fresh_has_capability :
      (t.requires_fresh_data ≡ false)
      ⊎ ((t.required_capabilities ≢ []) ⊎ (t.capability_alternatives ≢ []))

alternative_is_choice :
    (required group : List String)
    → check_alternatives required group ≡ ok tt
    → (2 ≤ length group) × (disjoint group required ≡ true)
unfolding check_alternatives
alternative_is_choice required group h = ground arith

-- What an accepted task has passed.
validate_task_parts :
    (t u : ResearchTask)
    → validate_task t ≡ ok u
    → (u ≡ t)
      × (task_fields_ok t ≡ true)
      × (distinct t.required_capabilities ≡ true)
      × (for_each (check_alternatives t.required_capabilities) t.capability_alternatives ≡ ok tt)
unfolding validate_task validate_dependencies
validate_task_parts t u h = ground arith

-- The other checks, those on the criteria, the dependencies and the repair targets.
validate_task_rest :
    (t u : ResearchTask)
    → validate_task t ≡ ok u
    → (contains t.dependencies t.task_id ≡ false)
      × (contains t.repairs_task_ids t.task_id ≡ false)
      × (disjoint t.repairs_task_ids t.dependencies ≡ true)
      × (distinct t.success_criteria ≡ true)
      × ((t.requires_fresh_data
            && not (
                not (is_empty t.required_capabilities) || not (is_empty t.capability_alternatives)))
          ≡ false)
unfolding validate_task validate_dependencies
validate_task_rest t u h = ground arith

criteria_in_range :
    (t : ResearchTask)
    → task_fields_ok t ≡ true
    → (1 ≤ length t.success_criteria) × (length t.success_criteria ≤ 10)
unfolding task_fields_ok
criteria_in_range t h = ground arith

fresh_needs_some :
    (fresh : Bool) (xs : List String) (ys : List (List String))
    → (fresh && not (not (is_empty xs) || not (is_empty ys))) ≡ false
    → fresh ≡ true
    → (xs ≢ []) ⊎ (ys ≢ [])
fresh_needs_some fresh (x ∷ xs) ys h e = inl (λ p. cc)
fresh_needs_some fresh [] (y ∷ ys) h e = inr (λ p. cc)
fresh_needs_some fresh [] [] h e = absurd (ground arith)

-- An accepted task is returned unchanged. It neither depends on itself nor repairs itself, repairs
-- no task that it depends on, has one to ten different criteria, offers at least two capabilities
-- in each group of alternatives and none that it requires anyway, and names some capability if it
-- needs fresh data.
pub validate_task-TaskIsSound :
    (t u : ResearchTask) → validate_task t ≡ ok u → (u ≡ t) × TaskIsSound t
validate_task-TaskIsSound t u h =
    let (same, fields, _, groups) = validate_task_parts t u h in
    let (self, repairing, apart, unique, fresh) = validate_task_rest t u h in
    (
      same,
      record {
        not_self_dependent = self;
        not_self_repairing = repairing;
        repairs_apart = apart;
        criteria_unique = unique;
        criteria_bounded = criteria_in_range t fields;
        alternatives_are_choices =
            All-map t.capability_alternatives (alternative_is_choice t.required_capabilities) (
              for_each-eq-ok (check_alternatives t.required_capabilities) t.capability_alternatives
                groups);
        fresh_has_capability = elim (Bool-cases t.requires_fresh_data) [
          | inr stale ↦ inl stale
          | inl wanted ↦ inr (
              fresh_needs_some t.requires_fresh_data t.required_capabilities
                t.capability_alternatives fresh wanted)
        ];
      },
    )

-- A way to meet a task's demand: it takes one capability from each group of alternatives.
abbrev pub IsChoice : (List String → String) → List (List String) → Type 0
IsChoice pick groups = All (λ g. contains g (pick g) ≡ true) groups

-- The capabilities that are then used.
abbrev pub used_capabilities : (List String → String) → ResearchTask → List String
used_capabilities pick t = t.required_capabilities ++ map pick t.capability_alternatives

any-append : (p : String → Bool) (xs ys : List String) → any p (xs ++ ys) ≡ (any p xs || any p ys)
unfolding any
any-append p [] ys = refl
any-append p (x ∷ xs) ys = ground (arith, any-append p xs ys)

all-contains :
    (p : String → Bool) (xs : List String) (a : String)
    → all p xs ≡ true
    → contains xs a ≡ true
    → p a ≡ true
unfolding all
all-contains p [] a h c = absurd (contains-nil a c)
all-contains p (x ∷ xs) a h c = elim (contains-cases x a xs c) [
  | inl e ↦ rw (← e) (&&_elim _ _ h).0
  | inr m ↦ all-contains p xs a (&&_elim _ _ h).1 m
]

any_group_picked :
    (p : String → Bool) (pick : List String → String) (groups : List (List String))
    → IsChoice pick groups
    → any (all p) groups ≡ true
    → any p (map pick groups) ≡ true
unfolding any
any_group_picked p pick [] c h = h
any_group_picked p pick (g ∷ gs) c h = elim (Bool-cases (all p g)) [
  | inl yes_all ↦ rw (all-contains p g (pick g) yes_all c.0)
  | inr not_all ↦ ground (arith, any_group_picked p pick gs c.1)
]

fresh_choice :
    (catalog : List Capability) (t : ResearchTask) (pick : List String → String)
    → check_task_capabilities catalog t ≡ ok tt
    → t.requires_fresh_data ≡ true
    → IsChoice pick t.capability_alternatives
    → any (supports_fresh catalog) (used_capabilities pick t) ≡ true
unfolding check_task_capabilities has_fresh_source
fresh_choice catalog t pick h fresh c = ground (
  arith,
  any-append (supports_fresh catalog) t.required_capabilities (map pick t.capability_alternatives),
  any_group_picked (supports_fresh catalog) pick t.capability_alternatives c,
)

known_capabilities :
    (catalog : List Capability) (t : ResearchTask)
    → check_task_capabilities catalog t ≡ ok tt
    → subset (all_capabilities t) (map (λ c. c.id) catalog) ≡ true
unfolding check_task_capabilities
known_capabilities catalog t h = ground arith

-- Whichever alternatives are taken for the tasks of an accepted list, each task uses capabilities
-- of the catalogue only, and one that needs fresh data uses at least one which brings it.
pub validate_task_capabilities-fresh :
    (tasks : List ResearchTask) (catalog : List Capability) (pick : List String → String)
    → validate_task_capabilities tasks catalog ≡ ok tt
    → All (λ t. IsChoice pick t.capability_alternatives) tasks
    → All
        (λ t.
          (subset (all_capabilities t) (map (λ c. c.id) catalog) ≡ true)
          × ((t.requires_fresh_data ≡ false)
              ⊎ (any (supports_fresh catalog) (used_capabilities pick t) ≡ true)))
        tasks
unfolding validate_task_capabilities
validate_task_capabilities-fresh tasks catalog pick h choice =
    All-map tasks
      (λ t q. (
        known_capabilities catalog t q.0,
        elim (Bool-cases t.requires_fresh_data) [
          | inr stale ↦ inl stale
          | inl fresh ↦ inr (fresh_choice catalog t pick q.0 fresh q.1)
        ],
      ))
      (All-zip (λ t. check_task_capabilities catalog t ≡ ok tt)
        (λ t. IsChoice pick t.capability_alternatives) tasks
        (for_each-eq-ok (check_task_capabilities catalog) tasks h) choice)
