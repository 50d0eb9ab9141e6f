-- ===== src/Workflow/Merging.antt =====
-- `_merge_results` of backend/src/atlasflow/agents/workflow.py: the results of a wave under their
-- keys, the version of the plan and the task.
use atlas_flow_agent.Base.{
  ℕ, String, ◌≡◌, refl, sym, ap, ◌∙◌, subst, inl, inr, Bool, true, false, ◌&&◌, Option, none, some,
  List, ◌∷◌, ◌++◌, arith, eqb, if◌then◌else◌, Bool-cases, false_of_not, &&_elim, ◌==◌, nat_eq,
  string_eq, ==_refl, [],
}
use atlas_flow_agent.Contracts.Research.{ResearchResult}
use atlas_flow_agent.Workflow.{is_same_result, put_result, put_results, merge_results}

abbrev pub has_key : ℕ → String → ResearchResult → Bool
has_key v k r = eqb r.plan_version v && r.task_id == k

-- The first result under a key.
abbrev pub find_result : ℕ → String → List ResearchResult → Option ResearchResult
find_result v k [] = none
find_result v k (r ∷ rs) = let rest = find_result v k rs in if has_key v k r then some r else rest

abbrev pub or_result : Option ResearchResult → Option ResearchResult → Option ResearchResult
or_result none b = b
or_result (some r) b = some r

-- The last result under a key.
abbrev pub latest : ℕ → String → List ResearchResult → Option ResearchResult
latest v k [] = none
latest v k (r ∷ rs) = or_result (latest v k rs) (if has_key v k r then some r else none)

-- No two results have the same key.
abbrev pub IsKeyed : List ResearchResult → Type 0
IsKeyed [] = Unit
IsKeyed (r ∷ rs) = (find_result r.plan_version r.task_id rs ≡ none) × IsKeyed rs

is_same_parts :
    (r item : ResearchResult)
    → is_same_result r item ≡ true
    → (r.plan_version ≡ item.plan_version) × (r.task_id ≡ item.task_id)
is_same_parts r item h =
    let (a, b) = &&_elim _ _ h in
    (
      (nat_eq.same_iff r.plan_version item.plan_version).0 a,
      (string_eq.same_iff r.task_id item.task_id).0 b,
    )

has_key-same :
    (v : ℕ) (k : String) (r item : ResearchResult)
    → is_same_result r item ≡ true
    → has_key v k r ≡ has_key v k item
has_key-same v k r item h = let (a, b) = is_same_parts r item h in rw (a, b) refl

-- Results of different keys do not both answer to one.
has_key-other :
    (v : ℕ) (k : String) (r item : ResearchResult)
    → is_same_result r item ≡ false
    → has_key v k item ≡ true
    → has_key v k r ≡ false
has_key-other v k r item h t = false_of_not (λ u. clash (&&_elim _ _ t) (&&_elim _ _ u))
  where
    clash :
        (eqb item.plan_version v ≡ true) × ((item.task_id == k) ≡ true)
        → (eqb r.plan_version v ≡ true) × ((r.task_id == k) ≡ true)
        → ⊥
    clash (a, b) (c, d) =
        let versions =
          (nat_eq.same_iff r.plan_version v).0 c
          ∙ sym ((nat_eq.same_iff item.plan_version v).0 a) in
        let tasks =
          (string_eq.same_iff r.task_id k).0 d ∙ sym ((string_eq.same_iff item.task_id k).0 b) in
        ground (
          arith,
          (nat_eq.same_iff r.plan_version item.plan_version).1 versions,
          (string_eq.same_iff r.task_id item.task_id).1 tasks,
        )

find_result-put_result :
    (v : ℕ) (k : String) (rs : List ResearchResult) (item : ResearchResult)
    → find_result v k (put_result rs item)
      ≡ (if has_key v k item then some item else find_result v k rs)
unfolding put_result
find_result-put_result v k [] item = refl
find_result-put_result v k (r ∷ rs) item = elim (Bool-cases (is_same_result r item)) [
  | inl same ↦ rw (same, has_key-same v k r item same) (ground arith)
  | inr other ↦
      rw (other, find_result-put_result v k rs item) (different (has_key-other v k r item other))
]
  where
    different :
        (has_key v k item ≡ true → has_key v k r ≡ false)
        → (if has_key v k r
            then some r
            else if has_key v k item
            then some item
            else find_result v k rs)
          ≡ (if has_key v k item
              then some item
              else if has_key v k r
              then some r
              else find_result v k rs)
    different apart = ground arith

has_key_self : (r : ResearchResult) → has_key r.plan_version r.task_id r ≡ true
has_key_self r = ground (arith, nat_eq.same_iff r.plan_version r.plan_version, ==_refl r.task_id)

put_result-IsKeyed :
    (rs : List ResearchResult) (item : ResearchResult) → IsKeyed rs → IsKeyed (put_result rs item)
unfolding put_result
put_result-IsKeyed [] item q = (refl, tt)
put_result-IsKeyed (r ∷ rs) item q = elim (Bool-cases (is_same_result r item)) [
  | inl same ↦
      let (a, b) = is_same_parts r item same in
      rw same (
        subst (λ v. find_result v item.task_id rs ≡ none) a
            (subst (λ k. find_result r.plan_version k rs ≡ none) b q.0),
        q.1,
      )
  | inr other ↦
      let apart : has_key r.plan_version r.task_id item ≡ false =
        false_of_not
          (λ t. cc (has_key-other r.plan_version r.task_id r item other t, has_key_self r)) in
      rw other (
        rw (find_result-put_result r.plan_version r.task_id rs item, apart) q.0,
        put_result-IsKeyed rs item q.1,
      )
]

put_results-IsKeyed :
    (merged rs : List ResearchResult) → IsKeyed merged → IsKeyed (put_results merged rs)
put_results-IsKeyed merged [] q = q
put_results-IsKeyed merged (r ∷ rs) q =
    put_results-IsKeyed (put_result merged r) rs (put_result-IsKeyed merged r q)

or_result_assoc :
    (a b c : Option ResearchResult) → or_result (or_result a b) c ≡ or_result a (or_result b c)
or_result_assoc none b c = refl
or_result_assoc (some r) b c = refl

find_result-put_results :
    (v : ℕ) (k : String) (merged rs : List ResearchResult)
    → find_result v k (put_results merged rs) ≡ or_result (latest v k rs) (find_result v k merged)
find_result-put_results v k merged [] = refl
find_result-put_results v k merged (r ∷ rs) =
    find_result-put_results v k (put_result merged r) rs
    ∙ ap (or_result (latest v k rs)) (find_result-put_result v k merged r ∙ as_or (has_key v k r))
    ∙ sym (
        or_result_assoc (latest v k rs) (if has_key v k r then some r else none)
          (find_result v k merged))
  where
    as_or :
        (b : Bool)
        → (if b then some r else find_result v k merged)
          ≡ or_result (if b then some r else none) (find_result v k merged)
    as_or true = refl
    as_or false = refl

latest-append :
    (v : ℕ) (k : String) (rs items : List ResearchResult)
    → latest v k (rs ++ items) ≡ or_result (latest v k items) (latest v k rs)
latest-append v k [] items = or_none (latest v k items)
  where
    or_none : (a : Option ResearchResult) → a ≡ or_result a none
    or_none none = refl
    or_none (some r) = refl
latest-append v k (r ∷ rs) items =
    ap (λ a. or_result a (if has_key v k r then some r else none)) (latest-append v k rs items)
    ∙ or_result_assoc (latest v k items) (latest v k rs) (if has_key v k r then some r else none)

-- The merged results hold, for each version of the plan and task, the last result that was recorded
-- or came in under that key, and no key occurs twice.
pub merge_results-latest :
    (current incoming : List ResearchResult) (version : ℕ) (task_id : String)
    → (find_result version task_id (merge_results current incoming)
        ≡ latest version task_id (current ++ incoming))
      × IsKeyed (merge_results current incoming)
unfolding merge_results
merge_results-latest current incoming version task_id = (
  find_result-put_results version task_id (put_results [] current) incoming
      ∙ ap (or_result (latest version task_id incoming)) (
          find_result-put_results version task_id [] current
          ∙ or_none (latest version task_id current))
      ∙ sym (latest-append version task_id current incoming),
  put_results-IsKeyed (put_results [] current) incoming (put_results-IsKeyed [] current tt),
)
  where
    or_none : (a : Option ResearchResult) → or_result a none ≡ a
    or_none none = refl
    or_none (some r) = refl
