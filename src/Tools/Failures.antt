-- ===== src/Tools/Failures.antt =====
-- `ToolFailureGuard` of backend/src/atlasflow/agents/tool_failures.py. The arguments of tools are of
-- any type, and a tool's scope of an argument is a function of it.
use atlas_flow_agent.Base.{
  ℕ, zero, suc, ◌+◌, ◌-◌, ◌<◌, String, ◌≡◌, subst, inl, inr, Bool, true, false, not, ◌&&◌, Option,
  none, some, List, ◌∷◌, map, arith, ltb, leb, eqb, if◌then◌else◌, Bool-cases, is_some, ◌==◌,
  nat_eq, string_eq, length, all, keep, [],
}
use atlas_flow_agent.Base.Dict.{Dict, lookup, insert}
use atlas_flow_agent.Base.Sorting.{sort_by}
use atlas_flow_agent.Knowledge.Models.{truthy, option_eq}
use atlas_flow_agent.Chunking.Windows.{take}

pub record ToolCallRecord (A : Type 0) : Type 0 where
  pub call_id : String
  pub tool_name : String
  pub arguments : A
  pub success : Bool
  pub retryable : Option Bool
  pub reused_from_call_id : Option String
  pub created_at : ℕ

-- What the guard asks of a tool. The limit is 0 for a tool that has none.
pub record FailurePolicy (A : Type 0) : Type 0 where
  pub name : String
  pub transient_failure_limit : ℕ
  pub transient_failure_scope : A → Option String

-- The records of one run under their keys, which are call ids and times
abbrev pub Records : Type 0 → Type 0
Records A = List ((String × ℕ) × ToolCallRecord A)

abbrev pub is_true : Option Bool → Bool
is_true none = false
is_true (some b) = b

module _ {A : Type 0} where
  unfoldable pub put_record : ToolCallRecord A → Records A → Records A
  put_record r [] = ((r.call_id, r.created_at), r) ∷ []
  put_record r ((k, s) ∷ rs) =
      let rest = put_record r rs in
      if k.0 == r.call_id && eqb k.1 r.created_at then (k, r) ∷ rs else (k, s) ∷ rest

  abbrev pub records_of : Option (Records A) → Records A
  records_of none = []
  records_of (some rs) = rs

  -- `observe`
  unfoldable pub observe : String → List (ToolCallRecord A) → Dict (Records A) → Dict (Records A)
  unfolding put_record lookup insert
  observe run_id [] guard = guard
  observe run_id (r ∷ rs) guard =
      let passed = observe run_id rs guard in
      let kept =
        observe run_id rs (insert run_id (put_record r (records_of (lookup run_id guard))) guard) in
      if truthy r.reused_from_call_id then passed else kept

  abbrev pub of_target : FailurePolicy A → Option String → ToolCallRecord A → Bool
  of_target tool scope r =
      r.tool_name == tool.name && tool.transient_failure_scope r.arguments == scope

  -- The record is of a failure that may be retried.
  abbrev pub is_transient : ToolCallRecord A → Bool
  is_transient r = not r.success && is_true r.retryable

  -- The loop of `blocking_record`, from the number of failures counted so far
  unfoldable pub count_failures :
      FailurePolicy A → Option String → ℕ → List (ToolCallRecord A) → Option (ToolCallRecord A)
  count_failures tool scope consecutive [] = none
  count_failures tool scope consecutive (r ∷ rs) =
      let passed = count_failures tool scope consecutive rs in
      let counted = count_failures tool scope (consecutive + 1) rs in
      if not (of_target tool scope r)
      then passed
      else if not (is_transient r)
      then none
      else if leb tool.transient_failure_limit (consecutive + 1)
      then some r
      else counted

  abbrev pub newest_first : Records A → List (ToolCallRecord A)
  newest_first rs = sort_by (λ x y. ltb y.created_at x.created_at) (map (λ e. e.1) rs)

  abbrev pub scope_of : FailurePolicy A → A → Option String
  scope_of tool arguments =
      if eqb tool.transient_failure_limit 0 then none else tool.transient_failure_scope arguments

  unfoldable pub blocking_record :
      String → FailurePolicy A → A → Dict (Records A) → Option (ToolCallRecord A)
  unfolding count_failures lookup sort_by
  blocking_record run_id tool arguments guard =
      let scope = scope_of tool arguments in
      if truthy scope
      then count_failures tool scope 0 (newest_first (records_of (lookup run_id guard)))
      else none

  -- The first `n` of the records of the target are transient failures, and there are as many.
  abbrev pub all_fail : ℕ → List (ToolCallRecord A) → Bool
  all_fail n rs = all is_transient (take n rs) && eqb (length (take n rs)) n

  count_failures-all_fail :
      (tool : FailurePolicy A) (scope : Option String) (c need : ℕ) (rs : List (ToolCallRecord A))
      → c + suc need ≡ tool.transient_failure_limit
      → is_some (count_failures tool scope c rs)
        ≡ all_fail (suc need) (keep (of_target tool scope) rs)
  unfolding count_failures keep all
  count_failures-all_fail tool scope c need [] e = ground arith
  count_failures-all_fail tool scope c zero (r ∷ rs) e =
      elim (Bool-cases (of_target tool scope r)) [
        | inr f ↦ rw f (count_failures-all_fail tool scope c zero rs e)
        | inl t ↦ rw t (ground arith)
      ]
  count_failures-all_fail tool scope c (suc m) (r ∷ rs) e =
      elim (Bool-cases (of_target tool scope r)) [
        | inr f ↦ rw f (count_failures-all_fail tool scope c (suc m) rs e)
        | inl t ↦
            let rest = count_failures-all_fail tool scope (c + 1) m rs (omega arith) in
            rw t (ground arith)
      ]

  -- For a tool with a limit and a scope of the arguments, a record blocks the call exactly when the
  -- latest records of this tool and scope in the run, as many as the limit, are all failures that may
  -- be retried, and there are that many of them.
  pub blocking_record-all_fail :
      (run_id : String) (tool : FailurePolicy A) (arguments : A) (guard : Dict (Records A))
      → 0 < tool.transient_failure_limit
      → truthy (tool.transient_failure_scope arguments) ≡ true
      → is_some (blocking_record run_id tool arguments guard)
        ≡ all_fail tool.transient_failure_limit (
            keep
              (of_target tool (tool.transient_failure_scope arguments))
              (newest_first (records_of (lookup run_id guard))))
  unfolding blocking_record
  blocking_record-all_fail run_id tool arguments guard h t = rw positive (
      rw t (
        subst
          (λ n.
            is_some (count_failures tool scope 0 rs) ≡ all_fail n (keep (of_target tool scope) rs))
          (suc_pred tool.transient_failure_limit h)
          (count_failures-all_fail tool scope 0 (tool.transient_failure_limit - 1) rs
            (omega arith))))
    where
      scope : Option String
      scope = tool.transient_failure_scope arguments

      rs : List (ToolCallRecord A)
      rs = newest_first (records_of (lookup run_id guard))

      positive : eqb tool.transient_failure_limit 0 ≡ false
      positive = ground arith

      suc_pred : (n : ℕ) → 0 < n → suc (n - 1) ≡ n
      suc_pred n h = omega arith
