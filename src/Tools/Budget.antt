-- ===== src/Tools/Budget.antt =====
-- `ToolBudget` of backend/src/atlasflow/agents/tool_runtime.py. Its lock makes a call atomic.
use atlas_flow_agent.Base.{
  ℕ, ◌+◌, ◌-◌, max, String, ◌≡◌, refl, ap, Bool, true, false, Option, none, some, List, ◌∷◌, arith,
  ltb, leb, if◌then◌else◌, ◌==◌, nat_eq, string_eq, [],
}
use atlas_flow_agent.Base.Dict.{Dict, lookup, insert, without, lookup-insert, lookup-without}

abbrev pub ToolBudget : Type 0
ToolBudget = Dict ℕ

abbrev pub reserved : Option ℕ → ℕ
reserved none = 0
reserved (some n) = n

-- `reserve`
unfoldable pub reserve_call : String → ℕ → ℕ → ToolBudget → Bool × ToolBudget
unfolding lookup insert
reserve_call run_id already_used limit b =
    let current = max (reserved (lookup run_id b)) already_used in
    if leb limit current then (false, b) else (true, insert run_id (current + 1) b)

-- `clear`
unfoldable pub clear_budget : String → ToolBudget → ToolBudget
unfolding without
clear_budget run_id b = without run_id b

-- `remaining`; the difference stops at 0 as `max(0, …)` does.
unfoldable pub remaining : String → ℕ → ℕ → ToolBudget → ℕ
unfolding lookup
remaining run_id already_used limit b = limit - max (reserved (lookup run_id b)) already_used

-- A call on the budget, with its run, the calls used before and the limit.
pub data Request : Type 0 where
  reserving asking : String → ℕ → ℕ → Request
  clearing : String → Request

pub data Reply : Type 0 where
  granted : Bool → Reply
  left : ℕ → Reply
  cleared : Reply

-- What a sequence of calls answers, and the budget after it
unfoldable pub answer : List Request → ToolBudget → List Reply × ToolBudget
unfolding reserve_call remaining clear_budget
answer [] b = ([], b)
answer (Request.reserving run_id used limit ∷ rs) b =
    let (replies, after) = answer rs (reserve_call run_id used limit b).1 in
    (Reply.granted (reserve_call run_id used limit b).0 ∷ replies, after)
answer (Request.asking run_id used limit ∷ rs) b =
    let (replies, after) = answer rs b in
    (Reply.left (remaining run_id used limit b) ∷ replies, after)
answer (Request.clearing run_id ∷ rs) b =
    let (replies, after) = answer rs (clear_budget run_id b) in (Reply.cleared ∷ replies, after)

-- What the budget promises: each run has a number of slots taken, 0 for a run that was never heard of.
abbrev pub Slots : Type 0
Slots = String → ℕ

abbrev set_slots : String → ℕ → Slots → Slots
set_slots run_id n f k = if run_id == k then n else f k

-- A slot is granted exactly while fewer than `limit` are taken or were used before.
abbrev grants : String → ℕ → ℕ → Slots → Bool
grants run_id used limit f = ltb (max (f run_id) used) limit

abbrev take_slot : String → ℕ → ℕ → Slots → Slots
take_slot run_id used limit f =
    if grants run_id used limit f then set_slots run_id (max (f run_id) used + 1) f else f

pub promised : List Request → Slots → List Reply
promised [] f = []
promised (Request.reserving run_id used limit ∷ rs) f =
    Reply.granted (grants run_id used limit f) ∷ promised rs (take_slot run_id used limit f)
promised (Request.asking run_id used limit ∷ rs) f =
    Reply.left (limit - max (f run_id) used) ∷ promised rs f
promised (Request.clearing run_id ∷ rs) f = Reply.cleared ∷ promised rs (set_slots run_id 0 f)

-- The dict stands for the slots.
abbrev pub Represents : ToolBudget → Slots → Type 0
Represents b f = (k : String) → reserved (lookup k b) ≡ f k

reserve_call-granted :
    (run_id : String) (used limit : ℕ) (b : ToolBudget) (f : Slots)
    → Represents b f
    → (reserve_call run_id used limit b).0 ≡ grants run_id used limit f
unfolding reserve_call
reserve_call-granted run_id used limit b f h = ground (arith, h run_id)

reserve_call-Represents :
    (run_id : String) (used limit : ℕ) (b : ToolBudget) (f : Slots)
    → Represents b f
    → Represents (reserve_call run_id used limit b).1 (take_slot run_id used limit f)
unfolding reserve_call
reserve_call-Represents run_id used limit b f h k =
    ground
      (arith, h run_id, h k, lookup-insert run_id k (max (reserved (lookup run_id b)) used + 1) b)

clear_budget-Represents :
    (run_id : String) (b : ToolBudget) (f : Slots)
    → Represents b f
    → Represents (clear_budget run_id b) (set_slots run_id 0 f)
unfolding clear_budget
clear_budget-Represents run_id b f h k = ground (arith, h k, lookup-without run_id k b)

remaining_promised :
    (run_id : String) (used limit : ℕ) (b : ToolBudget) (f : Slots)
    → Represents b f
    → remaining run_id used limit b ≡ limit - max (f run_id) used
unfolding remaining
remaining_promised run_id used limit b f h = ap (λ n. limit - max n used) (h run_id)

-- A budget that stands for given slots answers every sequence of reservations, questions and clearings,
-- over any runs, as the slots promise.
pub answer-promised :
    (requests : List Request) (b : ToolBudget) (f : Slots)
    → Represents b f
    → (answer requests b).0 ≡ promised requests f
unfolding answer promised
answer-promised [] b f h = refl
answer-promised (Request.reserving run_id used limit ∷ rs) b f h =
    rw (reserve_call-granted run_id used limit b f h) (
      ap (λ xs. Reply.granted (grants run_id used limit f) ∷ xs)
        (answer-promised rs (reserve_call run_id used limit b).1 (take_slot run_id used limit f)
          (reserve_call-Represents run_id used limit b f h)))
answer-promised (Request.asking run_id used limit ∷ rs) b f h =
    rw (remaining_promised run_id used limit b f h)
      (ap (λ xs. Reply.left (limit - max (f run_id) used) ∷ xs) (answer-promised rs b f h))
answer-promised (Request.clearing run_id ∷ rs) b f h =
    ap (λ xs. Reply.cleared ∷ xs)
      (answer-promised rs (clear_budget run_id b) (set_slots run_id 0 f)
        (clear_budget-Represents run_id b f h))
