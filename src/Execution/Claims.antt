-- ===== src/Execution/Claims.antt =====
-- Claims of backend/src/atlasflow/execution/runtime.py: who may change a run, and how an owner is
-- fenced off. An operation takes the bundle and returns its result and the new bundle.
use atlas_flow_agent.Base.{
  ℕ, suc, ◌+◌, ◌-◌, String, Bool, true, false, not, ◌&&◌, ◌||◌, Option, none, some, List, ◌∷◌, map,
  eqb, if◌then◌else◌, is_some, Outcome, ok, raise_if, ◌==◌, nat_eq, string_eq, contains, subset,
  length, keep, [], ◌>>=◌, ◌>>◌,
}
use atlas_flow_agent.Base.Dict.{Dict, lookup, insert, adjust, map_values, set_default, values}
use atlas_flow_agent.Execution.Bundle.{
  ExecutionError, ExecutionClaim, Control, Status, Invocation, Command, Envelope, RunBundle,
  Payloads, is_succeeded, is_unknown,
}

-- `owner == token`, on an owner that may be absent
abbrev pub owns : Option String → String → Bool
owns none token = false
owns (some o) token = o == token

-- The claim names the bundle's owner and its epoch.
abbrev pub is_current : {P V : Type 0} → RunBundle P V → ExecutionClaim → Bool
is_current b claim =
    owns b.control.owner claim.owner_token && eqb b.control.fencing_epoch claim.fencing_epoch

-- `_assert_claim`
unfoldable pub assert_claim :
    {P V : Type 0} → RunBundle P V → ExecutionClaim → Outcome ExecutionError (Unit {0})
assert_claim b claim = do
  raise_if (b.control.deleted || b.control.cancel_requested) ExecutionError.cancelled
  raise_if (not (is_current b claim)) ExecutionError.conflict

pub record ClaimRequest (P : Type 0) : Type 0 where
  pub run_id : String
  pub request_id : String
  pub payload : P
  pub acknowledged : List String
  pub recovery : Bool
  pub checkpoint_id : Option String
  -- The token that the new claim draws, and the instance that serves it.
  pub owner_token : String
  pub instance_id : String
  pub profile_hash : String

module _ {V : Type 0} where
  -- The nodes whose result is committed.
  unfoldable pub completed_nodes : Dict (Invocation V) → List String
  unfolding keep
  completed_nodes invocations =
      map (λ i. i.node_key)
        (keep (λ i. i.kind == "node_result" && is_succeeded i.status) (values invocations))

  abbrev pub is_open : List String → Invocation V → Bool
  is_open completed i =
      is_unknown i.status && not i.acknowledged && not (contains completed i.node_key)

  abbrev pub keys_if : (Invocation V → Bool) → Dict (Invocation V) → List String
  keys_if p [] = []
  keys_if p ((k, i) ∷ d) = let rest = keys_if p d in if p i then k ∷ rest else rest

  -- `_active_unknown`
  unfoldable pub active_unknown : Dict (Invocation V) → List String
  unfolding completed_nodes contains
  active_unknown invocations = keys_if (is_open (completed_nodes invocations)) invocations

  abbrev pub acknowledge : Invocation V → Invocation V
  acknowledge i = record i { acknowledged = true }

  -- The loop that marks the unknown calls.
  unfoldable pub acknowledge_all : List String → Dict (Invocation V) → Dict (Invocation V)
  unfolding adjust
  acknowledge_all [] invocations = invocations
  acknowledge_all (k ∷ ks) invocations = acknowledge_all ks (adjust k acknowledge invocations)

abbrev claim_owner_is : String → Option ExecutionClaim → Bool
claim_owner_is token none = false
claim_owner_is token (some c) = c.owner_token == token

abbrev is_key : Option String → String → Bool
is_key none k = false
is_key (some a) k = k == a

-- The events that a cancelled or deleted run must not deliver.
abbrev pub is_barred : Option String → Bool
is_barred none = false
is_barred (some s) = not (s == "cancelled")

module _ {P : Type 0} where
  unfoldable pub complete_commands :
      ExecutionClaim → Option String → Dict (Command P) → Dict (Command P)
  complete_commands done approval [] = []
  complete_commands done approval ((k, c) ∷ d) =
      let rest = complete_commands done approval d in
      if claim_owner_is done.owner_token c.claim || is_key approval k
      then (k, record c { completed = true }) ∷ rest
      else (k, c) ∷ rest

  abbrev pub hash_differs : Option (Command P) → String → Bool
  hash_differs none h = false
  hash_differs (some c) h = not (c.hash == h)

module _ {P : Type 0} (codec : Payloads P) where
  abbrev pub cancel_command : ℕ → Command P
  cancel_command order = record {
    hash = codec.digest codec.cancel;
    payload = codec.cancel;
    completed = true;
    claim = none;
    checkpoint_id = none;
    order = order;
  }

  abbrev pub cancel_commands :
      Option String → Dict (Command P) → Outcome ExecutionError (Dict (Command P))
  cancel_commands none commands = ok commands
  cancel_commands (some request_id) commands = do
    raise_if (hash_differs (lookup request_id commands) (codec.digest codec.cancel))
        ExecutionError.conflict
    ok (set_default request_id (cancel_command (length commands)) commands)

module _ {V : Type 0} where
  abbrev pub discard_if : Bool → Envelope V → Envelope V
  discard_if whole e =
      if whole || is_barred e.patch.status
      then record e { delivered = true; discarded = true }
      else e

  -- What the restart of the service makes of an invocation that was under way.
  unfoldable pub recover_invocation : Invocation V → Invocation V
  recover_invocation i = elim (i.status) [
    | Status.dispatched ↦ record i { status = Status.unknown }
    | Status.reserved ↦ record i {
      status = Status.failed;
      not_sent = true;
      tool_budget_counted = false;
    }
    | _ ↦ i
  ]

  -- How many calls it gives back to the tool budget.
  unfoldable pub refunds : Dict (Invocation V) → ℕ
  refunds [] = 0
  refunds ((k, i) ∷ d) = elim (i.status) [
    | Status.reserved ↦ (if i.tool_budget_counted then suc (refunds d) else refunds d)
    | _ ↦ refunds d
  ]

module _ {P V : Type 0} where
  -- `complete_command`
  unfoldable pub complete_command :
      ExecutionClaim → Option String → RunBundle P V → Outcome ExecutionError (RunBundle P V)
  complete_command current approval b = do
    assert_claim b current
    ok (record b { commands = complete_commands current approval b.commands })

  -- `release`
  unfoldable pub release : ExecutionClaim → RunBundle P V → RunBundle P V
  release current b =
      if is_current b current then record b { control = record (b.control) { owner = none } } else b

  -- `recover_owner`
  unfoldable pub recover_owner : RunBundle P V → RunBundle P V
  recover_owner b = record b {
    control = record (b.control) {
      owner = none;
      fencing_epoch = b.control.fencing_epoch + 1;
      tool_reserved = b.control.tool_reserved - refunds b.invocations;
    };
    invocations = map_values recover_invocation b.invocations;
  }

module _ {P : Type 0} where
  abbrev pub granted : ClaimRequest P → ℕ → ExecutionClaim
  granted r epoch = record { run_id = r.run_id; owner_token = r.owner_token; fencing_epoch = epoch }

module _ {P : Type 0} (codec : Payloads P) where
  abbrev pub granted_command : ClaimRequest P → ℕ → ℕ → Command P
  granted_command r epoch order = record {
    hash = codec.digest r.payload;
    payload = r.payload;
    completed = false;
    claim = some (granted r epoch);
    checkpoint_id = r.checkpoint_id;
    order = order;
  }

module _ {P V : Type 0} (codec : Payloads P) where
  -- The second half of `claim`: a request id that is new.
  unfoldable pub claim_new :
      ClaimRequest P
      → RunBundle P V
      → Outcome ExecutionError (Option ExecutionClaim × Bool × RunBundle P V)
  claim_new r b = do
    raise_if (is_some b.control.owner) ExecutionError.conflict
    let unknown = active_unknown b.invocations
    raise_if (not (subset unknown r.acknowledged)) ExecutionError.unknown_invocation
    let epoch = b.control.fencing_epoch + 1
    let control : Control V = record (b.control) {
      fencing_epoch = epoch;
      owner = some r.owner_token;
      instance_id = some r.instance_id;
      recovery_count =
          if r.recovery then b.control.recovery_count + 1 else b.control.recovery_count;
    }
    ok (
      some (granted r epoch),
      false,
      record b {
        control = control;
        invocations = acknowledge_all unknown b.invocations;
        commands =
            insert r.request_id (granted_command codec r epoch (length b.commands)) b.commands;
      },
    )

  abbrev pub claim_known :
      ClaimRequest P
      → RunBundle P V
      → Command P
      → Outcome ExecutionError (Option ExecutionClaim × Bool × RunBundle P V)
  claim_known r b previous = do
    raise_if (not (previous.hash == codec.digest r.payload)) ExecutionError.conflict
    ok (none, true, b)

  abbrev pub claim_by :
      ClaimRequest P
      → RunBundle P V
      → Option (Command P)
      → Outcome ExecutionError (Option ExecutionClaim × Bool × RunBundle P V)
  claim_by r b none = claim_new r b
  claim_by r b (some previous) = claim_known r b previous

  -- `claim`
  unfoldable pub claim :
      ClaimRequest P
      → RunBundle P V
      → Outcome ExecutionError (Option ExecutionClaim × Bool × RunBundle P V)
  claim r b = do
    raise_if (b.control.deleted || b.control.cancel_requested) ExecutionError.conflict
    raise_if (not (b.control.profile_hash == r.profile_hash)) ExecutionError.conflict
    claim_by r b (lookup r.request_id b.commands)

  -- `cancel`
  unfoldable pub cancel :
      Bool → Option String → RunBundle P V → Outcome ExecutionError (RunBundle P V)
  cancel deleted request_id b = do
    commands ← cancel_commands codec request_id b.commands
    ok (record b {
      control = record (b.control) {
        cancel_requested = true;
        deleted = b.control.deleted || deleted;
        fencing_epoch = b.control.fencing_epoch + 1;
        owner = none;
      };
      commands = commands;
      outbox = map_values (discard_if deleted) b.outbox;
    })
