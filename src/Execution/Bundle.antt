-- ===== src/Execution/Bundle.antt =====
-- The data of backend/src/atlasflow/execution/runtime.py, contracts.py and ports.py: what the
-- entries of a `RunBundle` hold. `P` is the type of a command's payload, `V` that of a result.
use atlas_flow_agent.Base.{ℕ, String, Bool, true, false, Option, none, nat_eq, string_eq, []}
use atlas_flow_agent.Base.Dict.{Dict}

pub data ExecutionError : Type 0 where
  -- ExecutionCancelled, ExecutionConflict and UnknownInvocation of contracts.py
  cancelled conflict unknown_invocation : ExecutionError
  -- ExecutionToolLimit of runtime.py, and the KeyError of a missing entry
  tool_limit missing_key : ExecutionError

pub record ExecutionClaim : Type 0 where
  pub run_id : String
  pub owner_token : String
  pub fencing_epoch : ℕ

pub record Control (V : Type 0) : Type 0 where
  pub profile_hash : String
  pub state_schema_version : ℕ
  pub owner : Option String
  pub fencing_epoch : ℕ
  pub cancel_requested : Bool
  pub deleted : Bool
  pub tool_limit : ℕ
  pub tool_reserved : ℕ
  pub recovery_count : ℕ
  pub retrieval_snapshot : Option V
  pub instance_id : Option String

pub data Status : Type 0 where
  reserved dispatched succeeded failed unknown : Status

abbrev pub is_reserved : Status → Bool
is_reserved Status.reserved = true
is_reserved _ = false

abbrev pub is_dispatched : Status → Bool
is_dispatched Status.dispatched = true
is_dispatched _ = false

abbrev pub is_succeeded : Status → Bool
is_succeeded Status.succeeded = true
is_succeeded _ = false

abbrev pub is_unknown : Status → Bool
is_unknown Status.unknown = true
is_unknown _ = false

-- What `finish_http` keeps of a provider's usage report; an amount counts its smallest unit.
pub record Usage : Type 0 where
  pub total_tokens : Option ℕ
  pub cost : Option ℕ
  pub other_amounts : ℕ

pub record Invocation (V : Type 0) : Type 0 where
  pub id : String
  pub slot : String
  pub input_hash : String
  pub kind : String
  pub name : String
  pub node_key : String
  pub status : Status
  pub replayable : Bool
  pub result : Option V
  pub tool_budget_counted : Bool
  pub acknowledged : Bool
  pub not_sent : Bool
  pub created_at : ℕ
  pub attempt : ℕ
  pub request_group : Option String
  pub attempt_number : Option ℕ
  pub requested_model : Option String
  pub request_id : Option String
  pub http_status : Option ℕ
  pub usage : Option Usage

pub record InvocationLease (V : Type 0) : Type 0 where
  pub run_id : String
  pub invocation_id : String
  pub slot : String
  pub claim : ExecutionClaim
  pub replay : Option V
  pub replayed : Bool

pub record Command (P : Type 0) : Type 0 where
  pub hash : String
  pub payload : P
  pub completed : Bool
  pub claim : Option ExecutionClaim
  pub checkpoint_id : Option String
  pub order : ℕ

-- An event's `patch`: its status, where it has one, and the rest.
pub record Patch (V : Type 0) : Type 0 where
  pub status : Option String
  pub rest : V

pub record Envelope (V : Type 0) : Type 0 where
  pub event : V
  pub patch : Patch V
  pub delivered : Bool
  pub discarded : Bool
  pub order : ℕ

pub record RunBundle (P V : Type 0) : Type 0 where
  pub control : Control V
  pub invocations : Dict (Invocation V)
  pub commands : Dict (Command P)
  pub outbox : Dict (Envelope V)

-- What the operations use of a payload: its hash, its `kind`, and the payload of a cancellation.
pub record Payloads (P : Type 0) : Type 0 where
  pub digest : P → String
  pub kind : P → String
  pub cancel : P

-- The control record that `bind_run` starts with.
unfoldable pub initial_control : {V : Type 0} → String → ℕ → Option V → Control V
initial_control profile_hash limit snapshot = record {
  profile_hash = profile_hash;
  state_schema_version = 1;
  owner = none;
  fencing_epoch = 0;
  cancel_requested = false;
  deleted = false;
  tool_limit = limit;
  tool_reserved = 0;
  recovery_count = 0;
  retrieval_snapshot = snapshot;
  instance_id = none;
}

-- The bundle that `bind` stores for it.
abbrev pub initial_bundle : {P V : Type 0} → String → ℕ → Option V → RunBundle P V
initial_bundle profile_hash limit snapshot = record {
  control = initial_control profile_hash limit snapshot;
  invocations = [];
  commands = [];
  outbox = [];
}
