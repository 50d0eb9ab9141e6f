-- ===== src/Execution/Outbox/Tests.antt =====
-- One event of backend/src/atlasflow/execution/runtime.py, emitted twice and delivered once.
use atlas_flow_agent.Base.{
  String, ◌≡◌, refl, none, some, ◌∷◌, Outcome, ok, raise, contains, distinct, string_eq, [],
}
use atlas_flow_agent.Base.Dict.{lookup, insert, adjust, set_default}
use atlas_flow_agent.Execution.Bundle.{ExecutionError, RunBundle, initial_bundle, initial_control}
use atlas_flow_agent.Base.Sorting.{insert_stable, sort_by}
use atlas_flow_agent.Execution.Outbox.{EmitRequest, emit, sort_by_order, deliver, flush}
use atlas_flow_agent.Base.Sorting.{insert_stable, sort_by}
use atlas_flow_agent.Execution.Outbox.Repeats.{emit_again}
use atlas_flow_agent.Base.Sorting.{insert_stable, sort_by}
use atlas_flow_agent.Execution.Outbox.Delivery.{flush_again}

-- What the tests run.
unfoldable program : Unit {0}
unfolding contains distinct lookup insert adjust set_default initial_control emit insert_stable
    sort_by sort_by_order deliver flush
program = tt

abbrev start : RunBundle String String
start = initial_bundle "profile" 2 none

abbrev finished : EmitRequest String
finished = record {
  event_id = "event";
  event = "finished";
  patch = record { status = some "completed"; rest = "report" };
  claim = none;
}

abbrev bundle_of : Outcome ExecutionError (RunBundle String String) → RunBundle String String
bundle_of (ok b) = b
bundle_of (raise e) = start

abbrev emitted : RunBundle String String
emitted = bundle_of (emit finished start)

emit_again_example : emit (record finished { event = "again" }) emitted ≡ ok emitted
unfolding program
emit_again_example =
    emit_again finished (record finished { event = "again" }) start emitted refl refl refl refl

delivers :
    (flush emitted).0 ≡ ("finished", record { status = some "completed"; rest = "report" }) ∷ []
unfolding program
delivers = refl

flush_again_example : (flush (flush emitted).1).0 ≡ []
unfolding program
flush_again_example = flush_again emitted refl
