-- ===== src/Core/Fold/Protocol/Runs.antt =====
-- packages/core/src/fold.ts: the cases of `applyProtocol` about the run and the runs it launched.
use looms.Prelude.{
  String, Option, none, some, true, [], ◌∷◌, ◌++◌, ◌==◌, ◌||◌, not, is_the, if◌then◌else◌, truthy,
  or_else, any, filter, ◌>>=◌, ◌>>◌, guard,
}
use looms.Prelude.Dict.{Dict}
use looms.Core.Json.{Json, Fields, field_of, read_string, as_number, or_null}
use looms.Core.Envelope.{EventEnvelope}
use looms.Core.Effects.{WaitCondition, ChildClose, terminate, wait_for}
use looms.Core.State.{RunState, RunStatus, RunStartIdentity, RunLaunchSource, TraceContext}
use looms.Core.Fold.Protocol.Threads.{default_definition_version}

-- `Schema.decodeUnknownOption` of the effect library, at the four schemas that the fold decodes.
pub record Decoders : Type 0 where
  pub wait_condition : Json → Option WaitCondition
  pub attributes : Json → Option (Dict String)
  pub launch_source : Json → Option RunLaunchSource
  pub trace : Json → Option TraceContext

-- `readAttributes`
abbrev read_attributes : Decoders → Option Json → Dict String
read_attributes d value = or_else (value >>= d.attributes) []

-- The identity of a start event that names its root thread, its kind and its definition.
abbrev start_identity : Decoders → EventEnvelope → Fields → Option RunStartIdentity
start_identity d event payload = do
  root_thread_id ← truthy (read_string payload "rootThreadId")
  kind ← truthy (read_string payload "kind")
  name ← truthy (read_string payload "definitionName")
  version ←
      truthy (some (or_else (read_string payload "definitionVersion") default_definition_version))
  some (record {
    kind = kind;
    definition_name = name;
    definition_version = version;
    input = or_null (field_of "input" payload);
    requested_thread_id = read_string payload "requestedThreadId";
    idempotency_key = event.idempotency_key;
    root_thread_id = root_thread_id;
    launched_by = field_of "launchedBy" payload >>= d.launch_source;
    correlation_id = event.correlation_id;
    attributes = read_attributes d (field_of "attributes" payload);
    trace = field_of "trace" payload >>= d.trace;
  })

abbrev identity_attributes : Option RunStartIdentity → Dict String
identity_attributes none = []
identity_attributes (some identity) = identity.attributes

-- `runtime.run.started`
unfoldable pub run_started_step : Decoders → RunState → EventEnvelope → Fields → RunState
unfolding field_of read_string
run_started_step d state event payload =
    let identity = start_identity d event payload in
    record state {
      run_id = event.run_id;
      root_thread_id = read_string payload "rootThreadId";
      start_identity = identity;
      attributes = identity_attributes identity;
      status = RunStatus.running;
    }

-- `runtime.run.forked`: the attempts of the copied history belong to the source run.
unfoldable pub run_forked_step : RunState → Fields → Option RunState
unfolding field_of read_string
run_forked_step state payload = do
  source ← truthy (read_string payload "sourceRunId")
  seq ← as_number (field_of "sourceSeq" payload)
  some (record state {
    forked_from = some (record { run_id = source; seq = seq });
    effect_executions = [];
  })

abbrev read_close : Option String → Option ChildClose
read_close none = none
read_close (some close) =
    if close == "terminate" then some terminate else if close == "wait" then some wait_for else none

-- `runtime.run.launched`
unfoldable pub run_launched_step : RunState → Fields → Option RunState
unfolding field_of read_string
run_launched_step state payload = do
  child ← truthy (read_string payload "runId")
  guard (not (any (λ run. run.run_id == child) state.launched_runs))
  close ← read_close (read_string payload "close")
  some (record state {
    launched_runs = state.launched_runs ++ record { run_id = child; close = close } ∷ [];
  })

-- `runtime.child.settled`
unfoldable pub child_settled_step : RunState → Fields → Option RunState
unfolding field_of read_string
child_settled_step state payload = do
  child ← truthy (read_string payload "runId")
  some (record state {
    launched_runs = filter (λ run. not (run.run_id == child)) state.launched_runs;
  })

-- `runtime.child.close.requested`
unfoldable pub child_close_step : RunState → Fields → RunState
unfolding field_of read_string
child_close_step state payload = record state {
  child_close_sent = true;
  close_waiting = is_the (read_string payload "policy") "wait" || state.close_waiting;
}
