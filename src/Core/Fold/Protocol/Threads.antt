-- ===== src/Core/Fold/Protocol/Threads.antt =====
-- packages/core/src/fold.ts: the cases of `applyProtocol` that start and end threads.
use looms.Prelude.{
  String, Option, none, some, ◌<>◌, if◌then◌else◌, truthy, or_else, or_try, not, is_some, ◌>>=◌,
  ◌>>◌, guard,
}
use looms.Prelude.Dict.{get}
use looms.Core.Json.{Json, obj, Fields, end, field_of, read_string, as_string, or_null, non_null}
use looms.Core.Envelope.{EventEnvelope}
use looms.Core.Thread.{ThreadDefinition, running, completed, failed, cancelled, is_terminal_status}
use looms.Core.State.{RunState, ThreadRecord}
use looms.Core.Fold.Changes.{put_thread, drop_thread_work, target_thread}

-- `registry.threads.get`: the modules' definitions by kind
abbrev pub Registry : Type 0
Registry = String → Option ThreadDefinition

abbrev pub default_definition_version : String
default_definition_version = "v1"

abbrev initial_state : ThreadDefinition → EventEnvelope → ThreadRecord → Json
initial_state definition event t = definition.initial_state (record {
  run_id = event.run_id;
  thread_id = t.thread_id;
  parent_thread_id = t.parent_thread_id;
  definition_name = t.definition_name;
  definition_version = t.definition_version;
  input = t.input;
})

-- The record of a thread that starts; a kind that no module defines fails at once.
abbrev started_thread : Option ThreadDefinition → EventEnvelope → ThreadRecord → ThreadRecord
started_thread none event t = record t {
  status = failed;
  error = some ("Unsupported thread kind: " <> t.kind);
}
started_thread (some definition) event t = record t { state = initial_state definition event t }

abbrev with_root : String → RunState → RunState
with_root thread_id state =
    if is_some (truthy state.root_thread_id)
    then state
    else record state { root_thread_id = some thread_id }

-- `runtime.thread.started`
unfoldable pub thread_started_step : Registry → RunState → EventEnvelope → Fields → Option RunState
thread_started_step registry state event payload = do
  thread_id ← target_thread event payload
  kind ← truthy (read_string payload "kind")
  name ← truthy (read_string payload "definitionName")
  let t = started_thread (registry kind) event (record {
    thread_id = thread_id;
    kind = kind;
    definition_name = name;
    definition_version =
        or_else (read_string payload "definitionVersion") default_definition_version;
    parent_thread_id = as_string (field_of "parentThreadId" payload);
    status = running;
    input = or_null (field_of "input" payload);
    output = none;
    error = none;
    state = obj end;
  })
  some (with_root thread_id (put_thread state t))

-- `runtime.thread.completed`
unfoldable pub thread_completed_step : RunState → EventEnvelope → Fields → Option RunState
thread_completed_step state event payload = do
  thread_id ← target_thread event payload
  existing ← get thread_id state.threads
  some (
      put_thread state (record existing {
        status = completed;
        output = non_null (field_of "output" payload);
        error = none;
      }))

-- `runtime.thread.failed`
unfoldable pub thread_failed_step : RunState → EventEnvelope → Fields → Option RunState
thread_failed_step state event payload = do
  thread_id ← target_thread event payload
  existing ← get thread_id state.threads
  let error = some (or_else (read_string payload "error") "failed")
  some (
      drop_thread_work (put_thread state (record existing { status = failed; error = error }))
        thread_id)

-- `runtime.thread.cancelled`
unfoldable pub thread_cancelled_step : RunState → EventEnvelope → Fields → Option RunState
thread_cancelled_step state event payload = do
  thread_id ← target_thread event payload
  existing ← get thread_id state.threads
  guard (not (is_terminal_status existing.status))
  let error = or_try (read_string payload "reason") existing.error
  some (
      drop_thread_work (put_thread state (record existing { status = cancelled; error = error }))
        thread_id)
