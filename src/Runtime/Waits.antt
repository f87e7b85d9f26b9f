-- ===== src/Runtime/Waits.antt =====
-- packages/runtime/src/helpers.ts: `waitSatisfiedEvents`, which reports the waits that events satisfy.
mod Once
mod Shared
mod Folded
mod Remaining
mod Exactly
mod Tests
use looms.Prelude.{
  String, Option, none, some, Bool, true, false, List, [], ◌∷◌, ◌++◌, map, ◌||◌, if◌then◌else◌,
}
use looms.Prelude.Dict.{Dict, remove, values}
use looms.Core.Json.{Json, obj, str, end, field, or_null}
use looms.Core.Envelope.{EventEnvelope, EventInput, EventType, wait_satisfied, type_name}
use looms.Core.State.{RunState, WaitRecord}
use looms.Core.Match.{matching_waits}

unfoldable pub satisfied_payload : EventEnvelope → WaitRecord → Json
unfolding type_name
satisfied_payload event record' = obj (
    field "waitId" (str record'.wait_id) (
      field "tag" (or_null record'.tag) (
        field "event"
          (obj (
            field "id" (str event.id)
              (field "type" (str (type_name event.type)) (field "payload" event.payload end))))
          end)))

abbrev pub satisfied_input : EventEnvelope → WaitRecord → EventInput
satisfied_input event record' = record {
  type = wait_satisfied;
  payload = satisfied_payload event record';
  thread_id = some (some record'.thread_id);
  parent_thread_id = none;
  causation_id = some (some event.id);
  correlation_id = none;
  effect_id = none;
  origin = none;
  ephemeral = none;
  id = none;
  ts = none;
  idempotency_key = none;
}

-- `delete remaining[record.waitId]`, for each record
unfoldable pub drop_waits : List WaitRecord → Dict WaitRecord → Dict WaitRecord
unfolding remove
drop_waits [] remaining = remaining
drop_waits (record' ∷ records) remaining = drop_waits records (remove record'.wait_id remaining)

abbrev is_wait_satisfied : EventType → Bool
is_wait_satisfied wait_satisfied = true
is_wait_satisfied _ = false

-- What satisfies no wait.
abbrev pub is_passed_over : EventEnvelope → Bool
is_passed_over event = event.ephemeral || is_wait_satisfied event.type

-- The loop over the events.
unfoldable pub satisfied_from : List EventEnvelope → Dict WaitRecord → List EventInput
unfolding matching_waits drop_waits values
satisfied_from [] remaining = []
satisfied_from (event ∷ events) remaining =
    let matches = matching_waits event (values remaining) in
    let passed = satisfied_from events remaining in
    let rest = satisfied_from events (drop_waits matches remaining) in
    if is_passed_over event then passed else map (satisfied_input event) matches ++ rest

-- `waitSatisfiedEvents`
unfoldable pub wait_satisfied_events : RunState → List EventEnvelope → List EventInput
unfolding satisfied_from
wait_satisfied_events state events = satisfied_from events state.waits
