-- ===== src/Core/Wire.antt =====
-- The JSON of an effect (`asJson` of types.ts): properties that are absent are left out.
use looms.Prelude.{String, Option, none, some, List, [], ◌∷◌}
use looms.Core.Json.{Json, null, bool, num, str, arr, obj, Items, nil, cons, Fields, end, field}
use looms.Core.Envelope.{EventInput, EventOrigin, thread, external, system, run, type_name}
use looms.Core.Effects.{
  WaitCondition, on_type, on_types, on_timer, ChildClose, terminate, wait_for, RuntimeEffect, spawn,
  wait, emit, complete, fail, cancel, launch, cancel_run, invoke, effect_type,
}

-- A property that is left out when it is undefined.
abbrev optional : String → Option Json → Fields → Fields
optional key none fs = fs
optional key (some v) fs = field key v fs

abbrev optional_with {ℓ} : {A : Type ℓ} → (A → Json) → String → Option A → Fields → Fields
optional_with f key none fs = fs
optional_with f key (some a) fs = field key (f a) fs

abbrev nullable : Option String → Json
nullable none = null
nullable (some s) = str s

abbrev strings : List String → Items
strings [] = nil
strings (s ∷ ss) = cons (str s) (strings ss)

abbrev origin_json : EventOrigin → Json
origin_json (thread id) = obj (field "type" (str "thread") (field "threadId" (str id) end))
origin_json (external actor) =
    obj (field "type" (str "external") (optional_with str "actorId" actor end))
origin_json system = obj (field "type" (str "system") end)
origin_json (run id) = obj (field "type" (str "run") (field "runId" (str id) end))

abbrev event_json : EventInput → Json
unfolding type_name
event_json e = obj (
    field "type" (str (type_name e.type)) (
      field "payload" e.payload (
        optional_with nullable "threadId" e.thread_id (
          optional_with nullable "parentThreadId" e.parent_thread_id (
            optional_with nullable "causationId" e.causation_id (
              optional_with nullable "correlationId" e.correlation_id (
                optional_with nullable "effectId" e.effect_id (
                  optional_with origin_json "origin" e.origin (
                    optional_with bool "ephemeral" e.ephemeral (
                      optional_with str "id" e.id (
                        optional_with num "ts" e.ts
                          (optional_with nullable "idempotencyKey" e.idempotency_key end))))))))))))

abbrev condition_json : WaitCondition → Json
condition_json (on_type name match) = obj (field "type" (str name) (optional "match" match end))
condition_json (on_types names match) =
    obj (field "type" (arr (strings names)) (optional "match" match end))
condition_json (on_timer at) = obj (field "timerAt" (num at) end)

abbrev close_json : ChildClose → Json
close_json terminate = str "terminate"
close_json wait_for = str "wait"

-- The properties of an effect other than its type.
abbrev effect_fields : RuntimeEffect → Fields
effect_fields (spawn child kind name version input) = field "childThreadId" (str child) (
    field "kind" (str kind) (
      field "definitionName" (str name)
        (field "definitionVersion" (str version) (field "input" input end))))
effect_fields (wait id on tag) =
    field "waitId" (str id) (field "on" (condition_json on) (optional "tag" tag end))
effect_fields (emit event tag) = field "event" (event_json event) (optional_with str "tag" tag end)
effect_fields (complete output) = field "output" output end
effect_fields (fail error) = field "error" (str error) end
effect_fields (cancel id tag) = field "threadId" (str id) (optional_with str "tag" tag end)
effect_fields (launch id kind name version input close tag) = field "runId" (str id) (
    field "kind" (str kind) (
      field "definitionName" (str name) (
        field "definitionVersion" (str version) (
          field "input" input
            (field "close" (close_json close) (optional_with str "tag" tag end))))))
effect_fields (cancel_run id tag) = field "runId" (str id) (optional_with str "tag" tag end)
effect_fields (invoke type input tag at) =
    field "input" input (optional_with str "tag" tag (optional_with num "at" at end))

unfoldable pub effect_json : RuntimeEffect → Json
unfolding effect_type type_name
effect_json e = obj (field "type" (str (effect_type e)) (effect_fields e))
