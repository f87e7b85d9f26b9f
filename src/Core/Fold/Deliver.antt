-- ===== src/Core/Fold/Deliver.antt =====
-- packages/core/src/fold.ts: `deliver`, which runs a module's code on an event, and what follows
-- a failed effect that no thread handles.
use looms.Prelude.{
  false, ◌≡◌, ◌⊎◌, inl, inr, Option-cases, Bool-cases, ◌++◌, String, Option, none, some, Bool, List,
  [], ◌∷◌, ◌<>◌, ◌||◌, not, if◌then◌else◌, truthy, or_else, or_try, filter, any, map, includes,
  starts_with, ◌>>=◌, ◌>>◌, guard,
}
use looms.Prelude.Dict.{get}
use looms.Core.Json.{payload_object, read_string}
use looms.Core.Envelope.{EventEnvelope, external, effect_failed}
use looms.Core.Effects.{RuntimeEffect, is_withdrawn_error}
use looms.Core.Thread.{ThreadDefinition, ThreadContext, failed, is_terminal_status}
use looms.Core.State.{RunState, ThreadRecord, OutstandingEffect}
use looms.Core.Fold.Changes.{put_thread, drop_thread_work}
use looms.Core.Fold.Protocol.{Registry}
use looms.Core.Fold.Reconcile.{stable_effect_id, reconcile_effects}

-- `id === undefined ? [] : [id]`
abbrev pub option_list : Option String → List String
option_list none = []
option_list (some id) = id ∷ []

abbrev pub enabled_ids : String → List RuntimeEffect → List String
enabled_ids thread_id [] = []
enabled_ids thread_id (effect ∷ effects) =
    option_list (stable_effect_id thread_id effect) ++ enabled_ids thread_id effects

-- `forgetCompletedEffects`. When nothing is dropped the filtered list is the list itself.
unfoldable pub forget_completed_effects : RunState → String → List RuntimeEffect → RunState
unfolding stable_effect_id
forget_completed_effects state thread_id enabled = record state {
  completed_effect_ids =
      filter
        (λ id.
          not (starts_with id (thread_id <> ":")) || includes (enabled_ids thread_id enabled) id)
        state.completed_effect_ids;
}

-- The thread that an event goes to: its own, or the root thread if it comes from outside.
unfoldable pub receiver : RunState → EventEnvelope → Option String
receiver state event =
    truthy
      (or_try event.thread_id (elim event.origin [ external _ ↦ state.root_thread_id | _ ↦ none ]))

abbrev pub thread_context : RunState → String → ThreadRecord → ThreadContext
thread_context state thread_id t = record {
  run_id = state.run_id;
  thread_id = thread_id;
  parent_thread_id = t.parent_thread_id;
}

-- The rest of `deliver`, once the thread and its definition are known.
unfoldable pub deliver_to :
    RunState
    → EventEnvelope
    → Option OutstandingEffect
    → String
    → ThreadRecord
    → ThreadDefinition
    → RunState
unfolding put_thread
deliver_to state event settled thread_id t definition =
    let context = thread_context state thread_id t in
    let next_state = definition.step t.state event context in
    let enabled = definition.effects next_state context in
    let next = put_thread state (record t { state = next_state }) in
    let reconciled = reconcile_effects next thread_id event enabled settled in
    if definition.forgets_completed_effects
    then forget_completed_effects reconciled thread_id enabled
    else reconciled

unfoldable pub deliver : Registry → RunState → EventEnvelope → Option OutstandingEffect → RunState
unfolding deliver_to
deliver registry state event settled =
    or_else
      (do
        thread_id ← receiver state event
        t ← get thread_id state.threads
        guard (not (is_terminal_status t.status))
        definition ← registry t.kind
        some (deliver_to state event settled thread_id t definition))
      state

-- A delivery either changes nothing or runs the definition of a thread that is not over.
pub deliver-cases :
    (registry : Registry) (s : RunState) (event : EventEnvelope)
    (settled : Option OutstandingEffect)
    → (deliver registry s event settled ≡ s)
      ⊎ ((id : String) × (t : ThreadRecord) × (definition : ThreadDefinition) × (receiver s event
            ≡ some id)
          × (get id s.threads ≡ some t)
          × (is_terminal_status t.status ≡ false)
          × (registry t.kind ≡ some definition)
          × (deliver registry s event settled ≡ deliver_to s event settled id t definition))
deliver-cases registry s event settled = elim (Option-cases (receiver s event)) [
  | inl missing ↦ inl (unfold deliver in rw missing)
  | inr (id, e) ↦ elim (Option-cases (get id s.threads)) [
    | inl missing ↦ inl (unfold deliver in rw (e, missing))
    | inr (t, found) ↦ elim (Bool-cases (is_terminal_status t.status)) [
      | inl over ↦ inl (unfold deliver in rw (e, found, over))
      | inr live ↦ elim (Option-cases (registry t.kind)) [
        | inl missing ↦ inl (unfold deliver in rw (e, found, live, missing))
        | inr (definition, known) ↦
            inr (
              id,
              t,
              definition,
              e,
              found,
              live,
              known,
              unfold deliver in rw (e, found, live, known),
            )
      ]
    ]
  ]
]

-- Whether an effect is outstanding that was not before the delivery.
unfoldable pub handled : RunState → List OutstandingEffect → Bool
handled state before =
    any (λ item. not (includes (map (λ b. b.effect_id) before) item.effect_id))
      state.outstanding_effects

abbrev failure_error : EventEnvelope → String
failure_error event = or_else (read_string (payload_object event.payload) "error") "effect failed"

-- `failUnhandledEffect`
unfoldable pub fail_unhandled_effect : RunState → EventEnvelope → List OutstandingEffect → RunState
unfolding put_thread drop_thread_work get handled is_withdrawn_error read_string
fail_unhandled_effect state event before = elim event.type [
  | effect_failed ↦
      or_else
        (do
          guard (not (is_withdrawn_error (failure_error event)))
          guard (not (handled state before))
          thread_id ← truthy event.thread_id
          t ← get thread_id state.threads
          guard (not (is_terminal_status t.status))
          some (
              drop_thread_work
                (put_thread state
                  (record t { status = failed; error = some (failure_error event) }))
                thread_id))
        state
  | _ ↦ state
]
