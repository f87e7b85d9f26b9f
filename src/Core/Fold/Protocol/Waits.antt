-- ===== src/Core/Fold/Protocol/Waits.antt =====
-- packages/core/src/fold.ts: the cases of `applyProtocol` that register and satisfy waits.
use looms.Prelude.{
  String, Option, none, some, Bool, true, false, List, [], ◌∷◌, ◌&&◌, is_the, if◌then◌else◌, truthy,
  or_try, option_map, ◌>>=◌,
}
use looms.Prelude.Dict.{get, values}
use looms.Core.Json.{Json, obj, Fields, field_of, read_string, as_string, as_object}
use looms.Core.Envelope.{EventEnvelope}
use looms.Core.Effects.{WaitCondition}
use looms.Core.Thread.{ThreadStatus, running, waiting, is_terminal_status}
use looms.Core.State.{RunState, ThreadRecord, WaitRecord}
use looms.Core.Fold.Changes.{put_thread, add_wait, remove_wait, thread_waits, target_thread}

-- A thread that is not over waits.
abbrev mark_waiting : RunState → Option ThreadRecord → RunState
mark_waiting state none = state
mark_waiting state (some t) =
    if is_terminal_status t.status then state else put_thread state (record t { status = waiting })

-- `runtime.wait.registered`; the schema's decoder is a parameter
unfoldable pub wait_registered_step :
    (Json → Option WaitCondition) → RunState → EventEnvelope → Fields → Option RunState
unfolding put_thread add_wait target_thread get
wait_registered_step decode_condition state event payload = do
  wait_id ← truthy (read_string payload "waitId")
  thread_id ← target_thread event payload
  on ← as_object (field_of "on" payload)
  condition ← decode_condition (obj on)
  let next = add_wait state (record {
    wait_id = wait_id;
    thread_id = thread_id;
    on = condition;
    tag = field_of "tag" payload;
  })
  some (mark_waiting next (get thread_id next.threads))

-- The `raceId` of a wait's tag, if it is a string.
unfoldable pub race_id : WaitRecord → Option String
unfolding field_of
race_id w = as_object w.tag >>= λ tag. as_string (field_of "raceId" tag)

-- The loop over the siblings of a satisfied wait: those of its race go.
unfoldable pub drop_race : String → List WaitRecord → RunState → RunState
unfolding remove_wait race_id
drop_race race [] state = state
drop_race race (sibling ∷ siblings) state =
    drop_race race siblings
      (if is_the (race_id sibling) race then remove_wait state sibling.wait_id else state)

-- A satisfied wait that ran in a race ends the race.
unfoldable pub drop_losers : Option String → RunState → RunState
unfolding values
drop_losers none state = state
drop_losers (some race) state = drop_race race (values state.waits) state

abbrev pub is_waiting : ThreadStatus → Bool
is_waiting waiting = true
is_waiting _ = false

abbrev pub none_left : List WaitRecord → Bool
none_left [] = true
none_left (_ ∷ _) = false

-- A waiting thread whose last wait is gone runs again.
abbrev pub wake_thread : RunState → String → Option ThreadRecord → RunState
wake_thread state thread_id none = state
wake_thread state thread_id (some t) =
    if is_waiting t.status && none_left (thread_waits state thread_id)
    then put_thread state (record t { status = running })
    else state

unfoldable pub wake : RunState → Option String → RunState
unfolding put_thread thread_waits get
wake state none = state
wake state (some thread_id) = wake_thread state thread_id (get thread_id state.threads)

-- `runtime.wait.satisfied`
unfoldable pub wait_satisfied_step : RunState → EventEnvelope → Fields → Option RunState
unfolding put_thread remove_wait thread_waits get read_string
wait_satisfied_step state event payload = do
  wait_id ← truthy (read_string payload "waitId")
  let existing = get wait_id state.waits
  let next = drop_losers (truthy (existing >>= λ w. race_id w)) (remove_wait state wait_id)
  some (wake next (truthy (or_try (option_map (λ w. w.thread_id) existing) event.thread_id)))
