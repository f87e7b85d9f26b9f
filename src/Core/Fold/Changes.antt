-- ===== src/Core/Fold/Changes.antt =====
-- packages/core/src/fold.ts: the small updates of a run's state.
use looms.Prelude.{
  String, Option, List, [], ◌∷◌, ◌++◌, ◌==◌, filter, includes, not, if◌then◌else◌, truthy, or_try,
}
use looms.Prelude.Dict.{put, remove, keep, values}
use looms.Core.Json.{Fields, read_string}
use looms.Core.Envelope.{EventEnvelope}
use looms.Core.State.{RunState, ThreadRecord, WaitRecord}

-- `completeEffect`: the effect is no longer outstanding, and its id is remembered once.
unfoldable pub complete_effect : RunState → String → RunState
unfolding remove
complete_effect state effect_id = record state {
  outstanding_effects =
      filter (λ item. not (item.effect_id == effect_id)) state.outstanding_effects;
  effect_executions = remove effect_id state.effect_executions;
  completed_effect_ids =
      if includes state.completed_effect_ids effect_id
      then state.completed_effect_ids
      else state.completed_effect_ids ++ effect_id ∷ [];
}

unfoldable pub put_thread : RunState → ThreadRecord → RunState
unfolding put
put_thread state t = record state { threads = put t.thread_id t state.threads }

unfoldable pub add_wait : RunState → WaitRecord → RunState
unfolding put
add_wait state w = record state { waits = put w.wait_id w state.waits }

unfoldable pub remove_wait : RunState → String → RunState
unfolding remove
remove_wait state wait_id = record state { waits = remove wait_id state.waits }

unfoldable pub thread_waits : RunState → String → List WaitRecord
unfolding values
thread_waits state thread_id = filter (λ w. w.thread_id == thread_id) (values state.waits)

-- `dropThreadWork`: the thread's waits and outstanding effects go.
unfoldable pub drop_thread_work : RunState → String → RunState
unfolding keep
drop_thread_work state thread_id = record state {
  waits = keep (λ w. not (w.thread_id == thread_id)) state.waits;
  outstanding_effects =
      filter (λ item. not (item.thread_id == thread_id)) state.outstanding_effects;
}

-- `readString(payload, 'threadId') ?? event.threadId`, where an empty id is no id.
unfoldable pub target_thread : EventEnvelope → Fields → Option String
unfolding read_string
target_thread event payload = truthy (or_try (read_string payload "threadId") event.thread_id)
