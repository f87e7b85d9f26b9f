-- ===== src/Core/Fold/Tests.antt =====
-- Runs of the fold on concrete events, and its theorems at them.
pub mod Data
use Data.{timers, fetchers, event_of, history, base, page_thread, log_effect, one_thread}
use looms.Prelude.{
  ◌+◌, ℕ, String, ◌≡◌, refl, none, some, List, [], ◌∷◌, ◌++◌, true, false, ◌==◌, if◌then◌else◌,
  ◌>>=◌, ◌||◌, includes, any,
}
use looms.Prelude.Dict.{get, put, remove, keep, values}
use looms.Core.Json.{
  null, num, str, obj, Fields, end, field, as_number, field_of, read_string, payload_object,
}
use looms.Core.Ids.{create_effect_id, create_effect_id_at}
use looms.Core.Envelope.{
  EventEnvelope, EventType, system, thread_started, thread_failed, thread_cancelled,
  wait_registered, wait_satisfied, retry_scheduled, signal_received,
}
use looms.Core.Effects.{RuntimeEffect, invoke, on_timer}
use looms.Core.Thread.{ThreadDefinition, ThreadStatus}
use looms.Core.State.{RunState, ThreadRecord, WaitRecord, OutstandingEffect, empty_run_state}
use looms.Core.Fold.Protocol.{race_id, Decoders, Registry, all_cases, drop_race, apply_protocol}
use looms.Core.Fold.Changes.{target_thread, complete_effect, add_wait, remove_wait, thread_waits}
use looms.Core.Fold.Executions.{put_execution, prior_heartbeat_details, next_heartbeat_details}
use looms.Core.Fold.Reconcile.{
  reconcile_effects, settled_without_outcome, map_effects, stable_effect_id,
}
use looms.Core.Fold.Deliver.{deliver, receiver, fail_unhandled_effect, forget_completed_effects}
use looms.Core.Fold.Step.{record_event, fold_event, fold_run}
use looms.Core.Fold.Keys.{records, fold_run-keys}
use looms.Core.Fold.Replay.{durable, fold_run_resume}
use looms.Core.Fold.Keyed.{ThreadsKeyed, WaitsKeyed, ExecutionsKeyed, IsKeyed}
use looms.Core.Fold.Consistent.{IsConsistent, IsConsistent-empty, fold_run-IsConsistent}
use looms.Core.Fold.Terminal.{fold_event-frozen}
use looms.Core.Fold.Ending.{IsEnded, fold_event-failed, fold_event-cancelled}
use looms.Core.Fold.Waiting.{fold_event-waits}
use looms.Core.Fold.Mapping.{effect_ids, map_effects-ids}
use looms.Core.Fold.Progress.{fold_event-progress}

-- The line of a test that computes a fold.
all_of_fold : Unit {0}
unfolding record_event fold_run fold_event apply_protocol all_cases complete_effect drop_race
    reconcile_effects map_effects settled_without_outcome deliver receiver fail_unhandled_effect
    forget_completed_effects put_execution next_heartbeat_details get put remove keep values
    create_effect_id_at create_effect_id add_wait remove_wait thread_waits
all_of_fold = tt

abbrev after : RunState
after = fold_run timers fetchers base history

history_runs :
    (effect_ids after.outstanding_effects ≡ "t:page" ∷ "t:1:1" ∷ [])
    × (after.processed_idempotency_keys ≡ "k1" ∷ [])
unfolding all_of_fold
history_runs = (refl, refl)

fold_run-IsConsistent_example : IsConsistent (fold_run timers fetchers base history)
fold_run-IsConsistent_example =
    fold_run-IsConsistent timers fetchers base history (IsConsistent-empty "r")

fold_run_resume_example :
    fold_run timers fetchers (fold_run timers fetchers base (durable history)) (durable history)
    ≡ fold_run timers fetchers base (history ++ history)
fold_run_resume_example = fold_run_resume timers fetchers base history history

one_thread-IsKeyed : (status : ThreadStatus) → IsKeyed (one_thread status)
unfolding ThreadsKeyed WaitsKeyed ExecutionsKeyed
one_thread-IsKeyed status = record {
  threads = (refl, tt);
  distinct = (refl, tt);
  waits = ((refl, (refl, (refl, tt))), (refl, (refl, (refl, tt))));
  executions = tt;
}

fold_event-frozen_example :
    get "t"
      (fold_event timers fetchers
        (one_thread ThreadStatus.completed)
        (event_of 5 thread_cancelled end)).threads
    ≡ some (page_thread ThreadStatus.completed)
unfolding get
fold_event-frozen_example =
    fold_event-frozen timers fetchers (one_thread ThreadStatus.completed)
      (event_of 5 thread_cancelled end) "t" (page_thread ThreadStatus.completed)
      (one_thread-IsKeyed ThreadStatus.completed) refl refl refl

abbrev retry : EventEnvelope
retry = event_of 6 retry_scheduled (
    field "effectId" (str "t:page") (field "attempt" (num 2) (field "nextAttemptAt" (num 500) end)))
