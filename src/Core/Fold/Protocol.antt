-- ===== src/Core/Fold/Protocol.antt =====
-- packages/core/src/fold.ts: `applyProtocol`, one function for each group of cases of its switch.
-- A function returns none where the case returns the state unchanged. The schema decoders of the
-- effect library are parameters.
mod Threads
mod Waits
mod Runs
pub use Threads.{Registry}
unfoldable pub use Threads.{
  thread_started_step, thread_completed_step, thread_failed_step, thread_cancelled_step,
}
unfoldable pub use Waits.{
  wait_registered_step, wait_satisfied_step, drop_race, drop_losers, wake, wake_thread, race_id,
}
pub use Runs.{Decoders}
unfoldable pub use Runs.{
  run_started_step, run_forked_step, run_launched_step, child_settled_step, child_close_step,
}
use looms.Prelude.{◌≡◌, ap, Option, none, some, or_else, option_map, truthy}
use looms.Core.Json.{Fields, payload_object, read_string}
use looms.Core.Envelope.{
  EventEnvelope, EventType, run_started, run_completed, run_cancelled, run_forked, thread_started,
  thread_completed, thread_failed, thread_cancelled, attempt_started, effect_queued,
  effect_dispatched, worker_started, effect_heartbeat, cancel_requested, effect_timed_out,
  effect_ambiguous, dispatch_deferred, effect_cancelled, retry_scheduled, wait_registered,
  wait_satisfied, run_launched, child_settled, child_close_requested,
}
use looms.Core.State.{RunState, RunStatus, completed_run_status}
use looms.Core.Fold.Changes.{complete_effect, put_thread, target_thread, drop_thread_work}
use looms.Prelude.Dict.{get}
use looms.Core.Fold.Executions.{
  attempt_started_step, progress_step, dispatch_deferred_step, retry_scheduled_step,
}

-- The switch of `applyProtocol`, by the event's type.
unfoldable pub protocol_case :
    Decoders → Registry → RunState → EventEnvelope → Fields → EventType → Option RunState
protocol_case d registry state event payload run_started =
    some (run_started_step d state event payload)
protocol_case d registry state event payload run_completed =
    some (record state { status = completed_run_status payload })
protocol_case d registry state event payload run_cancelled =
    some (record state { status = RunStatus.cancelled })
protocol_case d registry state event payload run_forked = run_forked_step state payload
protocol_case d registry state event payload thread_started =
    thread_started_step registry state event payload
protocol_case d registry state event payload thread_completed =
    thread_completed_step state event payload
protocol_case d registry state event payload thread_failed = thread_failed_step state event payload
protocol_case d registry state event payload thread_cancelled =
    thread_cancelled_step state event payload
protocol_case d registry state event payload attempt_started =
    attempt_started_step state event payload
protocol_case d registry state event payload effect_queued = progress_step state event payload
protocol_case d registry state event payload effect_dispatched = progress_step state event payload
protocol_case d registry state event payload worker_started = progress_step state event payload
protocol_case d registry state event payload effect_heartbeat = progress_step state event payload
protocol_case d registry state event payload cancel_requested = progress_step state event payload
protocol_case d registry state event payload effect_timed_out = progress_step state event payload
protocol_case d registry state event payload effect_ambiguous = progress_step state event payload
protocol_case d registry state event payload dispatch_deferred =
    dispatch_deferred_step state payload
protocol_case d registry state event payload effect_cancelled =
    option_map (complete_effect state) (truthy (read_string payload "effectId"))
protocol_case d registry state event payload retry_scheduled = retry_scheduled_step state payload
protocol_case d registry state event payload wait_registered =
    wait_registered_step d.wait_condition state event payload
protocol_case d registry state event payload wait_satisfied =
    wait_satisfied_step state event payload
protocol_case d registry state event payload run_launched = run_launched_step state payload
protocol_case d registry state event payload child_settled = child_settled_step state payload
protocol_case d registry state event payload child_close_requested =
    some (child_close_step state payload)
protocol_case d registry state event payload _ = none

unfoldable pub apply_protocol : Decoders → Registry → RunState → EventEnvelope → RunState
unfolding protocol_case
apply_protocol d registry state event =
    or_else (protocol_case d registry state event (payload_object event.payload) event.type) state

pub apply_protocol-case :
    (d : Decoders) (registry : Registry) (s : RunState) (event : EventEnvelope) (type : EventType)
    → event.type ≡ type
    → apply_protocol d registry s event
      ≡ or_else (protocol_case d registry s event (payload_object event.payload) type) s
unfolding apply_protocol
apply_protocol-case d registry s event type e =
    ap (λ ty. or_else (protocol_case d registry s event (payload_object event.payload) ty) s) e

-- The line of a proof that computes with every case.
unfoldable pub all_cases : Unit {0}
unfolding protocol_case run_started_step run_forked_step run_launched_step child_settled_step
    child_close_step thread_started_step thread_completed_step thread_failed_step
    thread_cancelled_step attempt_started_step progress_step dispatch_deferred_step
    retry_scheduled_step wait_registered_step wait_satisfied_step drop_losers wake put_thread
    target_thread drop_thread_work get
all_cases = tt
