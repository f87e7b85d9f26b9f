-- ===== src/Core/Fold/Executions.antt =====
-- packages/core/src/fold.ts: the events that record how an effect's attempts run.
use looms.Prelude.{
  ℕ, String, Option, none, some, eqb, if◌then◌else◌, truthy, or_else, or_try, option_map, is_some,
  ◌>>=◌,
}
use looms.Prelude.Dict.{Dict, get, put}
use looms.Core.Json.{Json, Fields, field_of, read_string, as_number, non_null}
use looms.Core.Envelope.{
  EventEnvelope, EventType, effect_queued, effect_dispatched, worker_started, effect_heartbeat,
  cancel_requested, effect_timed_out,
}
use looms.Core.State.{RunState, EffectExecutionRecord, ExecutionStatus}

-- `executions[effectId]?.heartbeatDetails ?? null`
unfoldable pub progress_of : Dict EffectExecutionRecord → String → Option Json
unfolding get
progress_of executions effect_id =
    get effect_id executions >>= λ execution. execution.heartbeat_details

-- `priorHeartbeatDetails`
unfoldable pub prior_heartbeat_details : RunState → String → Option Json
prior_heartbeat_details state effect_id = progress_of state.effect_executions effect_id

-- `nextHeartbeatDetails`: only a heartbeat that carries `details` replaces the saved progress.
unfoldable pub next_heartbeat_details : RunState → String → EventType → Fields → Option Json
unfolding prior_heartbeat_details field_of
next_heartbeat_details state effect_id effect_heartbeat payload =
    if is_some (field_of "details" payload)
    then non_null (field_of "details" payload)
    else prior_heartbeat_details state effect_id
next_heartbeat_details state effect_id _ payload = prior_heartbeat_details state effect_id

unfoldable pub put_execution : RunState → EffectExecutionRecord → RunState
unfolding put
put_execution state execution = record state {
  effect_executions = put execution.effect_id execution state.effect_executions;
}

-- `runtime.effect.attempt.started`
unfoldable pub attempt_started_step : RunState → EventEnvelope → Fields → Option RunState
unfolding put_execution prior_heartbeat_details read_string
attempt_started_step state event payload = do
  effect_id ← truthy (read_string payload "effectId")
  attempt ← as_number (field_of "attempt" payload)
  some (
      put_execution state (record {
        effect_id = effect_id;
        attempt = attempt;
        status = ExecutionStatus.running;
        next_attempt_at = none;
        deadline_at = none;
        started_at = some event.ts;
        last_heartbeat_at = none;
        heartbeat_details = prior_heartbeat_details state effect_id;
        last_error = none;
        dispatch_try = 0;
      }))

abbrev progress_status : EventType → ExecutionStatus
progress_status effect_queued = ExecutionStatus.queued
progress_status effect_dispatched = ExecutionStatus.dispatched
progress_status worker_started = ExecutionStatus.started
progress_status effect_heartbeat = ExecutionStatus.heartbeat
progress_status cancel_requested = ExecutionStatus.cancel_requested
progress_status effect_timed_out = ExecutionStatus.timed_out
progress_status _ = ExecutionStatus.ambiguous

-- The record of the effect, if it is at this attempt.
abbrev at_attempt : ℕ → Option EffectExecutionRecord → Option EffectExecutionRecord
at_attempt attempt none = none
at_attempt attempt (some previous) = if eqb previous.attempt attempt then some previous else none

abbrev started_at : EventEnvelope → Option EffectExecutionRecord → Option ℕ
started_at event previous = elim event.type [
  | worker_started ↦ some event.ts
  | _ ↦ previous >>= λ p. p.started_at
]

-- `runtime.effect.queued`, `dispatched`, `worker.started`, `heartbeat`, `cancel.requested`,
-- `timed_out` and `ambiguous`
unfoldable pub progress_step : RunState → EventEnvelope → Fields → Option RunState
unfolding put_execution next_heartbeat_details read_string
progress_step state event payload = do
  effect_id ← truthy (read_string payload "effectId")
  attempt ← as_number (field_of "attempt" payload)
  let previous = at_attempt attempt (get effect_id state.effect_executions)
  some (
      put_execution state (record {
        effect_id = effect_id;
        attempt = attempt;
        status = progress_status event.type;
        next_attempt_at = none;
        deadline_at = as_number (field_of "deadlineAt" payload);
        started_at = started_at event previous;
        last_heartbeat_at =
            or_try (as_number (field_of "heartbeatAt" payload))
              (previous >>= λ p. p.last_heartbeat_at);
        heartbeat_details = next_heartbeat_details state effect_id event.type payload;
        last_error = read_string payload "error";
        dispatch_try = or_else (option_map (λ p. p.dispatch_try) previous) 0;
      }))

-- `runtime.effect.dispatch.deferred`
unfoldable pub dispatch_deferred_step : RunState → Fields → Option RunState
unfolding put_execution prior_heartbeat_details read_string
dispatch_deferred_step state payload = do
  effect_id ← truthy (read_string payload "effectId")
  attempt ← as_number (field_of "attempt" payload)
  retry_at ← as_number (field_of "retryAt" payload)
  dispatch_try ← as_number (field_of "try" payload)
  some (
      put_execution state (record {
        effect_id = effect_id;
        attempt = attempt;
        status = ExecutionStatus.dispatch_wait;
        next_attempt_at = some retry_at;
        deadline_at = some retry_at;
        started_at = none;
        last_heartbeat_at = none;
        heartbeat_details = prior_heartbeat_details state effect_id;
        last_error = some (or_else (read_string payload "error") "worker dispatch deferred");
        dispatch_try = dispatch_try;
      }))

-- `runtime.effect.retry.scheduled`
unfoldable pub retry_scheduled_step : RunState → Fields → Option RunState
unfolding put_execution prior_heartbeat_details read_string
retry_scheduled_step state payload = do
  effect_id ← truthy (read_string payload "effectId")
  attempt ← as_number (field_of "attempt" payload)
  next_attempt_at ← as_number (field_of "nextAttemptAt" payload)
  some (
      put_execution state (record {
        effect_id = effect_id;
        attempt = attempt;
        status = ExecutionStatus.retry_wait;
        next_attempt_at = some next_attempt_at;
        deadline_at = some next_attempt_at;
        started_at = none;
        last_heartbeat_at = none;
        heartbeat_details = prior_heartbeat_details state effect_id;
        last_error = some (or_else (read_string payload "error") "effect failed");
        dispatch_try = 0;
      }))
