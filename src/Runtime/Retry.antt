-- ===== src/Runtime/Retry.antt =====
-- packages/runtime/src/retry-policy.ts, and `createEffectFailedEvent` of helpers.ts. The multiplier of a
-- backoff is a whole number here.
mod Delays
mod Attempts
mod Tests
use looms.Prelude.{
  ℕ, ◌+◌, ◌-◌, ◌*◌, ◌^◌, min, max, String, Option, none, some, Bool, true, false, or_else, leb,
  ◌||◌, if◌then◌else◌,
}
use looms.Core.Json.{Json, Fields, obj, str, num, bool, end, field}
use looms.Core.Envelope.{
  EventEnvelope, EventInput, EventType, EventOrigin, system, effect_failed, retry_scheduled,
  create_event,
}
use looms.Core.State.{OutstandingEffect}

-- `RetryPolicy` of packages/core/src/effects.ts
pub record RetryPolicy : Type 0 where
  pub max_attempts : ℕ
  pub backoff_ms : Option ℕ
  pub max_backoff_ms : Option ℕ
  pub backoff_multiplier : Option ℕ
  pub schedule_to_start_timeout_ms : Option ℕ
  pub start_to_close_timeout_ms : Option ℕ
  pub heartbeat_timeout_ms : Option ℕ
  pub cancellation_timeout_ms : Option ℕ

-- Number.MAX_SAFE_INTEGER
abbrev pub max_safe_integer : ℕ
max_safe_integer = 9007199254740991

-- `retryBackoff`
unfoldable pub retry_backoff : RetryPolicy → ℕ → ℕ
retry_backoff retry attempt =
    let base = max 1 (or_else retry.backoff_ms 100) in
    let multiplier = max 1 (or_else retry.backoff_multiplier 2) in
    min (base * multiplier ^ (attempt - 1)) (or_else retry.max_backoff_ms max_safe_integer)

-- `retryDelay`: a delay that was asked for and is no finite number, or is below 0, is none.
unfoldable pub retry_delay : RetryPolicy → ℕ → Option ℕ → ℕ
unfolding retry_backoff
retry_delay retry attempt none = retry_backoff retry attempt
retry_delay retry attempt (some retry_after_ms) = max (retry_backoff retry attempt) retry_after_ms

abbrev pub failed_payload : OutstandingEffect → String → Bool → Json
failed_payload item error non_retryable = obj (
    field "effectId" (str item.effect_id) (
      field "error" (str error)
        (if non_retryable then field "nonRetryable" (bool true) end else end)))

-- `createEffectFailedEvent`; a new id and the clock are arguments.
unfoldable pub create_effect_failed_event :
    String → ℕ → String → OutstandingEffect → String → Bool → EventEnvelope
unfolding create_event
create_effect_failed_event new_id clock run_id item error non_retryable =
    create_event new_id clock run_id
      (record {
        type = effect_failed;
        payload = failed_payload item error non_retryable;
        thread_id = some (some item.thread_id);
        parent_thread_id = none;
        causation_id = some (some item.causing_event_id);
        correlation_id = none;
        effect_id = some (some item.effect_id);
        origin = some system;
        ephemeral = none;
        id = none;
        ts = none;
        idempotency_key = none;
      })
      0

-- The input of `planAttemptFailure`
pub record AttemptFailure : Type 0 where
  pub run_id : String
  pub item : OutstandingEffect
  pub attempt : ℕ
  pub error : String
  pub now : ℕ
  pub retry : Option RetryPolicy
  pub origin : EventOrigin
  pub non_retryable : Bool
  pub retry_after_ms : Option ℕ

pub record AttemptFailurePlan : Type 0 where
  pub event : EventEnvelope
  pub retrying : Bool

unfoldable pub retry_payload : AttemptFailure → RetryPolicy → Json
unfolding retry_delay
retry_payload input retry = obj (
    field "effectId" (str input.item.effect_id) (
      field "attempt" (num input.attempt) (
        field "nextAttemptAt"
          (num (input.now + retry_delay retry input.attempt input.retry_after_ms))
          (field "error" (str input.error) end))))

unfoldable pub retry_event : String → ℕ → AttemptFailure → RetryPolicy → EventEnvelope
unfolding create_event retry_payload
retry_event new_id clock input retry =
    create_event new_id clock input.run_id
      (record {
        type = retry_scheduled;
        payload = retry_payload input retry;
        thread_id = some (some input.item.thread_id);
        parent_thread_id = none;
        causation_id = some (some input.item.causing_event_id);
        correlation_id = none;
        effect_id = none;
        origin = some input.origin;
        ephemeral = none;
        id = none;
        ts = none;
        idempotency_key = none;
      })
      0

-- Whether the policy allows no further attempt.
abbrev pub is_last : AttemptFailure → RetryPolicy → Bool
is_last input retry = input.non_retryable || leb retry.max_attempts input.attempt

unfoldable pub fail_plan : String → ℕ → AttemptFailure → AttemptFailurePlan
unfolding create_effect_failed_event
fail_plan new_id clock input = record {
  event =
      create_effect_failed_event new_id clock input.run_id input.item input.error
        input.non_retryable;
  retrying = false;
}

unfoldable pub plan_by : String → ℕ → AttemptFailure → Option RetryPolicy → AttemptFailurePlan
unfolding fail_plan retry_event
plan_by new_id clock input none = fail_plan new_id clock input
plan_by new_id clock input (some retry) =
    if is_last input retry
    then fail_plan new_id clock input
    else record { event = retry_event new_id clock input retry; retrying = true }

-- `planAttemptFailure`
unfoldable pub plan_attempt_failure : String → ℕ → AttemptFailure → AttemptFailurePlan
unfolding plan_by
plan_attempt_failure new_id clock input = plan_by new_id clock input input.retry
