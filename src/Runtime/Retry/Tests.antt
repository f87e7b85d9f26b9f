-- ===== src/Runtime/Retry/Tests.antt =====
-- Planned failures of an effect, and the theorems there.
use looms.Prelude.{◌≤◌, max, none, some, true, false, ◌≡◌, refl, arith, or_else}
use looms.Prelude.Dict.{get}
use looms.Core.Envelope.{system, with_assigned_seq}
use looms.Core.Fold.Step.{fold_event}
use looms.Core.Fold.Tests.Data.{timers, fetchers, one_thread, log_effect}
use looms.Core.Thread.{ThreadStatus}
use looms.Runtime.Retry.{
  RetryPolicy, AttemptFailure, retry_backoff, retry_delay, plan_attempt_failure, max_safe_integer,
}
use looms.Runtime.Retry.Delays.{retry_delay-bounds}
use looms.Runtime.Retry.Attempts.{execution_by, plan_attempt_failure-fold_event}

abbrev patient : RetryPolicy
patient = record {
  max_attempts = 3;
  backoff_ms = some 50;
  max_backoff_ms = some 150;
  backoff_multiplier = none;
  schedule_to_start_timeout_ms = none;
  start_to_close_timeout_ms = none;
  heartbeat_timeout_ms = none;
  cancellation_timeout_ms = none;
}

-- 50, 100, and 150 in place of 200
backoffs :
    (retry_backoff patient 1 ≡ 50)
    × (retry_backoff patient 2 ≡ 100)
    × (retry_backoff patient 3 ≡ 150)
unfolding retry_backoff
backoffs = (refl, refl, refl)

retry_delay-bounds_example :
    (retry_delay patient 1 (some 70) ≤ retry_delay patient 3 (some 70))
    × (or_else (some 70) 0 ≤ retry_delay patient 1 (some 70))
    × (retry_delay patient 1 (some 70)
        ≤ max (or_else patient.max_backoff_ms max_safe_integer) (or_else (some 70) 0))
retry_delay-bounds_example = retry_delay-bounds patient 1 3 (some 70) (omega arith)

abbrev failure : AttemptFailure
failure = record {
  run_id = "r";
  item = log_effect;
  attempt = 1;
  error = "down";
  now = 1000;
  retry = some patient;
  origin = system;
  non_retryable = false;
  retry_after_ms = none;
}

retried : (plan_attempt_failure "n" 5 failure).retrying ≡ true
unfolding plan_attempt_failure
retried = refl

plan_attempt_failure-fold_event_example :
    get "t:1:0"
      (fold_event timers fetchers
        (one_thread ThreadStatus.running)
        (with_assigned_seq (plan_attempt_failure "n" 5 failure).event "r" 7)).effect_executions
    ≡ execution_by (one_thread ThreadStatus.running) failure (some patient)
plan_attempt_failure-fold_event_example =
    plan_attempt_failure-fold_event timers fetchers (one_thread ThreadStatus.running) "n" 5 failure
      7 refl
