-- ===== src/Runtime/Retry/Delays.antt =====
-- packages/runtime/src/retry-policy.ts: how long a retry waits.
use native.Mathlib.Nat.{
  pow-le-pow_right, mul-le-mul_left, le-max_left, le-max_right, max-le, le-min, min-le_left,
  min-le_right, le_trans,
}
use looms.Prelude.{ℕ, ◌-◌, ◌*◌, ◌^◌, ◌≤◌, max, Option, none, some, or_else, arith}
use looms.Runtime.Retry.{RetryPolicy, max_safe_integer, retry_backoff, retry_delay}

retry_backoff-monotone :
    (retry : RetryPolicy) (attempt later : ℕ)
    → attempt ≤ later
    → retry_backoff retry attempt ≤ retry_backoff retry later
unfolding retry_backoff
retry_backoff-monotone retry attempt later h =
    let multiplier = max 1 (or_else retry.backoff_multiplier 2) in
    let base = max 1 (or_else retry.backoff_ms 100) in
    let grows : multiplier ^ (attempt - 1) ≤ multiplier ^ (later - 1) =
      pow-le-pow_right (le-max_left 1 (or_else retry.backoff_multiplier 2)) (omega arith) in
    let scaled : base * multiplier ^ (attempt - 1) ≤ base * multiplier ^ (later - 1) =
      mul-le-mul_left base grows in
    le-min (le_trans (min-le_left _ _) scaled) (min-le_right _ _)

retry_backoff-capped :
    (retry : RetryPolicy) (attempt asked : ℕ)
    → retry_backoff retry attempt ≤ max (or_else retry.max_backoff_ms max_safe_integer) asked
unfolding retry_backoff
retry_backoff-capped retry attempt asked = le_trans (min-le_right _ _) (le-max_left _ _)

-- With more attempts behind it a retry waits no shorter; it waits at least as long as was asked for, and no longer than that or the limit of the policy, which is Number.MAX_SAFE_INTEGER where the policy has none.
pub retry_delay-bounds :
    (retry : RetryPolicy) (attempt later : ℕ) (asked : Option ℕ)
    → attempt ≤ later
    → (retry_delay retry attempt asked ≤ retry_delay retry later asked)
      × (or_else asked 0 ≤ retry_delay retry attempt asked)
      × (retry_delay retry attempt asked
          ≤ max (or_else retry.max_backoff_ms max_safe_integer) (or_else asked 0))
unfolding retry_delay
retry_delay-bounds retry attempt later none h = (
  retry_backoff-monotone retry attempt later h,
  omega arith,
  retry_backoff-capped retry attempt 0,
)
retry_delay-bounds retry attempt later (some asked) h = (
  max-le (le_trans (retry_backoff-monotone retry attempt later h) (le-max_left _ _))
      (le-max_right _ _),
  le-max_right _ _,
  max-le (retry_backoff-capped retry attempt asked) (le-max_right _ _),
)
