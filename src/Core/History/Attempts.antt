-- ===== src/Core/History/Attempts.antt =====
-- packages/core/src/attempts.ts: leaving out what superseded attempts at an effect reported. The schema
-- test of a retry's payload is an argument, which gives the effect's id.
use looms.Prelude.{
  ℕ, suc, String, Option, none, some, Bool, true, false, List, [], ◌∷◌, if◌then◌else◌, ◌||◌, not,
  ltb, truthy,
}
use looms.Prelude.Dict.{Dict, get, put}
use looms.Core.Json.{Json}
use looms.Core.Envelope.{EventEnvelope, EventType, retry_scheduled}

abbrev is_retry : EventType → Bool
is_retry retry_scheduled = true
is_retry _ = false

abbrev pub note_retry : Dict ℕ → ℕ → Option String → Dict ℕ
note_retry last_retry index none = last_retry
note_retry last_retry index (some id) = put id index last_retry

module _ (retry_payload : Json → Option String) where
  -- `retriedEffectId`
  abbrev pub retried_effect_id : EventEnvelope → Option String
  retried_effect_id event = if is_retry event.type then retry_payload event.payload else none

  -- The indices of the last retries, by effect.
  unfoldable pub last_retries : ℕ → List EventEnvelope → Dict ℕ → Dict ℕ
  unfolding put
  last_retries index [] last_retry = last_retry
  last_retries index (event ∷ events) last_retry =
      last_retries (suc index) events (note_retry last_retry index (retried_effect_id event))

-- `(lastRetry.get(id) ?? -1) < index`
abbrev pub before_index : Option ℕ → ℕ → Bool
before_index none index = true
before_index (some last) index = ltb last index

abbrev pub attempt_is_current : Dict ℕ → ℕ → Option String → Bool
attempt_is_current last_retry index none = true
attempt_is_current last_retry index (some id) = before_index (get id last_retry) index

unfoldable pub keep_current : Dict ℕ → ℕ → List EventEnvelope → List EventEnvelope
unfolding get
keep_current last_retry index [] = []
keep_current last_retry index (event ∷ events) =
    let rest = keep_current last_retry (suc index) events in
    if not event.ephemeral || attempt_is_current last_retry index (truthy event.effect_id)
    then event ∷ rest
    else rest

module _ (retry_payload : Json → Option String) where
  -- `dropSupersededAttempts`. With no retry every event is kept, as the early return does.
  unfoldable pub drop_superseded_attempts : List EventEnvelope → List EventEnvelope
  unfolding last_retries keep_current
  drop_superseded_attempts events = keep_current (last_retries retry_payload 0 events []) 0 events
