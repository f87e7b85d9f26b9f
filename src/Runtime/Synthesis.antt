-- ===== src/Runtime/Synthesis.antt =====
-- packages/runtime/src/helpers.ts: `synthesizedThreadFailed`; packages/runtime/src/wake-engine.ts: the
-- events that a wake adds to what its effects produced, and the state that they lead to.
mod Folded
mod Events
mod Threads
mod Closed
mod Tests
use looms.Prelude.{
  ℕ, suc, String, Option, none, some, Bool, true, false, List, [], ◌∷◌, ◌++◌, ◌||◌, ◌&&◌, not, any,
  is_the, or_else, if◌then◌else◌,
}
use looms.Prelude.Dict.{Dict, get}
use looms.Core.Json.{obj, str, end, field, payload_object, read_string}
use looms.Core.Envelope.{EventEnvelope, EventInput, EventType, thread_failed, create_event}
use looms.Core.Thread.{ThreadStatus, failed}
use looms.Core.State.{RunState, ThreadRecord}
use looms.Core.Fold.Protocol.{Decoders, Registry}
use looms.Core.Fold.Step.{fold_run}
use looms.Runtime.Cascade.{cascaded_cancellations}

abbrev has_failed : ThreadStatus → Bool
has_failed failed = true
has_failed _ = false

abbrev had_failed : Option ThreadRecord → Bool
had_failed none = false
had_failed (some r) = has_failed r.status

-- Whether an event reports that the thread has failed.
unfoldable pub reports_failure : String → EventEnvelope → Bool
unfolding read_string
reports_failure id event = elim event.type [
  | thread_failed ↦
      is_the event.thread_id id || is_the (read_string (payload_object event.payload) "threadId") id
  | _ ↦ false
]

unfoldable pub failure_of : String → ThreadRecord → EventInput
failure_of id r = record {
  type = thread_failed;
  payload = obj (field "threadId" (str id) (field "error" (str (or_else r.error "failed")) end));
  thread_id = some (some id);
  parent_thread_id = none;
  causation_id = none;
  correlation_id = none;
  effect_id = none;
  origin = none;
  ephemeral = none;
  id = none;
  ts = none;
  idempotency_key = none;
}

-- The loop of `synthesizedThreadFailed` over the entries of the threads.
unfoldable pub failures_of :
    Dict ThreadRecord → List EventEnvelope → Dict ThreadRecord → List EventInput
unfolding get reports_failure failure_of
failures_of before written [] = []
failures_of before written ((id, r) ∷ entries) =
    let rest = failures_of before written entries in
    if has_failed r.status
      && not (had_failed (get id before))
      && not (any (reports_failure id) written)
    then failure_of id r ∷ rest
    else rest

-- `synthesizedThreadFailed`
unfoldable pub synthesized_thread_failed :
    RunState → RunState → List EventEnvelope → List EventInput
unfolding failures_of
synthesized_thread_failed before after written = failures_of before.threads written after.threads

-- `synthesized`: what a wake adds to the events that its effects produced.
unfoldable pub synthesized : RunState → RunState → List EventEnvelope → List EventInput
unfolding synthesized_thread_failed cascaded_cancellations
synthesized before after written =
    synthesized_thread_failed before after written ++ cascaded_cancellations after written

-- `synthesized.map((input) => createEvent(runId, input))`: each event has an id and a time of its own.
unfoldable pub create_events :
    (ℕ → String) → (ℕ → ℕ) → String → ℕ → List EventInput → List EventEnvelope
unfolding create_event
create_events new_id clock run_id n [] = []
create_events new_id clock run_id n (input ∷ inputs) =
    create_event (new_id n) (clock n) run_id input 0
    ∷ create_events new_id clock run_id (suc n) inputs

-- `stateAfterSynth`. Folding no events leaves a state as it is.
unfoldable pub state_after_synth :
    Decoders
    → Registry
    → (ℕ → String)
    → (ℕ → ℕ)
    → String
    → RunState
    → RunState
    → List EventEnvelope
    → RunState
unfolding fold_run synthesized create_events
state_after_synth d registry new_id clock run_id before after written =
    fold_run d registry after
      (create_events new_id clock run_id 0 (synthesized before after written))
