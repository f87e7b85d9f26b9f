-- ===== src/Core/Envelope.antt =====
-- packages/core/src/envelope.ts: events. A property that may be absent or null is none in both
-- cases, where the code tests it for truth or by `??`; an event input keeps the two apart.
use looms.Prelude.{ℕ, String, Option, none, some, Bool, false, or_else}
use looms.Core.Json.{Json}

-- The type strings that the fold's switch names; every other string is `other`.
pub data EventType : Type 0 where
  run_started run_completed run_cancelled run_forked : EventType
  thread_started thread_completed thread_failed thread_cancelled : EventType
  attempt_started effect_queued effect_dispatched worker_started effect_heartbeat : EventType
  cancel_requested effect_timed_out effect_ambiguous dispatch_deferred : EventType
  effect_cancelled retry_scheduled effect_failed effect_completed : EventType
  wait_registered wait_satisfied : EventType
  run_launched child_settled child_close_requested : EventType
  snapshot_taken thread_cancel_requested timer_set timer_fired signal_received : EventType
  other : String → EventType

-- The string of a type on the wire.
unfoldable pub type_name : EventType → String
type_name run_started = "runtime.run.started"
type_name run_completed = "runtime.run.completed"
type_name run_cancelled = "runtime.run.cancelled"
type_name run_forked = "runtime.run.forked"
type_name thread_started = "runtime.thread.started"
type_name thread_completed = "runtime.thread.completed"
type_name thread_failed = "runtime.thread.failed"
type_name thread_cancelled = "runtime.thread.cancelled"
type_name attempt_started = "runtime.effect.attempt.started"
type_name effect_queued = "runtime.effect.queued"
type_name effect_dispatched = "runtime.effect.dispatched"
type_name worker_started = "runtime.effect.worker.started"
type_name effect_heartbeat = "runtime.effect.heartbeat"
type_name cancel_requested = "runtime.effect.cancel.requested"
type_name effect_timed_out = "runtime.effect.timed_out"
type_name effect_ambiguous = "runtime.effect.ambiguous"
type_name dispatch_deferred = "runtime.effect.dispatch.deferred"
type_name effect_cancelled = "runtime.effect.cancelled"
type_name retry_scheduled = "runtime.effect.retry.scheduled"
type_name effect_failed = "runtime.effect.failed"
type_name effect_completed = "runtime.effect.completed"
type_name wait_registered = "runtime.wait.registered"
type_name wait_satisfied = "runtime.wait.satisfied"
type_name run_launched = "runtime.run.launched"
type_name child_settled = "runtime.child.settled"
type_name child_close_requested = "runtime.child.close.requested"
type_name snapshot_taken = "runtime.snapshot.taken"
type_name thread_cancel_requested = "runtime.thread.cancel.requested"
type_name timer_set = "runtime.timer.set"
type_name timer_fired = "runtime.timer.fired"
type_name signal_received = "runtime.signal.received"
type_name (other name) = name

pub data EventOrigin : Type 0 where
  thread : String → EventOrigin
  external : Option String → EventOrigin
  system : EventOrigin
  run : String → EventOrigin

pub record EventEnvelope : Type 0 where
  pub id : String
  pub run_id : String
  pub seq : ℕ
  pub ts : ℕ
  pub type : EventType
  pub payload : Json
  pub thread_id : Option String
  pub parent_thread_id : Option String
  pub causation_id : Option String
  pub correlation_id : Option String
  pub effect_id : Option String
  pub origin : EventOrigin
  pub ephemeral : Bool
  pub idempotency_key : Option String

-- In the optional and nullable fields none is an absent property, `some none` is null.
pub record EventInput : Type 0 where
  pub type : EventType
  pub payload : Json
  pub thread_id : Option (Option String)
  pub parent_thread_id : Option (Option String)
  pub causation_id : Option (Option String)
  pub correlation_id : Option (Option String)
  pub effect_id : Option (Option String)
  pub origin : Option EventOrigin
  pub ephemeral : Option Bool
  pub id : Option String
  pub ts : Option ℕ
  pub idempotency_key : Option (Option String)

-- `withAssignedSeq`
abbrev pub with_assigned_seq : EventEnvelope → String → ℕ → EventEnvelope
with_assigned_seq partial run_id seq = record partial { run_id = run_id; seq = seq }

abbrev known {ℓ} : {A : Type ℓ} → Option (Option A) → Option A
known none = none
known (some o) = o

-- `createEvent`; a new id and the clock are for the case that the input has no id and no time.
unfoldable pub create_event : String → ℕ → String → EventInput → ℕ → EventEnvelope
create_event new_id now run_id input seq = record {
  id = or_else input.id new_id;
  run_id = run_id;
  seq = seq;
  ts = or_else input.ts now;
  type = input.type;
  payload = input.payload;
  thread_id = known input.thread_id;
  parent_thread_id = known input.parent_thread_id;
  causation_id = known input.causation_id;
  correlation_id = known input.correlation_id;
  effect_id = known input.effect_id;
  origin = or_else input.origin system;
  ephemeral = or_else input.ephemeral false;
  idempotency_key = known input.idempotency_key;
}
