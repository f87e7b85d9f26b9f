-- ===== src/Core/Fold/Tests/Data.antt =====
-- Events, modules and states for runs of the fold.
use looms.Prelude.{
  ◌+◌, ℕ, String, none, some, List, [], ◌∷◌, true, false, ◌==◌, if◌then◌else◌, ◌>>=◌,
}
use looms.Core.Json.{null, num, str, obj, Fields, end, field, as_number, field_of, payload_object}
use looms.Core.Envelope.{
  EventEnvelope, EventType, system, thread_started, wait_registered, signal_received,
}
use looms.Core.Effects.{RuntimeEffect, invoke, on_timer}
use looms.Core.Thread.{ThreadDefinition, ThreadStatus}
use looms.Core.State.{RunState, ThreadRecord, WaitRecord, OutstandingEffect, empty_run_state}
use looms.Core.Fold.Protocol.{Decoders, Registry}

-- A decoder that reads timers, and a module that asks for one tagged effect and one untagged.
abbrev pub timers : Decoders
timers = record {
  wait_condition =
      λ v. as_number (field_of "timerAt" (payload_object v)) >>= λ at. some (on_timer at);
  attributes = λ v. none;
  launch_source = λ v. none;
  trace = λ v. none;
}

abbrev wanted : List RuntimeEffect
wanted = invoke "http.get" null (some "page") none ∷ invoke "log" null none none ∷ []

abbrev fetcher : ThreadDefinition
fetcher = record {
  initial_state = λ start. start.input;
  step = λ state event context. state;
  effects = λ state context. wanted;
  forgets_completed_effects = false;
}

abbrev pub fetchers : Registry
fetchers kind = if kind == "fetch" then some fetcher else none

abbrev pub event_of : ℕ → EventType → Fields → EventEnvelope
event_of seq type fs = record {
  id = "evt";
  run_id = "r";
  seq = seq;
  ts = 100 + seq;
  type = type;
  payload = obj fs;
  thread_id = some "t";
  parent_thread_id = none;
  causation_id = none;
  correlation_id = none;
  effect_id = none;
  origin = system;
  ephemeral = false;
  idempotency_key = none;
}

abbrev keyed_event : ℕ → EventType → Fields → String → EventEnvelope
keyed_event seq type fs key = record (event_of seq type fs) { idempotency_key = some key }

abbrev start_fields : Fields
start_fields = field "kind" (str "fetch") (field "definitionName" (str "page") end)

abbrev wait_fields : String → Fields
wait_fields id = field "waitId" (str id) (
    field "on" (obj (field "timerAt" (num 9) end))
      (field "tag" (obj (field "raceId" (str "r1") end)) end))

abbrev pub history : List EventEnvelope
history =
    keyed_event 1 thread_started start_fields "k1"
    ∷ event_of 2 wait_registered (wait_fields "w1")
    ∷ record (event_of 3 signal_received end) { ephemeral = true }
    ∷ event_of 4 wait_registered (wait_fields "w2")
    ∷ []

abbrev pub base : RunState
base = empty_run_state "r"

abbrev pub page_thread : ThreadStatus → ThreadRecord
page_thread status = record {
  thread_id = "t";
  kind = "fetch";
  definition_name = "page";
  definition_version = "v1";
  parent_thread_id = none;
  status = status;
  input = null;
  output = none;
  error = none;
  state = null;
}

abbrev pub log_effect : OutstandingEffect
log_effect = record {
  effect_id = "t:1:0";
  thread_id = "t";
  causing_seq = 1;
  causing_event_id = "evt";
  effect = invoke "log" null none none;
}

abbrev timer_wait : String → String → WaitRecord
timer_wait id race = record {
  wait_id = id;
  thread_id = "t";
  on = on_timer 9;
  tag = some (obj (field "raceId" (str race) end));
}

-- One thread, three waits in two races, and one outstanding effect.
abbrev pub one_thread : ThreadStatus → RunState
one_thread status = record base {
  threads = ("t", page_thread status) ∷ [];
  waits =
      ("w1", timer_wait "w1" "r1")
      ∷ ("w2", timer_wait "w2" "r1")
      ∷ ("w3", timer_wait "w3" "r2")
      ∷ [];
  outstanding_effects = log_effect ∷ [];
}
