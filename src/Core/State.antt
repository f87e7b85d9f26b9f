-- ===== src/Core/State.antt =====
-- packages/core/src/state.ts: the state of a run, which is a fold of its events.
use looms.Prelude.{
  ℕ, String, Option, none, some, Bool, true, false, List, [], ◌∷◌, ◌==◌, all, if◌then◌else◌,
}
use looms.Prelude.Dict.{Dict, values}
use looms.Core.Json.{Json, Fields, field_of, as_string}
use looms.Core.Effects.{RuntimeEffect, WaitCondition, ChildClose}
use looms.Core.Thread.{ThreadStatus}

pub record ThreadRecord : Type 0 where
  pub thread_id : String
  pub kind : String
  pub definition_name : String
  pub definition_version : String
  pub parent_thread_id : Option String
  pub status : ThreadStatus
  pub input : Json
  pub output : Option Json
  pub error : Option String
  pub state : Json

pub record WaitRecord : Type 0 where
  pub wait_id : String
  pub thread_id : String
  pub on : WaitCondition
  pub tag : Option Json

pub record OutstandingEffect : Type 0 where
  pub effect_id : String
  pub thread_id : String
  pub causing_seq : ℕ
  pub causing_event_id : String
  pub effect : RuntimeEffect

pub data ExecutionStatus : Type 0 where
  queued dispatch_wait dispatched started heartbeat : ExecutionStatus
  retry_wait cancel_requested timed_out ambiguous running : ExecutionStatus

pub record EffectExecutionRecord : Type 0 where
  pub effect_id : String
  pub attempt : ℕ
  pub status : ExecutionStatus
  pub next_attempt_at : Option ℕ
  pub deadline_at : Option ℕ
  pub started_at : Option ℕ
  pub last_heartbeat_at : Option ℕ
  pub heartbeat_details : Option Json
  pub last_error : Option String
  pub dispatch_try : ℕ

-- launcher.ts: the effect that launched a run
pub record RunLaunchSource : Type 0 where
  pub run_id : String
  pub thread_id : String
  pub effect_id : String
  pub causation_id : String
  pub causation_seq : ℕ

-- trace.ts
pub record TraceContext : Type 0 where
  pub traceparent : String
  pub tracestate : Option String

pub record RunStartIdentity : Type 0 where
  pub kind : String
  pub definition_name : String
  pub definition_version : String
  pub input : Json
  pub requested_thread_id : Option String
  pub idempotency_key : Option String
  pub root_thread_id : String
  pub launched_by : Option RunLaunchSource
  pub correlation_id : Option String
  pub attributes : Dict String
  pub trace : Option TraceContext

pub record RunForkSource : Type 0 where
  pub run_id : String
  pub seq : ℕ

pub record LaunchedRun : Type 0 where
  pub run_id : String
  pub close : ChildClose

-- A run's status: the same four words as a thread's, without waiting.
pub data RunStatus : Type 0 where
  running completed failed cancelled : RunStatus

pub record RunState : Type 0 where
  pub run_id : String
  pub status : RunStatus
  pub root_thread_id : Option String
  pub start_identity : Option RunStartIdentity
  pub forked_from : Option RunForkSource
  pub attributes : Dict String
  pub threads : Dict ThreadRecord
  pub waits : Dict WaitRecord
  pub outstanding_effects : List OutstandingEffect
  pub effect_executions : Dict EffectExecutionRecord
  pub completed_effect_ids : List String
  pub processed_idempotency_keys : List String
  pub launched_runs : List LaunchedRun
  pub close_waiting : Bool
  pub child_close_sent : Bool

abbrev pub empty_run_state : String → RunState
empty_run_state run_id = record {
  run_id = run_id;
  status = RunStatus.running;
  root_thread_id = none;
  start_identity = none;
  forked_from = none;
  attributes = [];
  threads = [];
  waits = [];
  outstanding_effects = [];
  effect_executions = [];
  completed_effect_ids = [];
  processed_idempotency_keys = [];
  launched_runs = [];
  close_waiting = false;
  child_close_sent = false;
}

-- `completedRunStatus`: a payload with a non-empty error ends the run as failed.
unfoldable pub completed_run_status : Fields → RunStatus
unfolding field_of
completed_run_status payload = elim (as_string (field_of "error" payload)) [
  | none ↦ RunStatus.completed
  | some error ↦ if error == "" then RunStatus.completed else RunStatus.failed
]

abbrev pub is_run_terminal : RunState → Bool
is_run_terminal state = elim state.status [ RunStatus.running ↦ false | _ ↦ true ]

abbrev parked_thread : ThreadRecord → Bool
parked_thread t = elim t.status [ ThreadStatus.running ↦ false | _ ↦ true ]

abbrev parked_threads : List ThreadRecord → Bool
parked_threads [] = false
parked_threads (t ∷ ts) = all parked_thread (t ∷ ts)

-- `isRunParked`
unfoldable pub is_run_parked : RunState → Bool
unfolding values
is_run_parked state = if is_run_terminal state then true else elim state.outstanding_effects [
  | [] ↦ parked_threads (values state.threads)
  | _ ∷ _ ↦ false
]
