-- ===== src/Core/Thread.antt =====
-- packages/core/src/thread.ts: what a module supplies for a kind of thread. The three functions
-- are the module's own code. A thread's state is JSON, as it is in a snapshot.
use looms.Prelude.{String, Option, Bool, true, false, List}
use looms.Core.Json.{Json}
use looms.Core.Envelope.{EventEnvelope}
use looms.Core.Effects.{RuntimeEffect}

pub data ThreadStatus : Type 0 where
  running waiting completed failed cancelled : ThreadStatus

-- `isTerminalStatus`
abbrev pub is_terminal_status : ThreadStatus → Bool
is_terminal_status completed = true
is_terminal_status failed = true
is_terminal_status cancelled = true
is_terminal_status _ = false

pub record StartContext : Type 0 where
  pub run_id : String
  pub thread_id : String
  pub parent_thread_id : Option String
  pub definition_name : String
  pub definition_version : String
  pub input : Json

pub record ThreadContext : Type 0 where
  pub run_id : String
  pub thread_id : String
  pub parent_thread_id : Option String

pub record ThreadDefinition : Type 0 where
  pub initial_state : StartContext → Json
  pub step : Json → EventEnvelope → ThreadContext → Json
  pub effects : Json → ThreadContext → List RuntimeEffect
  pub forgets_completed_effects : Bool
