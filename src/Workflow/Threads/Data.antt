-- ===== src/Workflow/Threads/Data.antt =====
-- packages/workflow/src/threads.ts and events.ts: the state of a workflow thread, and the events that it
-- steps by, with their payloads as the catalog's schemas decode them.
use looms.Prelude.{ℕ, String, Option, none, some, Bool, false, List, []}
use looms.Prelude.Dict.{Dict}
use looms.Core.Json.{Json}
use looms.Core.Envelope.{EventInput}
use looms.Core.Effects.{RuntimeEffect, ChildClose}
use looms.Workflow.Graph.Data.{NodeState, SkipCause}

-- Where a child runs: as a thread of the same run, or as a run of its own.
pub data Execution : Type 0 where
  in_thread in_run : Execution

pub record PendingSpawn : Type 0 where
  pub child_thread_id : String
  pub kind : String
  pub definition_name : String
  pub definition_version : String
  pub node_id : String
  pub attempt : ℕ
  pub input : Json
  pub loop_index : Option ℕ
  pub execution : Execution
  pub close : ChildClose

-- The outputs are keyed by the numbers whose decimal texts are the keys of the source's record.
pub record PendingMap : Type 0 where
  pub node_id : String
  pub attempt : ℕ
  pub kind : String
  pub definition_name : String
  pub definition_version : String
  pub items : List Json
  pub concurrency : ℕ
  pub limit_bytes : ℕ
  pub next_index : ℕ
  pub outputs : List (ℕ × Json)
  pub execution : Execution
  pub close : ChildClose

pub record PendingSleep : Type 0 where
  pub wait_id : String
  pub wake_at : ℕ
  pub node_id : String

pub record PendingEffects : Type 0 where
  pub node_id : String
  pub effects : List RuntimeEffect

pub record PendingEmit : Type 0 where
  pub id : String
  pub event : EventInput

pub data WorkflowStatus : Type 0 where
  running completed failed : WorkflowStatus

pub record WorkflowState : Type 0 where
  pub definition_name : Option String
  pub definition_version : Option String
  pub nodes : Dict NodeState
  pub concurrency : ℕ
  pub input : Json
  pub node_ids : List String
  pub needs_schedule : Bool
  pub running_nodes : List String
  pub pending_spawns : List PendingSpawn
  pub pending_maps : List PendingMap
  pub pending_sleeps : List PendingSleep
  pub pending_effects : List PendingEffects
  pub pending_emits : List PendingEmit
  pub pending_cancels : List String
  pub status : WorkflowStatus
  pub error : Option String

-- `initialState`
abbrev pub initial_state : String → String → Json → WorkflowState
initial_state definition_name definition_version input = record {
  definition_name = some definition_name;
  definition_version = some definition_version;
  nodes = [];
  concurrency = 8;
  input = input;
  node_ids = [];
  needs_schedule = false;
  running_nodes = [];
  pending_spawns = [];
  pending_maps = [];
  pending_sleeps = [];
  pending_effects = [];
  pending_emits = [];
  pending_cancels = [];
  status = WorkflowStatus.running;
  error = none;
}

-- The payload of `workflow.map.requested`
pub record MapRequest : Type 0 where
  pub node_id : String
  pub attempt : ℕ
  pub kind : String
  pub definition_name : String
  pub definition_version : String
  pub items : List Json
  pub concurrency : ℕ
  pub limit_bytes : ℕ
  pub execution : Execution
  pub close : ChildClose

pub data WorkflowEvent : Type 0 where
  thread_started : (name version : Option String) (input : Option Json) → WorkflowEvent
  node_started : (node_id : String) → WorkflowEvent
  node_finished : (node_id : String) (result : Json) (error branch : Option String) → WorkflowEvent
  node_skipped : (node_id reason : String) (cause : SkipCause) → WorkflowEvent
  spawn_requested : PendingSpawn → WorkflowEvent
  map_requested : MapRequest → WorkflowEvent
  sleep_requested : PendingSleep → WorkflowEvent
  effects_requested : (node_id : String) (effects : List RuntimeEffect) → WorkflowEvent
  effect_failed : (error effect_id : Option String) → WorkflowEvent
  wait_satisfied : (tag event : Option Json) → WorkflowEvent
  other : WorkflowEvent
