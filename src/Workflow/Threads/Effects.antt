-- ===== src/Workflow/Threads/Effects.antt =====
-- packages/workflow/src/threads.ts: the effects that a workflow thread asks for.
use looms.Prelude.{
  ℕ, zero, suc, String, Option, none, some, Bool, true, false, List, [], ◌∷◌, ◌++◌, ◌<>◌, show,
  or_else, eqb, if◌then◌else◌, map, starts_with,
}
use looms.Core.Json.{Json, null, num, str, obj, end, field}
use looms.Core.Effects.{
  RuntimeEffect, on_type, on_types, on_timer, ChildClose, spawn, wait, emit, fail, cancel, launch,
  cancel_run,
}
use looms.Core.Ids.{create_wait_id}
use looms.Core.Ids.Deterministic.{deterministic_thread_id, deterministic_run_id}
use looms.Core.Fork.Scan.{get_elem?}
use looms.Workflow.Threads.Data.{
  Execution, in_thread, in_run, PendingSpawn, PendingMap, PendingSleep, WorkflowState,
  WorkflowStatus,
}
use looms.Workflow.Threads.Invocations.{schedule_invocation, run_node_invocation}

-- What `spawnAndWait` reads of a pending spawn or map.
pub record Child : Type 0 where
  pub kind : String
  pub definition_name : String
  pub definition_version : String
  pub execution : Execution
  pub close : ChildClose

-- `childTarget`
unfoldable pub child_target : String → String → Execution → String
unfolding deterministic_run_id
child_target run_id child_thread_id in_run = deterministic_run_id (run_id ∷ child_thread_id ∷ [])
child_target run_id child_thread_id in_thread = child_thread_id

-- `spawnAndWait`, by where the child runs
unfoldable pub spawn_by :
    Execution → String → String → Child → String → Json → Json → List RuntimeEffect
unfolding create_wait_id child_target
spawn_by in_run run_id thread_id child child_thread_id input tag =
    let child_run_id = child_target run_id child_thread_id in_run in
    launch child_run_id child.kind child.definition_name child.definition_version input child.close
      (some ("launch_" <> child_run_id))
    ∷ wait (create_wait_id thread_id ("spawn_" <> child_run_id))
        (on_type "runtime.child.settled" (some (obj (field "runId" (str child_run_id) end))))
        (some tag)
    ∷ []
spawn_by in_thread run_id thread_id child child_thread_id input tag =
    spawn child_thread_id child.kind child.definition_name child.definition_version input
    ∷ wait (create_wait_id thread_id ("spawn_" <> child_thread_id))
        (on_types ("runtime.thread.completed" ∷ "runtime.thread.failed" ∷ [])
          (some (obj (field "threadId" (str child_thread_id) end))))
        (some tag)
    ∷ []

abbrev spawn_child : PendingSpawn → Child
spawn_child item = record {
  kind = item.kind;
  definition_name = item.definition_name;
  definition_version = item.definition_version;
  execution = item.execution;
  close = item.close;
}

abbrev map_child : PendingMap → Child
map_child item = record {
  kind = item.kind;
  definition_name = item.definition_name;
  definition_version = item.definition_version;
  execution = item.execution;
  close = item.close;
}

-- `mapChildThreadId`
unfoldable pub map_child_thread_id : String → PendingMap → ℕ → String
unfolding deterministic_thread_id show
map_child_thread_id thread_id item index =
    deterministic_thread_id (thread_id ∷ item.node_id ∷ "map" ∷ show item.attempt ∷ show index ∷ [])

-- `String(index) in map.outputs`
abbrev pub has_output : List (ℕ × Json) → ℕ → Bool
has_output [] index = false
has_output ((i, _) ∷ outputs) index = if eqb i index then true else has_output outputs index

-- The indices from one on, of that many, that have no output yet.
unfoldable pub unsettled_from : ℕ → ℕ → List (ℕ × Json) → List ℕ
unsettled_from start zero outputs = []
unsettled_from start (suc count) outputs =
    let rest = unsettled_from (suc start) count outputs in
    if has_output outputs start then rest else start ∷ rest

-- The items of a map that have been started and have not reported back.
unfoldable pub in_flight : PendingMap → List ℕ
unfolding unsettled_from
in_flight item = unsettled_from 0 item.next_index item.outputs

-- An effect with the node that needs it.
abbrev pub NodeEffect : Type 0
NodeEffect = String × RuntimeEffect

abbrev for_node : String → List RuntimeEffect → List NodeEffect
for_node node_id = map (λ effect. (node_id, effect))

abbrev index_json : Option ℕ → Json
index_json none = null
index_json (some index) = num index

abbrev pub spawn_tag : PendingSpawn → Json
spawn_tag item = obj (
    field "nodeId" (str item.node_id)
      (field "attempt" (num item.attempt) (field "loopIndex" (index_json item.loop_index) end)))

abbrev pub map_tag : PendingMap → ℕ → Json
map_tag item index = obj (
    field "nodeId" (str item.node_id)
      (field "attempt" (num item.attempt) (field "index" (num index) end)))

abbrev pub flat_map {ℓ κ} : {A : Type ℓ} {B : Type κ} → (A → List B) → List A → List B
flat_map f [] = []
flat_map f (x ∷ xs) = f x ++ flat_map f xs

abbrev pub sleep_effects : PendingSleep → List NodeEffect
sleep_effects sleep =
    (
      sleep.node_id,
      wait sleep.wait_id (on_timer sleep.wake_at)
          (some (obj (field "nodeId" (str sleep.node_id) end))),
    )
    ∷ []

module _ (thread_id run_id : String) where
  unfoldable pub spawn_effects : PendingSpawn → List NodeEffect
  unfolding spawn_by
  spawn_effects item = for_node item.node_id (
      spawn_by item.execution run_id thread_id (spawn_child item) item.child_thread_id item.input
        (spawn_tag item))

  unfoldable pub map_item_effects : PendingMap → ℕ → List NodeEffect
  unfolding spawn_by map_child_thread_id
  map_item_effects item index = for_node item.node_id (
      spawn_by item.execution run_id thread_id (map_child item)
        (map_child_thread_id thread_id item index) (or_else (get_elem? item.items index) null)
        (map_tag item index))

  unfoldable pub map_effects : PendingMap → List NodeEffect
  unfolding in_flight map_item_effects
  map_effects item = flat_map (map_item_effects item) (in_flight item)

  -- `nodeEffects`
  unfoldable pub node_effects : WorkflowState → List NodeEffect
  unfolding run_node_invocation spawn_effects map_effects
  node_effects state =
      map (λ node_id. (node_id, run_node_invocation state node_id)) state.running_nodes
      ++ (flat_map spawn_effects state.pending_spawns
          ++ (flat_map map_effects state.pending_maps
              ++ (flat_map sleep_effects state.pending_sleeps
                  ++ flat_map (λ p. for_node p.node_id p.effects) state.pending_effects)))

  abbrev cancel_effect : String → RuntimeEffect
  cancel_effect child_id =
      if starts_with child_id "run_"
      then cancel_run child_id (some ("cancel_" <> child_id))
      else cancel child_id none

  abbrev failure_effects : WorkflowState → List RuntimeEffect
  failure_effects state = elim state.status [
    | WorkflowStatus.failed ↦ fail (or_else state.error "Workflow execution failed") ∷ []
    | _ ↦ []
  ]

  -- `effects`
  unfoldable pub effects : WorkflowState → List RuntimeEffect
  unfolding node_effects schedule_invocation
  effects state =
      (if state.needs_schedule then schedule_invocation state ∷ [] else [])
      ++ (map (λ item. item.1) (node_effects state)
          ++ (map (λ item. emit item.event none) state.pending_emits
              ++ (map cancel_effect state.pending_cancels ++ failure_effects state)))
