-- ===== src/Workflow/Threads/Pending.antt =====
-- packages/workflow/src/threads.ts: how a node's pending work is dropped, finished and recorded. The
-- size of the JSON text of a map's outputs (`utf8JsonBytes`) is an argument.
use looms.Prelude.{
  ℕ, suc, ◌+◌, min, String, Option, none, some, List, [], ◌∷◌, ◌++◌, ◌<>◌, ◌==◌, show, map, filter,
  length, not, ◌&&◌, is_the, includes, eqb, ltb, if◌then◌else◌,
}
use looms.Core.Json.{Json, null, str, arr, obj, Items, nil, cons, end, field, or_null}
use looms.Core.Envelope.{EventInput, EventType}
use looms.Workflow.Threads.Data.{PendingSpawn, PendingMap, WorkflowState}
use looms.Workflow.Threads.Effects.{
  child_target, map_child_thread_id, has_output, in_flight, flat_map,
}

abbrev nullable_text : Option String → Json
nullable_text none = null
nullable_text (some s) = str s

-- `workflow.node.finished`, as `finishNode` emits it
unfoldable pub finished_event : String → String → Json → Option String → EventInput
finished_event thread_id node_id result error = record {
  type = EventType.other "workflow.node.finished";
  payload = obj (
      field "nodeId" (str node_id)
        (field "result" result (field "error" (nullable_text error) end)));
  thread_id = some (some thread_id);
  parent_thread_id = none;
  causation_id = none;
  correlation_id = none;
  effect_id = none;
  origin = none;
  ephemeral = none;
  id = none;
  ts = none;
  idempotency_key = none;
}

abbrev pub finished_id : String → String
finished_id node_id = "finished_" <> node_id

abbrev pub lookup_output : List (ℕ × Json) → ℕ → Option Json
lookup_output [] index = none
lookup_output ((i, v) ∷ outputs) index = if eqb i index then some v else lookup_output outputs index

-- `map.items.map((_, i) => outputs[String(i)] ?? null)`, from an index on
unfoldable pub ordered_from : ℕ → List Json → List (ℕ × Json) → Items
ordered_from index [] outputs = nil
ordered_from index (_ ∷ items) outputs =
    cons (or_null (lookup_output outputs index)) (ordered_from (suc index) items outputs)

abbrev too_large : PendingMap → ℕ → String
too_large item size =
    "Node "
    <> item.node_id
    <> " outputs is "
    <> show size
    <> " UTF-8 bytes; limit is "
    <> show item.limit_bytes
    <> " bytes"

unfoldable pub update_map : PendingMap → List (ℕ × Json) → ℕ → PendingMap → PendingMap
update_map target outputs next_index item =
    if item.node_id == target.node_id
    then record item { outputs = outputs; next_index = next_index }
    else item

module _ (thread_id run_id : String) where
  -- The targets of a node's children that have not reported back (`unsettledChildren`).
  unfoldable pub spawn_targets : String → List PendingSpawn → List String
  unfolding child_target
  spawn_targets node_id spawns =
      map (λ item. child_target run_id item.child_thread_id item.execution)
        (filter (λ item. item.node_id == node_id) spawns)

  unfoldable pub map_targets_of : PendingMap → List String
  unfolding child_target map_child_thread_id in_flight
  map_targets_of item =
      map (λ index. child_target run_id (map_child_thread_id thread_id item index) item.execution)
        (in_flight item)

  unfoldable pub map_targets : String → List PendingMap → List String
  unfolding map_targets_of
  map_targets node_id maps = flat_map map_targets_of (filter (λ item. item.node_id == node_id) maps)

  unfoldable pub unsettled_targets : WorkflowState → String → List String
  unfolding spawn_targets map_targets
  unsettled_targets state node_id =
      spawn_targets node_id state.pending_spawns ++ map_targets node_id state.pending_maps

  -- `withoutPendingWork`
  unfoldable pub without_pending_work : WorkflowState → String → Option String → WorkflowState
  unfolding unsettled_targets
  without_pending_work state node_id settled = record state {
    pending_cancels =
        state.pending_cancels
        ++ filter
            (λ target. not (is_the settled target) && not (includes state.pending_cancels target))
            (unsettled_targets state node_id);
    pending_spawns = filter (λ item. not (item.node_id == node_id)) state.pending_spawns;
    pending_maps = filter (λ item. not (item.node_id == node_id)) state.pending_maps;
    pending_sleeps = filter (λ item. not (item.node_id == node_id)) state.pending_sleeps;
    pending_effects = filter (λ item. not (item.node_id == node_id)) state.pending_effects;
  }

  -- `stopNode`
  unfoldable pub stop_node : WorkflowState → String → WorkflowState
  unfolding without_pending_work
  stop_node state node_id = record (without_pending_work state node_id none) {
    running_nodes = filter (λ id. not (id == node_id)) state.running_nodes;
  }

  -- `finishNode`
  unfoldable pub finish_node :
      WorkflowState → String → Json → Option String → Option String → WorkflowState
  unfolding without_pending_work finished_event
  finish_node state node_id result error settled =
      record (without_pending_work state node_id settled) {
        pending_emits =
            filter (λ item. not (item.id == finished_id node_id)) state.pending_emits
            ++ (record {
              id = finished_id node_id;
              event = finished_event thread_id node_id result error;
            })
              ∷ [];
      }

  module _ (size_of : List (ℕ × Json) → ℕ) where
    -- `recordMapOutput` for an index that has no output yet, with the outputs that it makes.
    unfoldable pub record_outputs : WorkflowState → PendingMap → ℕ → List (ℕ × Json) → WorkflowState
    unfolding finish_node child_target map_child_thread_id ordered_from update_map show
    record_outputs state item index outputs =
        let settled =
          some (child_target run_id (map_child_thread_id thread_id item index) item.execution) in
        if ltb item.limit_bytes (size_of outputs)
        then finish_node state item.node_id null (some (too_large item (size_of outputs))) settled
        else if eqb (length outputs) (length item.items)
        then finish_node state item.node_id (arr (ordered_from 0 item.items outputs)) none settled
        else record state {
          pending_maps =
              map (update_map item outputs (min (length item.items) (item.next_index + 1)))
                state.pending_maps;
        }

    -- `recordMapOutput`
    unfoldable pub record_map_output : WorkflowState → PendingMap → ℕ → Json → WorkflowState
    unfolding record_outputs
    record_map_output state item index output =
        if has_output item.outputs index
        then state
        else record_outputs state item index (item.outputs ++ (index, output) ∷ [])
