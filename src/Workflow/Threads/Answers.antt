-- ===== src/Workflow/Threads/Answers.antt =====
-- packages/workflow/src/threads.ts: the wait that is satisfied, and `waitOutcome` of
-- packages/core/src/effects.ts.
use looms.Prelude.{
  ℕ, ◌+◌, String, Option, none, some, true, List, ◌==◌, filter, find?, not, or_else, or_try,
  if◌then◌else◌, ◌>>=◌,
}
use looms.Prelude.Dict.{get}
use looms.Core.Json.{
  Json, null, obj, Fields, end, field, field_of, as_string, as_number, as_object, or_null, non_null,
}
use looms.Workflow.Graph.Data.{NodeState}
use looms.Workflow.Threads.Data.{PendingMap, WorkflowState}
use looms.Workflow.Threads.Pending.{finish_node, record_map_output}
use looms.Workflow.Threads.Nodes.{put_node}
use looms.Workflow.Threads.Requests.{is_current_attempt}

-- The result and the error of a satisfied wait (`waitOutcome`)
unfoldable pub wait_outcome : Option Json → Fields → Json → Json × Option String
unfolding field_of
wait_outcome satisfied tag fallback =
    let given = as_object satisfied >>= λ fs. field_of "payload" fs in
    let payload = or_else (as_object given) end in
    let error = or_try (as_string (field_of "error" payload)) (as_string (field_of "error" tag)) in
    let whole : Option Json = elim (as_object satisfied) [
      | none ↦ some fallback
      | some _ ↦ given
    ] in
    elim error [
      | some e ↦ (null, some e)
      | none ↦ (or_null (or_try (non_null (field_of "output" payload)) whole), none)
    ]

-- The child that a satisfied wait names.
unfoldable pub settled_child : Option Json → Option String
unfolding field_of
settled_child satisfied =
    as_object (as_object satisfied >>= λ fs. field_of "payload" fs) >>= λ payload.
    or_try (as_string (field_of "runId" payload)) (as_string (field_of "threadId" payload))

abbrev waited : Json
waited = obj (field "waited" (Json.bool true) end)

-- The state in which a loop goes on with its next iteration.
unfoldable pub next_iteration : WorkflowState → String → NodeState → ℕ → Json → WorkflowState
unfolding put_node
next_iteration state node_id node loop_index result = record state {
  nodes = put_node node_id (record node { iteration = some (loop_index + 1, result) }) state.nodes;
  pending_spawns = filter (λ item. not (item.node_id == node_id)) state.pending_spawns;
}

-- The map that an answer is an item of, with the item's index.
unfoldable pub map_answer : WorkflowState → String → Fields → Option (PendingMap × ℕ)
unfolding field_of
map_answer state node_id tag = do
  item ← find? (λ item. item.node_id == node_id) state.pending_maps
  index ← as_number (field_of "index" tag)
  some (item, index)

-- The node that an answer ends an iteration of, with the index of the iteration.
unfoldable pub loop_answer : WorkflowState → String → Fields → Option (NodeState × ℕ)
unfolding field_of get
loop_answer state node_id tag = do
  node ← get node_id state.nodes
  index ← as_number (field_of "loopIndex" tag)
  some (node, index)

module _ (thread_id run_id : String) where
  module _ (size_of : List (ℕ × Json) → ℕ) where
    -- A wait that ended without error: an item of a map, an iteration of a loop, or the node.
    unfoldable pub succeed_by :
        WorkflowState
        → String
        → Json
        → Option String
        → Option (PendingMap × ℕ)
        → Option (NodeState × ℕ)
        → WorkflowState
    unfolding record_map_output finish_node next_iteration
    succeed_by state node_id result settled (some (item, index)) loop =
        record_map_output thread_id run_id size_of state item index result
    succeed_by state node_id result settled none (some (node, index)) =
        next_iteration state node_id node index result
    succeed_by state node_id result settled none none =
        finish_node thread_id run_id state node_id result none settled

    unfoldable pub succeed_wait :
        WorkflowState → String → Fields → Json → Option String → WorkflowState
    unfolding succeed_by map_answer loop_answer
    succeed_wait state node_id tag result settled =
        succeed_by state node_id result settled (map_answer state node_id tag)
          (loop_answer state node_id tag)

    unfoldable pub end_wait :
        WorkflowState → String → Fields → Option Json → Json × Option String → WorkflowState
    unfolding succeed_wait finish_node settled_child
    end_wait state node_id tag event (result, none) =
        succeed_wait state node_id tag result (settled_child event)
    end_wait state node_id tag event (result, some error) =
        finish_node thread_id run_id state node_id result (some error) (settled_child event)

    unfoldable pub answer : WorkflowState → String → Fields → Option Json → WorkflowState
    unfolding is_current_attempt end_wait wait_outcome field_of
    answer state node_id tag event =
        if is_current_attempt state node_id (field_of "attempt" tag)
        then end_wait state node_id tag event (wait_outcome event tag waited)
        else state

    -- `runtime.wait.satisfied`
    unfoldable pub wait_satisfied_step : WorkflowState → Option Json → Option Json → WorkflowState
    unfolding field_of answer
    wait_satisfied_step state tag event =
        or_else
          (do
            fs ← as_object tag
            node_id ← as_string (field_of "nodeId" fs)
            some (answer state node_id fs event))
          state
