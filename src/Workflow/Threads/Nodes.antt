-- ===== src/Workflow/Threads/Nodes.antt =====
-- packages/workflow/src/threads.ts: the states of a workflow's nodes, and the start of a thread or a node.
use looms.Prelude.{
  ℕ, ◌+◌, String, Option, none, some, true, false, List, [], ◌∷◌, ◌++◌, includes, or_else, or_try,
  truthy, if◌then◌else◌, ◌>>=◌,
}
use looms.Prelude.Dict.{Dict, get, put}
use looms.Core.Json.{Json, null, str, arr, Items, nil, cons, field_of, as_object, non_null}
use looms.Workflow.Graph.Data.{NodeState, SkipCause, pending, running, completed, failed, skipped}
use looms.Workflow.Threads.Data.{WorkflowState}
use looms.Workflow.Threads.Invocations.{default_definition_version}

abbrev pub new_node : NodeState
new_node = record {
  status = pending;
  result = null;
  error = none;
  attempts = none;
  branch = none;
  skip_cause = none;
  iteration = none;
}

unfoldable pub put_node : String → NodeState → Dict NodeState → Dict NodeState
unfolding put
put_node id node nodes = put id node nodes

unfoldable pub attempts_at : WorkflowState → String → Option ℕ
unfolding get
attempts_at state node_id = get node_id state.nodes >>= λ n. n.attempts

-- The strings among the items of an array.
unfoldable pub string_items : Items → List String
string_items nil = []
string_items (cons (str s) items) = s ∷ string_items items
string_items (cons _ items) = string_items items

-- `inputObj.nodeIds`, or the state's node ids where that is no array
abbrev ids_or : List String → Option Json → List String
unfolding string_items
ids_or ids (some (arr items)) = string_items items
ids_or ids _ = ids

abbrev input_ids : WorkflowState → Option Json → List String
unfolding ids_or field_of
input_ids state input = ids_or state.node_ids (as_object input >>= λ fs. field_of "nodeIds" fs)

unfoldable pub new_nodes : Dict NodeState → List String → Dict NodeState
unfolding put_node
new_nodes nodes [] = nodes
new_nodes nodes (id ∷ ids) = new_nodes (put_node id new_node nodes) ids

-- `runtime.thread.started`
unfoldable pub thread_started_step :
    WorkflowState → Option String → Option String → Option Json → WorkflowState
unfolding new_nodes input_ids
thread_started_step state name version input = record state {
  definition_name = or_try (truthy name) state.definition_name;
  definition_version =
      some (or_else (or_try version state.definition_version) default_definition_version);
  nodes = new_nodes [] (input_ids state input);
  node_ids = input_ids state input;
  input = or_else (non_null input) state.input;
  needs_schedule = true;
}

abbrev pub running_node : WorkflowState → String → NodeState
unfolding attempts_at
running_node state node_id = record new_node {
  status = running;
  attempts = some (or_else (attempts_at state node_id) 0 + 1);
}

-- `workflow.node.started`
unfoldable pub node_started_step : WorkflowState → String → WorkflowState
unfolding put_node running_node
node_started_step state node_id = record state {
  nodes = put_node node_id (running_node state node_id) state.nodes;
  running_nodes =
      if includes state.running_nodes node_id
      then state.running_nodes
      else state.running_nodes ++ node_id ∷ [];
  needs_schedule = false;
}

unfoldable pub finished_node :
    WorkflowState → String → Json → Option String → Option String → NodeState
unfolding attempts_at
finished_node state node_id result error branch = record new_node {
  status = elim error [ none ↦ completed | some _ ↦ failed ];
  result = result;
  error = error;
  attempts = some (or_else (attempts_at state node_id) 1);
  branch = branch;
}

unfoldable pub skipped_node : WorkflowState → String → String → SkipCause → NodeState
unfolding attempts_at
skipped_node state node_id reason cause = record new_node {
  status = skipped;
  error = some reason;
  attempts = some (or_else (attempts_at state node_id) 0);
  skip_cause = some cause;
}
