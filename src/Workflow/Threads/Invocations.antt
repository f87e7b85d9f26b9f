-- ===== src/Workflow/Threads/Invocations.antt =====
-- packages/workflow/src/threads.ts: the inline effects that a workflow thread runs.
use looms.Prelude.{ℕ, String, Option, none, some, [], ◌∷◌, ◌<>◌, show, or_else, option_map, ◌>>=◌}
use looms.Prelude.Dict.{Dict, get}
use looms.Core.Json.{Json, null, num, str, obj, Fields, end, field}
use looms.Core.Effects.{RuntimeEffect, invoke}
use looms.Workflow.Graph.Data.{
  NodeState, NodeStatus, SkipCause, pending, running, completed, failed, skipped, inactive, policy,
}
use looms.Workflow.Threads.Data.{WorkflowState}

abbrev optional : String → Option Json → Fields → Fields
optional key none fs = fs
optional key (some v) fs = field key v fs

abbrev status_text : NodeStatus → String
status_text pending = "pending"
status_text running = "running"
status_text completed = "completed"
status_text failed = "failed"
status_text skipped = "skipped"

abbrev cause_text : SkipCause → String
cause_text inactive = "inactive"
cause_text policy = "policy"

abbrev or_null_text : Option String → Json
or_null_text none = null
or_null_text (some s) = str s

abbrev iteration_json : ℕ × Json → Json
iteration_json (index, previous) = obj (field "index" (num index) (field "previous" previous end))

abbrev node_json : NodeState → Json
node_json node = obj (
    field "status" (str (status_text node.status)) (
      field "result" node.result (
        field "error" (or_null_text node.error) (
          optional "attempts" (option_map num node.attempts) (
            optional "branch" (option_map str node.branch) (
              optional "skipCause" (option_map (λ c. str (cause_text c)) node.skip_cause)
                (optional "iteration" (option_map iteration_json node.iteration) end)))))))

abbrev nodes_fields : Dict NodeState → Fields
nodes_fields [] = end
nodes_fields ((id, node) ∷ nodes) = field id (node_json node) (nodes_fields nodes)

abbrev nodes_json : Dict NodeState → Json
nodes_json nodes = obj (nodes_fields nodes)

abbrev pub default_definition_version : String
default_definition_version = "v1"

-- `scheduleInvocation`
unfoldable pub schedule_invocation : WorkflowState → RuntimeEffect
schedule_invocation state =
    invoke "workflow.schedule"
      (obj (
        optional "definitionName" (option_map str state.definition_name) (
          field "definitionVersion"
            (str (or_else state.definition_version default_definition_version))
            (field "nodes" (nodes_json state.nodes) (field "input" state.input end)))))
      none none

-- `nodeRunKey` of graph.ts
unfoldable pub node_run_key : String → ℕ → Option ℕ → String
unfolding show
node_run_key node_id attempt none = node_id <> "_" <> show attempt
node_run_key node_id attempt (some iteration) =
    node_id <> "_" <> show attempt <> "_" <> show iteration

abbrev attempts_of : Option NodeState → Option ℕ
attempts_of node = node >>= λ n. n.attempts

abbrev iteration_of : Option NodeState → Option (ℕ × Json)
iteration_of node = node >>= λ n. n.iteration

-- `runNodeInvocation`
unfoldable pub run_node_invocation : WorkflowState → String → RuntimeEffect
unfolding get node_run_key
run_node_invocation state node_id =
    let node = get node_id state.nodes in
    let attempts = or_else (attempts_of node) 1 in
    invoke "workflow.runNode"
      (obj (
        optional "definitionName" (option_map str state.definition_name) (
          field "definitionVersion"
            (str (or_else state.definition_version default_definition_version))
            (field "nodeId" (str node_id) (
              field "attempt" (num attempts) (
                optional "iteration" (option_map iteration_json (iteration_of node))
                  (field "input" state.input (field "nodes" (nodes_json state.nodes) end))))))))
      (some
        ("runNode_" <> node_run_key node_id attempts (option_map (λ it. it.0) (iteration_of node))))
      none
