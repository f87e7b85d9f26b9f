-- ===== src/Workflow/Graph/Activity.antt =====
-- packages/workflow/src/graph.ts: active edges, settled nodes, and the nodes to start or to skip.
use looms.Prelude.{
  or_try, ℕ, zero, suc, String, Option, none, some, Bool, true, false, List, [], ◌∷◌, ◌++◌, ◌==◌,
  ◌&&◌, ◌||◌, if◌then◌else◌, length, includes, not, or_else, filter, find?, any, all, is_some,
  is_the,
}
use looms.Prelude.Dict.{Dict, get, put}
use looms.Core.Json.{Json, as_string, null}
use looms.Workflow.Graph.Data.{
  NodeState, NodeStatus, pending, completed, skipped, SkipCause, policy, FailurePolicy, fallback,
  NodeType, switch, Node, WorkflowEdge, WorkflowDefinition, Result, ok, err, endless_fallback,
  ◌>>=◌, filter_ok, all_ok, workflow_edges,
}
use looms.Workflow.Graph.Sort.{topological_sort}

abbrev pub States : Type 0
States = Dict NodeState

abbrev pub status_of : Option NodeState → NodeStatus
status_of none = pending
status_of (some state) = state.status

abbrev pub is_pending : NodeStatus → Bool
is_pending pending = true
is_pending _ = false

-- `(states[id]?.status ?? 'pending') === 'pending'`
abbrev pub pending_in : States → String → Bool
pending_in states id = is_pending (status_of (get id states))

abbrev is_switch_type : Option NodeType → Bool
is_switch_type (some switch) = true
is_switch_type _ = false

abbrev is_switch : Option Node → Bool
is_switch none = false
is_switch (some node) = is_switch_type node.type

-- `selectedBranch`
abbrev branch_of : NodeStatus → NodeState → Option String
branch_of completed state = or_try state.branch (as_string (some state.result))
branch_of _ state = none

abbrev selected_branch : Option NodeState → Option String
selected_branch none = none
selected_branch (some state) = branch_of state.status state

abbrev by_policy : Option SkipCause → Bool
by_policy (some policy) = true
by_policy _ = false

-- The cause of a node that was skipped.
abbrev skipped_for : NodeStatus → Option SkipCause → Option Bool
skipped_for skipped cause = some (by_policy cause)
skipped_for _ cause = none

-- Whether the node was skipped, and if so, whether by policy.
abbrev pub skip_of : Option NodeState → Option Bool
skip_of none = none
skip_of (some state) = skipped_for state.status state.skip_cause

abbrev same_label : Option String → Option String → Bool
same_label none branch = false
same_label (some label) branch = is_the branch label

abbrev pub find_node : List Node → String → Option Node
find_node nodes id = find? (λ node. node.id == id) nodes

-- `isEdgeActive`
unfoldable pub is_edge_active : WorkflowEdge → List Node → States → Bool
unfolding get
is_edge_active edge nodes states = or_else (skip_of (get edge.source states)) (
    if is_switch (find_node nodes edge.source)
    then same_label edge.label (selected_branch (get edge.source states))
    else true)

abbrev pub handed_to : Option FailurePolicy → Option Bool → Option String
handed_to (some (fallback node_id)) (some true) = some node_id
handed_to _ _ = none

-- `activeFallback`
abbrev pub active_fallback : Node → Option NodeState → Option String
active_fallback node state = handed_to node.failure (skip_of state)

abbrev pub settled_status : NodeStatus → Option Bool
settled_status completed = some true
settled_status skipped = none
settled_status _ = some false

abbrev pub fallback_of : Option Node → Option NodeState → Option String
fallback_of none state = none
fallback_of (some node) state = active_fallback node state

-- `isSettled`. The recursion follows fallbacks; a chain of more of them than the fuel does not end.
unfoldable pub is_settled : ℕ → WorkflowDefinition → States → String → Result Bool
unfolding get
is_settled zero definition states id = err endless_fallback
is_settled (suc fuel) definition states id = elim (settled_status (status_of (get id states))) [
  | some settled ↦ ok settled
  | none ↦ elim (fallback_of (find_node definition.nodes id) (get id states)) [
    | none ↦ ok true
    | some target ↦ is_settled fuel definition states target
  ]
]

abbrev pub target_of : Option FailurePolicy → List String
target_of (some (fallback node_id)) = node_id ∷ []
target_of _ = []

-- `fallbackTargets`, a set in insertion order
abbrev add_target : List String → List String → List String
add_target seen [] = seen
add_target seen (id ∷ ids) = if includes seen id then seen else seen ++ id ∷ []

abbrev pub fallback_targets : List String → List Node → List String
fallback_targets seen [] = seen
fallback_targets seen (node ∷ nodes) =
    fallback_targets (add_target seen (target_of node.failure)) nodes

abbrev pub incoming : List WorkflowEdge → String → List WorkflowEdge
incoming edges id = filter (λ edge. edge.target == id) edges

abbrev pub no_edges : List WorkflowEdge → Bool
no_edges [] = true
no_edges (_ ∷ _) = false

abbrev pub chain_bound : WorkflowDefinition → ℕ
chain_bound definition = suc (length definition.nodes)

-- Whether every edge comes from a settled node.
abbrev pub all_settled : WorkflowDefinition → States → List WorkflowEdge → Result Bool
all_settled definition states edges =
    all_ok (λ edge. is_settled (chain_bound definition) definition states edge.source) edges

abbrev pub some_active : WorkflowDefinition → States → List WorkflowEdge → Bool
some_active definition states edges =
    any (λ edge. is_edge_active edge definition.nodes states) edges

-- The test of `getReadyNodeIds`
unfoldable pub is_ready : WorkflowDefinition → States → List WorkflowEdge → String → Result Bool
unfolding get all_ok
is_ready definition states edges id =
    if not (pending_in states id) || includes (fallback_targets [] definition.nodes) id
    then ok false
    else if no_edges (incoming edges id)
    then ok true
    else all_settled definition states (incoming edges id) >>= λ settled.
        ok (settled && some_active definition states (incoming edges id))

-- The test of `getSkippableNodeIds`
unfoldable pub is_skippable : WorkflowDefinition → States → List WorkflowEdge → String → Result Bool
unfolding get all_ok
is_skippable definition states edges id =
    if not (pending_in states id) || no_edges (incoming edges id)
    then ok false
    else all_settled definition states (incoming edges id) >>= λ settled.
        ok (settled && not (some_active definition states (incoming edges id)))

unfoldable pub get_ready_node_ids : WorkflowDefinition → States → Result (List String)
unfolding topological_sort filter_ok workflow_edges is_ready
get_ready_node_ids definition states = do
  order ← topological_sort definition.nodes (workflow_edges definition)
  filter_ok (is_ready definition states (workflow_edges definition)) order

unfoldable pub get_skippable_node_ids : WorkflowDefinition → States → Result (List String)
unfolding topological_sort filter_ok workflow_edges is_skippable
get_skippable_node_ids definition states = do
  order ← topological_sort definition.nodes (workflow_edges definition)
  filter_ok (is_skippable definition states (workflow_edges definition)) order

abbrev pub is_over : NodeStatus → Bool
is_over completed = true
is_over skipped = true
is_over _ = false

-- A primary that settled without falling back.
abbrev pub did_not_fall_back : States → Node → Bool
did_not_fall_back states node =
    is_over (status_of (get node.id states))
    && not (is_some (active_fallback node (get node.id states)))

abbrev pub falls_back_to : String → Node → Bool
falls_back_to target node = includes (target_of node.failure) target

-- `getUnusedFallbackIds`
unfoldable pub get_unused_fallback_ids : WorkflowDefinition → States → List String
unfolding get
get_unused_fallback_ids definition states =
    filter
      (λ target.
        pending_in states target
        && all (did_not_fall_back states) (filter (falls_back_to target) definition.nodes))
      (fallback_targets [] definition.nodes)

abbrev pub own_results : States → Dict Json
own_results [] = []
own_results ((id, state) ∷ states) = (id, state.result) ∷ own_results states

abbrev pub result_of : Option NodeState → Json
result_of none = null
result_of (some state) = state.result

-- One round of the loop of `nodeResults`
abbrev pub report : States → Dict Json → Node → Option String → Dict Json
report states results node none = results
report states results node (some target) = put node.id (result_of (get target states)) results

unfoldable pub report_fallbacks : States → List Node → Dict Json → Dict Json
unfolding get put
report_fallbacks states [] results = results
report_fallbacks states (node ∷ nodes) results =
    report_fallbacks states nodes
      (report states results node (active_fallback node (get node.id states)))

-- `nodeResults`
unfoldable pub node_results : WorkflowDefinition → States → Dict Json
unfolding report_fallbacks
node_results definition states = report_fallbacks states definition.nodes (own_results states)
