-- ===== src/Workflow/Graph/Tests.antt =====
-- Runs of the workflow graph, and its theorems at them.
use looms.Prelude.{
  Distinct, ℕ, arith, eqb, or_else, filter, String, none, some, true, List, [], ◌∷◌, ◌≡◌, refl,
  includes, not,
}
use looms.Prelude.Dict.{get, put}
use looms.Core.Json.{Json, num, null}
use looms.Workflow.Graph.Data.{
  completed, skipped, policy, NodeState, fallback, switch, Node, WorkflowEdge, WorkflowDefinition,
  ok, err, cycle, filter_ok, all_ok, workflow_edges,
}
use looms.Workflow.Graph.Sort.{
  node_ids, Degrees, start_degrees, topological_sort, distinct_nodes, input_order, add_edge,
  add_edges, sort_loop, release, insert_ready,
}
use looms.Workflow.Graph.Activity.{
  States, is_edge_active, is_settled, is_ready, is_skippable, get_ready_node_ids,
  get_skippable_node_ids, get_unused_fallback_ids, pending_in, incoming, all_settled,
}
use looms.Workflow.Graph.Sorted.{topological_sort-order, topological_sort-node_ids}
use looms.Workflow.Graph.Rounds.{sort_loop_rounds}
use looms.Workflow.Graph.Split.{get_ready_node_ids_split}

abbrev plain_node : String → Node
plain_node id = record { id = id; deps = none; type = none; failure = none }

abbrev choice : Node
choice = record (plain_node "choice") { type = some switch }

abbrev edge_to : String → String → WorkflowEdge
edge_to target label = record { source = "choice"; target = target; label = some label }

abbrev branches : WorkflowDefinition
branches = record {
  nodes = plain_node "left" ∷ plain_node "right" ∷ choice ∷ [];
  edges = some (edge_to "left" "l" ∷ edge_to "right" "r" ∷ []);
}

abbrev done : Json → NodeState
done value = record {
  status = completed;
  result = value;
  error = none;
  attempts = none;
  branch = some "l";
  skip_cause = none;
  iteration = none;
}

abbrev chosen : States
chosen = ("choice", done null) ∷ []

branches-order :
    topological_sort branches.nodes (workflow_edges branches)
    ≡ ok ("choice" ∷ "left" ∷ "right" ∷ [])
unfolding topological_sort distinct_nodes input_order add_edge add_edges sort_loop release
    insert_ready get put workflow_edges
branches-order = refl

circle : topological_sort branches.nodes (edge_to "choice" "l" ∷ []) ≡ err cycle
unfolding topological_sort distinct_nodes input_order add_edge add_edges sort_loop release
    insert_ready get put
circle = refl

branches-ready : get_ready_node_ids branches chosen ≡ ok ("left" ∷ [])
unfolding get_ready_node_ids topological_sort distinct_nodes input_order add_edge add_edges
    sort_loop release insert_ready get put workflow_edges filter_ok all_ok is_ready is_settled
    is_edge_active
branches-ready = refl

branches-skippable : get_skippable_node_ids branches chosen ≡ ok ("right" ∷ [])
unfolding get_skippable_node_ids topological_sort distinct_nodes input_order add_edge add_edges
    sort_loop release insert_ready get put workflow_edges filter_ok all_ok is_skippable is_settled
    is_edge_active
branches-skippable = refl

settled_right : all_settled branches chosen (incoming (workflow_edges branches) "right") ≡ ok true
unfolding get workflow_edges all_ok is_settled
settled_right = refl

right_pending : pending_in chosen "right" ≡ true
unfolding get
right_pending = refl

get_ready_node_ids_split_example :
    includes ("right" ∷ []) "right" ≡ not (includes ("left" ∷ []) "right")
get_ready_node_ids_split_example =
    get_ready_node_ids_split branches chosen ("choice" ∷ "left" ∷ "right" ∷ []) ("left" ∷ [])
      ("right" ∷ []) "right" branches-order branches-ready branches-skippable refl right_pending
      refl settled_right

-- A node that fell back to another.
abbrev risky : Node
risky = record (plain_node "risky") { failure = some (fallback "spare") }

abbrev fell_back : States
fell_back =
    ("risky", record (done null) { status = skipped; skip_cause = some policy })
    ∷ ("spare", done (num 7))
    ∷ []

abbrev with_spare : WorkflowDefinition
with_spare = record { nodes = plain_node "spare" ∷ risky ∷ []; edges = none }

no_unused : get_unused_fallback_ids with_spare fell_back ≡ []
unfolding get_unused_fallback_ids get
no_unused = refl

branches-ids : distinct_nodes [] branches.nodes ≡ ok ("left" ∷ "right" ∷ "choice" ∷ [])
unfolding distinct_nodes
branches-ids = refl

abbrev branch_degrees : Degrees
branch_degrees = record {
  indegree = ("left", 1) ∷ ("right", 1) ∷ ("choice", 0) ∷ [];
  outgoing = ("left", []) ∷ ("right", []) ∷ ("choice", "left" ∷ "right" ∷ []) ∷ [];
}

branches-degrees :
    add_edges
      ("left" ∷ "right" ∷ "choice" ∷ [])
      (start_degrees ("left" ∷ "right" ∷ "choice" ∷ []))
      (workflow_edges branches)
    ≡ ok branch_degrees
unfolding add_edges add_edge get put workflow_edges
branches-degrees = refl

abbrev branch_rounds : ℕ → List String
unfolding get
branch_rounds rounds =
    sort_loop rounds (input_order 0 ("left" ∷ "right" ∷ "choice" ∷ [])) branch_degrees.outgoing
      branch_degrees.indegree
      (filter (λ id. eqb (or_else (get id branch_degrees.indegree) 0) 0)
        ("left" ∷ "right" ∷ "choice" ∷ []))

sort_loop_rounds_example : branch_rounds 4 ≡ branch_rounds 3
unfolding branch_rounds
sort_loop_rounds_example =
    sort_loop_rounds branches.nodes (workflow_edges branches) ("left" ∷ "right" ∷ "choice" ∷ [])
      branch_degrees 4 branches-ids branches-degrees (omega arith)

spare-order :
    topological_sort with_spare.nodes (workflow_edges with_spare) ≡ ok ("spare" ∷ "risky" ∷ [])
unfolding topological_sort distinct_nodes input_order add_edge add_edges sort_loop release
    insert_ready get put workflow_edges
spare-order = refl

-- A node that is its own fallback is neither started nor skipped.
abbrev own_fallback : WorkflowDefinition
own_fallback = record {
  nodes = record (plain_node "risky") { failure = some (fallback "risky") } ∷ [];
  edges = none;
}

own_fallback_stuck :
    (get_ready_node_ids own_fallback [] ≡ ok [])
    × (get_skippable_node_ids own_fallback [] ≡ ok [])
    × (get_unused_fallback_ids own_fallback [] ≡ [])
unfolding get_ready_node_ids get_skippable_node_ids get_unused_fallback_ids topological_sort
    distinct_nodes input_order add_edge add_edges sort_loop release insert_ready get put
    workflow_edges filter_ok all_ok is_ready is_skippable is_settled is_edge_active
own_fallback_stuck = (refl, refl, refl)

topological_sort-order_example : includes ("choice" ∷ "left" ∷ []) "choice" ≡ true
unfolding workflow_edges
topological_sort-order_example =
    topological_sort-order branches.nodes (edge_to "left" "l" ∷ []) [] (edge_to "right" "r")
      ("choice" ∷ "left" ∷ []) [] branches-order

topological_sort-node_ids_example :
    Distinct ("choice" ∷ "left" ∷ "right" ∷ [])
    × (includes ("choice" ∷ "left" ∷ "right" ∷ []) "left"
        ≡ includes (node_ids branches.nodes) "left")
topological_sort-node_ids_example =
    topological_sort-node_ids branches.nodes (workflow_edges branches)
      ("choice" ∷ "left" ∷ "right" ∷ []) "left" branches-order
