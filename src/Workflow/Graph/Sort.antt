-- ===== src/Workflow/Graph/Sort.antt =====
-- packages/workflow/src/graph.ts: `topologicalSort`, by Kahn's algorithm.
use looms.Prelude.{
  ℕ, zero, suc, ◌+◌, ◌-◌, String, List, [], ◌∷◌, ◌++◌, eqb, ltb, if◌then◌else◌, length, includes,
  map, not, or_else, filter,
}
use looms.Prelude.Dict.{Dict, get, put}
use looms.Workflow.Graph.Data.{
  Node, WorkflowEdge, Result, ok, err, duplicate_node, unknown_source, unknown_target, cycle, ◌>>=◌,
}

abbrev pub node_ids : List Node → List String
node_ids [] = []
node_ids (node ∷ nodes) = node.id ∷ node_ids nodes

-- The nodes in turn: an id that came before is an error.
unfoldable pub distinct_nodes : List String → List Node → Result (List String)
distinct_nodes seen [] = ok seen
distinct_nodes seen (node ∷ nodes) =
    let rest = distinct_nodes (seen ++ node.id ∷ []) nodes in
    if includes seen node.id then err (duplicate_node node.id) else rest

-- `inputOrder`
unfoldable pub input_order : ℕ → List String → Dict ℕ
unfolding put
input_order index [] = []
input_order index (id ∷ ids) = (id, index) ∷ input_order (suc index) ids

-- The edges that are left to come in, by node, and the targets of the edges out of each node.
pub record Degrees : Type 0 where
  pub indegree : Dict ℕ
  pub outgoing : Dict (List String)

abbrev pub start_degrees : List String → Degrees
start_degrees ids = record {
  indegree = map (λ id. (id, 0)) ids;
  outgoing = map (λ id. (id, [])) ids;
}

unfoldable pub add_edge : Degrees → WorkflowEdge → Degrees
unfolding get put
add_edge d edge = record {
  indegree = put edge.target (or_else (get edge.target d.indegree) 0 + 1) d.indegree;
  outgoing =
      put edge.source (or_else (get edge.source d.outgoing) [] ++ edge.target ∷ []) d.outgoing;
}

unfoldable pub add_edges : List String → Degrees → List WorkflowEdge → Result Degrees
unfolding add_edge
add_edges ids d [] = ok d
add_edges ids d (edge ∷ edges) =
    let rest = add_edges ids (add_edge d edge) edges in
    if not (includes ids edge.source)
    then err (unknown_source edge.source)
    else if not (includes ids edge.target)
    then err (unknown_target edge.target)
    else rest

-- `ready.push(target)` and the stable sort by input order: the list is already sorted, so the
-- element goes behind those that do not come after it.
unfoldable pub insert_ready : Dict ℕ → String → List String → List String
unfolding get
insert_ready order target [] = target ∷ []
insert_ready order target (id ∷ ids) =
    if ltb (or_else (get target order) 0) (or_else (get id order) 0)
    then target ∷ id ∷ ids
    else id ∷ insert_ready order target ids

-- The edges out of one node are taken away. In `indegree` 0 also stands for a number below it:
-- neither becomes 0 again by a step down.
unfoldable pub release : Dict ℕ → List String → Dict ℕ → List String → Dict ℕ × List String
unfolding get put insert_ready
release order [] indegree ready = (indegree, ready)
release order (target ∷ targets) indegree ready =
    let last = eqb (or_else (get target indegree) 0) 1 in
    release order targets (put target (or_else (get target indegree) 0 - 1) indegree)
      (if last then insert_ready order target ready else ready)

-- The loop. A round takes one id from the ready list.
unfoldable pub sort_loop : ℕ → Dict ℕ → Dict (List String) → Dict ℕ → List String → List String
unfolding get release
sort_loop zero order outgoing indegree ready = []
sort_loop (suc fuel) order outgoing indegree [] = []
sort_loop (suc fuel) order outgoing indegree (id ∷ ready) =
    let (indegree', ready') = release order (or_else (get id outgoing) []) indegree ready in
    id ∷ sort_loop fuel order outgoing indegree' ready'

-- One round more than there are nodes: a sort that is longer than the nodes is as wrong as one that is
-- shorter.
unfoldable pub topological_sort : List Node → List WorkflowEdge → Result (List String)
unfolding get distinct_nodes input_order add_edges sort_loop
topological_sort nodes edges = do
  ids ← distinct_nodes [] nodes
  d ← add_edges ids (start_degrees ids) edges
  let ready = filter (λ id. eqb (or_else (get id d.indegree) 0) 0) ids
  let sorted = sort_loop (suc (length nodes)) (input_order 0 ids) d.outgoing d.indegree ready
  if eqb (length sorted) (length nodes) then ok sorted else err cycle
