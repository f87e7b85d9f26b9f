-- ===== src/Workflow/Graph/Start.antt =====
-- packages/workflow/src/graph.ts: what `topologicalSort` counts before its loop.
use looms.Prelude.{
  ◌+◌, ◌<◌, String, true, List, [], ◌∷◌, ◌++◌, ◌≡◌, ◌==◌, inl, inr, refl, sym, ◌∙◌, arith, or_else,
  ◌&&◌, if◌then◌else◌, includes, Bool-cases, eq_iff, append-nil, append_assoc,
}
use looms.Prelude.Dict.{Dict, get, get-put}
use looms.Workflow.Graph.Data.{WorkflowEdge, Node, ok}
use looms.Workflow.Graph.Sort.{
  Degrees, start_degrees, add_edge, add_edges, distinct_nodes, node_ids,
}
use looms.Workflow.Graph.Counts.{val, occurrences, pending, between}

abbrev pub targets_of : Dict (List String) → String → List String
targets_of outgoing id = or_else (get id outgoing) []

occurrences-append :
    (xs ys : List String) (t : String)
    → occurrences (xs ++ ys) t ≡ occurrences xs t + occurrences ys t
occurrences-append [] ys t = omega arith
occurrences-append (x ∷ xs) ys t = ground (arith, occurrences-append xs ys t)

pub start-counts : (ids : List String) (t : String) → val (start_degrees ids).indegree t ≡ 0
unfolding get
start-counts [] t = refl
start-counts (id ∷ ids) t = ground (arith, start-counts ids t)

pub start-targets :
    (ids : List String) (s t : String)
    → occurrences (targets_of (start_degrees ids).outgoing s) t ≡ 0
unfolding get
start-targets [] s t = refl
start-targets (id ∷ ids) s t =
    let rest = start-targets ids s t in
    elim (Bool-cases (id == s)) [ inl same ↦ rw same refl | inr other ↦ rw other rest ]

add_edge-counts :
    (d : Degrees) (e : WorkflowEdge) (t : String)
    → val (add_edge d e).indegree t ≡ val d.indegree t + (if e.target == t then 1 else 0)
unfolding add_edge
add_edge-counts d e t =
    ground (arith, get-put e.target t (val d.indegree e.target + 1) d.indegree, eq_iff e.target t)

add_edge-targets :
    (d : Degrees) (e : WorkflowEdge) (s t : String)
    → occurrences (targets_of (add_edge d e).outgoing s) t
      ≡ occurrences (targets_of d.outgoing s) t + (if e.source == s && e.target == t then 1 else 0)
unfolding add_edge
add_edge-targets d e s t =
    let more = get-put e.source s (targets_of d.outgoing e.source ++ e.target ∷ []) d.outgoing in
    elim (Bool-cases (e.source == s)) [
      | inl same ↦
          let found = occurrences-append (targets_of d.outgoing s) (e.target ∷ []) t in
          ground (arith, eq_iff e.source s)
      | inr other ↦ ground arith
    ]

pub add_edges-counts :
    (ids : List String) (d d' : Degrees) (edges : List WorkflowEdge) (t : String)
    → add_edges ids d edges ≡ ok d'
    → val d'.indegree t ≡ val d.indegree t + pending edges [] t
unfolding add_edges
add_edges-counts ids d d' [] t h = ground arith
add_edges-counts ids d d' (e ∷ edges) t h =
    let rest = add_edges-counts ids (add_edge d e) d' edges t in
    ground (arith, add_edge-counts d e t)

pub add_edges-targets :
    (ids : List String) (d d' : Degrees) (edges : List WorkflowEdge) (s t : String)
    → add_edges ids d edges ≡ ok d'
    → occurrences (targets_of d'.outgoing s) t
      ≡ occurrences (targets_of d.outgoing s) t + between edges s t
unfolding add_edges
add_edges-targets ids d d' [] s t h = ground arith
add_edges-targets ids d d' (e ∷ edges) s t h =
    let rest = add_edges-targets ids (add_edge d e) d' edges s t in
    ground (arith, add_edge-targets d e s t)

-- An edge into a node is an edge into one of the nodes.
pub pending-named :
    (ids : List String) (d d' : Degrees) (edges : List WorkflowEdge) (done : List String)
    (t : String)
    → add_edges ids d edges ≡ ok d'
    → 0 < pending edges done t
    → includes ids t ≡ true
unfolding add_edges
pending-named ids d d' [] done t h k = ground arith
pending-named ids d d' (e ∷ edges) done t h k =
    let rest = pending-named ids (add_edge d e) d' edges done t in ground (arith, eq_iff e.target t)

-- The ids are those of the nodes.
pub distinct_nodes-ids :
    (seen : List String) (nodes : List Node) (ids : List String)
    → distinct_nodes seen nodes ≡ ok ids
    → ids ≡ seen ++ node_ids nodes
unfolding distinct_nodes
distinct_nodes-ids seen [] ids h =
    let same : seen ≡ ids = ground arith in sym same ∙ sym (append-nil seen)
distinct_nodes-ids seen (node ∷ nodes) ids h =
    let rest = distinct_nodes-ids (seen ++ node.id ∷ []) nodes ids in
    elim (Bool-cases (includes seen node.id)) [
      | inl again ↦ ground arith
      | inr new ↦ rest (ground arith) ∙ append_assoc seen (node.id ∷ []) (node_ids nodes)
    ]
