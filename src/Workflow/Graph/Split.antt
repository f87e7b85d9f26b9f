-- ===== src/Workflow/Graph/Split.antt =====
-- packages/workflow/src/graph.ts: a node whose predecessors are settled is started or skipped.
use looms.Prelude.{
  if◌then◌else◌, ◌≢◌, String, Bool, true, false, List, [], ◌∷◌, ◌≡◌, ◌⊎◌, inl, inr, arith, not,
  includes, eq_iff,
}
use looms.Workflow.Graph.Data.{
  WorkflowDefinition, WorkflowEdge, Result, ok, err, GraphError, filter_ok, Result-cases,
  workflow_edges,
}
use looms.Workflow.Graph.Sort.{topological_sort}
use looms.Workflow.Graph.Activity.{
  States, pending_in, fallback_targets, incoming, all_settled, is_ready, is_skippable,
  get_ready_node_ids, get_skippable_node_ids,
}

filter_ok-cons :
    (p : String → Result Bool) (x : String) (xs ys : List String)
    → filter_ok p (x ∷ xs) ≡ ok ys
    → (keeps : Bool) × (rest : List String) × (p x ≡ ok keeps)
      × (filter_ok p xs ≡ ok rest)
      × (ys ≡ (if keeps then x ∷ rest else rest))
unfolding filter_ok
filter_ok-cons p x xs ys e = elim (Result-cases (p x)) [
  | inl (keeps, tested) ↦ elim (Result-cases (filter_ok p xs)) [
    | inl (rest, others) ↦ (keeps, rest, tested, others, ground arith)
    | inr (thrown, others) ↦ ground arith
  ]
  | inr (thrown, tested) ↦ ground arith
]

-- What a filter keeps are the elements at which its test returns true.
filter_ok-includes :
    (p : String → Result Bool) (xs ys : List String) (x : String)
    → filter_ok p xs ≡ ok ys
    → includes ys x ≡ true
    → (p x ≡ ok true) × (includes xs x ≡ true)
unfolding filter_ok
filter_ok-includes p [] ys x e h = ground arith
filter_ok-includes p (y ∷ xs) ys x e h =
    let (keeps, rest, tested, others, same) = filter_ok-cons p y xs ys e in
    ground (arith, eq_iff y x, filter_ok-includes p xs rest x others)

pub filter_ok-keeps :
    (p : String → Result Bool) (xs ys : List String) (x : String)
    → filter_ok p xs ≡ ok ys
    → includes xs x ≡ true
    → p x ≡ ok true
    → includes ys x ≡ true
unfolding filter_ok
filter_ok-keeps p [] ys x e h k = ground arith
filter_ok-keeps p (y ∷ xs) ys x e h k =
    let (keeps, rest, tested, others, same) = filter_ok-cons p y xs ys e in
    ground (arith, eq_iff y x, filter_ok-keeps p xs rest x others)

module _ (definition : WorkflowDefinition) (states : States) (edges : List WorkflowEdge)
    (id : String) where
  is_ready-apart :
      is_ready definition states edges id ≡ ok true
      → is_skippable definition states edges id ≢ ok true
  unfolding is_ready is_skippable
  is_ready-apart r k = ground arith

  is_ready-decided :
      pending_in states id ≡ true
      → includes (fallback_targets [] definition.nodes) id ≡ false
      → all_settled definition states (incoming edges id) ≡ ok true
      → (is_ready definition states edges id ≡ ok true)
        ⊎ (is_skippable definition states edges id ≡ ok true)
  unfolding is_ready is_skippable
  is_ready-decided p f s = ground arith

module _ (definition : WorkflowDefinition) (states : States) where
  pub ready-order :
      (order ready : List String)
      → topological_sort definition.nodes (workflow_edges definition) ≡ ok order
      → get_ready_node_ids definition states ≡ ok ready
      → filter_ok (is_ready definition states (workflow_edges definition)) order ≡ ok ready
  unfolding get_ready_node_ids
  ready-order order ready sorted e = ground arith

  pub skippable-order :
      (order skippable : List String)
      → topological_sort definition.nodes (workflow_edges definition) ≡ ok order
      → get_skippable_node_ids definition states ≡ ok skippable
      → filter_ok (is_skippable definition states (workflow_edges definition)) order ≡ ok skippable
  unfolding get_skippable_node_ids
  skippable-order order skippable sorted e = ground arith

  ready-sorted :
      (ready : List String) (thrown : GraphError)
      → get_ready_node_ids definition states ≡ ok ready
      → topological_sort definition.nodes (workflow_edges definition) ≢ err thrown
  unfolding get_ready_node_ids
  ready-sorted ready thrown r failed = ground arith

  -- When the ready and the skippable nodes are computed, no node is among both.
  pub get_ready_node_ids_apart :
      (ready skippable : List String) (id : String)
      → get_ready_node_ids definition states ≡ ok ready
      → get_skippable_node_ids definition states ≡ ok skippable
      → includes ready id ≡ true
      → includes skippable id ≡ false
  get_ready_node_ids_apart ready skippable id r k h =
      let edges = workflow_edges definition in
      elim (Result-cases (topological_sort definition.nodes edges)) [
        | inl (order, sorted) ↦ ground (
          arith,
          is_ready-apart definition states edges id,
          filter_ok-includes (is_ready definition states edges) order ready id
              (ready-order order ready sorted r),
          filter_ok-includes (is_skippable definition states edges) order skippable id
              (skippable-order order skippable sorted k),
        )
        | inr (thrown, failed) ↦ absurd (ready-sorted ready thrown r failed)
      ]

  -- When the ready and the skippable nodes are computed, a pending node of the order that is not a
  -- fallback's target, and whose predecessors are all settled, is skippable if and only if it is not
  -- ready.
  pub get_ready_node_ids_split :
      (order ready skippable : List String) (id : String)
      → topological_sort definition.nodes (workflow_edges definition) ≡ ok order
      → get_ready_node_ids definition states ≡ ok ready
      → get_skippable_node_ids definition states ≡ ok skippable
      → includes order id ≡ true
      → pending_in states id ≡ true
      → includes (fallback_targets [] definition.nodes) id ≡ false
      → all_settled definition states (incoming (workflow_edges definition) id) ≡ ok true
      → includes skippable id ≡ not (includes ready id)
  get_ready_node_ids_split order ready skippable id sorted r k known p f s =
      let edges = workflow_edges definition in
      let apart = get_ready_node_ids_apart ready skippable id r k in
      elim (is_ready-decided definition states edges id p f s) [
        | inl started ↦
            let kept =
              filter_ok-keeps (is_ready definition states edges) order ready id
                (ready-order order ready sorted r) known started in
            ground arith
        | inr skipped ↦
            let kept =
              filter_ok-keeps (is_skippable definition states edges) order skippable id
                (skippable-order order skippable sorted k) known skipped in
            ground arith
      ]
