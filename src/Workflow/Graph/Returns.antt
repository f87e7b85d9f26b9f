-- ===== src/Workflow/Graph/Returns.antt =====
-- packages/workflow/src/graph.ts: where fallbacks do not go in circles, `isSettled` returns.
use looms.Prelude.{
  if◌then◌else◌, not, ◌||◌, includes, ℕ, zero, suc, ◌≤◌, ◌<◌, String, some, Bool, true, false, List,
  [], ◌∷◌, ◌≡◌, inl, inr, refl, arith, length, Bool-cases, Option-cases,
}
use looms.Prelude.Dict.{get}
use looms.Workflow.Graph.Data.{
  WorkflowDefinition, WorkflowEdge, Result, ok, filter_ok, all_ok, workflow_edges,
}
use looms.Workflow.Graph.Sort.{topological_sort}
use looms.Workflow.Graph.Activity.{
  States, is_settled, fallback_of, find_node, all_settled, incoming, no_edges, pending_in,
  fallback_targets, is_ready, is_skippable, get_ready_node_ids, get_skippable_node_ids,
  settled_status, status_of,
}

abbrev pub Returns {ℓ} : {A : Type ℓ} → Result A → Type ℓ
Returns {A = A} r = (a : A) × (r ≡ ok a)

if-Returns {ℓ} :
    {A : Type ℓ} (b : Bool) {r s : Result A} → Returns r → Returns s → Returns (if b then r else s)
if-Returns true h k = h
if-Returns false h k = k

all_ok-Returns {ℓ} :
    {A : Type ℓ} (p : A → Result Bool) (xs : List A)
    → ((x : A) → Returns (p x))
    → Returns (all_ok p xs)
unfolding all_ok
all_ok-Returns p [] h = (true, refl)
all_ok-Returns p (x ∷ xs) h =
    let (passes, tested) = h x in
    let (rest, others) = all_ok-Returns p xs h in
    elim (Bool-cases passes) [
      | inl held ↦ (rest, ground arith)
      | inr lacking ↦ (false, ground arith)
    ]

filter_ok-Returns {ℓ} :
    {A : Type ℓ} (p : A → Result Bool) (xs : List A)
    → ((x : A) → Returns (p x))
    → Returns (filter_ok p xs)
unfolding filter_ok
filter_ok-Returns p [] h = ([], refl)
filter_ok-Returns p (x ∷ xs) h =
    let (keeps, tested) = h x in
    let (rest, others) = filter_ok-Returns p xs h in
    ((if keeps then x ∷ rest else rest), ground arith)

module _ (definition : WorkflowDefinition) (states : States) (rank : String → ℕ)
    (falls : (id target : String)
      → fallback_of (find_node definition.nodes id) (get id states) ≡ some target
      → rank target < rank id) where
  is_settled-Returns :
      (fuel : ℕ) (id : String) → rank id < fuel → Returns (is_settled fuel definition states id)
  unfolding is_settled
  is_settled-Returns zero id h = absurd (omega arith)
  is_settled-Returns (suc fuel) id h =
      elim (Option-cases (settled_status (status_of (get id states)))) [
        | inl skipped_node ↦
            elim (Option-cases (fallback_of (find_node definition.nodes id) (get id states))) [
              | inl alone ↦ (true, ground arith)
              | inr (target, fell) ↦
                  let lower = falls id target fell in
                  let (b, e) = is_settled-Returns fuel target (omega arith) in (b, ground arith)
            ]
        | inr (b, known) ↦ (b, ground arith)
      ]

  module _ (small : (id : String) → rank id ≤ length definition.nodes) where
    pub all_settled-Returns :
        (edges : List WorkflowEdge) → Returns (all_settled definition states edges)
    all_settled-Returns edges =
        all_ok-Returns
          (λ edge. is_settled (suc (length definition.nodes)) definition states edge.source) edges
          (λ edge.
            let low = small edge.source in
            is_settled-Returns (suc (length definition.nodes)) edge.source (omega arith))

    is_ready-Returns :
        (edges : List WorkflowEdge) (id : String) → Returns (is_ready definition states edges id)
    unfolding is_ready
    is_ready-Returns edges id =
        let (b, e) = all_settled-Returns (incoming edges id) in
        if-Returns
          (not (pending_in states id) || includes (fallback_targets [] definition.nodes) id)
          (false, refl) (if-Returns (no_edges (incoming edges id)) (true, refl) (rw e (_, refl)))

    is_skippable-Returns :
        (edges : List WorkflowEdge) (id : String)
        → Returns (is_skippable definition states edges id)
    unfolding is_skippable
    is_skippable-Returns edges id =
        let (b, e) = all_settled-Returns (incoming edges id) in
        if-Returns (not (pending_in states id) || no_edges (incoming edges id)) (false, refl)
          (rw e (_, refl))

    -- If a rank, at most the number of nodes, falls along every fallback that a node's state has handed
    -- off to, and the graph sorts, then the ready and the skippable nodes are computed.
    pub get_ready_node_ids_return :
        (order : List String)
        → topological_sort definition.nodes (workflow_edges definition) ≡ ok order
        → Returns (get_ready_node_ids definition states)
          × Returns (get_skippable_node_ids definition states)
    unfolding get_ready_node_ids get_skippable_node_ids
    get_ready_node_ids_return order sorted = (
      rw sorted (
          filter_ok-Returns (is_ready definition states (workflow_edges definition)) order
            (is_ready-Returns (workflow_edges definition))),
      rw sorted (
          filter_ok-Returns (is_skippable definition states (workflow_edges definition)) order
            (is_skippable-Returns (workflow_edges definition))),
    )
