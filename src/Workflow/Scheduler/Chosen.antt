-- ===== src/Workflow/Scheduler/Chosen.antt =====
-- packages/workflow/src/graph.ts: while a node is pending and none runs or has failed, some node can be
-- started or skipped.
use looms.Prelude.{
  ℕ, zero, suc, ◌<◌, String, some, Bool, true, List, [], ◌∷◌, ◌≡◌, ◌==◌, ◌&&◌, ap, find?,
  find?-passes, includes, All-find, All-filter, All-filter_of, Bool-cases, Option-cases, inl, inr,
  eq_iff, eq_of_==, arith,
}
use looms.Workflow.Graph.Data.{Node, WorkflowDefinition, workflow_edges}
use looms.Workflow.Graph.Sort.{node_ids}
use looms.Workflow.Graph.Activity.{
  States, pending_in, target_of, fallback_targets, incoming, falls_back_to,
}
use looms.Workflow.Scheduler.Quiet.{Layered, Quiet, find?-none}
use looms.Workflow.Scheduler.Candidates.{Chosen, free_node, unused_fallback}

and_parts : (a b : Bool) → (a && b) ≡ true → (a ≡ true) × (b ≡ true)
and_parts a b h = (ground arith, ground arith)

find?-named :
    (q : Node → Bool) (nodes : List Node) (node : Node)
    → find? q nodes ≡ some node
    → includes (node_ids nodes) node.id ≡ true
find?-named q [] node h = cc
find?-named q (n ∷ nodes) node h = elim (Bool-cases (q n)) [
  | inl found ↦
      let same : n ≡ node = ground arith in
      let own : n.id ≡ node.id = ap (λ x. x.id) same in ground (arith, eq_iff n.id node.id)
  | inr more ↦ (let later = find?-named q nodes node (ground arith) in ground arith)
]

module _ (rank : String → ℕ) (definition : WorkflowDefinition) (states : States)
    (layered : Layered rank definition) (quiet : Quiet definition states) where
  -- From a pending node back along pending predecessors and primaries there is one to start or to skip.
  pub chosen :
      (fuel : ℕ) (id : String)
      → rank id < fuel
      → includes (node_ids definition.nodes) id ≡ true
      → pending_in states id ≡ true
      → Chosen rank definition states layered quiet
  chosen zero id h named waits = absurd (omega arith)
  chosen (suc fuel) id h named waits =
      let edges = incoming (workflow_edges definition) id in
      let primary = λ (n : Node). pending_in states n.id && falls_back_to id n in
      elim (Option-cases (find? (λ e. pending_in states e.source) edges)) [
        | inr (e, found) ↦
            let (source, rises) =
              All-find
                (λ e.
                  (includes (node_ids definition.nodes) e.source ≡ true)
                  × (rank e.source < rank e.target))
                (λ e. pending_in states e.source) edges e
                (All-filter _ (λ e. e.target == id) (workflow_edges definition) layered.edges)
                found in
            let enters =
              All-find (λ e. (e.target == id) ≡ true) (λ e. pending_in states e.source) edges e
                (All-filter_of (λ e. (e.target == id) ≡ true) (λ e. e.target == id) (λ e t. t)
                  (workflow_edges definition))
                found in
            let there = ap rank (eq_of_== e.target id enters) in
            chosen fuel e.source (omega arith) source
              (find?-passes (λ e. pending_in states e.source) edges e found)
        | inl before ↦ elim (Bool-cases (includes (fallback_targets [] definition.nodes) id)) [
          | inr apart ↦
              free_node rank definition states layered quiet id named waits apart
                (find?-none (λ e. pending_in states e.source) edges before)
          | inl target ↦ elim (Option-cases (find? primary definition.nodes)) [
            | inl alone ↦
                unused_fallback rank definition states layered quiet id named waits target alone
            | inr (node, found) ↦
                let (pends, falls) =
                  and_parts _ _ (find?-passes primary definition.nodes node found) in
                let rises =
                  All-find
                    (λ n.
                      (t : String) → includes (target_of n.failure) t ≡ true → rank n.id < rank t)
                    primary definition.nodes node layered.fallbacks found in
                let lower = rises id falls in
                chosen fuel node.id (omega arith) (find?-named primary definition.nodes node found)
                  pends
          ]
        ]
      ]
