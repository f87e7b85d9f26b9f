-- ===== src/Workflow/Scheduler/Quiet.antt =====
-- packages/workflow/src/graph.ts: where no node runs and none has failed, a node that is not pending is settled.
use looms.Prelude.{
  ℕ, zero, suc, ◌≤◌, ◌<◌, String, Option, none, some, Bool, true, false, List, [], ◌∷◌, ◌≡◌, ◌==◌,
  ap, sym, ◌∙◌, subst, find?, find?-passes, length, includes, All, All-find, Distinct, Bool-cases,
  Option-cases, inl, inr, eq_of_==, arith,
}
use looms.Prelude.Dict.{get, keys, values, Entries, Entries-get}
use looms.Workflow.Graph.Data.{NodeState, Node, WorkflowDefinition, ok, workflow_edges}
use looms.Workflow.Graph.Sort.{node_ids}
use looms.Workflow.Graph.Activity.{
  is_pending, States, status_of, pending_in, is_over, is_settled, fallback_of, find_node,
  active_fallback, target_of,
}
use looms.Workflow.Scheduler.{has_failed, failed_in, running_count, is_running}

-- Ranks, at most the number of nodes, that rise along the edges and from a node to its fallback.
pub record Layered (rank : String → ℕ) (definition : WorkflowDefinition) : Type 0 where
  pub bounded : (id : String) → rank id ≤ length definition.nodes
  pub edges :
      All
        (λ e.
          (includes (node_ids definition.nodes) e.source ≡ true) × (rank e.source < rank e.target))
        (workflow_edges definition)
  pub fallbacks :
      All
        (λ node.
          (target : String)
          → includes (target_of node.failure) target ≡ true
          → rank node.id < rank target)
        definition.nodes

-- The states are those of the nodes; none is running and none has failed; and no fallback is pending that
-- a node has handed off to.
pub record Quiet (definition : WorkflowDefinition) (states : States) : Type 0 where
  pub known : Entries (λ id state. includes (node_ids definition.nodes) id ≡ true) states
  pub distinct : Distinct (keys states)
  pub none_failed : find? (failed_in states) definition.nodes ≡ none
  pub none_running : running_count states ≡ 0
  pub handed :
      All
        (λ node.
          (target : String)
          → active_fallback node (get node.id states) ≡ some target
          → pending_in states target ≡ false)
        definition.nodes

pub not_running :
    (states : States) (id : String) (state : NodeState)
    → running_count states ≡ 0
    → get id states ≡ some state
    → is_running state.status ≡ false
unfolding values get
not_running [] id state h e = cc
not_running ((j, s) ∷ states) id state h e = elim (Bool-cases (is_running s.status)) [
  | inl runs ↦ ground arith
  | inr rests ↦ elim (Bool-cases (j == id)) [
    | inl here ↦ ground arith
    | inr later ↦ not_running states id state (ground arith) (ground arith)
  ]
]

-- A test that fails for every element.
pub find?-none {ℓ} :
    {A : Type ℓ} (q : A → Bool) (xs : List A) → find? q xs ≡ none → All (λ x. q x ≡ false) xs
find?-none q [] h = tt
find?-none q (x ∷ xs) h = elim (Bool-cases (q x)) [
  | inl found ↦ ground arith
  | inr more ↦ (more, find?-none q xs (ground arith))
]

-- What holds of every node holds of one with a listed id.
pub All-node {κ} :
    (P : Node → Type κ) (nodes : List Node) (id : String)
    → All P nodes
    → includes (node_ids nodes) id ≡ true
    → (node : Node) × (node.id ≡ id) × P node
All-node P [] id h k = absurd (ground arith)
All-node P (node ∷ nodes) id (p, h) k = elim (Bool-cases (node.id == id)) [
  | inl same ↦ (node, eq_of_== node.id id same, p)
  | inr other ↦ All-node P nodes id h (ground arith)
]

over_by :
    (o : Option NodeState)
    → is_pending (status_of o) ≡ false
    → is_running (status_of o) ≡ false
    → has_failed (status_of o) ≡ false
    → is_over (status_of o) ≡ true
over_by o h k l = ground arith

module _ (definition : WorkflowDefinition) (states : States) (quiet : Quiet definition states) where
  -- A node that is not pending is over.
  pub over :
      (id : String) → pending_in states id ≡ false → is_over (status_of (get id states)) ≡ true
  over id h = elim (Option-cases (get id states)) [
    | inl missing ↦ (let waits = ap (λ o. is_pending (status_of o)) missing in ground arith)
    | inr (state, found) ↦
        let named =
          Entries-get (λ j s. includes (node_ids definition.nodes) j ≡ true) id state states
            quiet.known found in
        let (node, same, lasts) =
          All-node (λ node. failed_in states node ≡ false) definition.nodes id
            (find?-none (failed_in states) definition.nodes quiet.none_failed) named in
        let rests = not_running states id state quiet.none_running found in
        let safe : has_failed (status_of (get id states)) ≡ false =
          subst (λ j. has_failed (status_of (get j states)) ≡ false) same lasts in
        over_by (get id states) h (ap (λ o. is_running (status_of o)) found ∙ rests) safe
  ]

  -- A fallback that a listed node has handed off to is not pending.
  pub handed_over :
      (id target : String)
      → fallback_of (find_node definition.nodes id) (get id states) ≡ some target
      → pending_in states target ≡ false
  handed_over id target fell = elim (Option-cases (find_node definition.nodes id)) [
    | inl missing ↦ (let no = ap (λ n. fallback_of n (get id states)) missing in ground arith)
    | inr (node, found) ↦
        let named =
          eq_of_== node.id id (find?-passes (λ n. n.id == id) definition.nodes node found) in
        let given =
          All-find
            (λ n.
              (t : String)
              → active_fallback n (get n.id states) ≡ some t
              → pending_in states t ≡ false)
            (λ n. n.id == id) definition.nodes node quiet.handed found in
        given target (
          ap (λ j. active_fallback node (get j states)) named
          ∙ sym (ap (λ n. fallback_of n (get id states)) found)
          ∙ fell)
  ]

  -- A node that is not pending is settled, whatever fallbacks it has handed off to.
  pub is_settled-true :
      (fuel : ℕ) (id : String) (b : Bool)
      → pending_in states id ≡ false
      → is_settled fuel definition states id ≡ ok b
      → b ≡ true
  unfolding is_settled
  is_settled-true zero id b h e = ground arith
  is_settled-true (suc fuel) id b h e =
      let ended = over id h in
      elim (Option-cases (fallback_of (find_node definition.nodes id) (get id states))) [
        | inl alone ↦ ground arith
        | inr (target, fell) ↦
            let next = is_settled-true fuel target b (handed_over id target fell) in ground arith
      ]
