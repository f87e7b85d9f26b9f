-- ===== src/Workflow/Scheduler/Candidates.antt =====
-- packages/workflow/src/graph.ts: the nodes that can be started or skipped at once.
use looms.Prelude.{
  ℕ, ◌<◌, ◌-◌, String, Option, none, some, Bool, true, false, List, [], ◌∷◌, ◌≡◌, ◌==◌, ◌⊎◌, ◌&&◌,
  refl, ap, sym, ◌∙◌, subst, filter, find?, find?-passes, all, not, length, includes, All, All-find,
  All-weaken, includes-filter, Bool-cases, Option-cases, inl, inr, eq_iff, eq_of_==, arith, is_some,
}
use looms.Prelude.Dict.{get}
use looms.Workflow.Graph.Data.{
  Node, FailurePolicy, fallback, WorkflowEdge, WorkflowDefinition, Result, Result-cases, ok, all_ok,
  workflow_edges,
}
use looms.Workflow.Graph.Sort.{node_ids}
use looms.Workflow.Graph.Activity.{
  States, pending_in, is_settled, fallback_of, find_node, active_fallback, target_of,
  fallback_targets, incoming, no_edges, all_settled, some_active, is_ready, is_skippable,
  did_not_fall_back, falls_back_to, get_unused_fallback_ids, chain_bound, handed_to, skip_of,
}
use looms.Workflow.Graph.Returns.{Returns, all_settled-Returns}
use looms.Workflow.Scheduler.Quiet.{Layered, Quiet, over, is_settled-true, find?-none}

handed_to-target :
    (failure : Option FailurePolicy) (skip : Option Bool) (target : String)
    → handed_to failure skip ≡ some target
    → includes (target_of failure) target ≡ true
handed_to-target (some (fallback id)) (some true) target h = ground (arith, eq_iff id target)
handed_to-target _ _ target h = cc

all_ok-true :
    (p : WorkflowEdge → Result Bool) (xs : List WorkflowEdge) (b : Bool)
    → All (λ x. (c : Bool) → p x ≡ ok c → c ≡ true) xs
    → all_ok p xs ≡ ok b
    → b ≡ true
unfolding all_ok
all_ok-true p [] b h e = ground arith
all_ok-true p (x ∷ xs) b (first, h) e = elim (Result-cases (p x)) [
  | inl (c, tested) ↦ let yes = first c tested in let rest = all_ok-true p xs b h in ground arith
  | inr (thrown, tested) ↦ ground arith
]

and_true : (a b : Bool) → a ≡ true → b ≡ true → (a && b) ≡ true
and_true a b h k = ground arith

sole_target :
    (failure : Option FailurePolicy) (s t : String)
    → includes (target_of failure) s ≡ true
    → includes (target_of failure) t ≡ true
    → t ≡ s
sole_target (some (fallback id)) s t h k = ground (arith, eq_iff id s, eq_iff id t)
sole_target _ s t h k = cc

module _ (rank : String → ℕ) (definition : WorkflowDefinition) (states : States)
    (layered : Layered rank definition) (quiet : Quiet definition states) where
  abbrev pub down : String → ℕ
  down id = length definition.nodes - rank id

  pub falls :
      (id target : String)
      → fallback_of (find_node definition.nodes id) (get id states) ≡ some target
      → down target < down id
  falls id target fell = elim (Option-cases (find_node definition.nodes id)) [
    | inl missing ↦ (let no = ap (λ n. fallback_of n (get id states)) missing in ground arith)
    | inr (node, found) ↦
        let named =
          eq_of_== node.id id (find?-passes (λ n. n.id == id) definition.nodes node found) in
        let rises =
          All-find
            (λ n. (t : String) → includes (target_of n.failure) t ≡ true → rank n.id < rank t)
            (λ n. n.id == id) definition.nodes node layered.fallbacks found in
        let lower = rises target (
          handed_to-target node.failure (skip_of (get id states)) target
            (sym (ap (λ n. fallback_of n (get id states)) found) ∙ fell)) in
        let here = ap rank named in let top = layered.bounded target in omega arith
  ]

  pub returned : (edges : List WorkflowEdge) → Returns (all_settled definition states edges)
  returned edges = all_settled-Returns definition states down falls (λ id. omega arith) edges

  settled_edges :
      (edges : List WorkflowEdge)
      → All (λ e. pending_in states e.source ≡ false) edges
      → all_settled definition states edges ≡ ok true
  settled_edges edges h =
      let (b, e) = returned edges in
      let yes =
        all_ok-true (λ x. is_settled (chain_bound definition) definition states x.source) edges b
          (All-weaken _ _
            (λ x done c t.
              is_settled-true definition states quiet (chain_bound definition) x.source c done t)
            edges h)
          e in
      e ∙ ap ok yes

  -- A node that can be started or skipped at once.
  abbrev pub Chosen : Type 0
  Chosen =
      (id : String) × (includes (node_ids definition.nodes) id ≡ true)
      × ((is_ready definition states (workflow_edges definition) id ≡ ok true)
          ⊎ ((is_skippable definition states (workflow_edges definition) id ≡ ok true)
              ⊎ (includes (get_unused_fallback_ids definition states) id ≡ true)))

  -- A pending node that is no fallback and whose predecessors are not pending.
  pub free_node :
      (id : String)
      → includes (node_ids definition.nodes) id ≡ true
      → pending_in states id ≡ true
      → includes (fallback_targets [] definition.nodes) id ≡ false
      → All (λ e. pending_in states e.source ≡ false) (incoming (workflow_edges definition) id)
      → Chosen
  unfolding is_ready is_skippable
  free_node id named waits apart before =
      let edges = incoming (workflow_edges definition) id in
      let settled = settled_edges edges before in
      elim (Bool-cases (no_edges edges)) [
        | inl first ↦ (id, named, inl (rw (waits, apart, first) refl))
        | inr later ↦ elim (Bool-cases (some_active definition states edges)) [
          | inl active ↦ (id, named, inl (rw (waits, apart, later, settled, active) refl))
          | inr inactive ↦ (id, named, inr (inl (rw (waits, later, settled, inactive) refl)))
        ]
      ]

  -- No node has handed off to a fallback that is pending.
  kept_going :
      (id : String) (nodes : List Node)
      → pending_in states id ≡ true
      → All
          (λ node.
            (target : String)
            → active_fallback node (get node.id states) ≡ some target
            → pending_in states target ≡ false)
          nodes
      → All (λ node. (pending_in states node.id && falls_back_to id node) ≡ false) nodes
      → all (did_not_fall_back states) (filter (falls_back_to id) nodes) ≡ true
  kept_going id [] waits handed alone = refl
  kept_going id (node ∷ nodes) waits (own, handed) (free, alone) =
      let rest = kept_going id nodes waits handed alone in
      elim (Bool-cases (falls_back_to id node)) [
        | inr other ↦ rw other rest
        | inl primary ↦
            let done = over definition states quiet node.id (ground arith) in
            elim (Option-cases (active_fallback node (get node.id states))) [
              | inl stays ↦
                  rw primary
                    (and_true _ _ (and_true _ _ done (ap (λ o. not (is_some o)) stays)) rest)
              | inr (target, fell) ↦
                  let there =
                    handed_to-target node.failure (skip_of (get node.id states)) target fell in
                  let same = sole_target node.failure id target primary there in
                  let gone : pending_in states id ≡ false =
                    subst (λ x. pending_in states x ≡ false) same (own target fell) in
                  ground arith
            ]
      ]

  -- A pending fallback of which no primary is pending.
  pub unused_fallback :
      (id : String)
      → includes (node_ids definition.nodes) id ≡ true
      → pending_in states id ≡ true
      → includes (fallback_targets [] definition.nodes) id ≡ true
      → find? (λ node. pending_in states node.id && falls_back_to id node) definition.nodes ≡ none
      → Chosen
  unfolding get_unused_fallback_ids
  unused_fallback id named waits target alone =
      let q = λ (t : String).
        pending_in states t
        && all (did_not_fall_back states) (filter (falls_back_to t) definition.nodes) in
      let kept = kept_going id definition.nodes waits quiet.handed (
        find?-none (λ node. pending_in states node.id && falls_back_to id node) definition.nodes
          alone) in
      (
        id,
        named,
        inr (
            inr (
              includes-filter q (fallback_targets [] definition.nodes) id
              ∙ and_true _ _ target (and_true _ _ waits kept))),
      )
