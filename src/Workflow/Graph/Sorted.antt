-- ===== src/Workflow/Graph/Sorted.antt =====
-- packages/workflow/src/graph.ts: the order and the members of what `topologicalSort` returns.
use looms.Prelude.{
  ◌≤◌, suc, String, Bool, true, false, List, [], ◌∷◌, ◌++◌, ◌≡◌, ◌==◌, inl, inr, refl, sym, ap, ◌∙◌,
  arith, not, subst, includes, Distinct, Bool-cases, eq_iff, eq_refl, includes-append,
  includes-filter, filter, length, append-nil, append_assoc,
}
use looms.Workflow.Graph.Data.{WorkflowEdge, Node, ok}
use looms.Workflow.Graph.Sort.{topological_sort, node_ids}
use looms.Workflow.Graph.Counts.{pending}
use looms.Workflow.Graph.Order.{Ordered, topological_sort-parts}

Ordered-at :
    (edges : List WorkflowEdge) (done before after : List String) (x : String)
    → Ordered edges done (before ++ x ∷ after)
    → pending edges (done ++ before) x ≡ 0
Ordered-at edges done [] after x (new, none_left, h) =
    subst (λ xs. pending edges xs x ≡ 0) (sym (append-nil done)) none_left
Ordered-at edges done (y ∷ before) after x (new, none_left, h) =
    subst (λ xs. pending edges xs x ≡ 0) (append_assoc done (y ∷ []) before)
      (Ordered-at edges (done ++ y ∷ []) before after x h)

pending-source :
    (front back : List WorkflowEdge) (e : WorkflowEdge) (done : List String)
    → pending (front ++ e ∷ back) done e.target ≡ 0
    → includes done e.source ≡ true
pending-source [] back e done h = ground (arith, eq_refl e.target)
pending-source (x ∷ front) back e done h = pending-source front back e done (omega arith)

Ordered-Distinct :
    (edges : List WorkflowEdge) (done xs : List String)
    → Ordered edges done xs
    → Distinct xs × ((t : String) → includes xs t ≡ true → includes done t ≡ false)
Ordered-Distinct edges done [] h = (tt, λ t k. ground arith)
Ordered-Distinct edges done (x ∷ xs) (new, none_left, h) =
    let (distinct, apart) = Ordered-Distinct edges (done ++ x ∷ []) xs h in
    (
      (let own = apart x in ground (arith, includes-append done (x ∷ []) x, eq_refl x), distinct),
      λ t k. let own = apart t in ground (arith, includes-append done (x ∷ []) t, eq_iff x t),
    )

length-filter : (p : String → Bool) (xs : List String) → length (filter p xs) ≤ length xs
length-filter p [] = omega arith
length-filter p (x ∷ xs) = ground (arith, length-filter p xs)

length-without :
    (xs : List String) (x : String)
    → includes xs x ≡ true
    → suc (length (filter (λ y. not (x == y)) xs)) ≤ length xs
length-without [] x h = ground arith
length-without (y ∷ ys) x h =
    let short = length-filter (λ z. not (x == z)) ys in
    ground (arith, length-without ys x, eq_iff x y, eq_iff y x)

-- Distinct elements of a list are at most as many as it has.
length-within :
    (xs ys : List String)
    → Distinct xs
    → ((t : String) → includes xs t ≡ true → includes ys t ≡ true)
    → length xs ≤ length ys
length-within [] ys d h = omega arith
length-within (x ∷ xs) ys (new, d) h =
    let others = filter (λ y. not (x == y)) ys in
    let rest = length-within xs others d (λ t k.
      let at = h t in ground (arith, includes-filter (λ y. not (x == y)) ys t, eq_iff x t)) in
    let less = length-without ys x (h x (ground (arith, eq_refl x))) in omega arith

length-node_ids : (nodes : List Node) → length (node_ids nodes) ≡ length nodes
length-node_ids [] = refl
length-node_ids (node ∷ nodes) = ap suc (length-node_ids nodes)

-- When `topologicalSort` returns an order, the source of every edge stands before its target in it.
pub topological_sort-order :
    (nodes : List Node) (front back : List WorkflowEdge) (edge : WorkflowEdge)
    (before after : List String)
    → topological_sort nodes (front ++ edge ∷ back) ≡ ok (before ++ edge.target ∷ after)
    → includes before edge.source ≡ true
topological_sort-order nodes front back edge before after h =
    let (named, ordered, size, within) =
      topological_sort-parts nodes (front ++ edge ∷ back) (before ++ edge.target ∷ after) h in
    pending-source front back edge before
      (Ordered-at (front ++ edge ∷ back) [] before after edge.target ordered)

-- What `topologicalSort` returns holds each node exactly once and nothing else: its ids are distinct, and they are those of the nodes.
pub topological_sort-node_ids :
    (nodes : List Node) (edges : List WorkflowEdge) (sorted : List String) (t : String)
    → topological_sort nodes edges ≡ ok sorted
    → Distinct sorted × (includes sorted t ≡ includes (node_ids nodes) t)
topological_sort-node_ids nodes edges sorted t h =
    let (named, ordered, size, within) = topological_sort-parts nodes edges sorted h in
    let (distinct, apart) = Ordered-Distinct edges [] sorted ordered in
    (
      distinct,
      elim (Bool-cases (includes sorted t)) [
        | inl in_it ↦ in_it ∙ sym (within t in_it)
        | inr out ↦ elim (Bool-cases (includes (node_ids nodes) t)) [
          | inr absent ↦ out ∙ sym absent
          | inl present ↦
              let more =
                length-within (t ∷ sorted) (node_ids nodes) (out, distinct)
                  (λ s k. let old = within s in ground (arith, eq_iff t s)) in
              let all_of = length-node_ids nodes in absurd (omega arith)
        ]
      ],
    )
