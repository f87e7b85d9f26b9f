-- ===== src/Workflow/Graph/Order.antt =====
-- packages/workflow/src/graph.ts: `topologicalSort` puts the source of every edge before its target.
use looms.Prelude.{
  ℕ, ◌≤◌, ◌<◌, zero, suc, String, true, false, List, [], ◌∷◌, ◌++◌, ◌≡◌, ◌⊎◌, inl, inr, refl, sym,
  ap, ◌∙◌, arith, or_else, eqb, subst, includes, Distinct, eq_iff, eq_refl, includes-append,
  includes-filter, Distinct-filter, filter, length,
}
use looms.Prelude.Dict.{Dict, get}
use looms.Workflow.Graph.Data.{WorkflowEdge, Node, ok, Result-cases}
use looms.Workflow.Graph.Sort.{
  Degrees, start_degrees, add_edges, distinct_nodes, node_ids, release, sort_loop, topological_sort,
  input_order,
}
use looms.Workflow.Graph.Counts.{
  val, occurrences, pending, between, pending-snoc, release-val, release-includes, release-Distinct,
}
use looms.Workflow.Graph.Start.{
  targets_of, add_edges-counts, add_edges-targets, pending-named, distinct_nodes-ids, start-counts,
  start-targets,
}
use looms.Workflow.Graph.Rounds.{distinct_nodes-Distinct}

-- No id comes a second time, nor before the source of an edge into it.
abbrev pub Ordered : List WorkflowEdge → List String → List String → Type 0
Ordered edges done [] = Unit
Ordered edges done (x ∷ xs) =
    (includes done x ≡ false) × (pending edges done x ≡ 0) × Ordered edges (done ++ x ∷ []) xs

-- What holds before every round: the counts are those of the edges from nodes that are still to come, and a
-- node is ready once its count is 0 and until it is taken.
record Round (edges : List WorkflowEdge) (ids done : List String) (m : Dict ℕ) (ready : List String)
    : Type 0 where
  pub counts : (t : String) → val m t ≡ pending edges done t
  pub free : (t : String) → includes ready t ≡ true → val m t ≡ 0
  pub fresh : (t : String) → includes ready t ≡ true → includes done t ≡ false
  pub named : (t : String) → includes ready t ≡ true → includes ids t ≡ true
  pub taken : (t : String) → includes done t ≡ true → val m t ≡ 0
  pub distinct : Distinct ready

module _ (edges : List WorkflowEdge) (ids : List String) (outgoing : Dict (List String))
    (targets : (id t : String) → occurrences (targets_of outgoing id) t ≡ between edges id t)
    (known : (done : List String) (t : String)
      → 0 < pending edges done t
      → includes ids t ≡ true) where
  module _ (order : Dict ℕ) (done : List String) (m : Dict ℕ) (id : String)
      (ready : List String) where
    Round-fits :
        Round edges ids done m (id ∷ ready)
        → (t : String) → occurrences (targets_of outgoing id) t ≤ val m t
    Round-fits r t =
        let out = targets id t in
        let into = r.counts t in
        let split = pending-snoc edges done id t (r.fresh id (ground (arith, eq_refl id))) in
        omega arith

    Round-counts :
        (r : Round edges ids done m (id ∷ ready)) (t : String)
        → val (release order (targets_of outgoing id) m ready).0 t
          ≡ pending edges (done ++ id ∷ []) t
    Round-counts r t =
        let out = targets id t in
        let into = r.counts t in
        let less = release-val order (targets_of outgoing id) m ready t (Round-fits r) in
        let split = pending-snoc edges done id t (r.fresh id (ground (arith, eq_refl id))) in
        omega arith

    Round-ready :
        (r : Round edges ids done m (id ∷ ready)) (t : String)
        → includes (release order (targets_of outgoing id) m ready).1 t ≡ true
        → (includes ready t ≡ true)
          ⊎ ((0 < val m t) × (val (release order (targets_of outgoing id) m ready).0 t ≡ 0))
    Round-ready r t h =
        let new = release-includes order (targets_of outgoing id) m ready t (Round-fits r) in
        ground arith

    round :
        Round edges ids done m (id ∷ ready)
        → Round edges ids
            (done ++ id ∷ [])
            (release order (targets_of outgoing id) m ready).0
            (release order (targets_of outgoing id) m ready).1
    round r = record {
      counts = Round-counts r;
      free = λ t h.
          let less = release-val order (targets_of outgoing id) m ready t (Round-fits r) in
          elim (Round-ready r t h) [
            | inl old ↦ let zero = r.free t (ground arith) in omega arith
            | inr (some_left, none_left) ↦ none_left
          ];
      fresh = λ t h.
          let apart = r.distinct.0 in
          let own = r.free id (ground (arith, eq_refl id)) in
          elim (Round-ready r t h) [
            | inl old ↦
                let new = r.fresh t (ground arith) in
                ground (arith, includes-append done (id ∷ []) t, eq_iff id t)
            | inr (some_left, none_left) ↦
                let past = r.taken t in
                ground (arith, includes-append done (id ∷ []) t, eq_iff id t)
          ];
      named = λ t h. elim (Round-ready r t h) [
        | inl old ↦ r.named t (ground arith)
        | inr (some_left, none_left) ↦ known done t (rw (sym (r.counts t)) some_left)
      ];
      taken = λ t h.
          let less = release-val order (targets_of outgoing id) m ready t (Round-fits r) in
          let own = r.free id (ground (arith, eq_refl id)) in
          let past = r.taken t in ground (arith, includes-append done (id ∷ []) t, eq_iff id t);
      distinct =
          release-Distinct order (targets_of outgoing id) m ready (Round-fits r)
            (λ t h. r.free t (ground arith)) (r.distinct.1);
    }

  -- The rounds keep the order, and take only nodes of the list.
  sort_loop-Ordered :
      (fuel : ℕ) (order : Dict ℕ) (done : List String) (m : Dict ℕ) (ready : List String)
      → Round edges ids done m ready
      → Ordered edges done (sort_loop fuel order outgoing m ready)
  unfolding sort_loop
  sort_loop-Ordered zero order done m ready r = tt
  sort_loop-Ordered (suc fuel) order done m [] r = tt
  sort_loop-Ordered (suc fuel) order done m (id ∷ ready) r = (
    r.fresh id (ground (arith, eq_refl id)),
    sym (r.counts id) ∙ r.free id (ground (arith, eq_refl id)),
    sort_loop-Ordered fuel order (done ++ id ∷ []) _ _ (round order done m id ready r),
  )

  sort_loop-named :
      (fuel : ℕ) (order : Dict ℕ) (done : List String) (m : Dict ℕ) (ready : List String)
      → Round edges ids done m ready
      → (t : String) → includes (sort_loop fuel order outgoing m ready) t ≡ true
      → includes ids t ≡ true
  unfolding sort_loop
  sort_loop-named zero order done m ready r t h = ground arith
  sort_loop-named (suc fuel) order done m [] r t h = ground arith
  sort_loop-named (suc fuel) order done m (id ∷ ready) r t h =
      let own = r.named t in
      let rest =
        sort_loop-named fuel order (done ++ id ∷ []) _ _ (round order done m id ready r) t in
      ground arith

first-Round :
    (edges : List WorkflowEdge) (ids : List String) (d : Degrees)
    → Distinct ids
    → add_edges ids (start_degrees ids) edges ≡ ok d
    → Round edges ids [] d.indegree (filter (λ id. eqb (or_else (get id d.indegree) 0) 0) ids)
first-Round edges ids d distinct joined = record {
  counts = λ t.
      let all_of = add_edges-counts ids (start_degrees ids) d edges t joined in
      let none_yet = start-counts ids t in omega arith;
  free = λ t h. ground (arith, includes-filter (λ id. eqb (or_else (get id d.indegree) 0) 0) ids t);
  fresh = λ t h. refl;
  named =
      λ t h. ground (arith, includes-filter (λ id. eqb (or_else (get id d.indegree) 0) 0) ids t);
  taken = λ t h. ground arith;
  distinct = Distinct-filter (λ id. eqb (or_else (get id d.indegree) 0) 0) ids distinct;
}

first_targets :
    (edges : List WorkflowEdge) (ids : List String) (d : Degrees)
    → add_edges ids (start_degrees ids) edges ≡ ok d
    → (s t : String) → occurrences (targets_of d.outgoing s) t ≡ between edges s t
first_targets edges ids d joined s t =
    let all_of = add_edges-targets ids (start_degrees ids) d edges s t joined in
    let none_yet = start-targets ids s t in omega arith

-- What stands behind a sort that is returned.
pub topological_sort-parts :
    (nodes : List Node) (edges : List WorkflowEdge) (sorted : List String)
    → topological_sort nodes edges ≡ ok sorted
    → Distinct (node_ids nodes)
      × Ordered edges [] sorted
      × (length sorted ≡ length nodes)
      × ((t : String) → includes sorted t ≡ true → includes (node_ids nodes) t ≡ true)
unfolding topological_sort
topological_sort-parts nodes edges sorted h = elim (Result-cases (distinct_nodes [] nodes)) [
  | inr (e, named) ↦ ground arith
  | inl (ids, named) ↦ elim (Result-cases (add_edges ids (start_degrees ids) edges)) [
    | inr (e, joined) ↦ ground arith
    | inl (d, joined) ↦
        let ready = filter (λ id. eqb (or_else (get id d.indegree) 0) 0) ids in
        let run = sort_loop (suc (length nodes)) (input_order 0 ids) d.outgoing d.indegree ready in
        let distinct : Distinct ids = (distinct_nodes-Distinct [] nodes ids tt named).0 in
        let same : ids ≡ node_ids nodes = distinct_nodes-ids [] nodes ids named in
        let first = first-Round edges ids d distinct joined in
        let result : (run ≡ sorted) × (length run ≡ length nodes) = ground arith in
        (
          subst Distinct same distinct,
          subst (Ordered edges []) result.0 (
              sort_loop-Ordered edges ids d.outgoing (first_targets edges ids d joined)
                (λ done t. pending-named ids (start_degrees ids) d edges done t joined)
                (suc (length nodes)) (input_order 0 ids) [] d.indegree ready first),
          ap length (sym result.0) ∙ result.1,
          λ t h.
              subst (λ xs. includes xs t ≡ true) same
                (sort_loop-named edges ids d.outgoing (first_targets edges ids d joined)
                  (λ done t. pending-named ids (start_degrees ids) d edges done t joined)
                  (suc (length nodes)) (input_order 0 ids) [] d.indegree ready first t
                  (subst (λ xs. includes xs t ≡ true) (sym result.0) h)),
        )
  ]
]
