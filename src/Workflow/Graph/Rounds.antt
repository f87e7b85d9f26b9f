-- ===== src/Workflow/Graph/Rounds.antt =====
-- packages/workflow/src/graph.ts: the loop of `topologicalSort` ends within as many rounds as there
-- are nodes.
use looms.Prelude.{
  eq_refl, subst, length-append, ℕ, zero, suc, ◌+◌, ◌-◌, ◌≤◌, String, Bool, true, false, List, [],
  ◌∷◌, ◌++◌, ◌≡◌, refl, sym, ap, ◌∙◌, arith, length, or_else, eqb, if◌then◌else◌, filter, includes,
  Distinct, Distinct-snoc, Bool-cases, inl, inr, eq_iff,
}
use looms.Prelude.Dict.{Dict, get, put, keys}
use looms.Workflow.Graph.Data.{Node, WorkflowEdge, ok}
use looms.Workflow.Graph.Sort.{
  Degrees, start_degrees, add_edge, add_edges, distinct_nodes, insert_ready, release, sort_loop,
  input_order,
}

-- How many nodes still wait for an edge.
abbrev pub waiting : Dict ℕ → ℕ
waiting [] = 0
waiting ((id, n) ∷ m) = if eqb n 0 then waiting m else suc (waiting m)

waiting-put :
    (t : String) (m : Dict ℕ)
    → waiting (put t (or_else (get t m) 0 - 1) m) + (if eqb (or_else (get t m) 0) 1 then 1 else 0)
      ≤ waiting m
unfolding get put
waiting-put t [] = omega arith
waiting-put t ((id, n) ∷ m) = ground (arith, eq_iff id t, waiting-put t m)

length-insert_ready :
    (order : Dict ℕ) (t : String) (ready : List String)
    → length (insert_ready order t ready) ≡ suc (length ready)
unfolding insert_ready
length-insert_ready order t [] = refl
length-insert_ready order t (id ∷ ready) = ground (arith, length-insert_ready order t ready)

length-pushed :
    (order : Dict ℕ) (t : String) (ready : List String) (last : Bool)
    → length (if last then insert_ready order t ready else ready)
      ≡ length ready + (if last then 1 else 0)
length-pushed order t ready true = length-insert_ready order t ready ∙ omega arith
length-pushed order t ready false = omega arith

release-waiting :
    (order : Dict ℕ) (targets : List String) (m : Dict ℕ) (ready : List String)
    → waiting (release order targets m ready).0 + length (release order targets m ready).1
      ≤ waiting m + length ready
unfolding release
release-waiting order [] m ready = omega arith
release-waiting order (t ∷ targets) m ready =
    let left = put t (or_else (get t m) 0 - 1) m in
    let less = waiting-put t m in
    let last = eqb (or_else (get t m) 0) 1 in
    let more = length-pushed order t ready last in
    let rest =
      release-waiting order targets left (if last then insert_ready order t ready else ready) in
    omega arith

-- A fuel that covers the ready nodes and those that wait is enough.
sort_loop-enough :
    (fuel more : ℕ) (order : Dict ℕ) (outgoing : Dict (List String)) (m : Dict ℕ)
    (ready : List String)
    → waiting m + length ready ≤ fuel
    → fuel ≤ more
    → sort_loop more order outgoing m ready ≡ sort_loop fuel order outgoing m ready
unfolding sort_loop
sort_loop-enough zero zero order outgoing m ready h k = refl
sort_loop-enough zero (suc more) order outgoing m [] h k = refl
sort_loop-enough zero (suc more) order outgoing m (id ∷ ready) h k = absurd (omega arith)
sort_loop-enough (suc fuel) zero order outgoing m ready h k = absurd (omega arith)
sort_loop-enough (suc fuel) (suc more) order outgoing m [] h k = refl
sort_loop-enough (suc fuel) (suc more) order outgoing m (id ∷ ready) h k =
    let targets = or_else (get id outgoing) [] in
    let less = release-waiting order targets m ready in
    let (m', ready') = release order targets m ready in
    ap (λ ids. id ∷ ids)
      (sort_loop-enough fuel more order outgoing m' ready' (omega arith) (omega arith))

-- The nodes that wait and those that do not are all of them.
filter-put_away :
    (ids : List String) (id : String) (n : ℕ) (m : Dict ℕ)
    → includes ids id ≡ false
    → filter (λ j. eqb (or_else (get j ((id, n) ∷ m)) 0) 0) ids
      ≡ filter (λ j. eqb (or_else (get j m) 0) 0) ids
unfolding get
filter-put_away [] id n m h = refl
filter-put_away (j ∷ ids) id n m h =
    ground (arith, eq_iff id j, eq_iff j id, filter-put_away ids id n m)

waiting-keys :
    (m : Dict ℕ)
    → Distinct (keys m)
    → waiting m + length (filter (λ id. eqb (or_else (get id m) 0) 0) (keys m)) ≡ length (keys m)
unfolding get
waiting-keys [] h = omega arith
waiting-keys ((id, n) ∷ m) (new, h) =
    let rest = waiting-keys m h in
    let same = ap length (filter-put_away (keys m) id n m new) in ground (arith, eq_refl id)

keys-put :
    (k : String) (v : ℕ) (m : Dict ℕ) → includes (keys m) k ≡ true → keys (put k v m) ≡ keys m
unfolding put
keys-put k v [] h = ground arith
keys-put k v ((j, w) ∷ m) h = ground (arith, eq_iff j k, keys-put k v m)

keys-add_edges :
    (ids : List String) (d d' : Degrees) (edges : List WorkflowEdge)
    → keys d.indegree ≡ ids
    → add_edges ids d edges ≡ ok d'
    → keys d'.indegree ≡ ids
unfolding add_edges add_edge
keys-add_edges ids d d' [] h e = ground arith
keys-add_edges ids d d' (edge ∷ edges) h e = elim (Bool-cases (includes ids edge.source)) [
  | inr unknown ↦ ground arith
  | inl from ↦ elim (Bool-cases (includes ids edge.target)) [
    | inr unknown ↦ ground arith
    | inl to ↦
        keys-add_edges ids (add_edge d edge) d' edges
          (keys-put edge.target (or_else (get edge.target d.indegree) 0 + 1) d.indegree (rw h to)
            ∙ h)
          (ground arith)
  ]
]

pub distinct_nodes-Distinct :
    (seen : List String) (nodes : List Node) (ids : List String)
    → Distinct seen
    → distinct_nodes seen nodes ≡ ok ids
    → Distinct ids × (length ids ≡ length seen + length nodes)
unfolding distinct_nodes
distinct_nodes-Distinct seen [] ids h e =
    let same : seen ≡ ids = ground arith in
    (subst Distinct same h, ap length (sym same) ∙ omega arith)
distinct_nodes-Distinct seen (node ∷ nodes) ids h e = elim (Bool-cases (includes seen node.id)) [
  | inl again ↦ ground arith
  | inr new ↦
      let (distinct, size) =
        distinct_nodes-Distinct (seen ++ node.id ∷ []) nodes ids (Distinct-snoc seen node.id new h)
          (ground arith) in
      let longer = length-append seen (node.id ∷ []) in (distinct, omega arith)
]

keys-start : (ids : List String) → keys (start_degrees ids).indegree ≡ ids
keys-start [] = refl
keys-start (id ∷ ids) = ap (λ xs. id ∷ xs) (keys-start ids)

-- Once the nodes are distinct and the edges run between them, the loop of the sort, started as
-- `topologicalSort` starts it, gives with any number of rounds from the number of nodes on what it gives with
-- that many.
pub sort_loop_rounds :
    (nodes : List Node) (edges : List WorkflowEdge) (ids : List String) (d : Degrees) (rounds : ℕ)
    → distinct_nodes [] nodes ≡ ok ids
    → add_edges ids (start_degrees ids) edges ≡ ok d
    → length nodes ≤ rounds
    → sort_loop rounds
        (input_order 0 ids)
        d.outgoing
        d.indegree
        (filter (λ id. eqb (or_else (get id d.indegree) 0) 0) ids)
      ≡ sort_loop
          (length nodes)
          (input_order 0 ids)
          d.outgoing
          d.indegree
          (filter (λ id. eqb (or_else (get id d.indegree) 0) 0) ids)
sort_loop_rounds nodes edges ids d rounds named joined enough =
    let (distinct, size) = distinct_nodes-Distinct [] nodes ids tt named in
    let same : keys d.indegree ≡ ids =
      keys-add_edges ids (start_degrees ids) d edges (keys-start ids) joined in
    let all_of = waiting-keys d.indegree (rw same distinct) in
    let bound = simp same at all_of in
    sort_loop-enough (length nodes) rounds (input_order 0 ids) d.outgoing d.indegree
      (filter (λ id. eqb (or_else (get id d.indegree) 0) 0) ids) (omega arith) enough
