-- ===== src/Workflow/Graph/Counts.antt =====
-- packages/workflow/src/graph.ts: the in-degrees that `topologicalSort` keeps are counts of edges.
use looms.Prelude.{
  ℕ, ◌+◌, ◌-◌, ◌≤◌, String, Bool, true, false, List, [], ◌∷◌, ◌++◌, ◌==◌, ◌≡◌, inl, inr, refl,
  arith, or_else, eqb, ltb, not, ◌&&◌, ◌||◌, if◌then◌else◌, includes, Distinct, Bool-cases, eq_iff,
  eq_refl, includes-append,
}
use looms.Prelude.Dict.{Dict, get, put, get-put}
use looms.Workflow.Graph.Data.{WorkflowEdge}
use looms.Workflow.Graph.Sort.{insert_ready, release}

abbrev pub val : Dict ℕ → String → ℕ
val m t = or_else (get t m) 0

abbrev pub occurrences : List String → String → ℕ
occurrences [] t = 0
occurrences (x ∷ xs) t = (if x == t then 1 else 0) + occurrences xs t

-- The edges into a node from nodes that are not in the list.
abbrev pub pending : List WorkflowEdge → List String → String → ℕ
pending [] done t = 0
pending (e ∷ es) done t =
    (if e.target == t && not (includes done e.source) then 1 else 0) + pending es done t

abbrev pub between : List WorkflowEdge → String → String → ℕ
between [] s t = 0
between (e ∷ es) s t = (if e.source == s && e.target == t then 1 else 0) + between es s t

pub pending-snoc :
    (es : List WorkflowEdge) (done : List String) (id t : String)
    → includes done id ≡ false
    → pending es (done ++ id ∷ []) t + between es id t ≡ pending es done t
pending-snoc [] done id t h = omega arith
pending-snoc (e ∷ es) done id t h =
    let rest = pending-snoc es done id t h in
    ground (arith, includes-append done (id ∷ []) e.source, eq_iff id e.source, eq_iff e.source id)

fits-tail :
    (x : String) (xs : List String) (m : Dict ℕ)
    → ((s : String) → occurrences (x ∷ xs) s ≤ val m s)
    → (s : String) → occurrences xs s ≤ val (put x (val m x - 1) m) s
fits-tail x xs m h s =
    let here = h s in let moved = get-put x s (val m x - 1) m in ground (arith, eq_iff x s)

module _ (order : Dict ℕ) where
  includes-insert_ready :
      (t s : String) (ready : List String)
      → includes (insert_ready order t ready) s ≡ (t == s || includes ready s)
  unfolding insert_ready
  includes-insert_ready t s [] = refl
  includes-insert_ready t s (id ∷ ready) = ground (arith, includes-insert_ready t s ready)

  includes-pushed :
      (t s : String) (ready : List String) (last : Bool)
      → includes (if last then insert_ready order t ready else ready) s
        ≡ (includes ready s || last && (t == s))
  includes-pushed t s ready true = ground (arith, includes-insert_ready t s ready)
  includes-pushed t s ready false = ground arith

  Distinct-insert_ready :
      (t : String) (ready : List String)
      → includes ready t ≡ false
      → Distinct ready
      → Distinct (insert_ready order t ready)
  unfolding insert_ready
  Distinct-insert_ready t [] h d = (refl, tt)
  Distinct-insert_ready t (id ∷ ready) h (new, d) = ground (
    arith,
    Distinct-insert_ready t ready,
    includes-insert_ready t id ready,
    eq_iff id t,
    eq_iff t id,
  )

  Distinct-pushed :
      (t : String) (ready : List String) (last : Bool)
      → (last ≡ true → includes ready t ≡ false)
      → Distinct ready
      → Distinct (if last then insert_ready order t ready else ready)
  Distinct-pushed t ready true h d = Distinct-insert_ready t ready (h refl) d
  Distinct-pushed t ready false h d = d

  -- Taking away edges lowers the counts by their number of targets.
  pub release-val :
      (targets : List String) (m : Dict ℕ) (ready : List String) (t : String)
      → ((s : String) → occurrences targets s ≤ val m s)
      → val (release order targets m ready).0 t + occurrences targets t ≡ val m t
  unfolding release
  release-val [] m ready t h = omega arith
  release-val (x ∷ xs) m ready t h =
      let left = put x (val m x - 1) m in
      let last = eqb (val m x) 1 in
      let rest =
        release-val xs left (if last then insert_ready order x ready else ready) t
          (fits-tail x xs m h) in
      let here = h x in
      let at = h t in let own = eq_refl x in ground (arith, get-put x t (val m x - 1) m, eq_iff x t)

  -- It makes those ready whose count falls to nothing.
  pub release-includes :
      (targets : List String) (m : Dict ℕ) (ready : List String) (t : String)
      → ((s : String) → occurrences targets s ≤ val m s)
      → includes (release order targets m ready).1 t
        ≡ (includes ready t || ltb 0 (val m t) && eqb (val (release order targets m ready).0 t) 0)
  unfolding release
  release-includes [] m ready t h = ground arith
  release-includes (x ∷ xs) m ready t h =
      let left = put x (val m x - 1) m in
      let last = eqb (val m x) 1 in
      let ready' = if last then insert_ready order x ready else ready in
      let rest = release-includes xs left ready' t (fits-tail x xs m h) in
      let less = release-val xs left ready' t (fits-tail x xs m h) in
      let new = includes-pushed x t ready last in
      let here = h t in ground (arith, get-put x t (val m x - 1) m, eq_iff x t)

  pub release-Distinct :
      (targets : List String) (m : Dict ℕ) (ready : List String)
      → ((s : String) → occurrences targets s ≤ val m s)
      → ((s : String) → includes ready s ≡ true → val m s ≡ 0)
      → Distinct ready
      → Distinct (release order targets m ready).1
  unfolding release
  release-Distinct [] m ready h k d = d
  release-Distinct (x ∷ xs) m ready h k d =
      let left = put x (val m x - 1) m in
      let last = eqb (val m x) 1 in
      let ready' = if last then insert_ready order x ready else ready in
      release-Distinct xs left ready' (fits-tail x xs m h)
        (λ s in_it.
          let new = includes-pushed x s ready last in
          let before = k s in ground (arith, get-put x s (val m x - 1) m, eq_iff x s))
        (Distinct-pushed x ready last
          (λ one.
            let before = k x in
            elim (Bool-cases (includes ready x)) [ inl old ↦ ground arith | inr new ↦ new ])
          d)
