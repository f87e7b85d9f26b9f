-- ===== src/Workflow/Threads/Ordered.antt =====
-- packages/workflow/src/threads.ts: the outputs of a map's items, in whatever order they arrived.
use mathlib.Core.List.{Permᴰ}
use mathlib.Core.List.Permᴰ.{nil, cons, swap, trans}
use looms.Prelude.{
  ℕ, zero, suc, ◌+◌, ◌≤◌, ◌<◌, String, none, some, true, false, List, [], ◌∷◌, ◌++◌, ◌≡◌, ◌∙◌, refl,
  sym, ap, arith, length, ltb, eqb, All, Bool-cases, inl, inr, subst,
}
use looms.Core.Json.{Json, null, arr, Items, or_null}
use looms.Core.Json
use looms.Core.Fork.Scan.{get_elem?}
use looms.Workflow.Threads.Data.{PendingMap, WorkflowState}
use looms.Workflow.Threads.Effects.{has_output, child_target, map_child_thread_id}
use looms.Workflow.Threads.Pending.{
  lookup_output, ordered_from, finish_node, record_outputs, record_map_output,
}

-- Values with their indices, from one on.
abbrev pub enumerate : ℕ → List Json → List (ℕ × Json)
enumerate k [] = []
enumerate k (v ∷ vs) = (k, v) ∷ enumerate (suc k) vs

abbrev pub items_of : List Json → Items
items_of [] = Json.nil
items_of (v ∷ vs) = Json.cons v (items_of vs)

has_output-Perm :
    {xs ys : List (ℕ × Json)} → Permᴰ xs ys → (i : ℕ) → has_output xs i ≡ has_output ys i
has_output-Perm nil i = refl
has_output-Perm (cons {a} {b} e p) i =
    let same : a.0 ≡ b.0 = ap (λ o. o.0) e in ground (arith, has_output-Perm p i)
has_output-Perm (swap {a} {b} {a'} {b'} e f) i =
    let first : a.0 ≡ b'.0 = ap (λ o. o.0) e in
    let second : b.0 ≡ a'.0 = ap (λ o. o.0) f in ground arith
has_output-Perm (trans p q) i = has_output-Perm p i ∙ has_output-Perm q i

length-Perm : {xs ys : List (ℕ × Json)} → Permᴰ xs ys → length xs ≡ length ys
length-Perm nil = refl
length-Perm (cons e p) = omega (arith, length-Perm p)
length-Perm (swap e f) = refl
length-Perm (trans p q) = length-Perm p ∙ length-Perm q

module _ (P : ℕ × Json → Type 0) where
  All-Perm : {xs ys : List (ℕ × Json)} → Permᴰ xs ys → All P ys → All P xs
  All-Perm nil h = h
  All-Perm (cons e p) (h, hs) = (subst P (sym e) h, All-Perm p hs)
  All-Perm (swap e f) (h, (k, hs)) = (subst P (sym e) k, (subst P (sym f) h, hs))
  All-Perm (trans p q) h = All-Perm p (All-Perm q h)

length-enumerate : (k : ℕ) (vs : List Json) → length (enumerate k vs) ≡ length vs
length-enumerate k [] = refl
length-enumerate k (v ∷ vs) = omega (arith, length-enumerate (suc k) vs)

has_output-enumerate :
    (k : ℕ) (vs : List Json) (j : ℕ) → j < length vs → has_output (enumerate k vs) (k + j) ≡ true
has_output-enumerate k [] j h = absurd (omega arith)
has_output-enumerate k (v ∷ vs) zero h = ground arith
has_output-enumerate k (v ∷ vs) (suc j) h =
    let later = has_output-enumerate (suc k) vs j (omega arith) in
    let same : k + suc j ≡ suc k + j = omega arith in ground arith

-- What an output says is the value of its index.
abbrev Says : ℕ → List Json → ℕ × Json → Type 0
Says k vs output = (j : ℕ) × (output.0 ≡ k + j) × (get_elem? vs j ≡ some output.1)

Says-later :
    (k : ℕ) (v : Json) (vs : List Json) (outputs : List (ℕ × Json))
    → All (Says (suc k) vs) outputs
    → All (Says k (v ∷ vs)) outputs
Says-later k v vs [] h = tt
Says-later k v vs ((i, w) ∷ outputs) ((j, at, same), hs) =
    ((suc j, omega arith, same), Says-later k v vs outputs hs)

All-enumerate : (k : ℕ) (vs : List Json) → All (Says k vs) (enumerate k vs)
All-enumerate k [] = tt
All-enumerate k (v ∷ vs) =
    ((0, omega arith, refl), Says-later k v vs (enumerate (suc k) vs) (All-enumerate (suc k) vs))

lookup_output-Says :
    (k : ℕ) (vs : List Json) (outputs : List (ℕ × Json)) (j : ℕ)
    → All (Says k vs) outputs
    → has_output outputs (k + j) ≡ true
    → lookup_output outputs (k + j) ≡ get_elem? vs j
lookup_output-Says k vs [] j h found = cc
lookup_output-Says k vs ((i, w) ∷ outputs) j ((m, at, same), hs) found =
    elim (Bool-cases (eqb i (k + j))) [
      | inl here ↦
          let index : m ≡ j = ground arith in
          ground (arith, subst (λ n. get_elem? vs n ≡ some w) index same)
      | inr more ↦ ground (arith, lookup_output-Says k vs outputs j hs (ground arith))
    ]

ordered_from-is :
    (k : ℕ) (items vs : List Json) (outputs : List (ℕ × Json))
    → length vs ≡ length items
    → ((j : ℕ) → j < length vs → lookup_output outputs (k + j) ≡ get_elem? vs j)
    → ordered_from k items outputs ≡ items_of vs
unfolding ordered_from
ordered_from-is k [] [] outputs e h = refl
ordered_from-is k [] (v ∷ vs) outputs e h = absurd (omega arith)
ordered_from-is k (x ∷ items) [] outputs e h = absurd (omega arith)
ordered_from-is k (x ∷ items) (v ∷ vs) outputs e h =
    let first : lookup_output outputs k ≡ some v =
      subst (λ i. lookup_output outputs i ≡ some v) (omega arith) (h 0 (omega arith)) in
    let rest = ordered_from-is (suc k) items vs outputs (omega arith) (λ j below.
      subst (λ i. lookup_output outputs i ≡ get_elem? vs j) (omega arith)
        (h (suc j) (omega arith))) in
    ground arith

-- Outputs that are the values in some order are read back in the items' order.
ordered_from-Perm :
    (items vs : List Json) (outputs : List (ℕ × Json))
    → length vs ≡ length items
    → Permᴰ outputs (enumerate 0 vs)
    → ordered_from 0 items outputs ≡ items_of vs
ordered_from-Perm items vs outputs e p = ordered_from-is 0 items vs outputs e (λ j below.
    lookup_output-Says 0 vs outputs j (All-Perm (Says 0 vs) p (All-enumerate 0 vs))
      (has_output-Perm p (0 + j) ∙ has_output-enumerate 0 vs j below))

module _ (thread_id run_id : String) (size_of : List (ℕ × Json) → ℕ) where
  -- When the output that is missing arrives, an item's outputs being any rearrangement of some values
  -- with their indices, and their size is within the limit, the map's node is finished with those
  -- values in the order of the items, and without error.
  pub record_map_output-in_order :
      (state : WorkflowState) (item : PendingMap) (index : ℕ) (output : Json) (values : List Json)
      → has_output item.outputs index ≡ false
      → length values ≡ length item.items
      → Permᴰ (item.outputs ++ (index, output) ∷ []) (enumerate 0 values)
      → size_of (item.outputs ++ (index, output) ∷ []) ≤ item.limit_bytes
      → record_map_output thread_id run_id size_of state item index output
        ≡ finish_node thread_id run_id state item.node_id
            (arr (items_of values))
            none
            (some (child_target run_id (map_child_thread_id thread_id item index) item.execution))
  unfolding record_map_output record_outputs
  record_map_output-in_order state item index output values new e p fits =
      let outputs = item.outputs ++ (index, output) ∷ [] in
      let count : length outputs ≡ length item.items =
        length-Perm p ∙ (length-enumerate 0 values ∙ e) in
      let small : ltb item.limit_bytes (size_of outputs) ≡ false = ground arith in
      let full : eqb (length outputs) (length item.items) ≡ true = ground arith in
      rw (new, small, full, ordered_from-Perm item.items values outputs e p) refl
