-- ===== src/Workflow/Threads/Bounds.antt =====
-- packages/workflow/src/threads.ts: the children that a map has in flight, within its bounds and never stalled.
use looms.Prelude.{
  ◌⊎◌, ◌+◌, eqb, ◌<◌, length-append, min, ℕ, ◌≤◌, String, some, Bool, false, List, [], ◌∷◌, ◌++◌,
  ◌≡◌, ◌==◌, refl, arith, subst, sym, length, map, filter, find?, not, includes, All, All-append,
  All-filter, Distinct, Distinct-filter, Distinct-snoc, includes-filter, eq_iff, Bool-cases, inl,
  inr,
}
use looms.Core.Json.{Json}
use looms.Workflow.Threads.Data.{PendingMap, MapRequest}
use looms.Workflow.Threads.Effects.{has_output, in_flight}
use looms.Workflow.Threads.Pending.{update_map}
use looms.Workflow.Threads.Requests.{pending_map}
use looms.Workflow.Threads.Flight.{
  in_flight-fresh, in_flight-record, IsCounted, IsCounted-fresh, IsCounted-record,
}

-- A map that still has answers to come, of which some are in flight unless its last item has been started.
abbrev pub IsOngoing : PendingMap → Type 0
IsOngoing item =
    ((length item.outputs < length item.items) ⊎ (length item.items ≡ 0))
    × ((1 ≤ length (in_flight item))
        ⊎ ((item.next_index ≡ length item.items) ⊎ (item.concurrency ≡ 0)))

-- As many in flight as the map may have, and none past the last item.
abbrev pub IsWithin : PendingMap → Type 0
IsWithin item =
    (length (in_flight item) ≤ item.concurrency)
    × (item.next_index ≤ length item.items)
    × IsCounted item
    × IsOngoing item

abbrev node_of : PendingMap → String
node_of item = item.node_id

-- At most one map for each node, and each within its bounds.
abbrev pub AreBounded : List PendingMap → Type 0
AreBounded maps = Distinct (map node_of maps) × All IsWithin maps

map-filter :
    (keep : String → Bool) (maps : List PendingMap)
    → map node_of (filter (λ item. keep item.node_id) maps) ≡ filter keep (map node_of maps)
map-filter keep [] = refl
map-filter keep (item ∷ maps) = ground (arith, map-filter keep maps)

map-snoc :
    (maps : List PendingMap) (item : PendingMap)
    → map node_of (maps ++ item ∷ []) ≡ map node_of maps ++ item.node_id ∷ []
map-snoc [] item = refl
map-snoc (x ∷ maps) item = cc (map-snoc maps item)

pub filter-AreBounded :
    (keep : String → Bool) (maps : List PendingMap)
    → AreBounded maps
    → AreBounded (filter (λ item. keep item.node_id) maps)
filter-AreBounded keep maps (distinct, within) = (
  subst Distinct (sym (map-filter keep maps)) (Distinct-filter keep (map node_of maps) distinct),
  All-filter IsWithin (λ item. keep item.node_id) maps within,
)

-- A map takes the place of the map of the same node.
pub replace-AreBounded :
    (maps : List PendingMap) (item : PendingMap)
    → AreBounded maps
    → IsWithin item
    → AreBounded (filter (λ other'. not (other'.node_id == item.node_id)) maps ++ item ∷ [])
replace-AreBounded maps item h within =
    let keep : String → Bool = λ id. not (id == item.node_id) in
    let rest = filter (λ other'. keep other'.node_id) maps in
    let (distinct, all) = filter-AreBounded keep maps h in
    let absent : includes (map node_of rest) item.node_id ≡ false = rw (map-filter keep maps) (
      ground (
        arith,
        includes-filter keep (map node_of maps) item.node_id,
        eq_iff item.node_id item.node_id,
      )) in
    (
      subst Distinct (sym (map-snoc rest item))
          (Distinct-snoc (map node_of rest) item.node_id absent distinct),
      All-append IsWithin rest (item ∷ []) all (within, tt),
    )

pub pending_map-IsWithin : (request : MapRequest) → IsWithin (pending_map request)
pending_map-IsWithin request =
    let item = pending_map request in
    let fresh : length (in_flight item) ≡ min request.concurrency (length request.items) =
      in_flight-fresh item refl in
    let some_left : (0 < length request.items) ⊎ (length request.items ≡ 0) = ground arith in
    let some_on : (1 ≤ length (in_flight item))
        ⊎ ((min request.concurrency (length request.items) ≡ length request.items)
            ⊎ (request.concurrency ≡ 0)) =
      ground arith in
    (ground arith, ground arith, IsCounted-fresh item refl, (some_left, some_on))

-- An answer for an item that was started, which is not the last one missing, keeps a map within its bounds.
pub IsWithin-record :
    (item : PendingMap) (i : ℕ) (v : Json)
    → IsWithin item
    → i < item.next_index
    → has_output item.outputs i ≡ false
    → eqb (length (item.outputs ++ (i, v) ∷ [])) (length item.items) ≡ false
    → IsWithin (record item {
      outputs = item.outputs ++ (i, v) ∷ [];
      next_index = min (length item.items) (item.next_index + 1);
    })
unfolding in_flight looms.Workflow.Threads.Effects.unsettled_from
IsWithin-record item i v (few, past, counted, (left, on)) below new partial =
    let outputs = item.outputs ++ (i, v) ∷ [] in
    let next = min (length item.items) (item.next_index + 1) in
    let later = record item { outputs = outputs; next_index = next } in
    let one_more : (next ≡ item.next_index) ⊎ (next ≡ item.next_index + 1) = ground arith in
    let fewer : length (in_flight later) ≤ item.concurrency =
      in_flight-record item i next item.concurrency v below new (ground arith) few in
    let recorded = IsCounted-record item i next v below new one_more counted in
    let sum : length (in_flight later) + length outputs ≡ next = recorded.0 in
    let old : length (in_flight item) + length item.outputs ≡ item.next_index = counted.0 in
    let longer = length-append item.outputs ((i, v) ∷ []) in
    let some_left : (length outputs < length item.items) ⊎ (length item.items ≡ 0) = ground arith in
    let some_on : (1 ≤ length (in_flight later))
        ⊎ ((next ≡ length item.items) ⊎ (item.concurrency ≡ 0)) =
      ground arith in
    (fewer, ground arith, recorded, (some_left, some_on))

module _ (item : PendingMap) (outputs : List (ℕ × Json)) (next : ℕ) where
  map-update_map :
      (maps : List PendingMap)
      → map node_of (map (update_map item outputs next) maps) ≡ map node_of maps
  unfolding update_map
  map-update_map [] = refl
  map-update_map (x ∷ maps) = ground (arith, map-update_map maps)

  update_map-absent :
      (maps : List PendingMap)
      → includes (map node_of maps) item.node_id ≡ false
      → map (update_map item outputs next) maps ≡ maps
  unfolding update_map
  update_map-absent [] h = refl
  update_map-absent (x ∷ maps) h = ground (arith, update_map-absent maps (ground arith))

  update_map-IsWithin :
      (maps : List PendingMap)
      → AreBounded maps
      → find? (λ other'. other'.node_id == item.node_id) maps ≡ some item
      → IsWithin (record item { outputs = outputs; next_index = next })
      → All IsWithin (map (update_map item outputs next) maps)
  unfolding update_map
  update_map-IsWithin [] h found within = tt
  update_map-IsWithin (x ∷ maps) ((new, distinct), (first, all)) found within =
      elim (Bool-cases (x.node_id == item.node_id)) [
        | inl here ↦
            let same : x ≡ item = ground arith in
            ground (
              arith,
              update_map-absent maps
                  (subst (λ y. includes (map node_of maps) y.node_id ≡ false) same new),
            )
        | inr later ↦ ground (arith, update_map-IsWithin maps (distinct, all) (ground arith) within)
      ]

  -- An answer that keeps the map within its bounds keeps all of them so.
  pub update_map-AreBounded :
      (maps : List PendingMap)
      → AreBounded maps
      → find? (λ other'. other'.node_id == item.node_id) maps ≡ some item
      → IsWithin (record item { outputs = outputs; next_index = next })
      → AreBounded (map (update_map item outputs next) maps)
  update_map-AreBounded maps (distinct, all) found within = (
    subst Distinct (sym (map-update_map maps)) distinct,
    update_map-IsWithin maps (distinct, all) found within,
  )
