-- ===== src/Workflow/Threads/Flight.antt =====
-- packages/workflow/src/threads.ts: how many items of a map are in flight.
use looms.Prelude.{
  All-weaken, All-append, length-append, ◌⊎◌, sym, ap, All, subst, ℕ, zero, suc, ◌+◌, ◌≤◌, ◌<◌,
  false, List, [], ◌∷◌, ◌++◌, ◌≡◌, ◌||◌, inl, inr, refl, arith, length, eqb, Bool-cases,
}
use looms.Core.Json.{Json}
use looms.Workflow.Threads.Data.{PendingMap}
use looms.Workflow.Threads.Effects.{has_output, unsettled_from, in_flight}

pub has_output-snoc :
    (outputs : List (ℕ × Json)) (i : ℕ) (v : Json) (j : ℕ)
    → has_output (outputs ++ (i, v) ∷ []) j ≡ (has_output outputs j || eqb i j)
has_output-snoc [] i v j = ground arith
has_output-snoc ((k, w) ∷ outputs) i v j = ground (arith, has_output-snoc outputs i v j)

-- An answer to another index leaves what is unsettled as it is.
unsettled_from-other :
    (start count : ℕ) (outputs : List (ℕ × Json)) (i : ℕ) (v : Json)
    → i < start
    → unsettled_from start count (outputs ++ (i, v) ∷ []) ≡ unsettled_from start count outputs
unfolding unsettled_from
unsettled_from-other start zero outputs i v before = refl
unsettled_from-other start (suc count) outputs i v before = ground (
  arith,
  has_output-snoc outputs i v start,
  unsettled_from-other (suc start) count outputs i v (omega arith),
)

-- An answer to an unsettled index settles one.
unsettled_from-answer :
    (start count : ℕ) (outputs : List (ℕ × Json)) (i : ℕ) (v : Json)
    → start ≤ i
    → i < start + count
    → has_output outputs i ≡ false
    → suc (length (unsettled_from start count (outputs ++ (i, v) ∷ [])))
      ≡ length (unsettled_from start count outputs)
unfolding unsettled_from
unsettled_from-answer start zero outputs i v from below new = omega arith
unsettled_from-answer start (suc count) outputs i v from below new =
    elim (Bool-cases (eqb i start)) [
      | inl here ↦ ground (
        arith,
        has_output-snoc outputs i v start,
        unsettled_from-other (suc start) count outputs i v (ground arith),
      )
      | inr later ↦ ground (
        arith,
        has_output-snoc outputs i v start,
        unsettled_from-answer (suc start) count outputs i v (ground arith) (ground arith) new,
      )
    ]

-- One more index is at most one more in flight.
unsettled_from-suc :
    (start count : ℕ) (outputs : List (ℕ × Json))
    → length (unsettled_from start (suc count) outputs)
      ≤ suc (length (unsettled_from start count outputs))
unfolding unsettled_from
unsettled_from-suc start zero outputs = ground arith
unsettled_from-suc start (suc count) outputs =
    ground (arith, unsettled_from-suc (suc start) count outputs)

unsettled_from-none : (start count : ℕ) → length (unsettled_from start count []) ≡ count
unfolding unsettled_from
unsettled_from-none start zero = refl
unsettled_from-none start (suc count) = omega (arith, unsettled_from-none (suc start) count)

pub in_flight-fresh :
    (item : PendingMap) → item.outputs ≡ [] → length (in_flight item) ≡ item.next_index
unfolding in_flight
in_flight-fresh item e = rw e (unsettled_from-none 0 item.next_index)

-- Fewer indices are at most as many in flight.
unsettled_from_mono :
    (start count more : ℕ) (outputs : List (ℕ × Json))
    → count ≤ more
    → length (unsettled_from start count outputs) ≤ length (unsettled_from start more outputs)
unfolding unsettled_from
unsettled_from_mono start zero more outputs h = omega arith
unsettled_from_mono start (suc count) zero outputs h = omega arith
unsettled_from_mono start (suc count) (suc more) outputs h =
    ground (arith, unsettled_from_mono (suc start) count more outputs (omega arith))

-- Recording an answer and moving on by an item at most keeps the number in flight within its bound.
pub in_flight-record :
    (item : PendingMap) (i next limit : ℕ) (v : Json)
    → i < item.next_index
    → has_output item.outputs i ≡ false
    → next ≤ item.next_index + 1
    → length (in_flight item) ≤ limit
    → length (unsettled_from 0 next (item.outputs ++ (i, v) ∷ [])) ≤ limit
unfolding in_flight
in_flight-record item i next limit v below new close h =
    let outputs = item.outputs ++ (i, v) ∷ [] in
    let fewer = unsettled_from_mono 0 next (suc item.next_index) outputs (omega arith) in
    let one_more = unsettled_from-suc 0 item.next_index outputs in
    let settled =
      unsettled_from-answer 0 item.next_index item.outputs i v (omega arith) (omega arith) new in
    omega (arith, fewer, one_more, settled, h)

-- An index without an output is one more in flight.
unsettled_from-next :
    (start count : ℕ) (outputs : List (ℕ × Json))
    → has_output outputs (start + count) ≡ false
    → length (unsettled_from start (suc count) outputs)
      ≡ suc (length (unsettled_from start count outputs))
unfolding unsettled_from
unsettled_from-next start zero outputs new =
    let here : has_output outputs start ≡ false =
      subst (λ i. has_output outputs i ≡ false) (omega arith) new in
    rw here refl
unsettled_from-next start (suc count) outputs new =
    let later =
      unsettled_from-next (suc start) count outputs
        (subst (λ i. has_output outputs i ≡ false) (omega arith) new) in
    ground (arith, later)

abbrev pub IsBelow : ℕ → ℕ × Json → Type 0
IsBelow next output = output.0 < next

has_output-IsBelow :
    (next : ℕ) (outputs : List (ℕ × Json))
    → All (IsBelow next) outputs
    → has_output outputs next ≡ false
has_output-IsBelow next [] h = refl
has_output-IsBelow next ((i, v) ∷ outputs) (below, h) =
    ground (arith, has_output-IsBelow next outputs h)

-- What a map has in flight and has outputs of is what it has started.
abbrev pub IsCounted : PendingMap → Type 0
IsCounted item =
    (length (in_flight item) + length item.outputs ≡ item.next_index)
    × All (IsBelow item.next_index) item.outputs

-- Recording an answer keeps the count, whether or not the map goes on to a further item.
pub IsCounted-record :
    (item : PendingMap) (i next : ℕ) (v : Json)
    → i < item.next_index
    → has_output item.outputs i ≡ false
    → (next ≡ item.next_index) ⊎ (next ≡ item.next_index + 1)
    → IsCounted item
    → IsCounted (record item { outputs = item.outputs ++ (i, v) ∷ []; next_index = next })
unfolding in_flight
IsCounted-record item i next v below new (inl stays) (count, all) =
    let outputs = item.outputs ++ (i, v) ∷ [] in
    let settled =
      unsettled_from-answer 0 item.next_index item.outputs i v (omega arith) (omega arith) new in
    let longer = length-append item.outputs ((i, v) ∷ []) in
    subst
      (λ n. (length (unsettled_from 0 n outputs) + length outputs ≡ n) × All (IsBelow n) outputs)
      (sym stays)
      (
        omega (arith, settled, longer, count),
        All-append (IsBelow item.next_index) item.outputs ((i, v) ∷ []) all (below, tt),
      )
IsCounted-record item i next v below new (inr goes_on) (count, all) =
    let on : next ≡ suc item.next_index = omega arith in
    let outputs = item.outputs ++ (i, v) ∷ [] in
    let settled =
      unsettled_from-answer 0 item.next_index item.outputs i v (omega arith) (omega arith) new in
    let longer = length-append item.outputs ((i, v) ∷ []) in
    let within = All-append (IsBelow item.next_index) item.outputs ((i, v) ∷ []) all (below, tt) in
    let further = unsettled_from-next 0 item.next_index outputs (
      subst (λ n. has_output outputs n ≡ false) (omega arith)
        (has_output-IsBelow item.next_index outputs within)) in
    subst
      (λ n. (length (unsettled_from 0 n outputs) + length outputs ≡ n) × All (IsBelow n) outputs)
      (sym on)
      (
        omega (arith, further, settled, longer, count),
        All-weaken (IsBelow item.next_index) (IsBelow (suc item.next_index)) (λ o h. omega arith)
            outputs within,
      )

pub IsCounted-fresh : (item : PendingMap) → item.outputs ≡ [] → IsCounted item
unfolding in_flight
IsCounted-fresh item e =
    let fresh = in_flight-fresh item e in
    (
      ground (arith, fresh, ap (λ outputs. length outputs) e),
      subst (λ outputs. All (IsBelow item.next_index) outputs) (sym e) tt,
    )
