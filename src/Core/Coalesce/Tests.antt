-- ===== src/Core/Coalesce/Tests.antt =====
-- A key of the coalescing buffer at work, and its theorems there.
use looms.Prelude.{ℕ, String, none, some, [], ◌∷◌, true, false, ◌≡◌, refl, arith}
use looms.Core.Coalesce.Key.{
  Key, KeyState, idle_key, push, enqueued, take_batch, flush_succeeded, flush_failed, clear,
  drained,
}
use looms.Core.Coalesce.Steps.{Steps, pushes, takes, succeeds, stay, next}
use looms.Core.Coalesce.Sound.{concat, IsCoherent}
use looms.Core.Coalesce.Coherent.{poison_of, Steps-IsCoherent}
use looms.Core.Coalesce.Draining.{Steps-CanDrain}

abbrev fresh : Key ℕ String
fresh = idle_key

-- Two pushes, a flush, and a push while it is under way.
abbrev pushed_twice : Key ℕ String
pushed_twice = (push 1 (push 1 fresh 10).1 20).1

abbrev in_flight : Key ℕ String
in_flight = (push 1 (take_batch pushed_twice) 30).1

in_flight-Steps : Steps 1 fresh in_flight
unfolding push take_batch
in_flight-Steps =
    next
      (next (next (next (stay fresh) (pushes fresh 10)) (pushes (push 1 fresh 10).1 20))
        (takes pushed_twice (omega arith)))
      (pushes (take_batch pushed_twice) 30)

-- The second push finds more than one event in the buffer, and waits.
second_push : (push 1 (push 1 fresh 10).1 20).0 ≡ enqueued true
unfolding push
second_push = refl

-- The batch is flushed, and then the buffer; the key is drained and its entry is evicted.
abbrev settled : Key ℕ String
unfolding push take_batch
settled =
    let landed = flush_succeeded [] (record { state_id = 0; batch = 10 ∷ 20 ∷ [] }) [] in_flight in
    let again =
      flush_succeeded [] (record { state_id = 0; batch = 30 ∷ [] }) [] (take_batch landed) in
    take_batch again

settled-Steps : Steps 1 fresh settled
unfolding settled push take_batch flush_succeeded
settled-Steps =
    let landed : Key ℕ String =
      flush_succeeded [] (record { state_id = 0; batch = 10 ∷ 20 ∷ [] }) [] in_flight in
    let again : Key ℕ String =
      flush_succeeded [] (record { state_id = 0; batch = 30 ∷ [] }) [] (take_batch landed) in
    next
      (next
        (next
          (next in_flight-Steps
            (succeeds in_flight [] (record { state_id = 0; batch = 10 ∷ 20 ∷ [] }) [] refl))
          (takes landed (omega arith)))
        (succeeds (take_batch landed) [] (record { state_id = 0; batch = 30 ∷ [] }) [] refl))
      (takes again (omega arith))

Steps-IsCoherent_example : IsCoherent in_flight
Steps-IsCoherent_example =
    Steps-IsCoherent {k = fresh} {l = in_flight} in_flight-Steps (refl, refl, refl)

settled_drained : drained settled.entry ≡ true
unfolding settled push take_batch flush_succeeded drained
settled_drained = refl

settled_clean : poison_of settled.entry ≡ none
unfolding settled push take_batch flush_succeeded
settled_clean = refl

in_flight_clean : poison_of in_flight.entry ≡ none
unfolding push take_batch
in_flight_clean = refl

Steps-CanDrain_example :
    (l : Key ℕ String) × Steps 1 in_flight l
    × (drained l.entry ≡ true)
    × (l.pushed ≡ in_flight.pushed)
    × (in_flight.pushed ≡ concat l.flushed)
Steps-CanDrain_example = Steps-CanDrain 1 {k = in_flight} in_flight-Steps in_flight_clean

abbrev broken_state : KeyState ℕ String
broken_state = record {
  id = 0;
  buffer = [];
  flushing = false;
  scheduled = false;
  poison = some "disk full";
}

abbrev broken : Key ℕ String
broken = flush_failed [] (record { state_id = 0; batch = 10 ∷ 20 ∷ [] }) [] "disk full" in_flight

broken-IsCoherent : IsCoherent broken
unfolding push take_batch flush_failed
broken-IsCoherent = (refl, refl, refl, refl, refl, (10 ∷ 20 ∷ 30 ∷ [], refl))

broken_entry : broken.entry ≡ some broken_state
unfolding push take_batch flush_failed
broken_entry = refl

-- After `clear` in the middle of a flush, a push starts another flush of the key beside the first.
abbrev cleared : Key ℕ String
cleared = take_batch (push 1 (clear in_flight) 40).1

two_flights :
    cleared.flights
    ≡ record { state_id = 0; batch = 10 ∷ 20 ∷ [] } ∷ record { state_id = 1; batch = 40 ∷ [] } ∷ []
unfolding push take_batch clear
two_flights = refl
