-- ===== src/Core/Match.antt =====
-- packages/core/src/match.ts: which waits an event satisfies. The first test of `isSubset`,
-- `match === payload`, only shortens the comparison of two arrays or objects, since equal references
-- have equal contents.
mod Narrow
mod Tests
use looms.Prelude.{
  ℕ, String, Option, none, some, Bool, true, false, List, [], ◌∷◌, ◌==◌, eqb, ◌&&◌, includes,
  filter, is_the,
}
use looms.Core.Json.{
  Json, null, bool, num, str, arr, obj, Items, nil, cons, Fields, end, field, field_of,
  payload_object, read_string,
}
use looms.Core.Envelope.{EventEnvelope, EventType, timer_fired, type_name}
use looms.Core.Effects.{WaitCondition, on_type, on_types, on_timer}
use looms.Core.State.{WaitRecord}
use looms.Core.Equality.{same_bool}

unfoldable mutual
  unfolding field_of

  -- `isSubset`
  pub is_subset : Json → Json → Bool
  is_subset null null = true
  is_subset (bool a) (bool b) = same_bool a b
  is_subset (num a) (num b) = eqb a b
  is_subset (str a) (str b) = a == b
  is_subset (arr xs) (arr ys) = subset_items xs ys
  is_subset (obj fs) (obj gs) = subset_fields fs gs
  is_subset _ _ = false

  pub subset_items : Items → Items → Bool
  subset_items nil nil = true
  subset_items (cons x xs) (cons y ys) = is_subset x y && subset_items xs ys
  subset_items _ _ = false

  pub subset_fields : Fields → Fields → Bool
  subset_fields end gs = true
  subset_fields (field k v fs) gs =
      elim (field_of k gs) [ none ↦ false | some w ↦ is_subset v w ] && subset_fields fs gs

abbrev is_timer_fired : EventType → Bool
is_timer_fired timer_fired = true
is_timer_fired _ = false

unfoldable pub payload_matches : Option Json → Json → Bool
unfolding is_subset
payload_matches none payload = true
payload_matches (some match) payload = is_subset match payload

-- `matchesWait`
unfoldable pub matches_wait : EventEnvelope → WaitCondition → Bool
unfolding type_name payload_matches
matches_wait event (on_timer at) = is_timer_fired event.type
matches_wait event (on_type type match) =
    type == type_name event.type && payload_matches match event.payload
matches_wait event (on_types types match) =
    includes types (type_name event.type) && payload_matches match event.payload

-- The test of `matchingWaits`: a timer that fires names its wait.
unfoldable pub wait_matches : EventEnvelope → WaitCondition → String → Bool
unfolding matches_wait read_string
wait_matches event (on_timer at) wait_id =
    is_timer_fired event.type
    && is_the (read_string (payload_object event.payload) "waitId") wait_id
wait_matches event (on_type type match) wait_id = matches_wait event (on_type type match)
wait_matches event (on_types types match) wait_id = matches_wait event (on_types types match)

-- `matchingWaits`
unfoldable pub matching_waits : EventEnvelope → List WaitRecord → List WaitRecord
unfolding wait_matches
matching_waits event waits = filter (λ record'. wait_matches event record'.on record'.wait_id) waits
