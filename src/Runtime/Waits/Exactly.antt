-- ===== src/Runtime/Waits/Exactly.antt =====
-- packages/runtime/src/helpers.ts: `waitSatisfiedEvents` reports exactly the waits that an event satisfies.
use looms.Prelude.{
  map-append, String, Option, none, some, Bool, true, false, List, [], ◌∷◌, ◌++◌, ◌≡◌, refl, ap,
  ◌∙◌, arith, map, any, not, ◌&&◌, ◌||◌, if◌then◌else◌, or_else, includes, includes-append,
  Bool-cases, Option-cases, inl, inr,
}
use looms.Prelude.Dict.{Dict, get, remove, values, get-remove, passes, includes-filter-values}
use looms.Core.Json.{field_of, read_string, payload_object}
use looms.Core.Envelope.{EventEnvelope, EventInput}
use looms.Core.State.{RunState, WaitRecord}
use looms.Core.Match.{matching_waits, wait_matches}
use looms.Core.Fold.Keyed.{WaitsKeyed, WaitsKeyed-remove}
use looms.Runtime.Waits.{
  drop_waits, is_passed_over, satisfied_from, satisfied_input, satisfied_payload,
  wait_satisfied_events,
}

-- The wait that an event input reports.
unfoldable pub satisfied_id : EventInput → String
unfolding read_string field_of
satisfied_id input = or_else (read_string (payload_object input.payload) "waitId") ""

abbrev pub wait_ids : List WaitRecord → List String
wait_ids = map (λ w. w.wait_id)

pub map-satisfied_id :
    (event : EventEnvelope) (ws : List WaitRecord)
    → map satisfied_id (map (satisfied_input event) ws) ≡ wait_ids ws
unfolding satisfied_id satisfied_payload field_of read_string
map-satisfied_id event [] = refl
map-satisfied_id event (w ∷ ws) = ap (λ ids. w.wait_id ∷ ids) (map-satisfied_id event ws)

pub get-drop_waits :
    (ws : List WaitRecord) (m : Dict WaitRecord) (id : String)
    → get id (drop_waits ws m) ≡ (if includes (wait_ids ws) id then none else get id m)
unfolding drop_waits
get-drop_waits [] m id = refl
get-drop_waits (w ∷ ws) m id =
    ground (arith, get-drop_waits ws (remove w.wait_id m) id, get-remove w.wait_id id m)

pub drop_waits-WaitsKeyed :
    (ws : List WaitRecord) (m : Dict WaitRecord) → WaitsKeyed m → WaitsKeyed (drop_waits ws m)
unfolding drop_waits
drop_waits-WaitsKeyed [] m h = h
drop_waits-WaitsKeyed (w ∷ ws) m h =
    drop_waits-WaitsKeyed ws (remove w.wait_id m) (WaitsKeyed-remove m w.wait_id h)

abbrev pub satisfies : WaitRecord → EventEnvelope → Bool
satisfies w event = not (is_passed_over event) && wait_matches event w.on w.wait_id

-- Whether one of the events satisfies a record that may be there.
abbrev pub satisfied_by : List EventEnvelope → Option WaitRecord → Bool
satisfied_by events none = false
satisfied_by events (some w) = any (satisfies w) events

-- The records that an event satisfies.
abbrev pub matches_of : EventEnvelope → Dict WaitRecord → List WaitRecord
matches_of event m = matching_waits event (values m)

abbrev pub reported : List EventEnvelope → Dict WaitRecord → List String
reported events m = map satisfied_id (satisfied_from events m)

pub reported-cons :
    (event : EventEnvelope) (events : List EventEnvelope) (m : Dict WaitRecord)
    → reported (event ∷ events) m ≡ (
        if is_passed_over event
        then reported events m
        else wait_ids (matches_of event m) ++ reported events (drop_waits (matches_of event m) m))
unfolding satisfied_from
reported-cons event events m = elim (Bool-cases (is_passed_over event)) [
  | inl over ↦ rw over refl
  | inr seen ↦ rw seen (
      map-append satisfied_id (map (satisfied_input event) (matches_of event m))
        (satisfied_from events (drop_waits (matches_of event m) m))
      ∙ ap (λ ids. ids ++ reported events (drop_waits (matches_of event m) m))
          (map-satisfied_id event (matches_of event m)))
]

pub includes-matches_of :
    (event : EventEnvelope) (m : Dict WaitRecord) (id : String)
    → WaitsKeyed m
    → includes (wait_ids (matches_of event m)) id
      ≡ passes (λ w. wait_matches event w.on w.wait_id) (get id m)
unfolding WaitsKeyed matching_waits
includes-matches_of event m id (own, distinct) =
    includes-filter-values (λ w. w.wait_id) (λ w. wait_matches event w.on w.wait_id) m id own
      distinct

-- The first event satisfies a record, or the later ones do.
satisfied_by-cons :
    (event : EventEnvelope) (events : List EventEnvelope) (o : Option WaitRecord) (now later : Bool)
    → now ≡ passes (λ w. wait_matches event w.on w.wait_id) o
    → later ≡ satisfied_by events (if now then none else o)
    → (if is_passed_over event then satisfied_by events o else now || later)
      ≡ satisfied_by (event ∷ events) o
satisfied_by-cons event events none now later h k = ground arith
satisfied_by-cons event events (some w) true later h k = ground arith
satisfied_by-cons event events (some w) false later h k = ground arith

either-includes :
    (over : Bool) (xs ys zs : List String) (id : String) (b : Bool)
    → includes xs id ≡ b
    → includes (if over then xs else ys ++ zs) id
      ≡ (if over then b else includes ys id || includes zs id)
either-includes true xs ys zs id b h = h
either-includes false xs ys zs id b h = includes-append ys zs id

pub satisfied_from-includes :
    (events : List EventEnvelope) (m : Dict WaitRecord) (id : String)
    → WaitsKeyed m
    → includes (reported events m) id ≡ satisfied_by events (get id m)
unfolding satisfied_from
satisfied_from-includes [] m id h = elim (Option-cases (get id m)) [
  | inl absent ↦ rw absent refl
  | inr (w, there) ↦ rw there refl
]
satisfied_from-includes (event ∷ events) m id h =
    let matches = matches_of event m in
    let left = drop_waits matches m in
    let ids = ap (λ xs. includes xs id) (reported-cons event events m) in
    let kept = satisfied_from-includes events m id h in
    let rest = satisfied_from-includes events left id (drop_waits-WaitsKeyed matches m h) in
    let found = includes-matches_of event m id h in
    let gone = get-drop_waits matches m id in
    let both = includes-append (wait_ids matches) (reported events left) id in
    let later : includes (reported events left) id
        ≡ satisfied_by events (if includes (wait_ids matches) id then none else get id m) =
      rest ∙ ap (satisfied_by events) gone in
    let split : includes
          (if is_passed_over event
            then reported events m
            else wait_ids matches ++ reported events left)
          id
        ≡ (if is_passed_over event
            then satisfied_by events (get id m)
            else includes (wait_ids matches) id || includes (reported events left) id) =
      either-includes (is_passed_over event) (reported events m) (wait_ids matches)
        (reported events left) id (satisfied_by events (get id m)) kept in
    ids
    ∙ split
    ∙ satisfied_by-cons event events (get id m) (includes (wait_ids matches) id)
        (includes (reported events left) id) found later

-- In a state whose waits are keyed, `waitSatisfiedEvents` reports a wait if and only if one of the events satisfies it: an event that is neither ephemeral nor itself such a report, and that `matchingWaits` finds to match the wait.
pub wait_satisfied_events-includes :
    (state : RunState) (events : List EventEnvelope) (id : String) (w : WaitRecord)
    → WaitsKeyed state.waits
    → get id state.waits ≡ some w
    → includes (map satisfied_id (wait_satisfied_events state events)) id ≡ any (satisfies w) events
unfolding wait_satisfied_events
wait_satisfied_events-includes state events id w h there =
    satisfied_from-includes events state.waits id h ∙ ap (satisfied_by events) there
