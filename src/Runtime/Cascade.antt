-- ===== src/Runtime/Cascade.antt =====
-- packages/core/src/state.ts: `descendantThreadIds`; packages/runtime/src/helpers.ts:
-- `cascadedCancellations`, which cancels what lives below a cancelled thread.
pub mod Below
pub mod Live
pub mod Tests
use looms.Prelude.{
  ℕ, zero, suc, String, Option, none, some, Bool, true, false, List, [], ◌∷◌, ◌++◌, ◌==◌, ◌>>=◌,
  map, filter, length, reverse, not, ◌&&◌, if◌then◌else◌, includes, or_try, truthy,
}
use looms.Prelude.Dict.{Dict, get, values}
use looms.Core.Json.{Json, obj, str, end, field, payload_object, read_string}
use looms.Core.Envelope.{EventEnvelope, EventInput, EventType, thread_cancelled}
use looms.Core.Thread.{is_terminal_status}
use looms.Core.State.{RunState, ThreadRecord}

abbrev pub parent_of : Dict ThreadRecord → String → Option String
parent_of threads id = get id threads >>= λ r. r.parent_thread_id

-- The walk up from a thread, from its parent on. On fuel: around a circle of parents the code goes forever.
unfoldable pub is_below : ℕ → Dict ThreadRecord → String → Option String → Bool
unfolding get
is_below zero threads id parent = false
is_below (suc fuel) threads id parent = elim (truthy parent) [
  | none ↦ false
  | some p ↦
      let rest = is_below fuel threads id (parent_of threads p) in if p == id then true else rest
]

-- `descendantThreadIds`: a walk passes each thread once.
unfoldable pub descendant_thread_ids : RunState → String → List String
unfolding is_below values
descendant_thread_ids state id =
    map (λ r. r.thread_id)
      (filter (λ r. is_below (suc (length state.threads)) state.threads id r.parent_thread_id)
        (values state.threads))

abbrev the_one : Option String → List String
the_one none = []
the_one (some id) = id ∷ []

-- The thread that an event cancels.
unfoldable pub cancelled_of : EventEnvelope → List String
unfolding read_string
cancelled_of event = elim event.type [
  | thread_cancelled ↦
      the_one
        (truthy (or_try (read_string (payload_object event.payload) "threadId") event.thread_id))
  | _ ↦ []
]

-- `xs.flatMap(f)`
abbrev pub flat_map {ℓ} : {A : Type ℓ} → (A → List String) → List A → List String
flat_map f [] = []
flat_map f (x ∷ xs) = f x ++ flat_map f xs

abbrev pub lives : Option ThreadRecord → Bool
lives none = false
lives (some r) = not (is_terminal_status r.status)

unfoldable pub is_live : RunState → String → Bool
unfolding get
is_live state id = lives (get id state.threads)

-- `new Set(xs)`: the first of each
unfoldable pub first_of_each : List String → List String → List String
first_of_each seen [] = []
first_of_each seen (x ∷ xs) =
    let again = first_of_each seen xs in
    let more = first_of_each (x ∷ seen) xs in if includes seen x then again else x ∷ more

unfoldable pub cancellation_of : String → EventInput
cancellation_of id = record {
  type = thread_cancelled;
  payload = obj (field "threadId" (str id) (field "reason" (str "cancelled") end));
  thread_id = some (some id);
  parent_thread_id = none;
  causation_id = none;
  correlation_id = none;
  effect_id = none;
  origin = none;
  ephemeral = none;
  id = none;
  ts = none;
  idempotency_key = none;
}

-- The live threads below those that the events cancel, in the order that they are found.
unfoldable pub live_below : RunState → List EventEnvelope → List String
unfolding descendant_thread_ids cancelled_of is_live first_of_each
live_below state written = first_of_each [] (
    filter (is_live state) (flat_map (descendant_thread_ids state) (flat_map cancelled_of written)))

-- `cascadedCancellations`
unfoldable pub cascaded_cancellations : RunState → List EventEnvelope → List EventInput
unfolding live_below cancellation_of
cascaded_cancellations state written = map cancellation_of (reverse (live_below state written))
