-- ===== src/Core/Fork/Trace.antt =====
-- packages/core/src/fork.ts: how the end of a run leads back to what started it, told from the folds of the
-- source's prefixes.
use looms.Prelude.{
  ℕ, suc, ◌≤◌, ◌<◌, String, Option, none, some, Bool, true, false, List, [], ◌∷◌, ◌≡◌, ◌||◌, ◌&&◌,
  ◌==◌, ◌>>=◌, or_else, or_try, truthy, not, any, take, length, starts_with, if◌then◌else◌,
}
use looms.Prelude.Dict.{get, values}
use looms.Core.Json.{field_of, as_number, payload_object, read_string}
use looms.Core.Envelope.{EventEnvelope, thread_failed, thread_cancelled}
use looms.Core.Effects.{RuntimeEffect}
use looms.Core.Thread.{ThreadStatus}
use looms.Core.State.{RunState, RunStatus, ThreadRecord, OutstandingEffect}
use looms.Core.Fold.Protocol.{Decoders, Registry}
use looms.Core.Fold.Step.{fold_event, fold_run}
use looms.Core.Fork.Scan.{get_elem?}

abbrev pub has_stopped : ThreadStatus → Bool
has_stopped ThreadStatus.running = false
has_stopped ThreadStatus.waiting = false
has_stopped _ = true

-- The run is not running any more, or its root thread is over.
pub data HasEnded (state : RunState) : Type 0 where
  run_over : ¬ (state.status ≡ RunStatus.running) → HasEnded state
  root_over :
      (id : String) (root : ThreadRecord)
      → truthy state.root_thread_id ≡ some id
      → get id state.threads ≡ some root
      → has_stopped root.status ≡ true
      → HasEnded state

-- The run is failed, or its root thread.
pub data HasFailed (state : RunState) : Type 0 where
  by_run : state.status ≡ RunStatus.failed → HasFailed state
  by_root :
      (id : String) (root : ThreadRecord)
      → truthy state.root_thread_id ≡ some id
      → get id state.threads ≡ some root
      → root.status ≡ ThreadStatus.failed
      → HasFailed state

abbrev pub is_failed : ThreadStatus → Bool
is_failed ThreadStatus.failed = true
is_failed _ = false

-- The effect that is outstanding by an id, the last one if there are several.
abbrev pub outstanding_of : String → List OutstandingEffect → Option RuntimeEffect
outstanding_of id [] = none
outstanding_of id (item ∷ items) =
    or_try (outstanding_of id items) (if item.effect_id == id then some item.effect else none)

-- The last index at which an event with an id stands.
abbrev pub last_index : String → List EventEnvelope → Option ℕ
last_index id [] = none
last_index id (event ∷ events) = elim (last_index id events) [
  | some index ↦ some (suc index)
  | none ↦ if event.id == id then some 0 else none
]

-- The text of the error that an event reports, empty if it reports none.
abbrev pub error_text : EventEnvelope → String
error_text event = or_else (read_string (payload_object event.payload) "error") ""

-- The thread that an event is about.
abbrev pub thread_named : EventEnvelope → Option String
thread_named event = or_try (read_string (payload_object event.payload) "threadId") event.thread_id

module _ (deterministic : String → Bool) where
  -- Whether the outcome of an effect, reported by an event, may come out otherwise if a fork asks for the
  -- effect again: the effect is a module's own, it is not deterministic, and it was not withdrawn.
  abbrev pub reruns : Option RuntimeEffect → EventEnvelope → Bool
  reruns none event = false
  reruns (some (RuntimeEffect.invoke type input tag at)) event =
      not (deterministic type || starts_with (error_text event) "withdrawn:")
  reruns (some effect) event = false

module _ (d : Decoders) (registry : Registry) where
  -- The last effect that was outstanding by an id after one of the events.
  abbrev pub last_asked : RunState → List EventEnvelope → String → Option RuntimeEffect
  last_asked state [] id = none
  last_asked state (event ∷ events) id =
      let next = fold_event d registry state event in
      or_try (last_asked next events id) (outstanding_of id next.outstanding_effects)

  -- The index of the first event after which a thread is failed, counted from one on.
  abbrev pub first_failed : ℕ → RunState → List EventEnvelope → String → Option ℕ
  first_failed index state [] id = none
  first_failed index state (event ∷ events) id =
      let next = fold_event d registry state event in
      let rest = first_failed (suc index) next events id in
      if any (λ record'. record'.thread_id == id && is_failed record'.status) (values next.threads)
      then some index
      else rest

  -- The run or its root ends with the event at an index, and not before.
  abbrev pub EndsAt : RunState → List EventEnvelope → ℕ → EventEnvelope → Type 0
  EndsAt state events index event =
      (get_elem? events index ≡ some event)
      × HasEnded (fold_run d registry state (take (suc index) events))
      × ((earlier : ℕ)
          → earlier < index
          → ¬ (HasEnded (fold_run d registry state (take (suc earlier) events))))

-- Where the events are cut for an end at an index: at the index that a cancellation recorded, or there.
pub data CutsAt (event : EventEnvelope) (index : ℕ) : ℕ → Type 0 where
  resumed :
      (start : ℕ)
      → event.type ≡ thread_cancelled
      → as_number (field_of "resumeSeq" (payload_object event.payload)) ≡ some start
      → CutsAt event index start
  unrecorded :
      event.type ≡ thread_cancelled
      → as_number (field_of "resumeSeq" (payload_object event.payload)) ≡ none
      → CutsAt event index index
  ended : ¬ (event.type ≡ thread_cancelled) → CutsAt event index index

-- The failures of threads by the index at which they were first seen, and the events by their ids.
module _ (failed found : String → Option ℕ) (index : ℕ) (event : EventEnvelope) where
  -- The event reports the failure of a thread, which was first failed at an index.
  abbrev pub SeenFailed : ℕ → Type 0
  SeenFailed seen =
      (event.type ≡ thread_failed)
      × ((id : String) × (truthy (thread_named event) ≡ some id) × (failed id ≡ some seen))

  -- What an event leads back to: to where its thread was first failed, if that is earlier, and else to the
  -- event that caused it, if that is earlier.
  pub data LeadsTo (next : ℕ) : Type 0 where
    to_failure : SeenFailed next → next < index → LeadsTo next
    to_cause :
        ((seen : ℕ) → SeenFailed seen → index ≤ seen)
        → (id : String) → truthy event.causation_id ≡ some id
        → found id ≡ some next
        → next < index
        → LeadsTo next

module _ (deterministic : String → Bool) (events : List EventEnvelope)
    (asked : String → Option RuntimeEffect) (failed found : String → Option ℕ) where
  -- Whether an event is the outcome of an effect that may come out otherwise.
  abbrev pub is_rerun : EventEnvelope → Bool
  is_rerun event = reruns deterministic (truthy event.effect_id >>= λ id. asked id) event

  -- The indices that one leads back to over events none of which is such an outcome.
  pub data Traced (start : ℕ) : ℕ → Type 0 where
    here : Traced start start
    on :
        (index next : ℕ) (event : EventEnvelope)
        → Traced start index
        → get_elem? events index ≡ some event
        → is_rerun event ≡ false
        → LeadsTo failed found index event next
        → Traced start next

  -- Where a failure that ends at an index started: at the first such outcome that it leads back to; or where
  -- it ended, if it leads back to none of them, up to an event that leads no further.
  pub data StartsAt (end' : ℕ) : ℕ → Type 0 where
    at_outcome :
        (index : ℕ) (event : EventEnvelope)
        → Traced end' index
        → get_elem? events index ≡ some event
        → is_rerun event ≡ true
        → StartsAt end' index
    at_end :
        (last : ℕ) (event : EventEnvelope)
        → Traced end' last
        → get_elem? events last ≡ some event
        → is_rerun event ≡ false
        → ((next : ℕ) → ¬ (LeadsTo failed found last event next))
        → StartsAt end' end'

-- The number of events that a fork keeps, by the fold of the events on a state: all, if nothing ends the root;
-- those before the cut of the root's end, if it did not fail there; and else those before the start of its failure.
pub data ForkedAt (d : Decoders) (registry : Registry) (deterministic : String → Bool)
    (state : RunState) (events : List EventEnvelope) : ℕ → Type 0 where
  whole :
      ((index : ℕ)
        → index < length events
        → ¬ (HasEnded (fold_run d registry state (take (suc index) events))))
      → ForkedAt d registry deterministic state events (length events)
  kept :
      (index cut : ℕ) (event : EventEnvelope)
      → EndsAt d registry state events index event
      → ¬ (HasFailed (fold_run d registry state (take (suc index) events)))
      → CutsAt event index cut
      → ForkedAt d registry deterministic state events cut
  rewound :
      (index cut start : ℕ) (event : EventEnvelope)
      → EndsAt d registry state events index event
      → HasFailed (fold_run d registry state (take (suc index) events))
      → CutsAt event index cut
      → StartsAt deterministic events
          (last_asked d registry state (take (suc index) events))
          (first_failed d registry 0 state (take (suc index) events))
          (λ id. last_index id events)
          cut
          start
      → ForkedAt d registry deterministic state events start
