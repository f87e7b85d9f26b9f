-- ===== src/Core/Fold/Terminal.antt =====
-- A thread that is over stays as it is.
use looms.Prelude.{
  String, ◌≡◌, refl, Option, none, some, List, Bool, true, false, or_else, eq_iff, arith,
  Bool-cases, Option-cases, inl, inr,
}
use looms.Prelude.Dict.{Dict, get, put, get-put, values, Entries-get}
use looms.Core.Json.{Fields, payload_object}
use looms.Core.Envelope.{
  EventEnvelope, EventType, run_started, wait_satisfied, thread_started, thread_completed,
  thread_failed,
}
use looms.Core.Thread.{is_terminal_status, running}
use looms.Core.State.{RunState, ThreadRecord, OutstandingEffect}
use looms.Core.Fold.Changes.{complete_effect}
use looms.Core.Fold.Protocol.{
  Decoders, Registry, protocol_case, apply_protocol, all_cases, drop_losers, wake, wake_thread,
  wait_satisfied_step,
}
use looms.Core.Fold.Reconcile.{settled_without_outcome, reconcile_effects}
use looms.Core.Fold.Deliver.{deliver, forget_completed_effects, fail_unhandled_effect}
use looms.Core.Fold.Step.{
  adopt_run_id, record_event, fold_event, fold_event_durable, fold_event_ephemeral, protocol_state,
}
use looms.Core.Fold.Frame.{drop_race-threads}
use looms.Core.Fold.Keyed.{
  ThreadsKeyed, IsKeyed, IsKeyed-record_event, IsKeyed-apply_protocol, IsKeyed-deliver,
}

-- The three events that write a thread's record without looking at its status.
abbrev pub overwrites : EventType → Bool
overwrites thread_started = true
overwrites thread_completed = true
overwrites thread_failed = true
overwrites _ = false

module _ (k : String) (t : ThreadRecord) (over : is_terminal_status t.status ≡ true) where
  -- Writing the record of a thread that is not over leaves the others alone.
  frozen :
      (m : Dict ThreadRecord) (i : String) (new : ThreadRecord) (j : String) (u : ThreadRecord)
      → ThreadsKeyed m
      → get k m ≡ some t
      → get j m ≡ some u
      → is_terminal_status u.status ≡ false
      → i ≡ u.thread_id
      → get k (put i new m) ≡ some t
  unfolding ThreadsKeyed
  frozen m i new j u h found at_j live e =
      let same : u.thread_id ≡ j = Entries-get (λ k t. t.thread_id ≡ k) j u m h at_j in
      rw (get-put i k new m) (ground (arith, eq_iff i k))

  drop_losers-threads :
      (race : Option String) (s : RunState) → (drop_losers race s).threads ≡ s.threads
  unfolding drop_losers
  drop_losers-threads none s = refl
  drop_losers-threads (some race) s = drop_race-threads race (values s.waits) s

  wake_thread-frozen :
      (s : RunState) (id : String) (u : ThreadRecord)
      → ThreadsKeyed s.threads
      → get k s.threads ≡ some t
      → get id s.threads ≡ some u
      → get k (wake_thread s id (some u)).threads ≡ some t
  unfolding wake
  wake_thread-frozen s id u h found at_id =
      ground
        (arith, frozen s.threads u.thread_id (record u { status = running }) id u h found at_id)

  wake-frozen :
      (s : RunState) (o : Option String)
      → ThreadsKeyed s.threads
      → get k s.threads ≡ some t
      → get k (wake s o).threads ≡ some t
  unfolding wake
  wake-frozen s none h found = found
  wake-frozen s (some id) h found = elim (Option-cases (get id s.threads)) [
    | inl missing ↦ rw missing found
    | inr (u, at_id) ↦ rw at_id (wake_thread-frozen s id u h found at_id)
  ]

  module _ (s : RunState) (event : EventEnvelope) (keyed : ThreadsKeyed s.threads)
      (found : get k s.threads ≡ some t) where
    wait_satisfied_step-frozen :
        (fs : Fields) → get k (or_else (wait_satisfied_step s event fs) s).threads ≡ some t
    unfolding wait_satisfied_step
    wait_satisfied_step-frozen fs = grind (arith, drop_losers-threads, wake-frozen)

    protocol_case-frozen :
        (d : Decoders) (registry : Registry) (fs : Fields) (type : EventType)
        → overwrites type ≡ false
        → get k (or_else (protocol_case d registry s event fs type) s).threads ≡ some t
    unfolding all_cases complete_effect
    protocol_case-frozen d registry fs run_started o = found
    protocol_case-frozen d registry fs wait_satisfied o = wait_satisfied_step-frozen fs
    protocol_case-frozen d registry fs _ o = grind (arith, frozen)

    apply_protocol-frozen :
        (d : Decoders) (registry : Registry)
        → overwrites event.type ≡ false
        → get k (apply_protocol d registry s event).threads ≡ some t
    unfolding apply_protocol
    apply_protocol-frozen d registry o =
        protocol_case-frozen d registry (payload_object event.payload) event.type o

    deliver-frozen :
        (registry : Registry) (settled : Option OutstandingEffect)
        → get k (deliver registry s event settled).threads ≡ some t
    unfolding deliver reconcile_effects forget_completed_effects
    deliver-frozen registry settled = grind (arith, frozen)

    fail_unhandled_effect-frozen :
        (before : List OutstandingEffect)
        → get k (fail_unhandled_effect s event before).threads ≡ some t
    unfolding fail_unhandled_effect
    fail_unhandled_effect-frozen before = grind (arith, frozen)

pub record_event-threads :
    (s : RunState) (event : EventEnvelope) → (record_event s event).threads ≡ s.threads
unfolding record_event complete_effect
record_event-threads s event = ground arith

-- In a keyed state, a thread that has completed, failed or been cancelled keeps its record over every
-- event whose type is not thread.started, thread.completed or thread.failed.
pub fold_event-frozen :
    (d : Decoders) (registry : Registry) (s : RunState) (event : EventEnvelope) (k : String)
    (t : ThreadRecord)
    → IsKeyed s
    → get k s.threads ≡ some t
    → is_terminal_status t.status ≡ true
    → overwrites event.type ≡ false
    → get k (fold_event d registry s event).threads ≡ some t
fold_event-frozen d registry s event k t keyed found over other =
    elim (Bool-cases event.ephemeral) [
      | inl skip ↦ rw (fold_event_ephemeral d registry s event skip) found
      | inr step ↦
          let recorded = IsKeyed-record_event s event keyed in
          let handled = IsKeyed-apply_protocol d registry _ event recorded in
          let delivered =
            IsKeyed-deliver registry (protocol_state d registry s event) event
              (settled_without_outcome (adopt_run_id s event) event) handled in
          let found' : get k (record_event s event).threads ≡ some t =
            rw record_event-threads found in
          let found'' =
            apply_protocol-frozen k t over _ event recorded.threads found' d registry other in
          rw (fold_event_durable d registry s event step) (
            fail_unhandled_effect-frozen k t over _ event delivered.threads
              (deliver-frozen k t over _ event handled.threads found'' registry _) _)
    ]
