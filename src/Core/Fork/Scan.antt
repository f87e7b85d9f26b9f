-- ===== src/Core/Fork/Scan.antt =====
-- packages/core/src/fork.ts: `scanSource` and `failureOrigin`.
use looms.Prelude.{
  ℕ, zero, suc, String, Option, none, some, Bool, true, false, List, [], ◌∷◌, or_else, or_try,
  truthy, is_some, not, ◌&&◌, ◌||◌, if◌then◌else◌, ltb, ◌>>=◌,
}
use looms.Prelude.Dict.{Dict, get, put, values}
use looms.Core.Json.{field_of, as_number, payload_object, read_string}
use looms.Core.Envelope.{EventEnvelope, thread_cancelled, thread_failed}
use looms.Core.Effects.{RuntimeEffect, effect_type, is_withdrawn_error}
use looms.Core.Thread.{ThreadStatus, is_terminal_status}
use looms.Core.State.{
  RunState, ThreadRecord, OutstandingEffect, empty_run_state, is_run_terminal, RunStatus,
}
use looms.Core.Fold.Protocol.{Decoders, Registry}
use looms.Core.Fold.Step.{fold_event}

abbrev pub get_elem? {ℓ} : {A : Type ℓ} → List A → ℕ → Option A
get_elem? [] i = none
get_elem? (x ∷ xs) zero = some x
get_elem? (x ∷ xs) (suc i) = get_elem? xs i

pub record SourceScan : Type 0 where
  pub cut : ℕ
  pub effects : Dict RuntimeEffect
  pub failed_at : Dict ℕ
  pub root_failed : Bool

-- `payloadThreadId`
unfoldable pub payload_thread_id : EventEnvelope → Option String
unfolding read_string
payload_thread_id event =
    or_try (read_string (payload_object event.payload) "threadId") event.thread_id

abbrev pub root_record : RunState → Option ThreadRecord
root_record state = truthy state.root_thread_id >>= λ id. get id state.threads

abbrev pub has_ended : Option ThreadRecord → Bool
has_ended none = false
has_ended (some root) = is_terminal_status root.status

-- `rootTerminal`
unfoldable pub root_terminal : RunState → Bool
unfolding get
root_terminal state = is_run_terminal state || has_ended (root_record state)

-- `cancellationStart`
unfoldable pub cancellation_start : EventEnvelope → Option ℕ
unfolding field_of
cancellation_start event = elim event.type [
  | thread_cancelled ↦ as_number (field_of "resumeSeq" (payload_object event.payload))
  | _ ↦ none
]

-- The loop over the outstanding effects.
unfoldable pub note_effects : Dict RuntimeEffect → List OutstandingEffect → Dict RuntimeEffect
unfolding put
note_effects effects [] = effects
note_effects effects (item ∷ items) = note_effects (put item.effect_id item.effect effects) items

abbrev pub thread_failed? : ThreadStatus → Bool
thread_failed? ThreadStatus.failed = true
thread_failed? _ = false

-- The loop over the threads: the first index at which each has failed.
unfoldable pub note_failed : ℕ → Dict ℕ → List ThreadRecord → Dict ℕ
unfolding get put
note_failed index failed_at [] = failed_at
note_failed index failed_at (record' ∷ records) =
    note_failed index
      (if thread_failed? record'.status && not (is_some (get record'.thread_id failed_at))
        then put record'.thread_id index failed_at
        else failed_at)
      records

abbrev pub run_failed? : RunStatus → Bool
run_failed? RunStatus.failed = true
run_failed? _ = false

abbrev pub root_failed? : Option ThreadRecord → Bool
root_failed? none = false
root_failed? (some root) = thread_failed? root.status

module _ (d : Decoders) (registry : Registry) where
  -- The loop of `scanSource` from an index on.
  unfoldable pub scan_from :
      ℕ → RunState → Dict RuntimeEffect → Dict ℕ → List EventEnvelope → SourceScan
  unfolding root_terminal cancellation_start note_effects note_failed fold_event get values
  scan_from index state effects failed_at [] = record {
    cut = index;
    effects = effects;
    failed_at = failed_at;
    root_failed = false;
  }
  scan_from index state effects failed_at (event ∷ events) =
      let next = fold_event d registry state event in
      let effects' = note_effects effects next.outstanding_effects in
      let failed_at' = note_failed index failed_at (values next.threads) in
      let rest = scan_from (suc index) next effects' failed_at' events in
      if root_terminal next
      then record {
        cut = or_else (cancellation_start event) index;
        effects = effects';
        failed_at = failed_at';
        root_failed = root_failed? (root_record next) || run_failed? next.status;
      }
      else rest

  -- The state that the scan starts from.
  abbrev pub scan_start : List EventEnvelope → RunState
  scan_start [] = empty_run_state ""
  scan_start (event ∷ events) = empty_run_state event.run_id

  -- `scanSource`
  unfoldable pub scan_source : List EventEnvelope → SourceScan
  unfolding scan_from
  scan_source events = scan_from 0 (scan_start events) [] [] events

-- `isPrimitiveEffect`: an invocation's type is none of the runtime's own, which have constructors.
unfoldable pub is_primitive_effect : RuntimeEffect → Bool
is_primitive_effect (RuntimeEffect.invoke _ _ _ _) = false
is_primitive_effect _ = true

-- `indexById`: of several events with one id the last counts.
unfoldable pub index_by_id : ℕ → Dict ℕ → List EventEnvelope → Dict ℕ
unfolding put
index_by_id index indexes [] = indexes
index_by_id index indexes (event ∷ events) =
    index_by_id (suc index) (put event.id index indexes) events

-- Where the thread that an event reports as failed was first seen failed.
unfoldable pub failed_index : Dict ℕ → EventEnvelope → Option ℕ
unfolding get payload_thread_id
failed_index failed_at event = elim event.type [
  | thread_failed ↦ truthy (payload_thread_id event) >>= λ id. get id failed_at
  | _ ↦ none
]

abbrev pub below : ℕ → Option ℕ → Option ℕ
below index none = none
below index (some next) = if ltb next index then some next else none

-- `previous`
unfoldable pub previous : Dict ℕ → Dict ℕ → ℕ → EventEnvelope → Option ℕ
unfolding failed_index get
previous failed_at indexes index event =
    let cause = truthy event.causation_id >>= λ id. get id indexes in
    below index (or_try (below index (failed_index failed_at event)) cause)

module _ (deterministic : String → Bool) where
  unfoldable pub can_rerun : Option RuntimeEffect → Bool
  unfolding is_primitive_effect effect_type
  can_rerun none = false
  can_rerun (some effect) =
      not (is_primitive_effect effect) && not (deterministic (effect_type effect))

  unfoldable pub withdrawn : Option String → Bool
  unfolding is_withdrawn_error
  withdrawn none = false
  withdrawn (some error) = is_withdrawn_error error

  -- Whether an event is the outcome of an effect that the fork may run again.
  unfoldable pub is_origin : Dict RuntimeEffect → EventEnvelope → Bool
  unfolding get read_string can_rerun withdrawn
  is_origin effects event =
      can_rerun (truthy event.effect_id >>= λ id. get id effects)
      && not (withdrawn (read_string (payload_object event.payload) "error"))

  -- The loop of `failureOrigin`, on fuel. An index out of range is an error that the code throws.
  unfoldable pub origin_from : ℕ → List EventEnvelope → SourceScan → Dict ℕ → ℕ → Option ℕ
  unfolding is_origin previous
  origin_from zero events scan indexes index = some scan.cut
  origin_from (suc fuel) events scan indexes index = elim (get_elem? events index) [
    | none ↦ none
    | some event ↦
        if is_origin scan.effects event
        then some index
        else elim (previous scan.failed_at indexes index event) [
          | none ↦ some scan.cut
          | some next ↦ origin_from fuel events scan indexes next
        ]
  ]

  -- `failureOrigin`: each round goes to a smaller index.
  unfoldable pub failure_origin : List EventEnvelope → SourceScan → Option ℕ
  unfolding origin_from index_by_id
  failure_origin events scan =
      origin_from (suc scan.cut) events scan (index_by_id 0 [] events) scan.cut
