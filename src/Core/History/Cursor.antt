-- ===== src/Core/History/Cursor.antt =====
-- packages/core/src/cursor.ts: a state that is kept up to date as events arrive, and the numbering
-- of a batch by the result of its append.
use looms.Prelude.{
  ℕ, ◌+◌, String, Option, none, some, Bool, true, false, List, [], ◌∷◌, if◌then◌else◌, eqb, ltb,
  length, ◌>>=◌,
}
use looms.Core.Envelope.{EventEnvelope, EventType, snapshot_taken, with_assigned_seq}
use looms.Core.State.{RunState, empty_run_state}
use looms.Core.Store.Log.{AppendResult}
use looms.Core.Fold.Protocol.{Decoders, Registry}
use looms.Core.Fold.Step.{fold_event}

pub record RunCursor : Type 0 where
  pub state : RunState
  pub seq : ℕ
  pub durable_since_snapshot : ℕ

-- `emptyCursor`
abbrev pub empty_cursor : String → RunCursor
empty_cursor run_id = record { state = empty_run_state run_id; seq = 0; durable_since_snapshot = 0 }

-- `event.type === 'runtime.snapshot.taken'`
unfoldable pub is_snapshot : EventType → Bool
is_snapshot snapshot_taken = true
is_snapshot _ = false

-- The count after one event.
abbrev pub count_durable : ℕ → EventEnvelope → ℕ
count_durable count event =
    if event.ephemeral then count else if is_snapshot event.type then 0 else count + 1

module _ (d : Decoders) (registry : Registry) where
  -- One round of the loop of `advanceCursor`
  abbrev pub advance : RunCursor → EventEnvelope → RunCursor
  advance cursor event = record {
    state = fold_event d registry cursor.state event;
    seq = if ltb cursor.seq event.seq then event.seq else cursor.seq;
    durable_since_snapshot = count_durable cursor.durable_since_snapshot event;
  }

  unfoldable pub advance_cursor : RunCursor → List EventEnvelope → RunCursor
  advance_cursor cursor [] = cursor
  advance_cursor cursor (event ∷ events) = advance_cursor (advance cursor event) events

-- The loop of `assignSequences`, for as many numbers as there are events.
unfoldable pub number_batch : List EventEnvelope → List ℕ → Option (List EventEnvelope)
number_batch [] sequences = some []
number_batch (event ∷ batch) [] = none
number_batch (event ∷ batch) (seq ∷ sequences) = do
  rest ← number_batch batch sequences
  some (with_assigned_seq event event.run_id seq ∷ rest)

-- `assignSequences`; none is the error that it throws.
unfoldable pub assign_sequences : List EventEnvelope → AppendResult → Option (List EventEnvelope)
unfolding number_batch
assign_sequences batch result =
    if eqb (length batch) (length result.sequences)
    then number_batch batch result.sequences
    else none
