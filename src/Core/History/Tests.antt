-- ===== src/Core/History/Tests.antt =====
-- Reading the history of a small run, and the theorems there.
use looms.Prelude.{ℕ, String, Option, none, some, true, false, List, [], ◌∷◌, ◌≡◌, refl, arith}
use looms.Prelude.Dict.{get, put}
use looms.Core.Json.{Json, null, str}
use looms.Core.Envelope.{
  EventEnvelope, EventType, system, signal_received, snapshot_taken, retry_scheduled,
  effect_heartbeat,
}
use looms.Core.State.{RunState, empty_run_state}
use looms.Core.Fold.Protocol.{Decoders, Registry}
use looms.Core.Fold.Step.{fold_run}
use looms.Core.Store.Log.{AppendOptions, ok, empty_log, append_log, append_new, over_limit, assign}
use looms.Core.Store.Ordered.{Rising}
use looms.Core.History.Cursor.{is_snapshot}
use looms.Core.History.Snapshots.{
  SnapshotTaken, last_snapshot, should_take_snapshot, fold_from_snapshots,
}
use looms.Core.History.Attempts.{last_retries, keep_current, drop_superseded_attempts}
use looms.Core.History.Resume.{leading, fold_from_snapshots-fold_run}
use looms.Core.History.Superseded.{current_attempts, drop_superseded_attempts_lem}

abbrev no_decoders : Decoders
no_decoders = record {
  wait_condition = λ v. none;
  attributes = λ v. none;
  launch_source = λ v. none;
  trace = λ v. none;
}

abbrev no_modules : Registry
no_modules kind = none

abbrev event_at : ℕ → EventType → EventEnvelope
event_at seq type = record {
  id = "e";
  run_id = "r";
  seq = seq;
  ts = 0;
  type = type;
  payload = str "fx";
  thread_id = none;
  parent_thread_id = none;
  causation_id = none;
  correlation_id = none;
  effect_id = none;
  origin = system;
  ephemeral = false;
  idempotency_key = none;
}

abbrev history : List EventEnvelope
history = event_at 1 signal_received ∷ event_at 2 snapshot_taken ∷ event_at 3 signal_received ∷ []

-- Another signal is due a snapshot at a distance of one, not of two.
due : (should_take_snapshot history 1 ≡ true) × (should_take_snapshot history 2 ≡ false)
unfolding should_take_snapshot is_snapshot
due = (refl, refl)

history-Rising : Rising 1 3 history
history-Rising = omega arith

-- A snapshot of the first event, whose payload is read as its state.
abbrev taken : SnapshotTaken
taken = record { seq = 1; state = some null }

abbrev read_taken : Json → Option SnapshotTaken
read_taken payload = some taken

abbrev first_state : RunState
first_state = fold_run no_decoders no_modules (empty_run_state "r") (leading 1 history)

abbrev read_state : Json → Option RunState
read_state state = some first_state

last_of_history : last_snapshot history ≡ some (event_at 2 snapshot_taken)
unfolding is_snapshot
last_of_history = refl

fold_from_snapshots-fold_run_example :
    fold_from_snapshots no_decoders no_modules read_taken read_state history none
    ≡ some (fold_run no_decoders no_modules (empty_run_state "r") history)
fold_from_snapshots-fold_run_example =
    fold_from_snapshots-fold_run no_decoders no_modules read_taken read_state 1 3 history none
      (event_at 2 snapshot_taken) taken null history-Rising last_of_history refl refl refl

-- A heartbeat before a retry of its effect, the retry, and a heartbeat after it.
abbrev beat : ℕ → EventEnvelope
beat seq = record (event_at seq effect_heartbeat) { ephemeral = true; effect_id = some "fx" }

abbrev retries : List EventEnvelope
retries = beat 1 ∷ event_at 2 retry_scheduled ∷ beat 3 ∷ []

abbrev retried_fx : Json → Option String
retried_fx payload = some "fx"

first_dropped :
    drop_superseded_attempts retried_fx retries ≡ event_at 2 retry_scheduled ∷ beat 3 ∷ []
unfolding drop_superseded_attempts last_retries keep_current get put
first_dropped = refl

drop_superseded_attempts_lem_example :
    drop_superseded_attempts retried_fx retries ≡ current_attempts retried_fx retries
drop_superseded_attempts_lem_example = drop_superseded_attempts_lem retried_fx retries

abbrev ten : EventEnvelope → ℕ
ten event = 10

abbrev plain : AppendOptions
plain = record { expected_tail = none; idempotency = none; fence = none; fencing_token = none }

appended :
    (append_log ten "r" empty_log history plain).0
    ≡ ok (record { sequences = 1 ∷ 2 ∷ 3 ∷ []; tail = 3; deduplicated = false })
unfolding append_log append_new over_limit assign
appended = refl
