-- ===== src/Core/History/Snapshots.antt =====
-- packages/core/src/snapshots.ts: when a snapshot is due, and folding from the last one. The schema
-- decoders of a snapshot's payload and of its state are arguments; none is the error that they throw.
use looms.Prelude.{
  ℕ, String, Option, none, some, Bool, true, false, List, [], ◌∷◌, if◌then◌else◌, ◌&&◌, not, leb,
  ltb, length, filter, or_else, or_try, ◌>>=◌,
}
use looms.Core.Json.{Json}
use looms.Core.Envelope.{EventEnvelope}
use looms.Core.State.{RunState, empty_run_state}
use looms.Core.Fold.Protocol.{Decoders, Registry}
use looms.Core.Fold.Step.{fold_run}
use looms.Core.History.Cursor.{is_snapshot}

-- `xs.findLast(p)`
abbrev pub find_last {ℓ} : {A : Type ℓ} → (A → Bool) → List A → Option A
find_last p [] = none
find_last p (x ∷ xs) = or_try (find_last p xs) (if p x then some x else none)

abbrev pub last_snapshot : List EventEnvelope → Option EventEnvelope
last_snapshot = find_last (λ event. is_snapshot event.type)

abbrev pub folded : List EventEnvelope → List EventEnvelope
folded = filter (λ event. not event.ephemeral && not (is_snapshot event.type))

abbrev pub since_last : Option EventEnvelope → List EventEnvelope → ℕ
since_last none durable = length durable
since_last (some snap) durable = length (filter (λ event. ltb snap.seq event.seq) durable)

abbrev pub has_events : List EventEnvelope → Bool
has_events [] = false
has_events (_ ∷ _) = true

-- `shouldTakeSnapshot`
unfoldable pub should_take_snapshot : List EventEnvelope → ℕ → Bool
should_take_snapshot events every =
    has_events (folded events) && leb every (since_last (last_snapshot events) (folded events))

-- The decoded payload of `runtime.snapshot.taken`
pub record SnapshotTaken : Type 0 where
  pub seq : ℕ
  pub state : Option Json

abbrev pub first_run_id : List EventEnvelope → Option String
first_run_id [] = none
first_run_id (event ∷ events) = some event.run_id

-- `options?.runId ?? events[0]?.runId ?? 'unknown'`
abbrev pub run_id_of : Option String → List EventEnvelope → String
run_id_of run_id events = or_else (or_try run_id (first_run_id events)) "unknown"

abbrev pub trailing : ℕ → List EventEnvelope → List EventEnvelope
trailing seq = filter (λ event. ltb seq event.seq)

module _ (d : Decoders) (registry : Registry) (decode : Json → Option SnapshotTaken)
    (decode_state : Json → Option RunState) where
  -- Folding on from the state in a snapshot, if it holds one.
  abbrev pub fold_from : String → List EventEnvelope → SnapshotTaken → Option Json → Option RunState
  fold_from run_id events taken none = some (fold_run d registry (empty_run_state run_id) events)
  fold_from run_id events taken (some state) = do
    initial ← decode_state state
    some (fold_run d registry initial (trailing taken.seq events))

  abbrev pub fold_from_last : String → List EventEnvelope → Option EventEnvelope → Option RunState
  fold_from_last run_id events none = some (fold_run d registry (empty_run_state run_id) events)
  fold_from_last run_id events (some snap) = do
    taken ← decode snap.payload
    fold_from run_id events taken taken.state

  -- `foldFromSnapshots`. Where nothing trails the snapshot, the decoded state is the fold of no events.
  unfoldable pub fold_from_snapshots : List EventEnvelope → Option String → Option RunState
  fold_from_snapshots events run_id =
      fold_from_last (run_id_of run_id events) events (last_snapshot events)
