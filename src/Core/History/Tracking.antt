-- ===== src/Core/History/Tracking.antt =====
-- packages/core/src/cursor.ts with store.ts: a cursor that is advanced by each appended batch tracks the log.
use looms.Prelude.{
  ℕ, suc, ◌+◌, String, none, some, false, List, [], ◌∷◌, ◌++◌, ◌≡◌, refl, arith, sym, ap, ◌∙◌,
  length, map, All, eqb, if◌then◌else◌,
}
use looms.Core.Envelope.{EventEnvelope, with_assigned_seq}
use looms.Core.State.{empty_run_state}
use looms.Core.Fold.Protocol.{Decoders, Registry}
use looms.Core.Fold.Step.{fold_run}
use looms.Core.Store.Log.{
  RunLog, AppendOptions, AppendResult, ok, append_log, assign, commit, fenced_tail,
}
use looms.Core.Store.Append.{append_log-ok}
use looms.Core.History.Cursor.{
  RunCursor, empty_cursor, advance, advance_cursor, number_batch, assign_sequences,
}

number_batch-assign :
    (run_id : String) (start : ℕ) (events : List EventEnvelope)
    → All (λ event. event.run_id ≡ run_id) events
    → number_batch events (map (λ event. event.seq) (assign run_id start events))
      ≡ some (assign run_id start events)
unfolding number_batch assign
number_batch-assign run_id start [] h = refl
number_batch-assign run_id start (event ∷ events) (same, h) =
    let rest = number_batch-assign run_id (start + 1) events h in
    simp rest (
      ap (λ id. some (with_assigned_seq event id (start + 1) ∷ assign run_id (start + 1) events))
        same)

length-assign :
    (run_id : String) (start : ℕ) (events : List EventEnvelope)
    → length (map (λ event. event.seq) (assign run_id start events)) ≡ length events
unfolding assign
length-assign run_id start [] = refl
length-assign run_id start (event ∷ events) = ap suc (length-assign run_id (start + 1) events)

if-same {ℓ} : {A : Type ℓ} (m n : ℕ) (x y : A) → m ≡ n → (if eqb m n then x else y) ≡ x
if-same m n x y e = ground arith

module _ (d : Decoders) (registry : Registry) where
  pub advance_cursor-append :
      (cursor : RunCursor) (xs ys : List EventEnvelope)
      → advance_cursor d registry cursor (xs ++ ys)
        ≡ advance_cursor d registry (advance_cursor d registry cursor xs) ys
  unfolding advance_cursor
  advance_cursor-append cursor [] ys = refl
  advance_cursor-append cursor (x ∷ xs) ys =
      advance_cursor-append (advance d registry cursor x) xs ys

  advance_cursor-state :
      (cursor : RunCursor) (events : List EventEnvelope)
      → (advance_cursor d registry cursor events).state ≡ fold_run d registry cursor.state events
  unfolding advance_cursor fold_run
  advance_cursor-state cursor [] = refl
  advance_cursor-state cursor (x ∷ xs) = advance_cursor-state (advance d registry cursor x) xs

  -- When a batch of a run's events is newly appended to its log, numbering the batch by the result and
  -- advancing the cursor of the old log by it gives the cursor of the new log, whose state is the fold
  -- of the new log.
  pub advance_cursor-append_log :
      (size : EventEnvelope → ℕ) (run_id : String) (log : RunLog) (events : List EventEnvelope)
      (options : AppendOptions) (r : AppendResult)
      → All (λ event. event.run_id ≡ run_id) events
      → (append_log size run_id log events options).0 ≡ ok r
      → r.deduplicated ≡ false
      → (batch : List EventEnvelope) × (assign_sequences events r ≡ some batch)
        × (advance_cursor d registry
              (advance_cursor d registry (empty_cursor run_id) log.events)
              batch
            ≡ advance_cursor d registry
                (empty_cursor run_id)
                (append_log size run_id log events options).1.events)
        × ((advance_cursor d registry
              (empty_cursor run_id)
              (append_log size run_id log events options).1.events).state
            ≡ fold_run d registry
                (empty_run_state run_id)
                (append_log size run_id log events options).1.events)
  unfolding assign_sequences commit
  advance_cursor-append_log size run_id log events options r same success fresh =
      let (numbers, tail, free, e) = append_log-ok size run_id log events options r success fresh in
      let start = fenced_tail log.tail options.fence in
      let batch = assign run_id start events in
      (
        batch,
        ap (λ s. if eqb (length events) (length s) then number_batch events s else none) numbers
            ∙ if-same (length events) (length (map (λ event. event.seq) batch))
                (number_batch events (map (λ event. event.seq) batch)) none
                (sym (length-assign run_id start events))
            ∙ number_batch-assign run_id start events same,
        rw e (sym (advance_cursor-append (empty_cursor run_id) log.events batch)),
        advance_cursor-state (empty_cursor run_id)
            (append_log size run_id log events options).1.events,
      )
