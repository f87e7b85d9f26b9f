-- ===== src/Runtime/Synthesis/Threads.antt =====
-- packages/runtime/src/wake-engine.ts: what the events that a wake adds do to one live thread.
use looms.Prelude.{
  ℕ, String, some, false, ◌≡◌, ◌==◌, refl, ap, sym, ◌∙◌, subst, Bool-cases, inl, inr, eq_of_==,
}
use looms.Prelude.Dict.{get}
use looms.Core.Envelope.{create_event}
use looms.Core.Thread.{is_terminal_status}
use looms.Core.State.{RunState, ThreadRecord}
use looms.Core.Fold.Protocol.{Decoders, Registry}
use looms.Core.Fold.Consistent.{IsKeyed-fold_event}
use looms.Core.Fold.Keyed.{IsKeyed}
use looms.Core.Fold.Step.{fold_event, record_event}
use looms.Core.Fold.Terminal.{record_event-threads}
use looms.Runtime.Cascade.{cancellation_of}
use looms.Runtime.Synthesis.{failure_of}
use looms.Runtime.Synthesis.Folded.{Cancels, Anything, IsIdle}
use looms.Runtime.Synthesis.Events.{
  cancelled_thread, cancellation, failure, cancellation-Ends, failure-Ends, Ends-get_other,
  Ends-IsIdle, Ends-live, Ends-over, record_event-IsIdle,
}

module _ (d : Decoders) (registry : Registry) (k : String) (t : ThreadRecord)
    (live : is_terminal_status t.status ≡ false) (named : (k == "") ≡ false) where
  -- The thread has the record that it had.
  abbrev pub Kept : RunState → Type 0
  Kept s = IsKeyed s × (get k s.threads ≡ some t)

  -- The thread is cancelled, and has neither waits nor outstanding effects.
  abbrev pub Closed : RunState → Type 0
  Closed s = IsKeyed s × (get k s.threads ≡ some (cancelled_thread t)) × IsIdle k s

  module _ (new_id : String) (clock : ℕ) (run_id id : String) (s : RunState) where
    pub failure-Kept :
        (r : ThreadRecord)
        → (id == k) ≡ false
        → Kept s
        → Kept (fold_event d registry s (failure new_id clock run_id id r))
    unfolding create_event failure_of
    failure-Kept r other (keyed, found) =
        let event = failure new_id clock run_id id r in
        (
          IsKeyed-fold_event d registry s event refl keyed,
          Ends-get_other Anything (record_event s event) id (fold_event d registry s event) k other
                (failure-Ends d registry s keyed new_id clock run_id id r)
              ∙ ap (get k) (record_event-threads s event)
              ∙ found,
        )

    pub cancellation-Kept :
        (id == k) ≡ false
        → Kept s
        → Kept (fold_event d registry s (cancellation new_id clock run_id id))
    unfolding create_event cancellation_of
    cancellation-Kept other (keyed, found) =
        let event = cancellation new_id clock run_id id in
        (
          IsKeyed-fold_event d registry s event refl keyed,
          Ends-get_other (Cancels (some "cancelled")) (record_event s event) id
                (fold_event d registry s event) k other
                (cancellation-Ends d registry s keyed new_id clock run_id id)
              ∙ ap (get k) (record_event-threads s event)
              ∙ found,
        )

    pub cancellation-closes :
        id ≡ k → Kept s → Closed (fold_event d registry s (cancellation new_id clock run_id id))
    unfolding create_event cancellation_of
    cancellation-closes own (keyed, found) =
        let event = cancellation new_id clock run_id id in
        let there : get id (record_event s event).threads ≡ some t =
          ap (get id) (record_event-threads s event) ∙ ap (λ x. get x s.threads) own ∙ found in
        let (written, idle) =
          Ends-live (record_event s event) id (fold_event d registry s event) t
            (cancellation-Ends d registry s keyed new_id clock run_id id) there live
            (subst (λ x. (x == "") ≡ false) (sym own) named) in
        (
          IsKeyed-fold_event d registry s event refl keyed,
          ap (λ x. get x (fold_event d registry s event).threads) (sym own) ∙ written,
          subst (λ x. IsIdle x (fold_event d registry s event)) own idle,
        )

    pub cancellation-Closed :
        Closed s → Closed (fold_event d registry s (cancellation new_id clock run_id id))
    unfolding create_event cancellation_of
    cancellation-Closed (keyed, found, idle) =
        let event = cancellation new_id clock run_id id in
        let next = fold_event d registry s event in
        let ends = cancellation-Ends d registry s keyed new_id clock run_id id in
        let there : get k (record_event s event).threads ≡ some (cancelled_thread t) =
          ap (get k) (record_event-threads s event) ∙ found in
        let kept : get k next.threads ≡ some (cancelled_thread t) = elim (Bool-cases (id == k)) [
          | inl same ↦
              let own = eq_of_== id k same in
              let unchanged =
                Ends-over (record_event s event) id next (cancelled_thread t) ends
                  (ap (λ x. get x (record_event s event).threads) own ∙ there) refl in
              ap (λ s'. get k s'.threads) unchanged ∙ there
          | inr other ↦
              Ends-get_other (Cancels (some "cancelled")) (record_event s event) id next k other
                ends
              ∙ there
        ] in
        (
          IsKeyed-fold_event d registry s event refl keyed,
          kept,
          Ends-IsIdle (Cancels (some "cancelled")) (record_event s event) id next k ends
              (record_event-IsIdle s event k refl refl idle),
        )
