-- ===== src/Core/Fork/Ends.antt =====
-- packages/core/src/fork.ts: the tests of `scanSource` for the end of a run and for its failure, and the cut.
use looms.Prelude.{
  ◌⊎◌, ℕ, none, Bool, true, false, ◌≡◌, ◌||◌, or_else, truthy, refl, sym, ap, ◌∙◌, arith,
  Bool-cases, Option-cases, inl, inr,
}
use looms.Prelude.Dict.{get}
use looms.Core.Json.{field_of, as_number, payload_object}
use looms.Core.Envelope.{EventEnvelope, EventType, thread_cancelled}
use looms.Core.Thread.{ThreadStatus, is_terminal_status}
use looms.Core.State.{RunState, RunStatus}
use looms.Core.Fork.Scan.{
  root_terminal, cancellation_start, thread_failed?, run_failed?, root_failed?, root_record,
}
use looms.Core.Fork.Trace.{
  HasFailed, by_run, by_root, is_failed, HasEnded, run_over, root_over, has_stopped, CutsAt,
  resumed, unrecorded, ended,
}

-- The root has failed, as the scan tests it.
abbrev pub failed_end : RunState → Bool
failed_end state = root_failed? (root_record state) || run_failed? state.status

abbrev run_over? : RunStatus → Bool
run_over? status = elim status [ RunStatus.running ↦ false | _ ↦ true ]

run_failed-HasFailed : (status : RunStatus) → run_failed? status ≡ true → status ≡ RunStatus.failed
run_failed-HasFailed RunStatus.failed h = refl
run_failed-HasFailed _ h = ground arith

thread_failed-status :
    (status : ThreadStatus) → thread_failed? status ≡ true → status ≡ ThreadStatus.failed
thread_failed-status ThreadStatus.failed h = refl
thread_failed-status _ h = ground arith

pub thread_failed-is_failed : (status : ThreadStatus) → thread_failed? status ≡ is_failed status
thread_failed-is_failed ThreadStatus.failed = refl
thread_failed-is_failed _ = refl

pub failed_end-HasFailed : (state : RunState) → failed_end state ≡ true → HasFailed state
failed_end-HasFailed state h = elim (Bool-cases (run_failed? state.status)) [
  | inl run ↦ by_run (run_failed-HasFailed state.status run)
  | inr other ↦ elim (Option-cases (truthy state.root_thread_id)) [
    | inl rootless ↦ absurd (ground arith)
    | inr (id, named) ↦ elim (Option-cases (get id state.threads)) [
      | inl missing ↦ absurd (ground arith)
      | inr (root, at) ↦ by_root id root named at (thread_failed-status root.status (ground arith))
    ]
  ]
]

pub HasFailed-failed_end : (state : RunState) → HasFailed state → failed_end state ≡ true
HasFailed-failed_end state (by_run run) =
    let failed : run_failed? state.status ≡ true = ap run_failed? run in ground arith
HasFailed-failed_end state (by_root id root named at status) =
    let failed : thread_failed? root.status ≡ true = ap thread_failed? status in ground arith

running-status :
    (status : RunStatus) → (status ≡ RunStatus.running) ⊎ ¬ (status ≡ RunStatus.running)
running-status RunStatus.running = inl refl
running-status _ = inr (λ e. absurd (ground arith))

is_terminal_status-has_stopped :
    (status : ThreadStatus) → is_terminal_status status ≡ has_stopped status
is_terminal_status-has_stopped ThreadStatus.running = refl
is_terminal_status-has_stopped _ = refl

run_ends : (status : RunStatus) → ¬ (status ≡ RunStatus.running) → run_over? status ≡ true
run_ends RunStatus.running h = absurd (h refl)
run_ends _ h = refl

pub root_terminal-HasEnded : (state : RunState) → root_terminal state ≡ true → HasEnded state
unfolding root_terminal
root_terminal-HasEnded state h = elim (running-status state.status) [
  | inr over ↦ run_over over
  | inl running ↦
      let goes_on = ap run_over? running in
      elim (Option-cases (truthy state.root_thread_id)) [
        | inl rootless ↦ absurd (ground arith)
        | inr (id, named) ↦ elim (Option-cases (get id state.threads)) [
          | inl missing ↦ absurd (ground arith)
          | inr (root, at) ↦
              let same = is_terminal_status-has_stopped root.status in
              root_over id root named at (ground arith)
        ]
      ]
]

pub HasEnded-root_terminal : (state : RunState) → HasEnded state → root_terminal state ≡ true
unfolding root_terminal
HasEnded-root_terminal state (run_over over) = let ends = run_ends state.status over in ground arith
HasEnded-root_terminal state (root_over id root named at over) =
    let same = is_terminal_status-has_stopped root.status in ground arith

unfoldable is_cancelled : EventType → Bool
is_cancelled thread_cancelled = true
is_cancelled _ = false

pub cut-CutsAt :
    (event : EventEnvelope) (index : ℕ)
    → CutsAt event index (or_else (cancellation_start event) index)
unfolding cancellation_start is_cancelled
cut-CutsAt event index =
    let start = as_number (field_of "resumeSeq" (payload_object event.payload)) in
    let by_type : (type : EventType)
        → event.type ≡ type
        → CutsAt event index (or_else (elim type [ thread_cancelled ↦ start | _ ↦ none ]) index) =
      λ type.
        elim type
          as (λ t.
            event.type ≡ t
            → CutsAt event index (or_else (elim t [ thread_cancelled ↦ start | _ ↦ none ]) index)) [
              | thread_cancelled ↦ λ e. elim (Option-cases start) [
                | inl absent ↦ rw absent (unrecorded e absent)
                | inr (n, recorded) ↦ rw recorded (resumed n e recorded)
              ]
              | _ ↦
                  λ e. ended (λ c. let clash = ap is_cancelled (sym e ∙ c) in absurd (ground arith))
            ] in
    by_type event.type refl
