-- ===== src/Core/Fork/Tests.antt =====
-- A fork of a run whose root failed, and the theorems there.
use looms.Prelude.{
  map, ◌++◌, suc, String, some, Bool, true, false, List, [], ◌∷◌, ◌≡◌, ◌⊎◌, refl, arith, All,
  length, take,
}
use looms.Prelude.Dict.{get, put, values}
use looms.Core.Json.{str, end, field}
use looms.Core.Envelope.{
  create_event, thread_failed, EventEnvelope, thread_started, effect_failed, thread_failed,
}
use looms.Core.State.{empty_run_state}
use looms.Core.Fold.Step.{fold_run}
use looms.Core.Fold.Tests.Data.{timers, fetchers, event_of}
use looms.Core.Fold.Deliver.{fail_unhandled_effect, deliver, receiver}
use looms.Core.Fold.Protocol.{apply_protocol, thread_started_step, thread_failed_step}
use looms.Core.Fold.Changes.{target_thread, complete_effect}
use looms.Core.Fold.Step.{record_event}
use looms.Core.Fold.Reconcile.{reconcile_effects, stable_effect_id, settled_without_outcome}
use looms.Core.Ids.{create_effect_id, create_effect_id_at}
use looms.Core.Fork.Scan.{
  failure_origin, can_rerun, withdrawn, previous, failed_index, payload_thread_id, scan_from,
  note_effects, note_failed, is_primitive_effect, failure_origin, scan_source, scan_start,
  root_terminal, is_origin, cancellation_start, origin_from, index_by_id,
}
use looms.Core.Fork.Trace.{ForkedAt}
use looms.Core.Fork.Within.{CancelsAfter}
use looms.Core.Fork.Forked.{plan_fork-is_numbered, plan_fork-root_terminal, plan_fork-source_seq}
use looms.Core.Fork.Refused.{NoRoot, plan_fork-refused}
use looms.Core.Fork.Plan.{
  effect_ids, plan_cut, plan_at, fork_cut, copy_event, copied, fork_cut, plan_at, plan_cut,
  ForkPlan, ok, err, partial_history, is_numbered, fork_marker, plan_fork,
}

abbrev started : EventEnvelope
started =
    event_of 1 thread_started (field "kind" (str "fetch") (field "definitionName" (str "page") end))

-- An effect of the root fails, and the module fails the root for it.
abbrev failed : EventEnvelope
failed = record (event_of 2 effect_failed (field "error" (str "down") end)) {
  id = "e2";
  effect_id = some "t:1:1";
}

abbrev ended : EventEnvelope
ended = record (event_of 3 thread_failed (field "error" (str "down") end)) {
  id = "e3";
  causation_id = some "e2";
}

abbrev failed_run : List EventEnvelope
failed_run = started ∷ failed ∷ ended ∷ []

abbrev never : String → Bool
never type = false

abbrev plan : ForkPlan
plan = record {
  events = record started { run_id = "f" } ∷ fork_marker "m" 9 "r" "f" 1 ∷ [];
  source_seq = 1;
  root_thread_id = "t";
}

planned : plan_fork timers fetchers never "m" 9 "r" "f" failed_run ≡ ok plan
unfolding plan_fork plan_cut plan_at is_numbered fork_cut failure_origin origin_from index_by_id
    is_origin can_rerun withdrawn previous failed_index payload_thread_id scan_source scan_from
    root_terminal cancellation_start note_effects note_failed is_primitive_effect copy_event copied
    fork_marker create_event get put values fail_unhandled_effect deliver receiver apply_protocol
    thread_started_step target_thread record_event reconcile_effects complete_effect
    stable_effect_id create_effect_id settled_without_outcome create_effect_id_at thread_failed_step
planned = refl

failed_run-CancelsAfter : All CancelsAfter failed_run
unfolding cancellation_start
failed_run-CancelsAfter = (omega arith, (omega arith, (omega arith, tt)))

plan_fork-is_numbered_example :
    (is_numbered 1 plan.events ≡ true)
    × (length plan.events ≡ suc plan.source_seq)
    × All (λ e. e.run_id ≡ "f") plan.events
plan_fork-is_numbered_example =
    plan_fork-is_numbered timers fetchers never "m" 9 "r" "f" failed_run plan
      failed_run-CancelsAfter planned

plan_fork-root_terminal_example :
    root_terminal
      (fold_run timers fetchers (scan_start timers fetchers failed_run) (take 1 failed_run))
    ≡ false
plan_fork-root_terminal_example =
    plan_fork-root_terminal timers fetchers never "m" 9 "r" "f" failed_run plan 1
      failed_run-CancelsAfter planned (omega arith)

plan_fork-source_seq_example :
    (plan.events
      ≡ map
          (copy_event "f" (
            effect_ids
              (fold_run timers fetchers
                (empty_run_state "f")
                (take 1 failed_run)).outstanding_effects))
          (take 1 failed_run)
        ++ fork_marker "m" 9 "r" "f" 1 ∷ [])
    × ForkedAt timers fetchers never (scan_start timers fetchers failed_run) failed_run 1
plan_fork-source_seq_example =
    plan_fork-source_seq timers fetchers never "m" 9 "r" "f" failed_run plan planned

-- A source that begins in the middle.
abbrev late_part : List EventEnvelope
late_part = failed ∷ ended ∷ []

late_part-CancelsAfter : All CancelsAfter late_part
unfolding cancellation_start
late_part-CancelsAfter = (omega arith, (omega arith, tt))

refused : plan_fork timers fetchers never "m" 9 "r" "f" late_part ≡ err partial_history
unfolding plan_fork
refused = refl

plan_fork-refused_example :
    (late_part ≡ [])
    ⊎ ((is_numbered 1 late_part ≡ false) ⊎ NoRoot timers fetchers never "m" 9 "f" late_part)
plan_fork-refused_example =
    plan_fork-refused timers fetchers never "m" 9 "r" "f" late_part partial_history
      late_part-CancelsAfter refused
