-- ===== src/Core/Fold/Consistent.antt =====
-- The invariant of a run's state, which every fold step keeps.
use looms.Prelude.{String, ◌≡◌, List, false, Distinct}
use looms.Core.Envelope.{EventEnvelope}
use looms.Core.State.{RunState, empty_run_state}
use looms.Core.Fold.Protocol.{Decoders, Registry}
use looms.Core.Fold.Step.{
  fold_event, fold_run, fold_run_induction, fold_event_durable, delivered_state, protocol_state,
}
use looms.Core.Fold.Keyed.{
  IsKeyed, ThreadsKeyed, WaitsKeyed, ExecutionsKeyed, IsKeyed-record_event, IsKeyed-apply_protocol,
  IsKeyed-deliver, IsKeyed-fail_unhandled_effect,
}
use looms.Core.Fold.Settled.{
  IsSettled, Unsettled, IsSettled-record_event, IsSettled-apply_protocol, IsSettled-deliver,
  IsSettled-fail_unhandled_effect,
}
use looms.Core.Fold.Launched.{
  LaunchedOnce, LaunchedOnce-apply_protocol, record_event-launched, deliver-launched,
  fail_unhandled_effect-launched,
}
use looms.Core.Fold.Keys.{fold_event-record, record_event-Distinct}

-- Every table is keyed by its records' ids; no outstanding effect has completed; completed effects,
-- processed keys and launched runs are listed once.
pub record IsConsistent (s : RunState) : Type 0 where
  pub keyed : IsKeyed s
  pub settled : IsSettled s
  pub keys : Distinct s.processed_idempotency_keys
  pub launched : LaunchedOnce s.launched_runs

pub IsConsistent-empty : (run_id : String) → IsConsistent (empty_run_state run_id)
unfolding ThreadsKeyed WaitsKeyed ExecutionsKeyed Unsettled LaunchedOnce
IsConsistent-empty run_id = record {
  keyed = record { threads = tt; distinct = tt; waits = (tt, tt); executions = tt };
  settled = record { unsettled = tt; distinct = tt };
  keys = tt;
  launched = tt;
}

module _ (d : Decoders) (registry : Registry) where
  module _ (s : RunState) (event : EventEnvelope) (step : event.ephemeral ≡ false) where
    pub IsKeyed-fold_event : IsKeyed s → IsKeyed (fold_event d registry s event)
    IsKeyed-fold_event h = rw (fold_event_durable d registry s event step) (
        IsKeyed-fail_unhandled_effect _ event _ (
          IsKeyed-deliver registry _ event _
            (IsKeyed-apply_protocol d registry _ event (IsKeyed-record_event s event h))))

    IsSettled-fold_event : IsSettled s → IsSettled (fold_event d registry s event)
    IsSettled-fold_event h = rw (fold_event_durable d registry s event step) (
        IsSettled-fail_unhandled_effect _ event _ (
          IsSettled-deliver registry _ event _
            (IsSettled-apply_protocol d registry _ event (IsSettled-record_event s event h))))

    LaunchedOnce-fold_event :
        LaunchedOnce s.launched_runs → LaunchedOnce (fold_event d registry s event).launched_runs
    LaunchedOnce-fold_event h =
        rw
          (
            fold_event_durable d registry s event step,
            fail_unhandled_effect-launched (delivered_state d registry s event) event _,
            deliver-launched (protocol_state d registry s event) event registry _,
          )
          (LaunchedOnce-apply_protocol d registry _ event (rw (record_event-launched s event) h))

    pub IsConsistent-fold_event : IsConsistent s → IsConsistent (fold_event d registry s event)
    IsConsistent-fold_event h = record {
      keyed = IsKeyed-fold_event h.keyed;
      settled = IsSettled-fold_event h.settled;
      keys = rw (fold_event-record d registry s event step) (record_event-Distinct s event h.keys);
      launched = LaunchedOnce-fold_event h.launched;
    }

  -- From a consistent base, every run folds to a consistent state, whatever its events are and
  -- whatever the modules' own code does.
  pub fold_run-IsConsistent :
      (base : RunState) (events : List EventEnvelope)
      → IsConsistent base
      → IsConsistent (fold_run d registry base events)
  fold_run-IsConsistent = fold_run_induction d registry IsConsistent IsConsistent-fold_event
