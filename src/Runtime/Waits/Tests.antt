-- ===== src/Runtime/Waits/Tests.antt =====
-- Waits of a small run, and the theorems there.
use looms.Prelude.{
  ◌&&◌, if◌then◌else◌, String, none, some, List, [], ◌∷◌, ◌≡◌, refl, map, any, Distinct,
}
use looms.Prelude.Dict.{get, keys, values}
use looms.Core.Json.{str, num, obj, field, end}
use looms.Core.Envelope.{EventEnvelope, signal_received, timer_fired}
use looms.Core.Effects.{on_type, on_timer}
use looms.Core.State.{RunState, WaitRecord}
use looms.Core.Fold.Keyed.{IsKeyed, ThreadsKeyed, WaitsKeyed, ExecutionsKeyed}
use looms.Core.Fold.Tests.Data.{event_of, base, timers, fetchers}
use looms.Runtime.Waits.{satisfied_payload, wait_satisfied_events}
use looms.Runtime.Waits.Exactly.{satisfied_id, satisfies}
use looms.Runtime.Synthesis.{create_events}
use looms.Core.Fold.Step.{fold_run, fold_event, record_event}
use looms.Core.Fold.Deliver.{fail_unhandled_effect, deliver, receiver}
use looms.Core.Fold.Protocol.{
  apply_protocol, wait_satisfied_step, wake, drop_losers, race_id, drop_race,
}
use looms.Runtime.Waits.Remaining.{goes_with, wait_satisfied_events-fold_run}
use looms.Runtime.Waits.Once.{wait_satisfied_events-Distinct}

abbrev order_wait : WaitRecord
order_wait = record {
  wait_id = "w1";
  thread_id = "t";
  on = on_type "runtime.signal.received" (some (obj (field "order" (num 7) end)));
  tag = none;
}

abbrev timer_wait : WaitRecord
timer_wait = record { wait_id = "w2"; thread_id = "t"; on = on_timer 9; tag = none }

abbrev two_waits : RunState
two_waits = record base { waits = ("w1", order_wait) ∷ ("w2", timer_wait) ∷ [] }

-- Two signals for the order, and the other timer.
abbrev signals : List EventEnvelope
signals =
    event_of 1 signal_received (field "from" (str "a") (field "order" (num 7) end))
    ∷ event_of 2 signal_received (field "order" (num 7) end)
    ∷ event_of 3 timer_fired (field "waitId" (str "w3") end)
    ∷ []

only_first : map satisfied_id (wait_satisfied_events two_waits signals) ≡ "w1" ∷ []
unfolding wait_satisfied_events satisfied_id satisfied_payload
only_first = refl

two_waits-WaitsKeyed : WaitsKeyed two_waits.waits
unfolding WaitsKeyed
two_waits-WaitsKeyed = ((refl, (refl, tt)), (refl, (refl, tt)))

-- A signal for the order ends the race of the timer, and leaves the wait outside of it.
abbrev in_race : WaitRecord → String → WaitRecord
in_race w race = record w { tag = some (obj (field "raceId" (str race) end)) }

abbrev late_wait : WaitRecord
late_wait = record order_wait {
  wait_id = "w4";
  on = on_type "runtime.signal.received" (some (obj (field "order" (num 8) end)));
}

abbrev racing : RunState
racing = record base {
  waits =
      ("w1", in_race order_wait "r1")
      ∷ ("w2", in_race timer_wait "r1")
      ∷ ("w4", in_race late_wait "r2")
      ∷ [];
}

racing-IsKeyed : IsKeyed racing
unfolding ThreadsKeyed WaitsKeyed ExecutionsKeyed
racing-IsKeyed = record {
  threads = tt;
  distinct = tt;
  waits = ((refl, (refl, (refl, tt))), (refl, (refl, (refl, tt))));
  executions = tt;
}

abbrev settled : RunState
settled =
    fold_run timers fetchers racing
      (create_events (λ n. "evt") (λ n. n) "r" 0 (wait_satisfied_events racing signals))

last_left : keys settled.waits ≡ "w4" ∷ []
unfolding fold_run create_events wait_satisfied_events satisfied_payload fold_event
    fail_unhandled_effect deliver receiver apply_protocol wait_satisfied_step wake record_event
    drop_losers race_id drop_race
last_left = refl

wait_satisfied_events-fold_run_example : get "w2" settled.waits ≡ (
    if any
      (λ v. any (satisfies v) signals && goes_with v (in_race timer_wait "r1"))
      (values racing.waits)
    then none
    else some (in_race timer_wait "r1"))
unfolding get
wait_satisfied_events-fold_run_example =
    wait_satisfied_events-fold_run timers fetchers (λ n. "evt") (λ n. n) "r" racing signals
      (in_race timer_wait "r1") racing-IsKeyed (refl, (refl, (refl, tt))) refl

wait_satisfied_events-Distinct_example :
    Distinct (map satisfied_id (wait_satisfied_events two_waits signals))
wait_satisfied_events-Distinct_example =
    wait_satisfied_events-Distinct two_waits signals two_waits-WaitsKeyed
