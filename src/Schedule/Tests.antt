-- ===== src/Schedule/Tests.antt =====
-- packages/schedule/src: a schedule that fires every minute, three times at most.
use looms.Prelude.{
  ℕ, ◌+◌, ◌*◌, ◌<◌, ◌≤◌, String, Option, none, some, false, [], ◌∷◌, ◌≡◌, ◌↔◌, refl, arith, All,
  show,
}
use looms.Core.Json.{Json, null}
use looms.Core.State.{RunStatus}
use looms.Schedule.Specs.{every, CronLibrary, next_fire_at, next_every_at}
use looms.Schedule.Gaps.{spec_rejection}
use looms.Schedule.Data.{
  Misfire, Overlap, ScheduleDefinition, ScheduleStart, ScheduleState, FiredPayload, SkippedPayload,
  fired,
}
use looms.Schedule.Next.{spent, floor_of}
use looms.Schedule.Fire.{LaunchRequest, launches, fire_effect}
use looms.Schedule.Update.{initial_state, apply_update}
use looms.Schedule.Step.{step, effects, complete, fire_input_of}
use looms.Schedule.Earliest.{IsStrict, is_past, next_every_at-least}
use looms.Schedule.Updated.{IsUpdated, apply_update-IsUpdated}
use looms.Schedule.Armed.{IsTimely, effects-IsTimely}
use looms.Schedule.Fired.{step-fired_later, step-fired_last}

-- Every expression means each full minute after the time that is asked about.
abbrev minutes : CronLibrary
minutes = record {
  Cron = Unit;
  parse = λ expr tz. some tt;
  next = λ parsed after. some (after + 60000);
  seconds = λ parsed. 0 ∷ [];
}

minutes-IsStrict : IsStrict minutes
minutes-IsStrict parsed after next e = ground arith

abbrev report : ScheduleDefinition
report = record {
  name = "report";
  version = "v1";
  target = record { kind = "agent"; name = "reporter"; version = none };
  spec = every 60000 none;
  misfire = Misfire.fire_once;
  overlap = Overlap.allow;
  fire_input = none;
  before_fire = none;
}

abbrev definitions : String → String → Option ScheduleDefinition
definitions name version = some report

abbrev text : Json → String
text v = ""

abbrev start : ScheduleStart
start = record { spec = none; input = none; start_at = none; end_at = none; max_fires = some 3 }

abbrev fresh : ScheduleState
unfolding initial_state
fresh = initial_state minutes 60000 "report" "v1" (some report) start

abbrev armed : ScheduleState
armed = record fresh { next_at = some 120000 }

abbrev no_status : String → Option RunStatus
no_status id = none

abbrev request : LaunchRequest
request = record {
  run_id = "run_1:fire:120000";
  kind = "agent";
  definition_name = "reporter";
  definition_version = "v1";
  input = null;
  idempotency_key = "run_1:fire:120000";
}

abbrev payload : Option ℕ → FiredPayload
payload next_at = record {
  at = 120000;
  run_id = "run_1:fire:120000";
  next_at = next_at;
  generation = 0;
  manual = false;
  trigger_id = none;
}

next_of_minutes : next_fire_at minutes (every 60000 (some 5000)) 65000 ≡ some 125000
unfolding next_fire_at
next_of_minutes = refl

too_often :
    spec_rejection minutes (every 1000 none) 60000
    ≡ some "schedule \"every 1s\" repeats every 1000ms, below the minimum 60000ms"
unfolding spec_rejection
too_often = refl

fresh_spec : fresh.spec ≡ some (every 60000 none)
unfolding initial_state
fresh_spec = refl

next_every_at-least_example :
    (65000 < 125000)
    × ((k : ℕ) × (125000 ≡ 5000 + k * 60000))
    × ((65000 < 5000 + 3 * 60000) ↔ (125000 ≤ 5000 + 3 * 60000))
unfolding next_every_at
next_every_at-least_example = next_every_at-least 60000 5000 65000 125000 3 (omega arith) refl

fires :
    fire_effect minutes no_status "run_1"
      (fire_input_of armed (every 60000 none) 120000 false none)
      120500
      (some report)
    ≡ launches request (payload (some 180000))
unfolding fire_effect fire_input_of initial_state show
fires = refl

abbrev last_armed : ScheduleState
last_armed = record armed { fire_count = 2 }

apply_update-IsUpdated_example :
    IsUpdated armed (apply_update minutes definitions text 60000 armed none)
apply_update-IsUpdated_example = apply_update-IsUpdated minutes definitions text 60000 armed none

abbrev skipped_payload : SkippedPayload
skipped_payload = record {
  at = 120000;
  reason = "overlap";
  next_at = some 180000;
  generation = 0;
  manual = false;
  trigger_id = none;
}

abbrev replanned : ScheduleState
replanned = record armed { generation = 1; next_at = none }

effects-IsTimely_example : All (IsTimely armed) (effects armed)
effects-IsTimely_example = effects-IsTimely armed

still_planned :
    (step minutes definitions text 60000 armed (fired (payload (some 180000)))).next_at
    ≡ some 180000
unfolding step fresh
still_planned = refl

step-fired_later_example :
    (120000 < 180000)
    × (floor_of armed.start_at 120500 < 180000)
    × (is_past armed.end_at 180000 ≡ false)
    × (spent armed.max_fires (armed.fire_count + 1) ≡ false)
step-fired_later_example =
    step-fired_later minutes definitions text 60000 no_status "run_1" armed (every 60000 none)
      report 120000 120500 180000 request (payload (some 180000)) minutes-IsStrict fires
      still_planned

fires_last :
    fire_effect minutes no_status "run_1"
      (fire_input_of last_armed (every 60000 none) 120000 false none)
      120500
      (some report)
    ≡ launches request (payload none)
unfolding fire_effect fire_input_of initial_state show
fires_last = refl

step-fired_last_example :
    effects (step minutes definitions text 60000 last_armed (fired (payload none)))
    ≡ complete (last_armed.fire_count + 1) ∷ []
unfolding initial_state
step-fired_last_example =
    step-fired_last minutes definitions text 60000 no_status "run_1" last_armed (every 60000 none)
      report 120000 120500 request (payload none) fires_last refl refl
