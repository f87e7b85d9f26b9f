-- ===== src/Schedule/Step.antt =====
-- packages/schedule/src/threads.ts: the step of a schedule, and the effects that it asks for. The input of an
-- inline effect is the record that its schema encodes.
use looms.Prelude.{
  ℕ, ◌+◌, String, Option, none, some, Bool, true, false, List, [], ◌∷◌, ◌++◌, ◌<>◌, ◌==◌, ◌&&◌,
  ◌||◌, eqb, ltb, not, or_else, filter, length, show, truthy, is_some, if◌then◌else◌,
}
use looms.Core.Json.{Json}
use looms.Schedule.Specs.{ScheduleSpec, CronLibrary}
use looms.Schedule.Data.{
  ScheduleDefinition, ScheduleState, PlanInput, FireInput, FiredPayload, SkippedPayload,
  ScheduleEvent, planned, fired, skipped, updated, paused, resumed, retired, triggered, rejected,
  other,
}
use looms.Schedule.Next.{spent}
use looms.Schedule.Update.{apply_update}

abbrev pub pending_trigger_cap : ℕ
pending_trigger_cap = 32

-- `dropTrigger`
unfoldable pub drop_trigger : List String → Option String → List String
drop_trigger pending none = pending
drop_trigger pending (some trigger_id) = filter (λ id. not (id == trigger_id)) pending

-- `schedule.planned`
unfoldable pub planned_step : ScheduleState → Option ℕ → ℕ → ScheduleSpec → ScheduleState
planned_step state next_at generation spec =
    if not (eqb generation state.generation) then state else record state {
      spec = some spec;
      next_at = next_at;
      done = state.done || not (is_some next_at);
    }

-- `schedule.fired`
unfoldable pub fired_step : ScheduleState → FiredPayload → ScheduleState
unfolding drop_trigger
fired_step state payload =
    let pending = drop_trigger state.pending_triggers payload.trigger_id in
    let last = spent state.max_fires (state.fire_count + 1) in
    if payload.manual
    then record state {
      fire_count = state.fire_count + 1;
      last_fired_run_id = some payload.run_id;
      next_at = if last then none else state.next_at;
      done = state.done || last;
      pending_triggers = pending;
    }
    else if not (eqb payload.generation state.generation)
    then state
    else record state {
      fire_count = state.fire_count + 1;
      last_fired_run_id = some payload.run_id;
      next_at = payload.next_at;
      done = not (is_some payload.next_at);
      pending_triggers = pending;
    }

-- `schedule.skipped`
unfoldable pub skipped_step : ScheduleState → SkippedPayload → ScheduleState
unfolding drop_trigger
skipped_step state payload =
    let pending = drop_trigger state.pending_triggers payload.trigger_id in
    if payload.manual
    then record state { pending_triggers = pending }
    else if not (eqb payload.generation state.generation)
    then state
    else record state {
      next_at = payload.next_at;
      done = not (is_some payload.next_at);
      pending_triggers = pending;
    }

-- `schedule.resumed`
unfoldable pub resumed_step : ScheduleState → ScheduleState
resumed_step state = if not state.paused && not state.retired then state else record state {
  paused = false;
  retired = false;
  next_at = none;
  generation = state.generation + 1;
  rejection = none;
}

-- `schedule.triggered`
unfoldable pub triggered_step : ScheduleState → String → ScheduleState
triggered_step state id = record state {
  pending_triggers =
      if ltb (length state.pending_triggers) pending_trigger_cap
      then state.pending_triggers ++ id ∷ []
      else state.pending_triggers;
}

module _ (crons : CronLibrary) (definitions : String → String → Option ScheduleDefinition)
    (text_of : Json → String) (min_interval_ms : ℕ) where
  -- `step`
  unfoldable pub step : ScheduleState → ScheduleEvent → ScheduleState
  unfolding planned_step fired_step skipped_step apply_update resumed_step triggered_step
  step state (planned next_at generation spec) = planned_step state next_at generation spec
  step state (fired payload) = fired_step state payload
  step state (skipped payload) = skipped_step state payload
  step state (updated payload) =
      apply_update crons definitions text_of min_interval_ms state payload
  step state paused = record state { paused = true; next_at = none }
  step state resumed = resumed_step state
  step state retired = record state {
    retired = true;
    paused = true;
    next_at = none;
    pending_triggers = [];
  }
  step state (triggered id) = triggered_step state id
  step state (rejected reason) = record state { rejection = none }
  step state other = state

-- `planInputOf`
unfoldable pub plan_input_of : ScheduleState → ScheduleSpec → PlanInput
plan_input_of state spec = record {
  spec = spec;
  generation = state.generation;
  fire_count = state.fire_count;
  start_at = state.start_at;
  end_at = state.end_at;
  max_fires = state.max_fires;
  misfire = state.misfire;
}

-- `fireInputOf`
unfoldable pub fire_input_of : ScheduleState → ScheduleSpec → ℕ → Bool → Option String → FireInput
fire_input_of state spec at manual trigger_id = record {
  definition_name = state.definition_name;
  definition_version = state.definition_version;
  spec = spec;
  generation = state.generation;
  at = at;
  next_at = state.next_at;
  misfire = state.misfire;
  overlap = state.overlap;
  stored_input = state.input;
  fire_count = state.fire_count;
  start_at = state.start_at;
  end_at = state.end_at;
  max_fires = state.max_fires;
  last_fired_run_id = state.last_fired_run_id;
  manual = manual;
  trigger_id = trigger_id;
}

pub data ScheduleEffect : Type 0 where
  fail : (error : String) → ScheduleEffect
  complete : (fire_count : ℕ) → ScheduleEffect
  emit_rejected : (reason : String) → ScheduleEffect
  fire : (input : FireInput) (tag : String) (at : Option ℕ) → ScheduleEffect
  plan : (input : PlanInput) (tag : String) → ScheduleEffect

unfoldable pub rejection_effects : ScheduleState → List ScheduleEffect
rejection_effects state = elim (truthy state.rejection) [
  | none ↦ []
  | some reason ↦ emit_rejected reason ∷ []
]

-- The fire that the oldest pending trigger asks for.
unfoldable pub manual_effects : ScheduleState → ScheduleSpec → List ScheduleEffect
unfolding fire_input_of
manual_effects state spec = elim state.pending_triggers [
  | [] ↦ []
  | trigger_id ∷ _ ↦
      if state.retired
      then []
      else fire (fire_input_of state spec (or_else state.next_at 0) true (some trigger_id))
          ("manual:" <> trigger_id) none
        ∷ []
]

-- The plan, or the fire at the time that is planned.
unfoldable pub timed_effects : ScheduleState → ScheduleSpec → List ScheduleEffect
unfolding plan_input_of fire_input_of show
timed_effects state spec = if state.paused || state.retired then [] else elim state.next_at [
  | none ↦ plan (plan_input_of state spec) ("plan:" <> show state.generation) ∷ []
  | some at ↦
      fire (fire_input_of state spec at false none)
        ("fire:" <> show state.generation <> ":" <> show state.fire_count <> ":" <> show at)
        (some at)
      ∷ []
]

unfoldable pub armed_effects : ScheduleState → Option ScheduleSpec → List ScheduleEffect
unfolding rejection_effects manual_effects timed_effects
armed_effects state none = complete state.fire_count ∷ []
armed_effects state (some spec) =
    if state.done
    then complete state.fire_count ∷ []
    else rejection_effects state ++ manual_effects state spec ++ timed_effects state spec

-- `effects`
unfoldable pub effects : ScheduleState → List ScheduleEffect
unfolding armed_effects
effects state = elim (truthy state.invalid) [
  | none ↦ armed_effects state state.spec
  | some reason ↦
      if eqb state.fire_count 0 && not (is_some state.next_at)
      then fail reason ∷ []
      else armed_effects state state.spec
]
