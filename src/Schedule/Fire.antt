-- ===== src/Schedule/Fire.antt =====
-- packages/schedule/src/effects.ts: `fireEffect`. The definition that is resolved, the status of the run that
-- was last launched and the clock are arguments; a launch that fails fails the effect.
use looms.Prelude.{
  ℕ, ◌+◌, String, Option, none, some, Bool, true, false, ◌<>◌, ◌&&◌, show, ltb, or_else, truthy,
  not, ◌>>=◌, if◌then◌else◌,
}
use looms.Core.Json.{Json}
use looms.Core.State.{RunStatus}
use looms.Schedule.Specs.{CronLibrary}
use looms.Schedule.Data.{
  Misfire, Overlap, FireContext, BeforeFireResult, ScheduleDefinition, FireInput, FiredPayload,
  SkippedPayload,
}
use looms.Schedule.Next.{scheduled_next, spent}

abbrev pub misfire_grace_ms : ℕ
misfire_grace_ms = 1000

pub record LaunchRequest : Type 0 where
  pub run_id : String
  pub kind : String
  pub definition_name : String
  pub definition_version : String
  pub input : Json
  pub idempotency_key : String

pub data FireOutcome : Type 0 where
  unknown_definition before_fire_failed input_failed : FireOutcome
  skips : SkippedPayload → FireOutcome
  launches : LaunchRequest → FiredPayload → FireOutcome

abbrev skips_misfires : Misfire → Bool
skips_misfires Misfire.fire_once = false
skips_misfires Misfire.skip = true

abbrev skips_overlaps : Overlap → Bool
skips_overlaps Overlap.allow = false
skips_overlaps Overlap.skip = true

abbrev is_running : Option RunStatus → Bool
is_running (some RunStatus.running) = true
is_running status = false

-- `skipped`
abbrev skipped_outcome : FireInput → ℕ → String → Option ℕ → FireOutcome
skipped_outcome input at reason next_at = skips (record {
  at = at;
  reason = reason;
  next_at = next_at;
  generation = input.generation;
  manual = input.manual;
  trigger_id = input.trigger_id;
})

-- `resolveBeforeFire`
unfoldable pub resolve_before_fire : ScheduleDefinition → FireContext → Option BeforeFireResult
resolve_before_fire definition ctx = elim definition.before_fire [
  | none ↦ some BeforeFireResult.fire
  | some decide ↦ decide ctx
]

-- `resolveFireInput`
unfoldable pub resolve_fire_input : ScheduleDefinition → FireContext → Option Json
resolve_fire_input definition ctx = elim definition.fire_input [
  | none ↦ some ctx.input
  | some produce ↦ produce ctx
]

-- The run that a fire starts, named after the trigger or after the time.
unfoldable pub target_run_id : String → Bool → Option String → ℕ → String
unfolding show
target_run_id run_id true (some trigger_id) at = run_id <> ":manual:" <> trigger_id
target_run_id run_id _ _ at = run_id <> ":fire:" <> show at

abbrev pub fire_context : String → FireInput → ℕ → FireContext
fire_context run_id input now = record {
  at = if input.manual then now else input.at;
  input = input.stored_input;
  run_id = run_id;
  manual = input.manual;
}

module _ (crons : CronLibrary) where
  -- The next time after a fire: a manual one leaves the planned time, unless it was the last.
  unfoldable pub next_after_fire : FireInput → ℕ → Option ℕ
  unfolding scheduled_next
  next_after_fire input now =
      if input.manual
      then (if spent input.max_fires (input.fire_count + 1) then none else input.next_at)
      else scheduled_next crons input input.at now (input.fire_count + 1)

  -- The next time after a fire that a gate or a running fire skips.
  unfoldable pub next_after_skip : FireInput → ℕ → Option ℕ
  unfolding scheduled_next
  next_after_skip input now =
      if input.manual
      then input.next_at
      else scheduled_next crons input input.at now input.fire_count

  unfoldable pub launched : ScheduleDefinition → String → FireInput → ℕ → Option Json → FireOutcome
  unfolding target_run_id next_after_fire
  launched definition run_id input now none = input_failed
  launched definition run_id input now (some produced) =
      let target = target_run_id run_id input.manual (truthy input.trigger_id) input.at in
      launches
        (record {
          run_id = target;
          kind = definition.target.kind;
          definition_name = definition.target.name;
          definition_version = or_else definition.target.version "v1";
          input = produced;
          idempotency_key = target;
        })
        (record {
          at = (fire_context run_id input now).at;
          run_id = target;
          next_at = next_after_fire input now;
          generation = input.generation;
          manual = input.manual;
          trigger_id = input.trigger_id;
        })

  module _ (status : String → Option RunStatus) (run_id : String) (input : FireInput)
      (now : ℕ) where
    -- The launcher's `status` always answers here; a call that fails would fail the effect.
    unfoldable pub overlaps : Bool
    overlaps =
        skips_overlaps input.overlap && is_running (truthy input.last_fired_run_id >>= status)

    unfoldable pub fire_by_gate : ScheduleDefinition → Option BeforeFireResult → FireOutcome
    unfolding next_after_skip overlaps launched resolve_fire_input
    fire_by_gate definition none = before_fire_failed
    fire_by_gate definition (some (BeforeFireResult.skip reason)) =
        skipped_outcome input (fire_context run_id input now).at reason (next_after_skip input now)
    fire_by_gate definition (some BeforeFireResult.fire) =
        if overlaps
        then skipped_outcome input (fire_context run_id input now).at "overlap"
            (next_after_skip input now)
        else launched definition run_id input now
            (resolve_fire_input definition (fire_context run_id input now))

    abbrev pub missed : Bool
    missed =
        not input.manual && skips_misfires input.misfire && ltb (input.at + misfire_grace_ms) now

    -- `fireEffect`
    unfoldable pub fire_effect : Option ScheduleDefinition → FireOutcome
    unfolding scheduled_next fire_by_gate resolve_before_fire
    fire_effect none = unknown_definition
    fire_effect (some definition) =
        if missed
        then skipped_outcome input input.at "misfire"
            (scheduled_next crons input now now input.fire_count)
        else fire_by_gate definition
            (resolve_before_fire definition (fire_context run_id input now))
