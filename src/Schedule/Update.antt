-- ===== src/Schedule/Update.antt =====
-- packages/schedule/src/threads.ts: `applyUpdate` and `initialState`. The JSON text of a value
-- (`stringifyJson`, which the schema library encodes) and the definitions are arguments.
use looms.Prelude.{
  [], ℕ, ◌+◌, String, Option, none, some, Bool, true, false, ◌<>◌, ◌==◌, ◌&&◌, ◌||◌, eqb, not,
  or_else, or_try, is_some, option_map, ◌>>=◌, if◌then◌else◌,
}
use looms.Core.Json.{Json, null, num, str, obj, Fields, end, field}
use looms.Schedule.Specs.{ScheduleSpec, cron, every, once, CronLibrary}
use looms.Schedule.Gaps.{spec_rejection}
use looms.Schedule.Data.{
  Misfire, Overlap, ScheduleDefinition, ScheduleState, ScheduleStart, ScheduleUpdate,
}

abbrev optional_field : String → Option Json → Fields → Fields
optional_field key none fs = fs
optional_field key (some v) fs = field key v fs

unfoldable pub spec_json : ScheduleSpec → Json
spec_json (cron expr tz) = obj (
    field "type" (str "cron")
      (field "expr" (str expr) (optional_field "tz" (option_map str tz) end)))
spec_json (every every_ms anchor) = obj (
    field "type" (str "every")
      (field "everyMs" (num every_ms) (optional_field "anchor" (option_map num anchor) end)))
spec_json (once at) = obj (field "type" (str "once") (field "at" (num at) end))

abbrev spec_or_null : Option ScheduleSpec → Json
unfolding spec_json
spec_or_null none = null
spec_or_null (some spec) = spec_json spec

-- `===` on limits
abbrev same_limit : Option ℕ → Option ℕ → Bool
same_limit none none = true
same_limit (some n) (some m) = eqb n m
same_limit _ _ = false

abbrev same_misfire : Misfire → Misfire → Bool
same_misfire Misfire.fire_once Misfire.fire_once = true
same_misfire Misfire.skip Misfire.skip = true
same_misfire _ _ = false

abbrev same_overlap : Overlap → Overlap → Bool
same_overlap Overlap.allow Overlap.allow = true
same_overlap Overlap.skip Overlap.skip = true
same_overlap _ _ = false

-- `boundsError`, where numbers are natural
unfoldable pub bounds_error : Option ℕ → Option String
bounds_error none = none
bounds_error (some max_fires) =
    if eqb max_fires 0 then some "maxFires must be an integer of at least 1" else none

abbrev reject : ScheduleState → String → ScheduleState
reject state reason = record state { rejection = some reason }

abbrev unknown : String → String → String
unknown name version = "Unknown schedule definition \"" <> name <> "@" <> version <> "\""

-- What an accepted update changes.
pub record Patched : Type 0 where
  pub spec : ScheduleSpec
  pub input : Json
  pub end_at : Option ℕ
  pub max_fires : Option ℕ
  pub definition_name : String
  pub definition_version : String
  pub misfire : Misfire
  pub overlap : Overlap

module _ (crons : CronLibrary) (definitions : String → String → Option ScheduleDefinition)
    (text_of : Json → String) (min_interval_ms : ℕ) where
  unfoldable pub is_same : ScheduleState → Patched → Bool
  unfolding spec_json
  is_same state patched =
      text_of (spec_json patched.spec) == text_of (spec_or_null state.spec)
      && text_of patched.input == text_of state.input
      && same_limit patched.end_at state.end_at
      && same_limit patched.max_fires state.max_fires
      && patched.definition_name == state.definition_name
      && patched.definition_version == state.definition_version
      && same_misfire patched.misfire state.misfire
      && same_overlap patched.overlap state.overlap

  unfoldable pub patch_state : ScheduleState → Patched → ScheduleState
  unfolding is_same
  patch_state state patched = if is_same state patched then state else record state {
    spec = some patched.spec;
    input = patched.input;
    end_at = patched.end_at;
    max_fires = patched.max_fires;
    definition_name = patched.definition_name;
    definition_version = patched.definition_version;
    misfire = patched.misfire;
    overlap = patched.overlap;
    generation = state.generation + 1;
    next_at = none;
    rejection = none;
  }

  unfoldable pub update_spec :
      ScheduleState
      → ScheduleUpdate
      → String
      → String
      → Option ScheduleDefinition
      → Option ScheduleSpec
      → ScheduleState
  unfolding bounds_error patch_state
  update_spec state patch name version definition none = reject state "schedule has no spec"
  update_spec state patch name version definition (some spec) =
      let end_at = or_else patch.end_at state.end_at in
      let max_fires = or_else patch.max_fires state.max_fires in
      elim (bounds_error max_fires) [
        | some reason ↦ reject state reason
        | none ↦ patch_state state (record {
          spec = spec;
          input = or_else patch.input state.input;
          end_at = end_at;
          max_fires = max_fires;
          definition_name = name;
          definition_version = version;
          misfire = or_else (option_map (λ d. d.misfire) definition) state.misfire;
          overlap = or_else (option_map (λ d. d.overlap) definition) state.overlap;
        })
      ]

  -- `applyUpdate`, for a payload that decodes
  unfoldable pub apply_patch : ScheduleState → ScheduleUpdate → ScheduleState
  unfolding spec_rejection update_spec
  apply_patch state patch =
      let name = or_else patch.definition_name state.definition_name in
      let version = or_else patch.definition_version state.definition_version in
      let definition = definitions name version in
      if (is_some patch.definition_name || is_some patch.definition_version)
        && not (is_some definition)
      then reject state (unknown name version)
      else elim (patch.spec >>= λ spec. spec_rejection crons spec min_interval_ms) [
        | some reason ↦ reject state reason
        | none ↦ update_spec state patch name version definition (or_try patch.spec state.spec)
      ]

  -- `applyUpdate`
  unfoldable pub apply_update : ScheduleState → Option ScheduleUpdate → ScheduleState
  unfolding apply_patch
  apply_update state none = reject state "schedule update payload is invalid"
  apply_update state (some patch) = apply_patch state patch

abbrev base_state : String → String → ScheduleState
base_state name version = record {
  spec = none;
  input = null;
  end_at = none;
  max_fires = none;
  start_at = none;
  paused = false;
  retired = false;
  generation = 0;
  next_at = none;
  fire_count = 0;
  last_fired_run_id = none;
  pending_triggers = [];
  done = false;
  invalid = none;
  rejection = none;
  misfire = Misfire.fire_once;
  overlap = Overlap.allow;
  definition_name = name;
  definition_version = version;
}

module _ (crons : CronLibrary) (min_interval_ms : ℕ) where
  -- Why a schedule may not start.
  unfoldable pub start_error : ScheduleSpec → ScheduleStart → Option String
  unfolding spec_rejection bounds_error
  start_error spec start =
      or_try (spec_rejection crons spec min_interval_ms) (bounds_error start.max_fires)

  -- `initialState`, by the definition and the start input
  unfoldable pub initial_state :
      String → String → Option ScheduleDefinition → ScheduleStart → ScheduleState
  unfolding start_error
  initial_state name version none start = record (base_state name version) {
    invalid = some (unknown name version);
  }
  initial_state name version (some definition) start =
      let spec = or_else start.spec definition.spec in
      let invalid = start_error spec start in
      record (base_state name version) {
        spec = if is_some invalid then none else some spec;
        input = or_else start.input null;
        end_at = start.end_at;
        max_fires = start.max_fires;
        start_at = start.start_at;
        invalid = invalid;
        misfire = definition.misfire;
        overlap = definition.overlap;
      }
