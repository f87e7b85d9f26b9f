-- ===== src/Schedule/Data.antt =====
-- packages/schedule/src/threads.ts, definitions.ts, effects.ts and events.ts: the state of a schedule, its
-- definition, the inputs of its effects and the payloads of its events, as their schemas decode them.
use looms.Prelude.{ℕ, String, Option, Bool, List}
use looms.Core.Json.{Json}
use looms.Schedule.Specs.{ScheduleSpec}

pub data Misfire : Type 0 where
  fire_once skip : Misfire

pub data Overlap : Type 0 where
  allow skip : Overlap

pub record FireContext : Type 0 where
  pub at : ℕ
  pub input : Json
  pub run_id : String
  pub manual : Bool

-- What `beforeFire` decides.
pub data BeforeFireResult : Type 0 where
  fire : BeforeFireResult
  skip : (reason : String) → BeforeFireResult

pub record Target : Type 0 where
  pub kind : String
  pub name : String
  pub version : Option String

-- A callback that rejects gives none.
pub record ScheduleDefinition : Type 0 where
  pub name : String
  pub version : String
  pub target : Target
  pub spec : ScheduleSpec
  pub misfire : Misfire
  pub overlap : Overlap
  pub fire_input : Option (FireContext → Option Json)
  pub before_fire : Option (FireContext → Option BeforeFireResult)

pub record ScheduleState : Type 0 where
  pub spec : Option ScheduleSpec
  pub input : Json
  pub end_at : Option ℕ
  pub max_fires : Option ℕ
  pub start_at : Option ℕ
  pub paused : Bool
  pub retired : Bool
  pub generation : ℕ
  pub next_at : Option ℕ
  pub fire_count : ℕ
  pub last_fired_run_id : Option String
  pub pending_triggers : List String
  pub done : Bool
  pub invalid : Option String
  pub rejection : Option String
  pub misfire : Misfire
  pub overlap : Overlap
  pub definition_name : String
  pub definition_version : String

pub record PlanInput : Type 0 where
  pub spec : ScheduleSpec
  pub generation : ℕ
  pub fire_count : ℕ
  pub start_at : Option ℕ
  pub end_at : Option ℕ
  pub max_fires : Option ℕ
  pub misfire : Misfire

pub record FireInput : Type 0 where
  pub definition_name : String
  pub definition_version : String
  pub spec : ScheduleSpec
  pub generation : ℕ
  pub at : ℕ
  pub next_at : Option ℕ
  pub misfire : Misfire
  pub overlap : Overlap
  pub stored_input : Json
  pub fire_count : ℕ
  pub start_at : Option ℕ
  pub end_at : Option ℕ
  pub max_fires : Option ℕ
  pub last_fired_run_id : Option String
  pub manual : Bool
  pub trigger_id : Option String

pub record FiredPayload : Type 0 where
  pub at : ℕ
  pub run_id : String
  pub next_at : Option ℕ
  pub generation : ℕ
  pub manual : Bool
  pub trigger_id : Option String

pub record SkippedPayload : Type 0 where
  pub at : ℕ
  pub reason : String
  pub next_at : Option ℕ
  pub generation : ℕ
  pub manual : Bool
  pub trigger_id : Option String

-- The start input: a limit that is left out and one that is null are both none.
pub record ScheduleStart : Type 0 where
  pub spec : Option ScheduleSpec
  pub input : Option Json
  pub start_at : Option ℕ
  pub end_at : Option ℕ
  pub max_fires : Option ℕ

-- A limit that the patch leaves out is none, and one that it clears is `some none`.
pub record ScheduleUpdate : Type 0 where
  pub spec : Option ScheduleSpec
  pub input : Option Json
  pub end_at : Option (Option ℕ)
  pub max_fires : Option (Option ℕ)
  pub definition_name : Option String
  pub definition_version : Option String

-- The payload of an update that does not decode is none.
pub data ScheduleEvent : Type 0 where
  planned : (next_at : Option ℕ) (generation : ℕ) (spec : ScheduleSpec) → ScheduleEvent
  fired : FiredPayload → ScheduleEvent
  skipped : SkippedPayload → ScheduleEvent
  updated : Option ScheduleUpdate → ScheduleEvent
  paused resumed retired : ScheduleEvent
  triggered : (id : String) → ScheduleEvent
  rejected : (reason : String) → ScheduleEvent
  other : ScheduleEvent
