-- ===== src/Schedule/Next.antt =====
-- packages/schedule/src/effects.ts: the next time that a schedule is to fire. The clock is past the epoch.
use looms.Prelude.{
  ℕ, ◌-◌, max, Option, none, some, Bool, true, false, ltb, leb, ◌||◌, if◌then◌else◌,
}
use looms.Schedule.Specs.{ScheduleSpec, once, CronLibrary, next_fire_at}
use looms.Schedule.Data.{Misfire, PlanInput, FireInput}

-- `withinEndAt`
unfoldable pub within_end_at : Option ℕ → Option ℕ → Option ℕ
within_end_at (some next) (some end_at) = if ltb end_at next then none else some next
within_end_at next _ = next

-- `maxFires !== null && count >= maxFires`
abbrev pub spent : Option ℕ → ℕ → Bool
spent none count = false
spent (some max_fires) count = leb max_fires count

-- `startAt !== null ? Math.max(now, startAt) : now`
abbrev pub floor_of : Option ℕ → ℕ → ℕ
floor_of none now = now
floor_of (some start_at) now = max now start_at

abbrev fires_once : Misfire → Bool
fires_once Misfire.fire_once = true
fires_once Misfire.skip = false

abbrev before_start : ℕ → Option ℕ → Bool
before_start at none = false
before_start at (some start_at) = ltb at start_at

abbrev pub is_before : Option ℕ → ℕ → Bool
is_before none limit = false
is_before (some next) limit = ltb next limit

abbrev pub is_at_most : Option ℕ → ℕ → Bool
is_at_most none limit = false
is_at_most (some next) limit = leb next limit

module _ (crons : CronLibrary) where
  -- The first time after one, or else the first after another if that is not late enough.
  abbrev pub retried : Bool → ScheduleSpec → ℕ → Option ℕ → Option ℕ
  retried true spec after next = next_fire_at crons spec after
  retried false spec after next = next

  unfoldable pub plan_spec : ScheduleSpec → PlanInput → ℕ → Option ℕ
  unfolding next_fire_at
  plan_spec (once at) input now =
      if before_start at input.start_at
      then none
      else if ltb now at || fires_once input.misfire
      then some at
      else none
  plan_spec spec input now =
      let not_before = floor_of input.start_at now in
      let next = next_fire_at crons spec (not_before - 1) in
      retried (is_before next not_before) spec not_before next

  -- `planNextAt`
  unfoldable pub plan_next_at : PlanInput → ℕ → Option ℕ
  unfolding plan_spec within_end_at
  plan_next_at input now =
      if spent input.max_fires input.fire_count
      then none
      else within_end_at (plan_spec input.spec input now) input.end_at

  -- `scheduledNext`
  unfoldable pub scheduled_next : FireInput → ℕ → ℕ → ℕ → Option ℕ
  unfolding next_fire_at within_end_at
  scheduled_next input after now fires_after =
      let floor = floor_of input.start_at now in
      let next = next_fire_at crons input.spec after in
      if spent input.max_fires fires_after
      then none
      else within_end_at (retried (is_at_most next floor) input.spec floor next) input.end_at
