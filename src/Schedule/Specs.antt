-- ===== src/Schedule/Specs.antt =====
-- packages/schedule/src/specs.ts: when a schedule fires. Times and durations are natural numbers of
-- milliseconds; `Cron` of the effect library is an argument.
use looms.Prelude.{
  ℕ, ◌+◌, ◌-◌, ◌*◌, ◌/◌, ◌%◌, String, Option, none, some, List, ◌<>◌, show, ltb, eqb, or_else,
  ◌>>=◌, if◌then◌else◌,
}

pub data ScheduleSpec : Type 0 where
  cron : (expr : String) (tz : Option String) → ScheduleSpec
  every : (every_ms : ℕ) (anchor : Option ℕ) → ScheduleSpec
  once : (at : ℕ) → ScheduleSpec

-- What is used of `Cron`: a parse that fails and a `next` that throws are none.
pub record CronLibrary : Type 1 where
  pub Cron : Type 0
  pub parse : String → String → Option Cron
  pub next : Cron → ℕ → Option ℕ
  pub seconds : Cron → List ℕ

-- `nextEveryAt`
unfoldable pub next_every_at : ℕ → Option ℕ → ℕ → Option ℕ
next_every_at every_ms anchor after =
    let start = or_else anchor 0 in
    if eqb every_ms 0
    then none
    else if ltb after start
    then some start
    else some (start + ((after - start) / every_ms + 1) * every_ms)

-- `formatDuration`
unfoldable pub format_duration : ℕ → String
unfolding show
format_duration ms =
    if eqb (ms % 86400000) 0
    then show (ms / 86400000) <> "d"
    else if eqb (ms % 3600000) 0
    then show (ms / 3600000) <> "h"
    else if eqb (ms % 60000) 0
    then show (ms / 60000) <> "m"
    else if eqb (ms % 1000) 0
    then show (ms / 1000) <> "s"
    else show ms <> "ms"

-- `describeSpec`
unfoldable pub describe_spec : ScheduleSpec → String
unfolding format_duration show
describe_spec (cron expr none) = expr
describe_spec (cron expr (some tz)) = expr <> " (" <> tz <> ")"
describe_spec (every every_ms anchor) = "every " <> format_duration every_ms
describe_spec (once at) = "once at " <> show at

module _ (crons : CronLibrary) where
  abbrev pub parse_cron : String → Option String → Option crons.Cron
  parse_cron expr tz = crons.parse expr (or_else tz "UTC")

  -- `nextCronAt`
  unfoldable pub next_cron_at : String → Option String → ℕ → Option ℕ
  next_cron_at expr tz after = parse_cron expr tz >>= λ parsed. crons.next parsed after

  -- `nextFireAt`
  unfoldable pub next_fire_at : ScheduleSpec → ℕ → Option ℕ
  unfolding next_cron_at next_every_at
  next_fire_at (cron expr tz) after = next_cron_at expr tz after
  next_fire_at (every every_ms anchor) after = next_every_at every_ms anchor after
  next_fire_at (once at) after = if ltb after at then some at else none
