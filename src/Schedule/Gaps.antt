-- ===== src/Schedule/Gaps.antt =====
-- packages/schedule/src/specs.ts: why a schedule may not be armed. A gap of none is an infinite one.
use looms.Prelude.{
  ℕ, zero, suc, ◌-◌, ◌*◌, min, String, Option, none, some, Bool, true, List, [], ◌∷◌, ◌<>◌, ◌&&◌,
  ◌||◌, not, show, length, leb, eqb, if◌then◌else◌,
}
use looms.Schedule.Specs.{ScheduleSpec, cron, every, once, CronLibrary, parse_cron, describe_spec}

abbrev pub default_min_interval_ms : ℕ
default_min_interval_ms = 60000

abbrev gap_sample_starts : List ℕ
gap_sample_starts =
    1768435200000 ∷ 1774656000000 ∷ 1772841600000 ∷ 1792800000000 ∷ 1793491200000 ∷ []

abbrev at_least : Option ℕ → ℕ → Bool
at_least none minimum = true
at_least (some gap) minimum = leb minimum gap

-- `Math.min(smallest, gap)`
abbrev smaller : Option ℕ → ℕ → Option ℕ
smaller none gap = some gap
smaller (some smallest) gap = some (min smallest gap)

abbrev gap_text : Option ℕ → String
gap_text none = "Infinity"
gap_text (some gap) = show gap

-- `gapRejection`
unfoldable pub gap_rejection : Option ℕ → ℕ → String → Option String
unfolding show
gap_rejection gap min_interval_ms label =
    if eqb min_interval_ms 0 || at_least gap min_interval_ms
    then none
    else some (
        "schedule \""
        <> label
        <> "\" repeats every "
        <> gap_text gap
        <> "ms, below the minimum "
        <> show min_interval_ms
        <> "ms")

unfoldable pub insert : ℕ → List ℕ → List ℕ
insert n [] = n ∷ []
insert n (m ∷ ms) = if leb n m then n ∷ m ∷ ms else m ∷ insert n ms

-- `toSorted((a, b) => a - b)`
unfoldable pub sorted : List ℕ → List ℕ
unfolding insert
sorted [] = []
sorted (n ∷ ns) = insert n (sorted ns)

-- The smallest gap between neighbours, in seconds that are given in order.
unfoldable pub second_gaps : Option ℕ → List ℕ → Option ℕ
second_gaps smallest [] = smallest
second_gaps smallest (s ∷ []) = smallest
second_gaps smallest (s ∷ t ∷ seconds) =
    second_gaps (smaller smallest ((t - s) * 1000)) (t ∷ seconds)

module _ (crons : CronLibrary) where
  abbrev gap_from : Option ℕ → Option ℕ → ℕ → Option ℕ
  gap_from smallest none next = smallest
  gap_from smallest (some previous) next = smaller smallest (next - previous)

  -- The gaps of a number of occurrences in a row; none if there is no next one.
  unfoldable pub sample_gaps : crons.Cron → ℕ → ℕ → Option ℕ → Option ℕ → Option (Option ℕ)
  sample_gaps parsed zero cursor previous smallest = some smallest
  sample_gaps parsed (suc count) cursor previous smallest = elim (crons.next parsed cursor) [
    | none ↦ none
    | some next ↦ sample_gaps parsed count next (some next) (gap_from smallest previous next)
  ]

  unfoldable pub sample_starts : crons.Cron → List ℕ → Option ℕ → Option ℕ
  unfolding sample_gaps
  sample_starts parsed [] smallest = smallest
  sample_starts parsed (start ∷ starts) smallest =
      elim (sample_gaps parsed 32 start none smallest) [
        | none ↦ some 0
        | some smaller_gap ↦ sample_starts parsed starts smaller_gap
      ]

  -- `smallestCronGap`
  unfoldable pub smallest_cron_gap : crons.Cron → ℕ → Option ℕ
  unfolding sorted second_gaps sample_starts
  smallest_cron_gap parsed min_interval_ms =
      let seconds = crons.seconds parsed in
      let smallest = second_gaps none (sorted seconds) in
      if eqb (length seconds) 1 && leb min_interval_ms default_min_interval_ms
      then some default_min_interval_ms
      else if not (at_least smallest min_interval_ms)
      then smallest
      else sample_starts parsed gap_sample_starts smallest

  -- `specRejection`
  unfoldable pub spec_rejection : ScheduleSpec → ℕ → Option String
  unfolding gap_rejection smallest_cron_gap describe_spec
  spec_rejection (cron expr tz) min_interval_ms = elim (parse_cron crons expr tz) [
    | none ↦ some ("invalid cron expression \"" <> expr <> "\"")
    | some parsed ↦ gap_rejection (smallest_cron_gap parsed min_interval_ms) min_interval_ms expr
  ]
  spec_rejection (every every_ms anchor) min_interval_ms =
      if eqb every_ms 0
      then some "every() duration must be a positive number of milliseconds"
      else gap_rejection (some every_ms) min_interval_ms (describe_spec (every every_ms anchor))
  spec_rejection (once at) min_interval_ms = none
