-- ===== src/Schedule/Earliest.antt =====
-- packages/schedule/src: the next time of a schedule is late enough, and within its bounds.
use native.Mathlib.Nat.{le-div_iff_mul-le, mul-le-mul_right}
use looms.Prelude.{
  ℕ, zero, suc, ◌+◌, ◌-◌, ◌*◌, ◌/◌, ◌≤◌, ◌<◌, Option, none, some, Bool, false, ◌≡◌, ◌↔◌, refl,
  arith, ltb, leb, Bool-cases, Option-cases, inl, inr,
}
use looms.Schedule.Specs.{
  ScheduleSpec, cron, every, once, CronLibrary, next_every_at, next_fire_at, next_cron_at,
  parse_cron,
}
use looms.Schedule.Data.{FireInput}
use looms.Schedule.Next.{within_end_at, spent, floor_of, retried, is_at_most, scheduled_next}

-- An interval of positive length fires at its anchor or a whole number of intervals later: the
-- next time after one is later than it, and of the times that are a whole number of intervals
-- after the anchor, exactly those from the next one on are later than it.
pub next_every_at-least :
    (every_ms start after next steps : ℕ)
    → 0 < every_ms
    → next_every_at every_ms (some start) after ≡ some next
    → (after < next)
      × ((k : ℕ) × (next ≡ start + k * every_ms))
      × ((after < start + steps * every_ms) ↔ (next ≤ start + steps * every_ms))
unfolding next_every_at
next_every_at-least every_ms start after next steps positive e =
    elim (Bool-cases (ltb after start)) [
      | inl early ↦
          let first : next ≡ start = ground arith in
          (ground arith, (0, ground arith), (λ h. ground arith, λ h. ground arith))
      | inr late ↦
          let y = after - start in
          let q = y / every_ms in
          let at : next ≡ start + (q + 1) * every_ms = ground arith in
          let past = le-div_iff_mul-le {k = every_ms} {x = q + 1} {y = y} positive in
          let below = le-div_iff_mul-le {k = every_ms} {x = steps} {y = y} positive in
          (
            ground (arith, past),
            (q + 1, at),
            (
              λ h.
                  let more : q + 1 ≤ steps = ground (arith, below) in
                  let product = mul-le-mul_right every_ms more in omega (arith, product, at, h),
              λ h. ground (arith, past),
            ),
          )
    ]

next_every_at-after :
    (every_ms : ℕ) (anchor : Option ℕ) (after next : ℕ)
    → next_every_at every_ms anchor after ≡ some next
    → after < next
unfolding next_every_at
next_every_at-after zero anchor after next e = cc
next_every_at-after (suc n) none after next e =
    (next_every_at-least (suc n) 0 after next 0 (omega arith) e).0
next_every_at-after (suc n) (some start) after next e =
    (next_every_at-least (suc n) start after next 0 (omega arith) e).0

-- `endAt !== null && next > endAt`
abbrev pub is_past : Option ℕ → ℕ → Bool
is_past none next = false
is_past (some end_at) next = ltb end_at next

-- Occurrences of `Cron` are strictly after the time that they are asked for.
abbrev pub IsStrict : CronLibrary → Type 0
IsStrict crons =
    (parsed : crons.Cron) (after next : ℕ) → crons.next parsed after ≡ some next → after < next

module _ (crons : CronLibrary) (strict : IsStrict crons) where
  pub next_fire_at-after :
      (spec : ScheduleSpec) (after next : ℕ)
      → next_fire_at crons spec after ≡ some next
      → after < next
  unfolding next_fire_at next_cron_at
  next_fire_at-after (cron expr tz) after next e = elim (Option-cases (parse_cron crons expr tz)) [
    | inl bad ↦ absurd (ground arith)
    | inr (parsed, p) ↦ strict parsed after next (ground arith)
  ]
  next_fire_at-after (every every_ms anchor) after next e =
      next_every_at-after every_ms anchor after next e
  next_fire_at-after (once at) after next e = ground arith

  within_end_at-is :
      (o end_at : Option ℕ) (next : ℕ)
      → within_end_at o end_at ≡ some next
      → (o ≡ some next) × (is_past end_at next ≡ false)
  unfolding within_end_at
  within_end_at-is none none next e = absurd (ground arith)
  within_end_at-is none (some end_at) next e = absurd (ground arith)
  within_end_at-is (some t) none next e = (e, refl)
  within_end_at-is (some t) (some end_at) next e = ground arith

  -- A time that is retried from a floor is later than the floor.
  retried-after :
      (spec : ScheduleSpec) (after floor next : ℕ)
      → retried crons
          (is_at_most (next_fire_at crons spec after) floor)
          spec
          floor
          (next_fire_at crons spec after)
        ≡ some next
      → (after < next) × (floor < next)
  retried-after spec after floor next e = elim (Option-cases (next_fire_at crons spec after)) [
    | inl never ↦ absurd (ground arith)
    | inr (first, p) ↦
        let later = next_fire_at-after spec after first p in
        elim (Bool-cases (leb first floor)) [
          | inl early ↦
              let again = next_fire_at-after spec floor next (ground arith) in (ground arith, again)
          | inr late ↦ let same : first ≡ next = ground arith in (ground arith, ground arith)
        ]
  ]

  -- The next time that is planned after a fire is later than that fire and than the clock and the
  -- schedule's start, and not past its end, and there is one only if fires are left.
  pub scheduled_next-bounds :
      (input : FireInput) (after now fires_after next : ℕ)
      → scheduled_next crons input after now fires_after ≡ some next
      → (after < next)
        × (floor_of input.start_at now < next)
        × (is_past input.end_at next ≡ false)
        × (spent input.max_fires fires_after ≡ false)
  unfolding scheduled_next
  scheduled_next-bounds input after now fires_after next e =
      elim (Bool-cases (spent input.max_fires fires_after)) [
        | inl none_left ↦ absurd (ground arith)
        | inr left ↦
            let floor = floor_of input.start_at now in
            let first = next_fire_at crons input.spec after in
            let (planned, in_time) =
              within_end_at-is (retried crons (is_at_most first floor) input.spec floor first)
                input.end_at next (ground arith) in
            let (later, above) = retried-after input.spec after floor next planned in
            (later, above, in_time, left)
      ]
