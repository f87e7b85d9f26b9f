-- ===== src/Schedule/Armed.antt =====
-- packages/schedule/src/threads.ts: when a schedule asks for a fire.
use looms.Prelude.{
  String, Option, none, some, true, false, List, [], ◌∷◌, ◌++◌, ◌≡◌, refl, arith, All, All-append,
  ◌||◌, ◌&&◌, Bool-cases, Option-cases, inl, inr, eqb, not, is_some, truthy, or_else,
}
use looms.Schedule.Specs.{ScheduleSpec}
use looms.Schedule.Data.{ScheduleState, FireInput}
use looms.Schedule.Step.{
  ScheduleEffect, fire, plan, effects, armed_effects, rejection_effects, manual_effects,
  timed_effects, fire_input_of, plan_input_of,
}

abbrev pub oldest : List String → Option String
oldest [] = none
oldest (trigger_id ∷ _) = some trigger_id

-- The schedule is neither retired nor done, and the input has its spec, generation and count of fires.
abbrev pub IsCurrent : ScheduleState → FireInput → Type 0
IsCurrent state input =
    (state.retired ≡ false)
    × (state.done ≡ false)
    × (state.spec ≡ some input.spec)
    × (input.generation ≡ state.generation)
    × (input.fire_count ≡ state.fire_count)

-- A fire with a time is for the time that is planned, and no trigger's; one without is the oldest pending
-- trigger's, and takes the planned time as its own; and a plan is of a schedule that has no time planned.
abbrev pub IsTimely : ScheduleState → ScheduleEffect → Type 0
IsTimely state (fire input tag (some at)) =
    (state.next_at ≡ some at)
    × (input.at ≡ at)
    × (input.manual ≡ false)
    × (input.trigger_id ≡ none)
    × (state.paused ≡ false)
    × IsCurrent state input
IsTimely state (fire input tag none) =
    (is_some input.trigger_id ≡ true)
    × (input.trigger_id ≡ oldest state.pending_triggers)
    × (input.at ≡ or_else state.next_at 0)
    × (input.manual ≡ true)
    × IsCurrent state input
IsTimely state (plan input tag) =
    (state.next_at ≡ none)
    × (input.generation ≡ state.generation)
    × (state.paused ≡ false)
    × (state.retired ≡ false)
    × (state.done ≡ false)
IsTimely state effect = Unit

rejection_effects-IsTimely :
    (state : ScheduleState) → All (IsTimely state) (rejection_effects state)
unfolding rejection_effects
rejection_effects-IsTimely state = elim (Option-cases (truthy state.rejection)) [
  | inl clear ↦ rw (clear, rejection_effects) tt
  | inr (reason, noted) ↦ rw (noted, rejection_effects) (tt, tt)
]

manual_effects-IsTimely :
    (state : ScheduleState) (spec : ScheduleSpec) (triggers : List String)
    → state.pending_triggers ≡ triggers
    → state.spec ≡ some spec
    → state.done ≡ false
    → All (IsTimely state) (manual_effects state spec)
unfolding manual_effects fire_input_of
manual_effects-IsTimely state spec [] e p d = rw (e, manual_effects) tt
manual_effects-IsTimely state spec (id ∷ ids) e p d = elim (Bool-cases state.retired) [
  | inl gone ↦ rw (e, gone, manual_effects) tt
  | inr alive ↦
      simp (e, alive, manual_effects) ((refl, refl, refl, refl, (refl, d, p, refl, refl)), tt)
]

timed_effects-IsTimely :
    (state : ScheduleState) (spec : ScheduleSpec)
    → state.spec ≡ some spec
    → state.done ≡ false
    → All (IsTimely state) (timed_effects state spec)
unfolding timed_effects fire_input_of plan_input_of
timed_effects-IsTimely state spec p d = elim (Bool-cases (state.paused || state.retired)) [
  | inl held ↦ rw (held, timed_effects) tt
  | inr on ↦ elim (Option-cases state.next_at) [
    | inl unplanned ↦
        rw (on, unplanned, timed_effects) ((refl, refl, ground arith, ground arith, d), tt)
    | inr (at, planned) ↦
        simp (on, planned, timed_effects)
          ((refl, refl, refl, refl, ground arith, (ground arith, d, p, refl, refl)), tt)
  ]
]

armed_effects-IsTimely :
    (state : ScheduleState) (spec : Option ScheduleSpec)
    → state.spec ≡ spec
    → All (IsTimely state) (armed_effects state spec)
unfolding armed_effects
armed_effects-IsTimely state none p = (tt, tt)
armed_effects-IsTimely state (some spec) p = elim (Bool-cases state.done) [
  | inl over ↦ rw (over, armed_effects) (tt, tt)
  | inr on ↦
      simp (on, armed_effects)
        (All-append (IsTimely state) (rejection_effects state ++ manual_effects state spec) _
          (All-append (IsTimely state) (rejection_effects state) _
            (rejection_effects-IsTimely state)
            (manual_effects-IsTimely state spec state.pending_triggers refl p on))
          (timed_effects-IsTimely state spec p on))
]

-- Of all that a schedule asks for, a fire with a time is for exactly the time that is planned, which its
-- input carries, with no trigger and not manual, while the schedule is not paused; one without a time is
-- manual and carries the oldest of the pending triggers, of which there is one, and the planned time, or 0
-- if none is planned; the schedule of either fire is neither retired nor done, and its input carries the
-- schedule's spec, generation and count of fires; and a plan is for the current generation, while no time
-- is planned and the schedule is neither paused nor retired nor done.
pub effects-IsTimely : (state : ScheduleState) → All (IsTimely state) (effects state)
unfolding effects
effects-IsTimely state = elim (Option-cases (truthy state.invalid)) [
  | inl valid ↦ rw (valid, effects) (armed_effects-IsTimely state state.spec refl)
  | inr (reason, bad) ↦ elim (Bool-cases (eqb state.fire_count 0 && not (is_some state.next_at))) [
    | inl fails ↦ simp (bad, fails, effects) (tt, tt)
    | inr late ↦ simp (bad, late, effects) (armed_effects-IsTimely state state.spec refl)
  ]
]
