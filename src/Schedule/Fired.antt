-- ===== src/Schedule/Fired.antt =====
-- packages/schedule/src: a fire at its time, from the effect that a schedule asks for to the schedule that its
-- event leaves.
use looms.Prelude.{
  ℕ, ◌+◌, ◌<◌, String, Option, none, some, true, false, [], ◌∷◌, ◌≡◌, ◌<>◌, refl, arith, eqb, show,
  truthy, is_some, not, ap, ◌∙◌, sym, Bool-cases, Option-cases, inl, inr, if◌then◌else◌,
}
use looms.Core.Json.{Json}
use looms.Core.State.{RunStatus}
use looms.Schedule.Specs.{ScheduleSpec, CronLibrary}
use looms.Schedule.Data.{
  ScheduleDefinition, ScheduleState, FireInput, FiredPayload, BeforeFireResult, fired,
}
use looms.Schedule.Next.{spent, floor_of, scheduled_next}
use looms.Schedule.Fire.{
  missed, FireOutcome, LaunchRequest, launches, fire_effect, fire_by_gate, launched,
  next_after_fire, target_run_id, overlaps, resolve_before_fire, resolve_fire_input, fire_context,
}
use looms.Schedule.Step.{step, fired_step, effects, complete, armed_effects, fire_input_of}
use looms.Schedule.Earliest.{IsStrict, is_past, scheduled_next-bounds}

abbrev payload_of : FiredPayload → FireOutcome → FiredPayload
payload_of fallback (launches request payload) = payload
payload_of fallback outcome = fallback

abbrev request_of : LaunchRequest → FireOutcome → LaunchRequest
request_of fallback (launches request payload) = request
request_of fallback outcome = fallback

module _ (crons : CronLibrary) (status : String → Option RunStatus) (run_id : String)
    (input : FireInput) (now : ℕ) where
  -- What is known of a fire that launches a run at its time.
  abbrev IsTimed : LaunchRequest → FiredPayload → Type 0
  IsTimed request payload =
      (request.run_id ≡ run_id <> ":fire:" <> show input.at)
      × (payload.run_id ≡ request.run_id)
      × (payload.next_at ≡ scheduled_next crons input input.at now (input.fire_count + 1))
      × (payload.generation ≡ input.generation)
      × (payload.manual ≡ false)

  launched-IsTimed :
      (definition : ScheduleDefinition) (produced : Option Json) (request : LaunchRequest)
      (payload : FiredPayload)
      → input.manual ≡ false
      → launched crons definition run_id input now produced ≡ launches request payload
      → IsTimed request payload
  unfolding launched target_run_id next_after_fire
  launched-IsTimed definition none request payload timed e = absurd (ground arith)
  launched-IsTimed definition (some json) request payload timed e =
      let target : target_run_id run_id input.manual (truthy input.trigger_id) input.at
          ≡ request.run_id =
        ap (λ o. (request_of request o).run_id) e in
      let after = scheduled_next crons input input.at now (input.fire_count + 1) in
      let last = spent input.max_fires (input.fire_count + 1) in
      (
        sym target ∙ ap (λ m. target_run_id run_id m (truthy input.trigger_id) input.at) timed,
        sym (ap (λ o. (payload_of payload o).run_id) e) ∙ target,
        sym (ap (λ o. (payload_of payload o).next_at) e)
            ∙ ap (λ m. if m then (if last then none else input.next_at) else after) timed,
        sym (ap (λ o. (payload_of payload o).generation) e),
        sym (ap (λ o. (payload_of payload o).manual) e) ∙ timed,
      )

  fire_effect-IsTimed :
      (definition : ScheduleDefinition) (request : LaunchRequest) (payload : FiredPayload)
      → input.manual ≡ false
      → fire_effect crons status run_id input now (some definition) ≡ launches request payload
      → IsTimed request payload
  unfolding fire_effect fire_by_gate
  fire_effect-IsTimed definition request payload timed e =
      elim (Bool-cases (missed crons status run_id input now)) [
        | inl late ↦ absurd (ground arith)
        | inr in_time ↦
            elim (Option-cases (resolve_before_fire definition (fire_context run_id input now))) [
              | inl threw ↦ absurd (ground arith)
              | inr (BeforeFireResult.skip reason, gate) ↦ absurd (ground arith)
              | inr (BeforeFireResult.fire, gate) ↦
                  elim (Bool-cases (overlaps crons status run_id input now)) [
                    | inl busy ↦ absurd (ground arith)
                    | inr free ↦
                        launched-IsTimed definition
                          (resolve_fire_input definition (fire_context run_id input now)) request
                          payload timed (ground arith)
                  ]
            ]
      ]

armed_effects-done :
    (state : ScheduleState) (spec : Option ScheduleSpec)
    → state.done ≡ true
    → armed_effects state spec ≡ complete state.fire_count ∷ []
unfolding armed_effects
armed_effects-done state none over = refl
armed_effects-done state (some spec) over = simp (over, armed_effects) refl

effects-done :
    (state : ScheduleState)
    → state.invalid ≡ none
    → state.done ≡ true
    → effects state ≡ complete state.fire_count ∷ []
unfolding effects
effects-done state valid over = simp (valid, effects) (armed_effects-done state state.spec over)

scheduled_next-spent :
    (crons : CronLibrary) (input : FireInput) (after now fires_after : ℕ)
    → spent input.max_fires fires_after ≡ true
    → scheduled_next crons input after now fires_after ≡ none
unfolding scheduled_next
scheduled_next-spent crons input after now fires_after none_left =
    simp (none_left, scheduled_next) refl

module _ (crons : CronLibrary) (definitions : String → String → Option ScheduleDefinition)
    (text_of : Json → String) (min_interval_ms : ℕ) (status : String → Option RunStatus)
    (run_id : String) where
  fired_step-timed :
      (state : ScheduleState) (payload : FiredPayload)
      → payload.manual ≡ false
      → payload.generation ≡ state.generation
      → ((fired_step state payload).last_fired_run_id ≡ some payload.run_id)
        × ((fired_step state payload).fire_count ≡ state.fire_count + 1)
        × ((fired_step state payload).next_at ≡ payload.next_at)
        × ((fired_step state payload).done ≡ not (is_some payload.next_at))
        × ((fired_step state payload).invalid ≡ state.invalid)
        × ((fired_step state payload).spec ≡ state.spec)
  unfolding fired_step
  fired_step-timed state payload timed same =
      let current : eqb payload.generation state.generation ≡ true = ground arith in
      rw (timed, current) (refl, refl, refl, refl, refl, refl)

  -- A fire at the planned time, which a schedule asks for and which launches a run, launches one that is
  -- named after the schedule's run and the time; and the event that it emits makes the schedule count
  -- the fire, remember the run, and take over the next time that is planned after the fire, or be
  -- done if there is none.
  pub step-fired :
      (state : ScheduleState) (spec : ScheduleSpec) (definition : ScheduleDefinition) (at now : ℕ)
      (request : LaunchRequest) (payload : FiredPayload)
      → fire_effect crons status run_id
          (fire_input_of state spec at false none)
          now
          (some definition)
        ≡ launches request payload
      → (request.run_id ≡ run_id <> ":fire:" <> show at)
        × ((step crons definitions text_of min_interval_ms state (fired payload)).last_fired_run_id
            ≡ some request.run_id)
        × ((step crons definitions text_of min_interval_ms state (fired payload)).fire_count
            ≡ state.fire_count + 1)
        × ((step crons definitions text_of min_interval_ms state (fired payload)).next_at
            ≡ scheduled_next crons
                (fire_input_of state spec at false none)
                at
                now
                (state.fire_count + 1))
        × ((step crons definitions text_of min_interval_ms state (fired payload)).done
            ≡ not (is_some payload.next_at))
  unfolding step fire_input_of
  step-fired state spec definition at now request payload e =
      let (named, launched', planned', current, timed) =
        fire_effect-IsTimed crons status run_id (fire_input_of state spec at false none) now
          definition request payload refl e in
      let (last, count, next, over, valid, armed) = fired_step-timed state payload timed current in
      (named, last ∙ ap some launched', count, next ∙ planned', over)

  -- When a fire at a time, with the input that a schedule gives it, launches a run, occurrences of
  -- Cron being strictly after the time that they are asked for, and the event that the fire emits
  -- leaves a time planned in that schedule, that time is later than the fire, than the clock at
  -- the fire and than the schedule's start, it is not past the schedule's end, and fires are left.
  pub step-fired_later :
      (state : ScheduleState) (spec : ScheduleSpec) (definition : ScheduleDefinition)
      (at now next : ℕ) (request : LaunchRequest) (payload : FiredPayload)
      → IsStrict crons
      → fire_effect crons status run_id
          (fire_input_of state spec at false none)
          now
          (some definition)
        ≡ launches request payload
      → (step crons definitions text_of min_interval_ms state (fired payload)).next_at ≡ some next
      → (at < next)
        × (floor_of state.start_at now < next)
        × (is_past state.end_at next ≡ false)
        × (spent state.max_fires (state.fire_count + 1) ≡ false)
  unfolding fire_input_of
  step-fired_later state spec definition at now next request payload strict e planned' =
      let (named, last, count, plan', over) =
        step-fired state spec definition at now request payload e in
      scheduled_next-bounds crons strict (fire_input_of state spec at false none) at now
        (state.fire_count + 1) next (sym plan' ∙ planned')

  -- When a fire at a time, with the input that a schedule gives it, launches a run and is the last
  -- that the schedule may make, the schedule, if its start was valid, asks after the event that
  -- the fire emits for nothing any more but to complete with the number of its fires.
  pub step-fired_last :
      (state : ScheduleState) (spec : ScheduleSpec) (definition : ScheduleDefinition) (at now : ℕ)
      (request : LaunchRequest) (payload : FiredPayload)
      → fire_effect crons status run_id
          (fire_input_of state spec at false none)
          now
          (some definition)
        ≡ launches request payload
      → spent state.max_fires (state.fire_count + 1) ≡ true
      → state.invalid ≡ none
      → effects (step crons definitions text_of min_interval_ms state (fired payload))
        ≡ complete (state.fire_count + 1) ∷ []
  unfolding step fire_input_of
  step-fired_last state spec definition at now request payload e none_left valid =
      let input = fire_input_of state spec at false none in
      let (named, launched', planned', current, timed) =
        fire_effect-IsTimed crons status run_id input now definition request payload refl e in
      let (last, count, next, over, start, armed) = fired_step-timed state payload timed current in
      let none_next : payload.next_at ≡ none =
        planned' ∙ scheduled_next-spent crons input at now (state.fire_count + 1) none_left in
      effects-done (fired_step state payload) (start ∙ valid)
        (over ∙ ap (λ next_at. not (is_some next_at)) none_next)
      ∙ ap (λ n. complete n ∷ []) count
