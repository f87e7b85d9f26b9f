-- ===== src/Schedule/Capped.antt =====
-- packages/schedule/src/threads.ts: the triggers that are pending, and events of an earlier generation.
use looms.Prelude.{
  ℕ, ◌≤◌, String, Option, none, some, Bool, false, List, [], ◌∷◌, ◌≡◌, ◌≢◌, ◌==◌, refl, arith,
  length, length-append, filter, not, eqb, inl, inr, ap, subst, sym,
}
use looms.Core.Json.{Json}
use looms.Schedule.Specs.{ScheduleSpec, CronLibrary}
use looms.Schedule.Data.{
  ScheduleDefinition, ScheduleState, ScheduleStart, ScheduleUpdate, ScheduleEvent, FiredPayload,
  SkippedPayload, planned, fired, skipped, updated, paused, resumed, retired, triggered, rejected,
  other,
}
use looms.Schedule.Update.{initial_state, apply_update}
use looms.Schedule.Updated.{apply_update-IsUpdated}
use looms.Schedule.Step.{
  step, drop_trigger, planned_step, fired_step, skipped_step, resumed_step, triggered_step,
}

filter-length : (p : String → Bool) (ids : List String) → length (filter p ids) ≤ length ids
filter-length p [] = omega arith
filter-length p (id ∷ ids) = ground (arith, filter-length p ids)

drop_trigger-length :
    (ids : List String) (trigger_id : Option String)
    → length (drop_trigger ids trigger_id) ≤ length ids
unfolding drop_trigger
drop_trigger-length ids none = omega arith
drop_trigger-length ids (some trigger_id) = filter-length (λ id. not (id == trigger_id)) ids

module _ (crons : CronLibrary) (definitions : String → String → Option ScheduleDefinition)
    (text_of : Json → String) (min_interval_ms : ℕ) where
  apply_update-triggers :
      (state : ScheduleState) (payload : Option ScheduleUpdate)
      → (apply_update crons definitions text_of min_interval_ms state payload).pending_triggers
        ≡ state.pending_triggers
  apply_update-triggers state payload =
      elim (apply_update-IsUpdated crons definitions text_of min_interval_ms state payload) [
        | inl same ↦ ap (λ s. s.pending_triggers) same
        | inr (inl (reason, only)) ↦ ap (λ s. s.pending_triggers) only
        | inr (inr (generation, planned', clear, count, triggers)) ↦ triggers
      ]

  step-capped :
      (state : ScheduleState) (event : ScheduleEvent)
      → length state.pending_triggers ≤ 32
      → length (step crons definitions text_of min_interval_ms state event).pending_triggers ≤ 32
  unfolding step planned_step fired_step skipped_step resumed_step triggered_step
  step-capped state (planned next_at generation spec) h = ground arith
  step-capped state (fired payload) h =
      ground (arith, drop_trigger-length state.pending_triggers payload.trigger_id)
  step-capped state (skipped payload) h =
      ground (arith, drop_trigger-length state.pending_triggers payload.trigger_id)
  step-capped state (updated payload) h =
      subst (λ ids. length ids ≤ 32) (sym (apply_update-triggers state payload)) h
  step-capped state paused h = h
  step-capped state resumed h = ground arith
  step-capped state retired h = omega arith
  step-capped state (triggered id) h =
      ground (arith, length-append state.pending_triggers (id ∷ []))
  step-capped state (rejected reason) h = h
  step-capped state other h = h

  -- The states of a schedule after any events.
  pub data Reachable : ScheduleState → Type 0 where
    starts :
        (name version : String) (definition : Option ScheduleDefinition) (start : ScheduleStart)
        → Reachable (initial_state crons min_interval_ms name version definition start)
    steps :
        {state : ScheduleState}
        → Reachable state
        → (event : ScheduleEvent)
        → Reachable (step crons definitions text_of min_interval_ms state event)

  initial_state-triggers :
      (name version : String) (definition : Option ScheduleDefinition) (start : ScheduleStart)
      → (initial_state crons min_interval_ms name version definition start).pending_triggers ≡ []
  unfolding initial_state
  initial_state-triggers name version none start = refl
  initial_state-triggers name version (some definition) start = refl

  -- However many triggers a schedule is sent, among whatever other events, at most 32 are pending.
  pub Reachable-capped :
      {state : ScheduleState} → Reachable state → length state.pending_triggers ≤ 32
  Reachable-capped (starts name version definition start) =
      rw (initial_state-triggers name version definition start) (omega arith)
  Reachable-capped (steps {state} before event) = step-capped state event (Reachable-capped before)

  -- A plan, a fire at its time or a skip of an earlier generation leaves a schedule as it is.
  pub step-stale :
      (state : ScheduleState) (next_at : Option ℕ) (generation : ℕ) (spec : ScheduleSpec)
      (fire : FiredPayload) (skip : SkippedPayload)
      → generation ≢ state.generation
      → fire.generation ≢ state.generation
      → fire.manual ≡ false
      → skip.generation ≢ state.generation
      → skip.manual ≡ false
      → (step crons definitions text_of min_interval_ms state (planned next_at generation spec)
          ≡ state)
        × (step crons definitions text_of min_interval_ms state (fired fire) ≡ state)
        × (step crons definitions text_of min_interval_ms state (skipped skip) ≡ state)
  unfolding step planned_step fired_step skipped_step
  step-stale state next_at generation spec fire skip g f fm s sm =
      let old_plan : eqb generation state.generation ≡ false = ground arith in
      let old_fire : eqb fire.generation state.generation ≡ false = ground arith in
      let old_skip : eqb skip.generation state.generation ≡ false = ground arith in
      (rw old_plan refl, rw (fm, old_fire) refl, rw (sm, old_skip) refl)
