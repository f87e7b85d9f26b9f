-- ===== src/Schedule/Updated.antt =====
-- packages/schedule/src/threads.ts: what an update may do to a schedule.
use looms.Prelude.{
  ℕ, ◌+◌, String, Option, none, some, ◌≡◌, ◌⊎◌, inl, inr, refl, ◌||◌, ◌&&◌, not, is_some, or_else,
  or_try, Bool-cases, Option-cases, ◌>>=◌,
}
use looms.Core.Json.{Json}
use looms.Schedule.Specs.{ScheduleSpec, CronLibrary}
use looms.Schedule.Gaps.{spec_rejection}
use looms.Schedule.Data.{ScheduleDefinition, ScheduleState, ScheduleUpdate}
use looms.Schedule.Update.{
  apply_update, apply_patch, update_spec, patch_state, is_same, bounds_error, Patched,
}

-- A state that differs by the reason of a rejection only.
abbrev pub IsRejected : ScheduleState → ScheduleState → Type 0
IsRejected state result = (reason : String) × (result ≡ record state { rejection = some reason })

-- A state of the next generation, which has no time planned and has counted and queued the same.
abbrev pub IsReplanned : ScheduleState → ScheduleState → Type 0
IsReplanned state result =
    (result.generation ≡ state.generation + 1)
    × (result.next_at ≡ none)
    × (result.rejection ≡ none)
    × (result.fire_count ≡ state.fire_count)
    × (result.pending_triggers ≡ state.pending_triggers)

abbrev pub IsUpdated : ScheduleState → ScheduleState → Type 0
IsUpdated state result = (result ≡ state) ⊎ (IsRejected state result ⊎ IsReplanned state result)

module _ (crons : CronLibrary) (definitions : String → String → Option ScheduleDefinition)
    (text_of : Json → String) (min_interval_ms : ℕ) where
  patch_state-IsUpdated :
      (state : ScheduleState) (patched : Patched)
      → IsUpdated state (patch_state crons definitions text_of min_interval_ms state patched)
  unfolding patch_state
  patch_state-IsUpdated state patched =
      elim (Bool-cases (is_same crons definitions text_of min_interval_ms state patched)) [
        | inl same ↦ inl (rw (same, patch_state) refl)
        | inr changed ↦ inr (inr (rw (changed, patch_state) (refl, refl, refl, refl, refl)))
      ]

  update_spec-IsUpdated :
      (state : ScheduleState) (patch : ScheduleUpdate) (name version : String)
      (definition : Option ScheduleDefinition) (spec : Option ScheduleSpec)
      → IsUpdated state (
          update_spec crons definitions text_of min_interval_ms state patch name version definition
            spec)
  unfolding update_spec
  update_spec-IsUpdated state patch name version definition none =
      inr (inl ("schedule has no spec", refl))
  update_spec-IsUpdated state patch name version definition (some spec) =
      elim (Option-cases (bounds_error (or_else patch.max_fires state.max_fires))) [
        | inl sound ↦ rw (sound, update_spec) (patch_state-IsUpdated state _)
        | inr (reason, bad) ↦ rw (bad, update_spec) (inr (inl (reason, refl)))
      ]

  apply_patch-IsUpdated :
      (state : ScheduleState) (patch : ScheduleUpdate)
      → IsUpdated state (apply_patch crons definitions text_of min_interval_ms state patch)
  unfolding apply_patch
  apply_patch-IsUpdated state patch =
      let name = or_else patch.definition_name state.definition_name in
      let version = or_else patch.definition_version state.definition_version in
      let definition = definitions name version in
      elim (Bool-cases (
        (is_some patch.definition_name || is_some patch.definition_version)
        && not (is_some definition))) [
          | inl unknown_one ↦ rw unknown_one (inr (inl (_, refl)))
          | inr known ↦
              elim (Option-cases
                (patch.spec >>= λ spec. spec_rejection crons spec min_interval_ms)) [
                  | inl sound ↦
                      rw (known, sound)
                        (update_spec-IsUpdated state patch name version definition
                          (or_try patch.spec state.spec))
                  | inr (reason, bad) ↦ rw (known, bad) (inr (inl (reason, refl)))
                ]
        ]

  -- An update leaves a schedule as it is, or notes the reason why it is rejected and nothing else, or
  -- starts a new generation, in which no time is planned yet and the fires and triggers are as before.
  pub apply_update-IsUpdated :
      (state : ScheduleState) (payload : Option ScheduleUpdate)
      → IsUpdated state (apply_update crons definitions text_of min_interval_ms state payload)
  unfolding apply_update
  apply_update-IsUpdated state none = inr (inl ("schedule update payload is invalid", refl))
  apply_update-IsUpdated state (some patch) = apply_patch-IsUpdated state patch
