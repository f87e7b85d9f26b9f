-- ===== src/Core/Fold/Reconcile.antt =====
-- packages/core/src/fold.ts: how the effects that a thread enables become outstanding effects,
-- with ids that a later fold step finds again.
use looms.Prelude.{
  ℕ, suc, String, Option, none, some, Bool, false, List, [], ◌∷◌, ◌++◌, ◌==◌, ◌<>◌, ◌&&◌, not,
  if◌then◌else◌, truthy, or_else, is_some, filter, find?, remove_first, includes, ◌>>=◌, ◌>>◌,
  guard,
}
use looms.Prelude.Dict.{get}
use looms.Core.Json.{as_string}
use looms.Core.Ids.{create_effect_id, create_effect_id_at}
use looms.Core.Envelope.{EventEnvelope, effect_completed}
use looms.Core.Effects.{
  RuntimeEffect, spawn, wait, emit, complete, fail, cancel, launch, cancel_run, invoke, effect_type,
}
use looms.Core.Equality.{json_equals}
use looms.Core.Wire.{effect_json}
use looms.Core.Thread.{is_terminal_status}
use looms.Core.State.{RunState, ThreadRecord, OutstandingEffect}

abbrev tagged : Option String → String → String
tagged (some tag) other = tag
tagged none other = other

-- The part of `stableEffectId` behind the thread: a string tag first, then a wait, a child, a
-- cancelled thread or a launched or cancelled run.
unfoldable pub stable_tag : RuntimeEffect → Option String
stable_tag (spawn child _ _ _ _) = some ("spawn_" <> child)
stable_tag (wait id _ tag) = some (tagged (as_string tag) id)
stable_tag (emit _ tag) = tag
stable_tag (complete _) = none
stable_tag (fail _) = none
stable_tag (cancel id tag) = some (tagged tag ("cancel_" <> id))
stable_tag (launch id _ _ _ _ _ tag) = some (tagged tag ("launch_" <> id))
stable_tag (cancel_run id tag) = some (tagged tag ("cancel_" <> id))
stable_tag (invoke _ _ tag _) = tag

unfoldable pub stable_effect_id : String → RuntimeEffect → Option String
unfolding stable_tag
stable_effect_id thread_id effect =
    stable_tag effect >>= λ tag. some (create_effect_id thread_id tag)

-- `settledWithoutOutcome`
unfoldable pub settled_without_outcome : RunState → EventEnvelope → Option OutstandingEffect
unfolding stable_effect_id
settled_without_outcome state event = elim event.type [
  | effect_completed ↦ do
    effect_id ← truthy event.effect_id
    item ← find? (λ candidate. candidate.effect_id == effect_id) state.outstanding_effects
    guard (not (is_some (stable_effect_id item.thread_id item.effect)))
    some item
  | _ ↦ none
]

-- What `findIndex` looks for: the stable id, or else an effect of the same type.
unfoldable pub matches : Option String → RuntimeEffect → OutstandingEffect → Bool
unfolding effect_type
matches none effect item = effect_type item.effect == effect_type effect
matches (some id) effect item = item.effect_id == id

-- An untagged effect that the event settled with no outcome, which the thread asks for again.
unfoldable pub reissued : Option OutstandingEffect → String → RuntimeEffect → Bool
unfolding json_equals effect_json
reissued none thread_id effect = false
reissued (some settled) thread_id effect =
    settled.thread_id == thread_id && json_equals (effect_json settled.effect) (effect_json effect)

module _ (thread_id : String) (event : EventEnvelope) (settled : Option OutstandingEffect) where
  unfoldable pub fresh_effect : ℕ → RuntimeEffect → OutstandingEffect
  fresh_effect index effect = record {
    effect_id =
        or_else (stable_effect_id thread_id effect) (create_effect_id_at thread_id event.seq index);
    thread_id = thread_id;
    causing_seq = event.seq;
    causing_event_id = event.id;
    effect = effect;
  }

  -- The item for one effect, none if nothing is issued.
  unfoldable pub issue : ℕ → RuntimeEffect → Option OutstandingEffect → List OutstandingEffect
  unfolding fresh_effect reissued
  issue index effect (some item) = item ∷ []
  issue index effect none =
      if not (is_some (stable_effect_id thread_id effect)) && reissued settled thread_id effect
      then []
      else fresh_effect index effect ∷ []

  -- The `flatMap` of `mapEffects`; `remaining` are the existing effects not matched yet.
  unfoldable pub map_from : ℕ → List RuntimeEffect → List OutstandingEffect → List OutstandingEffect
  unfolding issue matches
  map_from index [] remaining = []
  map_from index (effect ∷ effects) remaining =
      let test = matches (stable_effect_id thread_id effect) effect in
      issue index effect (find? test remaining)
      ++ map_from (suc index) effects (remove_first test remaining)

-- `mapEffects`
unfoldable pub map_effects :
    String
    → EventEnvelope
    → List RuntimeEffect
    → List String
    → List OutstandingEffect
    → Option OutstandingEffect
    → List OutstandingEffect
unfolding map_from
map_effects thread_id event effects completed existing settled =
    filter (λ item. not (includes completed item.effect_id))
      (map_from thread_id event settled 0 effects existing)

abbrev is_terminal_thread : Option ThreadRecord → Bool
is_terminal_thread none = false
is_terminal_thread (some t) = is_terminal_status t.status

-- `reconcileEffects`
unfoldable pub reconcile_effects :
    RunState → String → EventEnvelope → List RuntimeEffect → Option OutstandingEffect → RunState
unfolding map_effects get
reconcile_effects state thread_id event effects settled =
    let others = filter (λ item. not (item.thread_id == thread_id)) state.outstanding_effects in
    let existing = filter (λ item. item.thread_id == thread_id) state.outstanding_effects in
    if is_terminal_thread (get thread_id state.threads)
    then record state { outstanding_effects = others }
    else record state {
      outstanding_effects =
          others ++ map_effects thread_id event effects state.completed_effect_ids existing settled;
    }
