-- ===== src/Core/History/Replay.antt =====
-- packages/core/src/replay.ts: the steps of a run's fold, for inspection.
use looms.Prelude.{
  ℕ, String, Option, some, Bool, List, [], ◌∷◌, ◌==◌, if◌then◌else◌, ◌&&◌, not, eqb, ltb, any,
  filter, find?, map, or_else, ◌>>=◌,
}
use looms.Core.Envelope.{EventEnvelope}
use looms.Core.Effects.{RuntimeEffect}
use looms.Core.State.{RunState, OutstandingEffect, empty_run_state}
use looms.Core.Fold.Protocol.{Decoders, Registry}
use looms.Core.Fold.Step.{fold_event, fold_run}
use looms.Core.History.Snapshots.{first_run_id}

pub record ReplayStep : Type 0 where
  pub seq : ℕ
  pub event : EventEnvelope
  pub before : RunState
  pub after : RunState
  pub effects : List RuntimeEffect

abbrev outstands : List OutstandingEffect → String → Bool
outstands items id = any (λ item. item.effect_id == id) items

abbrev new_effects : RunState → RunState → List RuntimeEffect
new_effects before after =
    map (λ item. item.effect)
      (filter (λ item. not (outstands before.outstanding_effects item.effect_id))
        after.outstanding_effects)

abbrev pub is_target : ℕ → EventEnvelope → Bool
is_target seq event = eqb event.seq seq && not event.ephemeral

module _ (d : Decoders) (registry : Registry) where
  abbrev pub replay_step : RunState → EventEnvelope → ReplayStep
  replay_step before event =
      let after = fold_event d registry before event in
      record {
        seq = event.seq;
        event = event;
        before = before;
        after = after;
        effects = new_effects before after;
      }

  -- `replayTo`
  unfoldable pub replay_to : List EventEnvelope → ℕ → Option ReplayStep
  replay_to events seq = do
    target ← find? (is_target seq) events
    let prior = filter (λ event. ltb event.seq seq) events
    some (replay_step (fold_run d registry (empty_run_state target.run_id) prior) target)

  -- The loop of `replayAll`
  unfoldable pub replay_from : RunState → List EventEnvelope → List ReplayStep
  replay_from state [] = []
  replay_from state (event ∷ events) =
      let skipped = replay_from state events in
      let stepped = replay_from (fold_event d registry state event) events in
      if event.ephemeral then skipped else replay_step state event ∷ stepped

  unfoldable pub replay_all : List EventEnvelope → List ReplayStep
  unfolding replay_from
  replay_all events = replay_from (empty_run_state (or_else (first_run_id events) "unknown")) events
