-- ===== src/Core/Fold/Step.antt =====
-- packages/core/src/fold.ts: `foldEvent` and `foldRun`. `cloneState` fills in the fields that an
-- old snapshot may lack, and is the identity on a state that has them all.
use looms.Prelude.{
  true, false, String, Option, none, some, List, [], ◌∷◌, ◌++◌, ◌==◌, if◌then◌else◌, truthy,
  includes, Bool-cases, inl, inr, ◌≡◌, foldl,
}
use looms.Core.Envelope.{EventEnvelope}
use looms.Core.State.{RunState}
use looms.Core.Fold.Changes.{complete_effect}
use looms.Core.Fold.Protocol.{Decoders, Registry, apply_protocol}
use looms.Core.Fold.Reconcile.{settled_without_outcome}
use looms.Core.Fold.Deliver.{deliver, fail_unhandled_effect}

-- The event's run id, if it has one, becomes the state's.
abbrev pub adopt_run_id : RunState → EventEnvelope → RunState
adopt_run_id state event =
    if event.run_id == "" then state else record state { run_id = event.run_id }

-- An event that carries an effect's id settles that effect.
abbrev pub settle : RunState → Option String → RunState
settle state none = state
settle state (some effect_id) = complete_effect state effect_id

-- Each idempotency key is remembered once.
abbrev pub remember_key : RunState → Option String → RunState
remember_key state none = state
remember_key state (some key) =
    if includes state.processed_idempotency_keys key
    then state
    else record state { processed_idempotency_keys = state.processed_idempotency_keys ++ key ∷ [] }

-- The bookkeeping of `foldEvent` before `applyProtocol`.
unfoldable pub record_event : RunState → EventEnvelope → RunState
record_event state event =
    remember_key (settle (adopt_run_id state event) (truthy event.effect_id))
      (truthy event.idempotency_key)

module _ (d : Decoders) (registry : Registry) where
  -- The state after the bookkeeping and `applyProtocol`.
  abbrev pub protocol_state : RunState → EventEnvelope → RunState
  protocol_state state event = apply_protocol d registry (record_event state event) event

  -- The state after `deliver`.
  abbrev pub delivered_state : RunState → EventEnvelope → RunState
  delivered_state state event =
      deliver registry (protocol_state state event) event
        (settled_without_outcome (adopt_run_id state event) event)

  unfoldable pub fold_event : RunState → EventEnvelope → RunState
  fold_event state event =
      if event.ephemeral
      then state
      else fail_unhandled_effect (delivered_state state event) event
          (protocol_state state event).outstanding_effects

  -- `foldRun`, from a base state: an empty one, or a snapshot's
  unfoldable pub fold_run : RunState → List EventEnvelope → RunState
  fold_run base events = foldl fold_event base events

  pub fold_event_ephemeral :
      (s : RunState) (event : EventEnvelope) → event.ephemeral ≡ true → fold_event s event ≡ s
  unfolding fold_event
  fold_event_ephemeral s event h = rw h

  pub fold_event_durable :
      (s : RunState) (event : EventEnvelope)
      → event.ephemeral ≡ false
      → fold_event s event
        ≡ fail_unhandled_effect
            (delivered_state s event)
            event
            (protocol_state s event).outstanding_effects
  unfolding fold_event
  fold_event_durable s event h = rw h

  -- Induction over a run: what every durable step keeps holds of the fold.
  pub fold_run_induction {ℓ} :
      (P : RunState → Type ℓ)
      → ((s : RunState) (event : EventEnvelope)
          → event.ephemeral ≡ false
          → P s
          → P (fold_event s event))
      → (s : RunState) (events : List EventEnvelope) → P s
      → P (fold_run s events)
  unfolding fold_run
  fold_run_induction P keep s [] h = h
  fold_run_induction P keep s (event ∷ events) h = elim (Bool-cases event.ephemeral) [
    | inl skip ↦
        fold_run_induction P keep (fold_event s event) events
          (rw (fold_event_ephemeral s event skip) h)
    | inr step ↦ fold_run_induction P keep (fold_event s event) events (keep s event step h)
  ]
