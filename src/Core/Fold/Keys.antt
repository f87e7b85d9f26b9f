-- ===== src/Core/Fold/Keys.antt =====
-- Idempotency keys: what a run remembers of the commands that it has processed.
use looms.Prelude.{
  String, ◌≡◌, refl, ◌∙◌, Option, none, some, Bool, false, List, [], ◌∷◌, ◌||◌, ◌&&◌, not, includes,
  any, truthy, is_the, Distinct, Distinct-snoc, includes-append, eq_iff, arith, Bool-cases, inl,
  inr,
}
use looms.Core.Envelope.{EventEnvelope}
use looms.Core.State.{RunState}
use looms.Core.Fold.Changes.{complete_effect}
use looms.Core.Fold.Protocol.{Decoders, Registry}
use looms.Core.Fold.Step.{
  record_event, adopt_run_id, settle, remember_key, fold_event, fold_run, delivered_state,
  fold_event_durable, fold_event_ephemeral,
}
use looms.Core.Fold.Frame.{apply_protocol-keys, deliver-keys, fail_unhandled_effect-keys}

-- Whether the event records the key: it is durable, and carries the key.
abbrev pub records : String → EventEnvelope → Bool
records key event = not event.ephemeral && is_the (truthy event.idempotency_key) key

settle-keys :
    (s : RunState) (id : Option String)
    → (settle s id).processed_idempotency_keys ≡ s.processed_idempotency_keys
unfolding complete_effect
settle-keys s none = refl
settle-keys s (some id) = refl

remember_key-includes :
    (s : RunState) (o : Option String) (key : String)
    → includes (remember_key s o).processed_idempotency_keys key
      ≡ (includes s.processed_idempotency_keys key || is_the o key)
remember_key-includes s none key = ground arith
remember_key-includes s (some k) key =
    ground (arith, eq_iff k key, includes-append s.processed_idempotency_keys (k ∷ []) key)

remember_key-Distinct :
    (s : RunState) (o : Option String)
    → Distinct s.processed_idempotency_keys
    → Distinct (remember_key s o).processed_idempotency_keys
remember_key-Distinct s none h = h
remember_key-Distinct s (some k) h = ground (arith, Distinct-snoc s.processed_idempotency_keys k)

record_event-includes :
    (s : RunState) (event : EventEnvelope) (key : String)
    → includes (record_event s event).processed_idempotency_keys key
      ≡ (includes s.processed_idempotency_keys key || is_the (truthy event.idempotency_key) key)
unfolding record_event
record_event-includes s event key = ground (
  arith,
  remember_key-includes (settle (adopt_run_id s event) (truthy event.effect_id))
      (truthy event.idempotency_key) key,
  settle-keys (adopt_run_id s event) (truthy event.effect_id),
)

pub record_event-Distinct :
    (s : RunState) (event : EventEnvelope)
    → Distinct s.processed_idempotency_keys
    → Distinct (record_event s event).processed_idempotency_keys
unfolding record_event
record_event-Distinct s event h =
    remember_key-Distinct (settle (adopt_run_id s event) (truthy event.effect_id))
      (truthy event.idempotency_key) (rw settle-keys (ground arith))

module _ (d : Decoders) (registry : Registry) where
  -- The keys after a durable event are those of its bookkeeping.
  pub fold_event-record :
      (s : RunState) (event : EventEnvelope)
      → event.ephemeral ≡ false
      → (fold_event d registry s event).processed_idempotency_keys
        ≡ (record_event s event).processed_idempotency_keys
  fold_event-record s event h = rw (fold_event_durable d registry s event h) (
      fail_unhandled_effect-keys registry (delivered_state d registry s event) event _
      ∙ deliver-keys registry _ event _
      ∙ apply_protocol-keys d registry _ event)

  fold_event-keys :
      (s : RunState) (event : EventEnvelope) (key : String)
      → includes (fold_event d registry s event).processed_idempotency_keys key
        ≡ (includes s.processed_idempotency_keys key || records key event)
  fold_event-keys s event key = elim (Bool-cases event.ephemeral) [
    | inl skip ↦ rw (fold_event_ephemeral d registry s event skip) (ground arith)
    | inr step ↦ rw (fold_event-record s event step) (simp step (record_event-includes s event key))
  ]

  -- The processed keys are exactly those that the base remembers and those that some durable event
  -- of the run carries.
  pub fold_run-keys :
      (s : RunState) (events : List EventEnvelope) (key : String)
      → includes (fold_run d registry s events).processed_idempotency_keys key
        ≡ (includes s.processed_idempotency_keys key || any (records key) events)
  unfolding fold_run
  fold_run-keys s [] key = ground arith
  fold_run-keys s (event ∷ events) key =
      fold_run-keys (fold_event d registry s event) events key
      ∙ ground (arith, fold_event-keys s event key)
