-- ===== src/Core/Fold/Frame.antt =====
-- What the phases of one fold step leave alone.
mod Race
pub use Race.{drop_race-keys, drop_race-threads, drop_race-work}
use looms.Prelude.{◌≡◌, refl, Option, List, or_else, arith}
use looms.Core.Json.{Fields, payload_object}
use looms.Core.Envelope.{EventEnvelope, EventType, run_started}
use looms.Core.State.{RunState, OutstandingEffect}
use looms.Core.Fold.Changes.{complete_effect}
use looms.Core.Fold.Changes.{complete_effect}
use looms.Core.Fold.Protocol.{Decoders, Registry, protocol_case, apply_protocol, all_cases}
use looms.Core.Fold.Reconcile.{reconcile_effects}
use looms.Core.Fold.Deliver.{deliver, forget_completed_effects, fail_unhandled_effect}

module _ (d : Decoders) (registry : Registry) (s : RunState) (event : EventEnvelope) where
  protocol_case-keys :
      (fs : Fields) (type : EventType)
      → (or_else (protocol_case d registry s event fs type) s).processed_idempotency_keys
        ≡ s.processed_idempotency_keys
  unfolding all_cases complete_effect
  protocol_case-keys fs run_started = refl
  protocol_case-keys fs _ = grind (arith, drop_race-keys)

  -- No protocol event records an idempotency key.
  pub apply_protocol-keys :
      (apply_protocol d registry s event).processed_idempotency_keys ≡ s.processed_idempotency_keys
  unfolding apply_protocol
  apply_protocol-keys = protocol_case-keys (payload_object event.payload) event.type

module _ (registry : Registry) (s : RunState) (event : EventEnvelope) where
  pub deliver-keys :
      (settled : Option OutstandingEffect)
      → (deliver registry s event settled).processed_idempotency_keys ≡ s.processed_idempotency_keys
  unfolding deliver reconcile_effects forget_completed_effects
  deliver-keys settled = ground arith

  pub fail_unhandled_effect-keys :
      (before : List OutstandingEffect)
      → (fail_unhandled_effect s event before).processed_idempotency_keys
        ≡ s.processed_idempotency_keys
  unfolding fail_unhandled_effect
  fail_unhandled_effect-keys before = ground arith
