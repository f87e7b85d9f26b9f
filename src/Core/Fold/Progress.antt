-- ===== src/Core/Fold/Progress.antt =====
-- The progress that an effect's heartbeats report survives retries.
use looms.Prelude.{
  ◌∙◌, if◌then◌else◌, String, ◌≡◌, refl, Option, none, Bool, true, false, ◌==◌, ◌&&◌, is_the,
  is_some, truthy, or_else, eq_iff, Bool-cases, inl, inr, arith, List,
}
use looms.Prelude.Dict.{Dict, put, remove, get-put, get-remove}
use looms.Core.Json.{Fields, field_of, payload_object, read_string}
use looms.Core.Envelope.{
  EventEnvelope, EventType, run_started, run_forked, effect_heartbeat, effect_cancelled,
}
use looms.Core.State.{RunState, EffectExecutionRecord, OutstandingEffect}
use looms.Core.Fold.Changes.{complete_effect}
use looms.Core.Fold.Executions.{progress_of, prior_heartbeat_details}
use looms.Core.Fold.Protocol.{Decoders, Registry, apply_protocol, protocol_case, all_cases}
use looms.Core.Fold.Reconcile.{reconcile_effects}
use looms.Core.Fold.Deliver.{deliver, forget_completed_effects, fail_unhandled_effect}
use looms.Core.Fold.Step.{
  record_event, fold_event, fold_event_durable, fold_event_ephemeral, protocol_state,
  delivered_state,
}
use looms.Core.Fold.Frame.{drop_race-work}

-- The events of the protocol that may change the progress of the effect: a fork, which drops all
-- attempts, a heartbeat of the effect with details, and the effect's cancellation.
abbrev pub reports : String → Fields → EventType → Bool
reports id fs run_forked = true
reports id fs effect_heartbeat =
    is_the (read_string fs "effectId") id && is_some (field_of "details" fs)
reports id fs effect_cancelled = is_the (read_string fs "effectId") id
reports id fs _ = false

progress_of-put :
    (k id : String) (x : EffectExecutionRecord) (m : Dict EffectExecutionRecord)
    → progress_of (put k x m) id ≡ (if k == id then x.heartbeat_details else progress_of m id)
unfolding progress_of
progress_of-put k id x m = rw (get-put k id x m) (ground arith)

progress_of-remove :
    (k id : String) (m : Dict EffectExecutionRecord)
    → progress_of (remove k m) id ≡ (if k == id then none else progress_of m id)
unfolding progress_of
progress_of-remove k id m = rw (get-remove k id m) (ground arith)

module _ (d : Decoders) (registry : Registry) (s : RunState) (event : EventEnvelope)
    (id : String) where
  protocol_case-progress :
      (fs : Fields) (type : EventType)
      → event.type ≡ type
      → reports id fs type ≡ false
      → progress_of (or_else (protocol_case d registry s event fs type) s).effect_executions id
        ≡ progress_of s.effect_executions id
  unfolding all_cases complete_effect
  protocol_case-progress fs run_started e h = refl
  protocol_case-progress fs _ e h =
      grind (arith, drop_race-work, progress_of-put, progress_of-remove, eq_iff)

  apply_protocol-progress :
      reports id (payload_object event.payload) event.type ≡ false
      → progress_of (apply_protocol d registry s event).effect_executions id
        ≡ progress_of s.effect_executions id
  unfolding apply_protocol
  apply_protocol-progress = protocol_case-progress (payload_object event.payload) event.type refl

module _ (s : RunState) (event : EventEnvelope) (id : String) where
  record_event-progress :
      is_the (truthy event.effect_id) id ≡ false
      → progress_of (record_event s event).effect_executions id ≡ progress_of s.effect_executions id
  unfolding record_event complete_effect
  record_event-progress h = grind (arith, progress_of-remove)

  pub deliver-executions :
      (registry : Registry) (settled : Option OutstandingEffect)
      → (deliver registry s event settled).effect_executions ≡ s.effect_executions
  unfolding deliver reconcile_effects forget_completed_effects
  deliver-executions registry settled = ground arith

  pub fail_unhandled_effect-executions :
      (before : List OutstandingEffect)
      → (fail_unhandled_effect s event before).effect_executions ≡ s.effect_executions
  unfolding fail_unhandled_effect
  fail_unhandled_effect-executions before = ground arith

-- An event keeps the progress recorded for an effect, unless it settles the effect, reports new
-- details for it, cancels it, or forks the run. So do retries, deferrals, timeouts, and the start of
-- the next attempt.
pub fold_event-progress :
    (d : Decoders) (registry : Registry) (s : RunState) (event : EventEnvelope) (id : String)
    → is_the (truthy event.effect_id) id ≡ false
    → reports id (payload_object event.payload) event.type ≡ false
    → prior_heartbeat_details (fold_event d registry s event) id ≡ prior_heartbeat_details s id
unfolding prior_heartbeat_details
fold_event-progress d registry s event id other quiet = elim (Bool-cases event.ephemeral) [
  | inl skip ↦ rw (fold_event_ephemeral d registry s event skip)
  | inr step ↦
      rw
        (
          fold_event_durable d registry s event step,
          fail_unhandled_effect-executions (delivered_state d registry s event) event id _,
          deliver-executions (protocol_state d registry s event) event id registry _,
        )
        (apply_protocol-progress d registry (record_event s event) event id quiet
          ∙ record_event-progress s event id other)
]
