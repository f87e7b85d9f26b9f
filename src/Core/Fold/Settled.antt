-- ===== src/Core/Fold/Settled.antt =====
-- An effect that has completed is not outstanding, and is remembered once.
use looms.Core.Json.{Fields, payload_object}
use looms.Core.Fold.Deliver.{deliver, forget_completed_effects, fail_unhandled_effect}
use looms.Core.Fold.Step.{record_event}
use looms.Core.Fold.Frame.{drop_race-work}
use looms.Core.Envelope.{EventType, run_started}
use looms.Core.Fold.Reconcile.{reconcile_effects, map_effects}
use looms.Core.Fold.Protocol.{Decoders, Registry, protocol_case, apply_protocol, all_cases}
use looms.Prelude.{
  Distinct-filter, or_else, String, ◌≡◌, List, [], ◌∷◌, ◌++◌, Bool, false, ◌==◌, not, All,
  All-append, All-filter, All-filter_of, filter, includes, includes-append, includes-filter,
  Distinct, Distinct-snoc, eq_iff, arith, Option,
}
use looms.Core.Envelope.{EventEnvelope}
use looms.Core.Effects.{RuntimeEffect}
use looms.Core.State.{RunState, OutstandingEffect}
use looms.Core.Fold.Changes.{complete_effect}

-- None of the effects has completed.
unfoldable pub Unsettled : List String → List OutstandingEffect → Type 0
Unsettled completed items = All (λ item. includes completed item.effect_id ≡ false) items

Unsettled-filter :
    (completed : List String) (p : OutstandingEffect → Bool) (items : List OutstandingEffect)
    → Unsettled completed items
    → Unsettled completed (filter p items)
unfolding Unsettled
Unsettled-filter completed p items h =
    All-filter (λ item. includes completed item.effect_id ≡ false) p items h

Unsettled-append :
    (completed : List String) (xs ys : List OutstandingEffect)
    → Unsettled completed xs
    → Unsettled completed ys
    → Unsettled completed (xs ++ ys)
unfolding Unsettled
Unsettled-append completed xs ys h k =
    All-append (λ item. includes completed item.effect_id ≡ false) xs ys h k

-- Once an id joins the completed ones, the other effects are still unsettled.
Unsettled-snoc :
    (completed : List String) (id : String) (items : List OutstandingEffect)
    → Unsettled completed items
    → Unsettled (completed ++ id ∷ []) (filter (λ item. not (item.effect_id == id)) items)
unfolding Unsettled
Unsettled-snoc completed id [] h = tt
Unsettled-snoc completed id (item ∷ items) (new, h) = ground (
  arith,
  eq_iff item.effect_id id,
  eq_iff id item.effect_id,
  includes-append completed (id ∷ []) item.effect_id,
  Unsettled-snoc completed id items h,
)

Unsettled-forget :
    (p : String → Bool) (completed : List String) (items : List OutstandingEffect)
    → Unsettled completed items
    → Unsettled (filter p completed) items
unfolding Unsettled
Unsettled-forget p completed [] h = tt
Unsettled-forget p completed (item ∷ items) (new, h) =
    ground (arith, includes-filter p completed item.effect_id, Unsettled-forget p completed items h)

Unsettled-map_effects :
    (thread_id : String) (event : EventEnvelope) (effects : List RuntimeEffect)
    (completed : List String) (existing : List OutstandingEffect)
    (settled : Option OutstandingEffect)
    → Unsettled completed (map_effects thread_id event effects completed existing settled)
unfolding Unsettled map_effects
Unsettled-map_effects thread_id event effects completed existing settled =
    All-filter_of (λ item. includes completed item.effect_id ≡ false)
      (λ item. not (includes completed item.effect_id)) (λ item e. ground arith) _

pub record IsSettled (s : RunState) : Type 0 where
  pub unsettled : Unsettled s.completed_effect_ids s.outstanding_effects
  pub distinct : Distinct s.completed_effect_ids

IsSettled-complete_effect :
    (s : RunState) (id : String) → IsSettled s → IsSettled (complete_effect s id)
unfolding complete_effect
IsSettled-complete_effect s id h = record {
  unsettled = ground (
    arith,
    Unsettled-snoc s.completed_effect_ids id s.outstanding_effects h.unsettled,
    Unsettled-filter s.completed_effect_ids (λ item. not (item.effect_id == id))
        s.outstanding_effects h.unsettled,
  );
  distinct = ground (arith, Distinct-snoc s.completed_effect_ids id, h.distinct);
}

module _ (d : Decoders) (registry : Registry) (s : RunState) (event : EventEnvelope) where
  protocol_case-IsSettled :
      (fs : Fields) (type : EventType)
      → IsSettled s
      → IsSettled (or_else (protocol_case d registry s event fs type) s)
  unfolding all_cases
  protocol_case-IsSettled fs run_started h = ground arith
  protocol_case-IsSettled fs _ h =
      grind (arith, drop_race-work, Unsettled-filter, IsSettled-complete_effect)

  pub IsSettled-apply_protocol : IsSettled s → IsSettled (apply_protocol d registry s event)
  unfolding apply_protocol
  IsSettled-apply_protocol = protocol_case-IsSettled (payload_object event.payload) event.type

pub IsSettled-record_event :
    (s : RunState) (event : EventEnvelope) → IsSettled s → IsSettled (record_event s event)
unfolding record_event
IsSettled-record_event s event h = grind (arith, IsSettled-complete_effect)

IsSettled-reconcile_effects :
    (s : RunState) (thread_id : String) (event : EventEnvelope) (effects : List RuntimeEffect)
    (settled : Option OutstandingEffect)
    → IsSettled s
    → IsSettled (reconcile_effects s thread_id event effects settled)
unfolding reconcile_effects
IsSettled-reconcile_effects s thread_id event effects settled h =
    grind (arith, Unsettled-filter, Unsettled-append, Unsettled-map_effects)

IsSettled-forget_completed_effects :
    (s : RunState) (thread_id : String) (enabled : List RuntimeEffect)
    → IsSettled s
    → IsSettled (forget_completed_effects s thread_id enabled)
unfolding forget_completed_effects
IsSettled-forget_completed_effects s thread_id enabled h = record {
  unsettled = Unsettled-forget _ s.completed_effect_ids s.outstanding_effects h.unsettled;
  distinct = Distinct-filter _ s.completed_effect_ids h.distinct;
}

pub IsSettled-deliver :
    (registry : Registry) (s : RunState) (event : EventEnvelope)
    (settled : Option OutstandingEffect)
    → IsSettled s
    → IsSettled (deliver registry s event settled)
unfolding deliver
IsSettled-deliver registry s event settled h =
    grind (arith, IsSettled-reconcile_effects, IsSettled-forget_completed_effects)

pub IsSettled-fail_unhandled_effect :
    (s : RunState) (event : EventEnvelope) (before : List OutstandingEffect)
    → IsSettled s
    → IsSettled (fail_unhandled_effect s event before)
unfolding fail_unhandled_effect
IsSettled-fail_unhandled_effect s event before h = grind (arith, Unsettled-filter)
