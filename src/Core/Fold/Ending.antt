-- ===== src/Core/Fold/Ending.antt =====
-- A thread that fails or is cancelled leaves no work behind.
mod Work
pub use Work.{IsEnded, OtherEffect, OtherWait}
use Work.{deliver-IsEnded, thread_failed_step-IsEnded, thread_cancelled_step-IsEnded}
use looms.Core.Fold.Terminal.{record_event-threads}
use looms.Prelude.{
  ◌≢◌, String, ◌≡◌, refl, sym, subst, Option, some, List, true, false, ◌==◌, not, or_else, or_try,
  All, All-append, All-filter, All-filter_of, inl, inr, eq_iff, arith,
}
use looms.Prelude.Dict.{get, values, get-put, values-keep, Entries-get}
use looms.Core.Json.{read_string, Fields, payload_object}
use looms.Core.Envelope.{EventEnvelope, thread_failed, thread_cancelled, effect_failed}
use looms.Core.Effects.{RuntimeEffect}
use looms.Core.Thread.{ThreadDefinition, ThreadStatus, failed, cancelled, is_terminal_status}
use looms.Core.State.{RunState, ThreadRecord, WaitRecord, OutstandingEffect}
use looms.Core.Fold.Changes.{put_thread, drop_thread_work, target_thread}
use looms.Core.Fold.Protocol.{
  Decoders, Registry, apply_protocol, protocol_case, thread_failed_step, thread_cancelled_step,
}
use looms.Core.Fold.Reconcile.{map_effects, fresh_effect, reconcile_effects}
use looms.Core.Fold.Deliver.{
  thread_context, deliver, deliver-cases, deliver_to, forget_completed_effects,
  fail_unhandled_effect,
}
use looms.Core.Fold.Step.{
  record_event, fold_event, fold_event_durable, protocol_state, delivered_state,
}
use looms.Core.Fold.Keyed.{ThreadsKeyed, IsKeyed, IsKeyed-record_event, IsKeyed-apply_protocol}
use looms.Core.Fold.Mapping.{map_from-All}

-- Only a failed effect has an aftermath.
pub fail_unhandled_effect-other :
    (s : RunState) (event : EventEnvelope) (before : List OutstandingEffect)
    → event.type ≢ effect_failed
    → fail_unhandled_effect s event before ≡ s
unfolding fail_unhandled_effect
fail_unhandled_effect-other s event before h = ground arith

module _ (d : Decoders) (registry : Registry) (s : RunState) (event : EventEnvelope) (id : String)
    (t : ThreadRecord) (keyed : IsKeyed s) (durable : event.ephemeral ≡ false)
    (target : target_thread event (payload_object event.payload) ≡ some id)
    (found : get id s.threads ≡ some t) where
  -- What the protocol step ends stays ended over the delivery of the same event.
  fold_event-IsEnded_of :
      (status : ThreadStatus)
      → is_terminal_status status ≡ true
      → event.type ≢ effect_failed
      → IsEnded id status (protocol_state d registry s event)
      → IsEnded id status (fold_event d registry s event)
  fold_event-IsEnded_of status over other h =
      let recorded = IsKeyed-record_event s event keyed in
      let handled = IsKeyed-apply_protocol d registry _ event recorded in
      rw
        (
          fold_event_durable d registry s event durable,
          fail_unhandled_effect-other (delivered_state d registry s event) event _ other,
        )
        (deliver-IsEnded id status over registry _ event _ handled.threads h)

  named : t.thread_id ≡ id
  unfolding ThreadsKeyed
  named = Entries-get (λ k t. t.thread_id ≡ k) id t s.threads keyed.threads found

  found_later : get id (record_event s event).threads ≡ some t
  found_later = rw record_event-threads found

  -- A thread.failed event for a thread of a keyed state leaves the thread failed, and none of its
  -- waits and outstanding effects; the same event's delivery gives it no new ones.
  pub fold_event-failed :
      event.type ≡ thread_failed → IsEnded id failed (fold_event d registry s event)
  unfolding apply_protocol protocol_case
  fold_event-failed type = fold_event-IsEnded_of failed refl (ground arith) (
      subst
        (λ ty. IsEnded id failed (
          or_else
            (protocol_case d registry (record_event s event) event (payload_object event.payload)
              ty)
            (record_event s event)))
        (sym type)
        (thread_failed_step-IsEnded id (record_event s event) event _ t named target found_later))

  -- So does a thread.cancelled event for a thread that is not over.
  pub fold_event-cancelled :
      event.type ≡ thread_cancelled
      → is_terminal_status t.status ≡ false
      → IsEnded id cancelled (fold_event d registry s event)
  unfolding apply_protocol protocol_case
  fold_event-cancelled type live = fold_event-IsEnded_of cancelled refl (ground arith) (
      subst
        (λ ty. IsEnded id cancelled (
          or_else
            (protocol_case d registry (record_event s event) event (payload_object event.payload)
              ty)
            (record_event s event)))
        (sym type)
        (thread_cancelled_step-IsEnded id (record_event s event) event _ t named target found_later
          live))
