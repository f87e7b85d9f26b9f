-- ===== src/Runtime/Retry/Attempts.antt =====
-- packages/runtime/src/retry-policy.ts: what folding a planned attempt failure records.
use looms.Prelude.{
  ℕ, ◌+◌, String, Option, none, some, true, false, ◌≡◌, ◌==◌, refl, sym, ap, subst, ◌∙◌,
  if◌then◌else◌, Bool-cases, inl, inr, eq_refl,
}
use looms.Prelude.Dict.{get, get-put, get-remove}
use looms.Core.Json.{Json}
use looms.Core.Envelope.{
  EventEnvelope, with_assigned_seq, effect_failed, retry_scheduled, create_event,
}
use looms.Core.State.{RunState, EffectExecutionRecord, ExecutionStatus}
use looms.Core.Fold.Changes.{complete_effect}
use looms.Core.Fold.Executions.{prior_heartbeat_details, put_execution}
use looms.Core.Fold.Protocol.{Decoders, Registry, apply_protocol-case, all_cases}
use looms.Core.Fold.Progress.{deliver-executions, fail_unhandled_effect-executions}
use looms.Core.Fold.Step.{
  adopt_run_id, record_event, fold_event, fold_event_durable, protocol_state, delivered_state,
}
use looms.Runtime.Retry.{
  RetryPolicy, AttemptFailure, is_last, retry_delay, retry_payload, plan_by, fail_plan, retry_event,
  create_effect_failed_event, plan_attempt_failure,
}

-- The record of an attempt that waits, with the progress that the effect has reported.
abbrev pub waiting_execution : AttemptFailure → RetryPolicy → Option Json → EffectExecutionRecord
waiting_execution input retry progress = record {
  effect_id = input.item.effect_id;
  attempt = input.attempt;
  status = ExecutionStatus.retry_wait;
  next_attempt_at = some (input.now + retry_delay retry input.attempt input.retry_after_ms);
  deadline_at = some (input.now + retry_delay retry input.attempt input.retry_after_ms);
  started_at = none;
  last_heartbeat_at = none;
  heartbeat_details = progress;
  last_error = some input.error;
  dispatch_try = 0;
}

-- What a state is to keep of the attempt.
abbrev pub execution_by :
    RunState → AttemptFailure → Option RetryPolicy → Option EffectExecutionRecord
execution_by s input none = none
execution_by s input (some retry) =
    if is_last input retry
    then none
    else some (waiting_execution input retry (prior_heartbeat_details s input.item.effect_id))

adopt_run_id-progress :
    (s : RunState) (event : EventEnvelope) (id : String)
    → prior_heartbeat_details (adopt_run_id s event) id ≡ prior_heartbeat_details s id
unfolding prior_heartbeat_details
adopt_run_id-progress s event id = elim (Bool-cases (event.run_id == "")) [
  | inl unnamed ↦ rw unnamed refl
  | inr named ↦ rw named refl
]

module _ (d : Decoders) (registry : Registry) (s : RunState) where
  fold_event-executions :
      (event : EventEnvelope)
      → event.ephemeral ≡ false
      → (fold_event d registry s event).effect_executions
        ≡ (protocol_state d registry s event).effect_executions
  fold_event-executions event h =
      ap (λ s'. s'.effect_executions) (fold_event_durable d registry s event h)
      ∙ fail_unhandled_effect-executions (delivered_state d registry s event) event event.id _
      ∙ deliver-executions (protocol_state d registry s event) event event.id registry _

  module _ (new_id : String) (clock : ℕ) (input : AttemptFailure) (seq : ℕ) where
    fail_plan-executions :
        (input.item.effect_id == "") ≡ false
        → get input.item.effect_id
            (fold_event d registry s (
              with_assigned_seq
                (fail_plan new_id clock input).event
                input.run_id
                seq)).effect_executions
          ≡ none
    unfolding fail_plan create_effect_failed_event create_event record_event complete_effect
        all_cases
    fail_plan-executions named =
        let event = with_assigned_seq (fail_plan new_id clock input).event input.run_id seq in
        let id = input.item.effect_id in
        ap (get id) (fold_event-executions event refl)
        ∙ ap (λ s'. get id s'.effect_executions)
            (apply_protocol-case d registry (record_event s event) event effect_failed refl)
        ∙ rw named (get-remove id id _ ∙ rw (eq_refl id) refl)

    retry_event-executions :
        (retry : RetryPolicy)
        → (input.item.effect_id == "") ≡ false
        → is_last input retry ≡ false
        → get input.item.effect_id
            (fold_event d registry s (
              with_assigned_seq
                (retry_event new_id clock input retry)
                input.run_id
                seq)).effect_executions
          ≡ execution_by s input (some retry)
    unfolding retry_event create_event record_event all_cases retry_payload put_execution
    retry_event-executions retry named again =
        let event = with_assigned_seq (retry_event new_id clock input retry) input.run_id seq in
        let id = input.item.effect_id in
        ap (get id) (fold_event-executions event refl)
        ∙ ap (λ s'. get id s'.effect_executions)
            (apply_protocol-case d registry (record_event s event) event retry_scheduled refl)
        ∙ rw (named, again)
            (get-put id id _ _
              ∙ rw (eq_refl id) (
                  ap (λ h. some (waiting_execution input retry h))
                    (adopt_run_id-progress s event id)))

    plan_by-executions :
        (o : Option RetryPolicy)
        → (input.item.effect_id == "") ≡ false
        → get input.item.effect_id
            (fold_event d registry s (
              with_assigned_seq
                (plan_by new_id clock input o).event
                input.run_id
                seq)).effect_executions
          ≡ execution_by s input o
    unfolding plan_by
    plan_by-executions none named = fail_plan-executions named
    plan_by-executions (some retry) named = elim (Bool-cases (is_last input retry)) [
      | inl last ↦ rw last (fail_plan-executions named)
      | inr again ↦
          subst
            (λ b.
              get input.item.effect_id
                (fold_event d registry s (
                  with_assigned_seq
                    (if b then fail_plan new_id clock input else record {
                      event = retry_event new_id clock input retry;
                      retrying = true;
                    }).event
                    input.run_id seq)).effect_executions
              ≡ execution_by s input (some retry))
            (sym again) (retry_event-executions retry named again)
    ]

    -- For an effect with an id: once the event that `planAttemptFailure` plans for a failed attempt is folded, in any state, the state records for the effect an attempt that waits, with this attempt's number and error, until the delay of the policy has passed, and with the progress that the effect had reported; and it records none, where the failure may not be retried, the effect has no policy, or the policy's attempts are used up.
    pub plan_attempt_failure-fold_event :
        (input.item.effect_id == "") ≡ false
        → get input.item.effect_id
            (fold_event d registry s (
              with_assigned_seq
                (plan_attempt_failure new_id clock input).event
                input.run_id
                seq)).effect_executions
          ≡ execution_by s input input.retry
    unfolding plan_attempt_failure
    plan_attempt_failure-fold_event named = plan_by-executions input.retry named
