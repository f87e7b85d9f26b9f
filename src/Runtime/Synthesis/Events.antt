-- ===== src/Runtime/Synthesis/Events.antt =====
-- packages/runtime/src/wake-engine.ts: what folding one of the events that a wake adds does to a thread.
use looms.Prelude.{
  ◌≢◌, ℕ, String, none, some, true, false, ◌≡◌, ◌==◌, refl, ap, sym, ◌∙◌, subst, truthy, Bool-cases,
  inl, inr, eq_iff, arith,
}
use looms.Prelude.Dict.{get}
use looms.Core.Json.{payload_object, field_of, read_string}
use looms.Core.Envelope.{EventEnvelope, create_event, effect_failed}
use looms.Core.Thread.{cancelled, is_terminal_status}
use looms.Core.State.{RunState, ThreadRecord}
use looms.Core.Fold.Changes.{target_thread}
use looms.Core.Fold.Protocol.{Decoders, Registry, apply_protocol, protocol_case}
use looms.Core.Fold.Deliver.{receiver}
use looms.Core.Fold.Keyed.{IsKeyed, IsKeyed-record_event}
use looms.Core.Fold.Step.{fold_event, record_event, protocol_state}
use looms.Runtime.Cascade.{cancellation_of}
use looms.Runtime.Synthesis.{failure_of}
use looms.Runtime.Synthesis.Folded.{
  Ends, Cancels, Anything, IsIdle, ReceiverOver, ended_with, ended_with-get, ended_with-IsIdle,
  ended_with-IsIdle_own, fold_event-over, thread_cancelled_step-Ends, thread_failed_step-Ends,
}

-- The record of a thread that the cascade cancels.
abbrev pub cancelled_thread : ThreadRecord → ThreadRecord
cancelled_thread t = record t { status = cancelled; error = some "cancelled" }

module _ (Written : ThreadRecord → ThreadRecord → Type 0) (s : RunState) (id : String)
    (next : RunState) where
  pub Ends-ReceiverOver :
      (event : EventEnvelope)
      → receiver next event ≡ truthy (some id)
      → Ends Written s id next
      → ReceiverOver next event
  Ends-ReceiverOver event to (inl (same, over)) j t e found = elim (Bool-cases (id == "")) [
    | inl empty ↦ ground arith
    | inr named ↦
        let own : id ≡ j = ground arith in
        over t
          (subst (λ x. get x s.threads ≡ some t) (sym own)
            (subst (λ s'. get j s'.threads ≡ some t) same found))
          named
  ]
  Ends-ReceiverOver event to (inr (t0, u, _, own, over, _, same)) j t e found =
      elim (Bool-cases (id == "")) [
        | inl empty ↦ ground arith
        | inr named ↦
            let here : id ≡ j = ground arith in
            let written = ended_with-get s u id own j in
            let there : get j (ended_with s u id).threads ≡ some t =
              subst (λ s'. get j s'.threads ≡ some t) same found in
            ground (arith, eq_iff id j)
      ]

  pub Ends-get_other :
      (k : String)
      → (id == k) ≡ false
      → Ends Written s id next
      → get k next.threads ≡ get k s.threads
  Ends-get_other k other (inl (same, _)) = ap (λ s'. get k s'.threads) same
  Ends-get_other k other (inr (t, u, _, own, _, _, same)) =
      ap (λ s'. get k s'.threads) same ∙ ended_with-get s u id own k ∙ rw other refl

  pub Ends-IsIdle : (k : String) → Ends Written s id next → IsIdle k s → IsIdle k next
  Ends-IsIdle k (inl (same, _)) idle = subst (IsIdle k) (sym same) idle
  Ends-IsIdle k (inr (t, u, _, own, _, _, same)) idle =
      subst (IsIdle k) (sym same) (ended_with-IsIdle s u id own k idle)

module _ (s : RunState) (id : String) (next : RunState) (t : ThreadRecord)
    (ends : Ends (Cancels (some "cancelled")) s id next) (found : get id s.threads ≡ some t) where
  pub Ends-live :
      is_terminal_status t.status ≡ false
      → (id == "") ≡ false
      → (get id next.threads ≡ some (cancelled_thread t)) × IsIdle id next
  Ends-live live named = elim ends [
    | inl (same, over) ↦ (let ended = over t found named in ground arith)
    | inr (t', u, there, own, _, (_, written), same) ↦
        let one : t' ≡ t = ground arith in
        let record_of : u ≡ cancelled_thread t = subst (λ x. u ≡ cancelled_thread x) one written in
        (
          ap (λ s'. get id s'.threads) same
              ∙ ended_with-get s u id own id
              ∙ ground (arith, eq_iff id id),
          subst (IsIdle id) (sym same) (ended_with-IsIdle_own s u id own),
        )
  ]

  pub Ends-over : is_terminal_status t.status ≡ true → next ≡ s
  Ends-over over = elim ends [
    | inl (same, _) ↦ same
    | inr (t', u, there, _, _, (live, _), _) ↦ ground arith
  ]

pub record_event-IsIdle :
    (s : RunState) (event : EventEnvelope) (k : String)
    → truthy event.effect_id ≡ none
    → truthy event.idempotency_key ≡ none
    → IsIdle k s
    → IsIdle k (record_event s event)
unfolding record_event
record_event-IsIdle s event k no_effect no_key idle = elim (Bool-cases (event.run_id == "")) [
  | inl unnamed ↦ rw (no_effect, no_key, unnamed) idle
  | inr named ↦ rw (no_effect, no_key, named) idle
]

module _ (new_id : String) (clock : ℕ) (run_id id : String) where
  abbrev pub cancellation : EventEnvelope
  cancellation = create_event new_id clock run_id (cancellation_of id) 0

  abbrev pub failure : ThreadRecord → EventEnvelope
  failure r = create_event new_id clock run_id (failure_of id r) 0

module _ (d : Decoders) (registry : Registry) (s : RunState) (keyed : IsKeyed s) where
  fold_event-Ends :
      (Written : ThreadRecord → ThreadRecord → Type 0) (event : EventEnvelope) (id : String)
      → event.ephemeral ≡ false
      → event.type ≢ effect_failed
      → receiver (protocol_state d registry s event) event ≡ truthy (some id)
      → Ends Written (record_event s event) id (protocol_state d registry s event)
      → Ends Written (record_event s event) id (fold_event d registry s event)
  fold_event-Ends Written event id durable other to ends =
      subst (Ends Written (record_event s event) id)
        (sym (
          fold_event-over d registry s event durable other (
            Ends-ReceiverOver Written (record_event s event) id (protocol_state d registry s event)
              event to ends)))
        ends

  pub cancellation-Ends :
      (new_id : String) (clock : ℕ) (run_id id : String)
      → let event = cancellation new_id clock run_id id in
        Ends (Cancels (some "cancelled")) (record_event s event) id (fold_event d registry s event)
  unfolding create_event cancellation_of apply_protocol protocol_case receiver target_thread
      read_string field_of
  cancellation-Ends new_id clock run_id id =
      let event = cancellation new_id clock run_id id in
      fold_event-Ends (Cancels (some "cancelled")) event id refl (λ e. cc) refl
        (thread_cancelled_step-Ends (record_event s event) event (payload_object event.payload) id
          (IsKeyed-record_event s event keyed).threads refl)

  pub failure-Ends :
      (new_id : String) (clock : ℕ) (run_id id : String) (r : ThreadRecord)
      → let event = failure new_id clock run_id id r in
        Ends Anything (record_event s event) id (fold_event d registry s event)
  unfolding create_event failure_of apply_protocol protocol_case receiver target_thread read_string
      field_of
  failure-Ends new_id clock run_id id r =
      let event = failure new_id clock run_id id r in
      fold_event-Ends Anything event id refl (λ e. cc) refl
        (thread_failed_step-Ends (record_event s event) event (payload_object event.payload) id
          (IsKeyed-record_event s event keyed).threads refl)
