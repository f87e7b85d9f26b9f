-- ===== src/Runtime/Synthesis/Folded.antt =====
-- packages/core/src/fold.ts: what folding an event that cancels or fails a thread does to the threads.
use looms.Prelude.{
  if◌then◌else◌, ◌⊎◌, or_try, All-filter_of, String, Option, some, true, false, ◌≡◌, ◌≢◌, ◌==◌, not,
  refl, ◌∙◌, or_else, truthy, All, All-filter, Option-cases, Bool-cases, inl, inr, arith,
}
use looms.Prelude.Dict.{get, get-put, values, values-keep, Entries-get}
use looms.Core.Json.{read_string, Fields}
use looms.Core.Envelope.{EventEnvelope, effect_failed}
use looms.Core.Thread.{cancelled, failed, is_terminal_status}
use looms.Core.State.{RunState, ThreadRecord, OutstandingEffect}
use looms.Core.Fold.Changes.{put_thread, drop_thread_work, target_thread}
use looms.Core.Fold.Protocol.{Decoders, Registry, thread_cancelled_step, thread_failed_step}
use looms.Core.Fold.Deliver.{deliver, deliver-cases, receiver}
use looms.Core.Fold.Ending.{OtherEffect, OtherWait, fail_unhandled_effect-other}
use looms.Core.Fold.Keyed.{ThreadsKeyed}
use looms.Core.Fold.Step.{fold_event, fold_event_durable, protocol_state, delivered_state}

-- No wait and no outstanding effect is the thread's own.
abbrev pub IsIdle : String → RunState → Type 0
IsIdle id s = All (OtherEffect id) s.outstanding_effects × All (OtherWait id) (values s.waits)

-- An event's receiver, if there is one in the state, is over.
abbrev pub ReceiverOver : RunState → EventEnvelope → Type 0
ReceiverOver s event =
    (id : String) (t : ThreadRecord)
    → receiver s event ≡ some id
    → get id s.threads ≡ some t
    → is_terminal_status t.status ≡ true

deliver-over :
    (registry : Registry) (s : RunState) (event : EventEnvelope)
    (settled : Option OutstandingEffect)
    → ReceiverOver s event
    → deliver registry s event settled ≡ s
deliver-over registry s event settled over = elim (deliver-cases registry s event settled) [
  | inl same ↦ same
  | inr (id, t, definition, e, found, live, known, same) ↦
      (let ended = over id t e found in ground arith)
]

-- Where the receiver is over after the protocol step, nothing else is done.
pub fold_event-over :
    (d : Decoders) (registry : Registry) (s : RunState) (event : EventEnvelope)
    → event.ephemeral ≡ false
    → event.type ≢ effect_failed
    → ReceiverOver (protocol_state d registry s event) event
    → fold_event d registry s event ≡ protocol_state d registry s event
fold_event-over d registry s event durable other over =
    fold_event_durable d registry s event durable
    ∙ fail_unhandled_effect-other (delivered_state d registry s event) event _ other
    ∙ deliver-over registry (protocol_state d registry s event) event _ over

-- The state with a thread's record, and without its work.
abbrev pub ended_with : RunState → ThreadRecord → String → RunState
ended_with s t id = drop_thread_work (put_thread s t) id

module _ (s : RunState) (t : ThreadRecord) (id : String) (own : t.thread_id ≡ id) where
  pub ended_with-get :
      (k : String)
      → get k (ended_with s t id).threads ≡ (if id == k then some t else get k s.threads)
  unfolding drop_thread_work put_thread
  ended_with-get k = rw (get-put t.thread_id k t s.threads) (rw own refl)

  pub ended_with-IsIdle : (k : String) → IsIdle k s → IsIdle k (ended_with s t id)
  unfolding drop_thread_work put_thread
  ended_with-IsIdle k (effects, waits) = (
    All-filter (OtherEffect k) _ _ effects,
    rw (values-keep (λ w. not (w.thread_id == id)) s.waits) (All-filter (OtherWait k) _ _ waits),
  )

  pub ended_with-IsIdle_own : IsIdle id (ended_with s t id)
  unfolding drop_thread_work put_thread
  ended_with-IsIdle_own = (
    All-filter_of (OtherEffect id) (λ item. not (item.thread_id == id)) (λ item h. ground arith) _,
    rw (values-keep (λ w. not (w.thread_id == id)) s.waits)
        (All-filter_of (OtherWait id) (λ w. not (w.thread_id == id)) (λ w h. ground arith) _),
  )

abbrev Over : RunState → String → Type 0
Over s id =
    (t : ThreadRecord)
    → get id s.threads ≡ some t
    → (id == "") ≡ false
    → is_terminal_status t.status ≡ true

-- A step that leaves the state as it is, its thread being over, or gives it a record that is over.
abbrev pub Ends : (ThreadRecord → ThreadRecord → Type 0) → RunState → String → RunState → Type 0
Ends Written s id next =
    ((next ≡ s) × Over s id)
    ⊎ ((t : ThreadRecord) × (u : ThreadRecord) × (get id s.threads ≡ some t)
        × (u.thread_id ≡ id)
        × (is_terminal_status u.status ≡ true)
        × Written t u
        × (next ≡ ended_with s u id))

abbrev pub Cancels : Option String → ThreadRecord → ThreadRecord → Type 0
Cancels reason t u =
    (is_terminal_status t.status ≡ false)
    × (u ≡ record t { status = cancelled; error = or_try reason t.error })

abbrev pub Anything : ThreadRecord → ThreadRecord → Type 0
Anything t u = Unit

module _ (s : RunState) (event : EventEnvelope) (fs : Fields) (id : String)
    (keyed : ThreadsKeyed s.threads) (target : target_thread event fs ≡ truthy (some id)) where
  owned : (t : ThreadRecord) → get id s.threads ≡ some t → t.thread_id ≡ id
  unfolding ThreadsKeyed
  owned t found = Entries-get (λ k t. t.thread_id ≡ k) id t s.threads keyed found

  pub thread_cancelled_step-Ends :
      Ends (Cancels (read_string fs "reason")) s id (or_else (thread_cancelled_step s event fs) s)
  unfolding thread_cancelled_step
  thread_cancelled_step-Ends = elim (Bool-cases (id == "")) [
    | inl empty ↦ inl (rw (target, empty) refl, λ t found named. cc)
    | inr named ↦ elim (Option-cases (get id s.threads)) [
      | inl missing ↦ inl (rw (target, named, missing) refl, λ t found named. cc)
      | inr (t, found) ↦ elim (Bool-cases (is_terminal_status t.status)) [
        | inl over ↦ inl (rw (target, named, found, over) refl, λ t' found' named. ground arith)
        | inr live ↦ inr (
          t,
          record t { status = cancelled; error = or_try (read_string fs "reason") t.error },
          found,
          owned t found,
          refl,
          (live, refl),
          rw (target, named, found, live) refl,
        )
      ]
    ]
  ]

  pub thread_failed_step-Ends : Ends Anything s id (or_else (thread_failed_step s event fs) s)
  unfolding thread_failed_step
  thread_failed_step-Ends = elim (Bool-cases (id == "")) [
    | inl empty ↦ inl (rw (target, empty) refl, λ t found named. cc)
    | inr named ↦ elim (Option-cases (get id s.threads)) [
      | inl missing ↦ inl (rw (target, named, missing) refl, λ t found named. cc)
      | inr (t, found) ↦ inr (
        t,
        record t { status = failed; error = some (or_else (read_string fs "error") "failed") },
        found,
        owned t found,
        refl,
        tt,
        rw (target, named, found) refl,
      )
    ]
  ]
