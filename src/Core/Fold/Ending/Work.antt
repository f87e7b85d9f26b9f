-- ===== src/Core/Fold/Ending/Work.antt =====
-- A thread without waits and outstanding effects: the steps that leave it so.
use looms.Prelude.{
  String, ◌≡◌, refl, Option, some, List, true, false, ◌==◌, not, or_else, or_try, All, All-append,
  All-filter, All-filter_of, inl, inr, eq_iff, arith,
}
use looms.Prelude.Dict.{get, values, get-put, values-keep, Entries-get}
use looms.Core.Json.{read_string, Fields}
use looms.Core.Envelope.{EventEnvelope}
use looms.Core.Effects.{RuntimeEffect}
use looms.Core.Thread.{ThreadDefinition, ThreadStatus, failed, cancelled, is_terminal_status}
use looms.Core.State.{RunState, ThreadRecord, WaitRecord, OutstandingEffect}
use looms.Core.Fold.Changes.{put_thread, drop_thread_work, target_thread}
use looms.Core.Fold.Protocol.{Registry, thread_failed_step, thread_cancelled_step}
use looms.Core.Fold.Reconcile.{map_effects, fresh_effect, reconcile_effects}
use looms.Core.Fold.Deliver.{
  thread_context, deliver, deliver-cases, deliver_to, forget_completed_effects,
}
use looms.Core.Fold.Keyed.{ThreadsKeyed}
use looms.Core.Fold.Mapping.{map_from-All}

module _ (id : String) where
  abbrev pub OtherEffect : OutstandingEffect → Type 0
  OtherEffect item = (item.thread_id == id) ≡ false

  abbrev pub OtherWait : WaitRecord → Type 0
  OtherWait w = (w.thread_id == id) ≡ false

  -- The thread has ended with the status, and no wait or outstanding effect is its own.
  pub record IsEnded (status : ThreadStatus) (s : RunState) : Type 0 where
    pub thread : ThreadRecord
    pub found : get id s.threads ≡ some thread
    pub ended : thread.status ≡ status
    pub no_effects : All OtherEffect s.outstanding_effects
    pub no_waits : All OtherWait (values s.waits)

  -- Dropping a thread's work after its record was written ends it.
  drop_thread_work-IsEnded :
      (s : RunState) (t : ThreadRecord)
      → t.thread_id ≡ id
      → IsEnded t.status (drop_thread_work (put_thread s t) id)
  unfolding drop_thread_work put_thread
  drop_thread_work-IsEnded s t e = record {
    thread = t;
    found = rw (get-put t.thread_id id t s.threads) (ground (arith, eq_iff t.thread_id id));
    ended = refl;
    no_effects =
        All-filter_of OtherEffect (λ item. not (item.thread_id == id)) (λ item h. ground arith) _;
    no_waits =
        rw (values-keep (λ w. not (w.thread_id == id)) s.waits)
          (All-filter_of OtherWait (λ w. not (w.thread_id == id)) (λ w h. ground arith) _);
  }

  -- The effects that another thread gets are not this thread's.
  map_effects-Other :
      (other : String) (event : EventEnvelope) (effects : List RuntimeEffect)
      (completed : List String) (existing : List OutstandingEffect)
      (settled : Option OutstandingEffect)
      → (other == id) ≡ false
      → All OtherEffect existing
      → All OtherEffect (map_effects other event effects completed existing settled)
  unfolding map_effects fresh_effect
  map_effects-Other other event effects completed existing settled ne h =
      All-filter OtherEffect _ _
        (map_from-All other event settled OtherEffect (λ index effect. ne) 0 effects existing h)

  reconcile_effects-Other :
      (s : RunState) (other : String) (event : EventEnvelope) (effects : List RuntimeEffect)
      (settled : Option OutstandingEffect)
      → (other == id) ≡ false
      → All OtherEffect s.outstanding_effects
      → All OtherEffect (reconcile_effects s other event effects settled).outstanding_effects
  unfolding reconcile_effects
  reconcile_effects-Other s other event effects settled ne h =
      let others =
        All-filter OtherEffect (λ item. not (item.thread_id == other)) s.outstanding_effects h in
      let own =
        map_effects-Other other event effects s.completed_effect_ids _ settled ne
          (All-filter OtherEffect (λ item. item.thread_id == other) s.outstanding_effects h) in
      ground (arith, All-append OtherEffect _ _ others own)

  module _ (status : ThreadStatus) (over : is_terminal_status status ≡ true) where
    deliver_to-Other :
        (s : RunState) (event : EventEnvelope) (settled : Option OutstandingEffect) (other : String)
        (t : ThreadRecord) (definition : ThreadDefinition)
        → (other == id) ≡ false
        → All OtherEffect s.outstanding_effects
        → All OtherEffect (deliver_to s event settled other t definition).outstanding_effects
    unfolding deliver_to forget_completed_effects
    deliver_to-Other s event settled other t definition ne h =
        let next_state = definition.step t.state event (thread_context s other t) in
        let enabled = definition.effects next_state (thread_context s other t) in
        ground (
          arith,
          reconcile_effects-Other (put_thread s (record t { state = next_state })) other event
              enabled settled ne h,
        )

    deliver_to-IsEnded :
        (s : RunState) (event : EventEnvelope) (settled : Option OutstandingEffect) (other : String)
        (t : ThreadRecord) (definition : ThreadDefinition)
        → (other == id) ≡ false
        → t.thread_id ≡ other
        → IsEnded status s
        → IsEnded status (deliver_to s event settled other t definition)
    unfolding deliver_to reconcile_effects forget_completed_effects
    deliver_to-IsEnded s event settled other t definition ne e h = record {
      thread = h.thread;
      found = ground (
        arith,
        h.found,
        get-put t.thread_id id
            (record t { state = definition.step t.state event (thread_context s other t) })
            s.threads,
        eq_iff t.thread_id id,
        eq_iff other id,
      );
      ended = h.ended;
      no_effects = deliver_to-Other s event settled other t definition ne h.no_effects;
      no_waits = ground (arith, h.no_waits);
    }

    pub deliver-IsEnded :
        (registry : Registry) (s : RunState) (event : EventEnvelope)
        (settled : Option OutstandingEffect)
        → ThreadsKeyed s.threads
        → IsEnded status s
        → IsEnded status (deliver registry s event settled)
    unfolding ThreadsKeyed
    deliver-IsEnded registry s event settled keyed h =
        elim (deliver-cases registry s event settled) [
          | inl same ↦ rw same h
          | inr (other, t, definition, _, found, live, _, same) ↦ rw same (
              deliver_to-IsEnded s event settled other t definition
                (ground (arith, eq_iff other id, h.found, h.ended))
                (Entries-get (λ k t. t.thread_id ≡ k) other t s.threads keyed found) h)
        ]

  module _ (s : RunState) (event : EventEnvelope) (fs : Fields) (t : ThreadRecord)
      (keyed : t.thread_id ≡ id) (target : target_thread event fs ≡ some id)
      (found : get id s.threads ≡ some t) where
    pub thread_failed_step-IsEnded : IsEnded failed (or_else (thread_failed_step s event fs) s)
    unfolding thread_failed_step
    thread_failed_step-IsEnded =
        rw (target, found)
          (drop_thread_work-IsEnded s
            (record t { status = failed; error = some (or_else (read_string fs "error") "failed") })
            keyed)

    pub thread_cancelled_step-IsEnded :
        is_terminal_status t.status ≡ false
        → IsEnded cancelled (or_else (thread_cancelled_step s event fs) s)
    unfolding thread_cancelled_step
    thread_cancelled_step-IsEnded live =
        rw (target, found, live)
          (drop_thread_work-IsEnded s
            (record t { status = cancelled; error = or_try (read_string fs "reason") t.error })
            keyed)
