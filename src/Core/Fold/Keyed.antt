-- ===== src/Core/Fold/Keyed.antt =====
-- The tables of a run's state are keyed by the ids of their records.
use looms.Prelude.{Distinct, Option, List, [], ◌∷◌, Bool, String, ◌≡◌, or_else, arith}
use looms.Prelude.Dict.{
  keys, Distinct-keys-put, Distinct-keys-remove, Distinct-keys-keep, Entries-keep, Entries-remove,
  remove, keep, Dict, Entries, Entries-put, put,
}
use looms.Core.Json.{Fields}
use looms.Core.Envelope.{EventEnvelope, EventType, run_started}
use looms.Core.State.{OutstandingEffect, WaitRecord, EffectExecutionRecord, RunState, ThreadRecord}
use looms.Core.Fold.Protocol.{
  apply_protocol, drop_race, Decoders, Registry, protocol_case, all_cases,
}
use looms.Core.Fold.Step.{record_event}
use looms.Core.Fold.Reconcile.{reconcile_effects}
use looms.Core.Fold.Deliver.{deliver, forget_completed_effects, fail_unhandled_effect}
use looms.Core.Fold.Changes.{remove_wait, complete_effect}
use looms.Core.Fold.Frame.{drop_race-work, drop_race-threads}

-- Every thread stands under its own id.
unfoldable pub ThreadsKeyed : Dict ThreadRecord → Type 0
ThreadsKeyed m = Entries (λ k t. t.thread_id ≡ k) m

ThreadsKeyed-put :
    (k : String) (t : ThreadRecord) (m : Dict ThreadRecord)
    → t.thread_id ≡ k
    → ThreadsKeyed m
    → ThreadsKeyed (put k t m)
unfolding ThreadsKeyed
ThreadsKeyed-put k t m e h = Entries-put (λ k t. t.thread_id ≡ k) k t m e h

-- Every wait stands under its own id, and no id twice.
unfoldable pub WaitsKeyed : Dict WaitRecord → Type 0
WaitsKeyed m = Entries (λ k w. w.wait_id ≡ k) m × Distinct (keys m)

module _ (m : Dict WaitRecord) where
  WaitsKeyed-put :
      (k : String) (w : WaitRecord) → w.wait_id ≡ k → WaitsKeyed m → WaitsKeyed (put k w m)
  unfolding WaitsKeyed
  WaitsKeyed-put k w e h =
      (Entries-put (λ k w. w.wait_id ≡ k) k w m e h.0, Distinct-keys-put k w m h.1)

  pub WaitsKeyed-remove : (k : String) → WaitsKeyed m → WaitsKeyed (remove k m)
  unfolding WaitsKeyed
  WaitsKeyed-remove k h =
      (Entries-remove (λ k w. w.wait_id ≡ k) k m h.0, Distinct-keys-remove k m h.1)

  WaitsKeyed-keep : (p : WaitRecord → Bool) → WaitsKeyed m → WaitsKeyed (keep p m)
  unfolding WaitsKeyed
  WaitsKeyed-keep p h = (Entries-keep (λ k w. w.wait_id ≡ k) p m h.0, Distinct-keys-keep p m h.1)

drop_race-WaitsKeyed :
    (race : String) (siblings : List WaitRecord) (s : RunState)
    → WaitsKeyed s.waits
    → WaitsKeyed (drop_race race siblings s).waits
unfolding drop_race
drop_race-WaitsKeyed race [] s h = h
drop_race-WaitsKeyed race (w ∷ ws) s h = ground (
  arith,
  WaitsKeyed-remove s.waits w.wait_id h,
  drop_race-WaitsKeyed race ws s h,
  drop_race-WaitsKeyed race ws (remove_wait s w.wait_id),
)

-- Every execution stands under its effect's id.
unfoldable pub ExecutionsKeyed : Dict EffectExecutionRecord → Type 0
ExecutionsKeyed m = Entries (λ k x. x.effect_id ≡ k) m

ExecutionsKeyed-nil : ExecutionsKeyed []
unfolding ExecutionsKeyed
ExecutionsKeyed-nil = tt

module _ (m : Dict EffectExecutionRecord) where
  ExecutionsKeyed-put :
      (k : String) (x : EffectExecutionRecord)
      → x.effect_id ≡ k
      → ExecutionsKeyed m
      → ExecutionsKeyed (put k x m)
  unfolding ExecutionsKeyed
  ExecutionsKeyed-put k x e h = Entries-put (λ k x. x.effect_id ≡ k) k x m e h

  ExecutionsKeyed-remove : (k : String) → ExecutionsKeyed m → ExecutionsKeyed (remove k m)
  unfolding ExecutionsKeyed
  ExecutionsKeyed-remove k h = Entries-remove (λ k x. x.effect_id ≡ k) k m h

module _ (d : Decoders) (registry : Registry) (s : RunState) (event : EventEnvelope) where
  protocol_case-ThreadsKeyed :
      (fs : Fields) (type : EventType)
      → ThreadsKeyed s.threads
      → ThreadsKeyed (or_else (protocol_case d registry s event fs type) s).threads
  unfolding all_cases complete_effect
  protocol_case-ThreadsKeyed fs run_started h = h
  protocol_case-ThreadsKeyed fs _ h = grind (arith, drop_race-threads, ThreadsKeyed-put)

  protocol_case-ThreadsDistinct :
      (fs : Fields) (type : EventType)
      → Distinct (keys s.threads)
      → Distinct (keys (or_else (protocol_case d registry s event fs type) s).threads)
  unfolding all_cases complete_effect
  protocol_case-ThreadsDistinct fs run_started h = h
  protocol_case-ThreadsDistinct fs _ h = grind (arith, drop_race-threads, Distinct-keys-put)

  protocol_case-WaitsKeyed :
      (fs : Fields) (type : EventType)
      → WaitsKeyed s.waits
      → WaitsKeyed (or_else (protocol_case d registry s event fs type) s).waits
  unfolding all_cases complete_effect
  protocol_case-WaitsKeyed fs run_started h = h
  protocol_case-WaitsKeyed fs _ h =
      grind (arith, drop_race-WaitsKeyed, WaitsKeyed-put, WaitsKeyed-remove, WaitsKeyed-keep)

  protocol_case-ExecutionsKeyed :
      (fs : Fields) (type : EventType)
      → ExecutionsKeyed s.effect_executions
      → ExecutionsKeyed (or_else (protocol_case d registry s event fs type) s).effect_executions
  unfolding all_cases complete_effect
  protocol_case-ExecutionsKeyed fs run_started h = h
  protocol_case-ExecutionsKeyed fs _ h =
      grind
        (arith, drop_race-work, ExecutionsKeyed-nil, ExecutionsKeyed-put, ExecutionsKeyed-remove)

pub record IsKeyed (s : RunState) : Type 0 where
  pub threads : ThreadsKeyed s.threads
  pub distinct : Distinct (keys s.threads)
  pub waits : WaitsKeyed s.waits
  pub executions : ExecutionsKeyed s.effect_executions

pub IsKeyed-record_event :
    (s : RunState) (event : EventEnvelope) → IsKeyed s → IsKeyed (record_event s event)
unfolding record_event complete_effect
IsKeyed-record_event s event h = grind (arith, ExecutionsKeyed-remove)

pub IsKeyed-apply_protocol :
    (d : Decoders) (registry : Registry) (s : RunState) (event : EventEnvelope)
    → IsKeyed s
    → IsKeyed (apply_protocol d registry s event)
unfolding apply_protocol
IsKeyed-apply_protocol d registry s event h = record {
  threads = protocol_case-ThreadsKeyed d registry s event _ event.type h.threads;
  distinct = protocol_case-ThreadsDistinct d registry s event _ event.type h.distinct;
  waits = protocol_case-WaitsKeyed d registry s event _ event.type h.waits;
  executions = protocol_case-ExecutionsKeyed d registry s event _ event.type h.executions;
}

pub IsKeyed-deliver :
    (registry : Registry) (s : RunState) (event : EventEnvelope)
    (settled : Option OutstandingEffect)
    → IsKeyed s
    → IsKeyed (deliver registry s event settled)
unfolding deliver reconcile_effects forget_completed_effects
IsKeyed-deliver registry s event settled h = grind (arith, ThreadsKeyed-put, Distinct-keys-put)

pub IsKeyed-fail_unhandled_effect :
    (s : RunState) (event : EventEnvelope) (before : List OutstandingEffect)
    → IsKeyed s
    → IsKeyed (fail_unhandled_effect s event before)
unfolding fail_unhandled_effect
IsKeyed-fail_unhandled_effect s event before h =
    grind (arith, ThreadsKeyed-put, Distinct-keys-put, WaitsKeyed-keep)
