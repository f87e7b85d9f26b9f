-- ===== src/Core/Fork/Plan.antt =====
-- packages/core/src/fork.ts: `planFork`.
use looms.Prelude.{
  ℕ, suc, ◌++◌, String, Option, none, some, Bool, true, false, List, [], ◌∷◌, map, take, truthy,
  includes, ◌&&◌, if◌then◌else◌, eqb, ◌==◌,
}
use looms.Core.Json.{Json, Fields, end, field, obj, str, num}
use looms.Core.Envelope.{
  EventEnvelope, EventType, system, run_started, run_forked, snapshot_taken, other, type_name,
  create_event,
}
use looms.Core.State.{RunState, OutstandingEffect, empty_run_state}
use looms.Core.Fold.Protocol.{Decoders, Registry}
use looms.Core.Fold.Step.{fold_run}
use looms.Core.Fork.Scan.{SourceScan, scan_source, failure_origin}

pub record ForkPlan : Type 0 where
  pub events : List EventEnvelope
  pub source_seq : ℕ
  pub root_thread_id : String

-- The messages of `ForkSourceError`, and the TypeError of an index out of range.
pub data ForkError : Type 0 where
  no_events partial_history no_root out_of_range : ForkError

pub data ForkResult : Type 0 where
  ok : ForkPlan → ForkResult
  err : ForkError → ForkResult

-- The fields of an object without one of them.
unfoldable pub without_field : String → Fields → Fields
without_field key end = end
without_field key (field k v fs) =
    let rest = without_field key fs in if k == key then rest else field k v rest

abbrev pub is_reissued : List String → Option String → Bool
is_reissued reissued none = false
is_reissued reissued (some id) = includes reissued id

unfoldable pub elided_payload : EventType → Json
unfolding type_name
elided_payload type = obj (field "type" (str (type_name type)) end)

-- The snapshot's payload without its state, if it is an object.
unfoldable pub pointer_payload : Json → Json
unfolding without_field
pointer_payload (obj fs) = obj (without_field "state" fs)
pointer_payload payload = payload

unfoldable pub copied : EventEnvelope → EventType → EventEnvelope
unfolding pointer_payload
copied event snapshot_taken = record event { payload = pointer_payload event.payload }
copied event run_started = record event { idempotency_key = none }
copied event _ = event

-- `copyEvent`
unfoldable pub copy_event : String → List String → EventEnvelope → EventEnvelope
unfolding copied elided_payload
copy_event run_id reissued event =
    let moved = record event { run_id = run_id } in
    if event.ephemeral && is_reissued reissued (truthy event.effect_id)
    then record moved { type = other "runtime.fork.elided"; payload = elided_payload event.type }
    else copied moved event.type

-- Whether the events are numbered from one on.
unfoldable pub is_numbered : ℕ → List EventEnvelope → Bool
is_numbered seq [] = true
is_numbered seq (event ∷ events) = eqb event.seq seq && is_numbered (suc seq) events

abbrev pub fork_payload : String → ℕ → Json
fork_payload source_run_id cut =
    obj (field "sourceRunId" (str source_run_id) (field "sourceSeq" (num cut) end))

-- The marker behind the copied events.
unfoldable pub fork_marker : String → ℕ → String → String → ℕ → EventEnvelope
unfolding create_event
fork_marker new_id now source_run_id run_id cut =
    create_event new_id now run_id
      (record {
        type = run_forked;
        payload = fork_payload source_run_id cut;
        thread_id = some none;
        parent_thread_id = none;
        causation_id = none;
        correlation_id = none;
        effect_id = none;
        origin = some system;
        ephemeral = none;
        id = none;
        ts = none;
        idempotency_key = none;
      })
      (suc cut)

abbrev pub effect_ids : List OutstandingEffect → List String
effect_ids = map (λ item. item.effect_id)

-- Where the fork leaves its source: none is a TypeError.
unfoldable pub fork_cut : (String → Bool) → List EventEnvelope → SourceScan → Option ℕ
unfolding failure_origin
fork_cut deterministic events scan =
    if scan.root_failed then failure_origin deterministic events scan else some scan.cut

module _ (d : Decoders) (registry : Registry) (deterministic : String → Bool) (new_id : String)
    (now : ℕ) where
  -- The plan once the cut is known, by the state of the run there.
  unfoldable pub plan_at :
      String → String → List EventEnvelope → ℕ → RunState → Option String → ForkResult
  unfolding copy_event fork_marker
  plan_at source_run_id run_id events cut at_cut none = err no_root
  plan_at source_run_id run_id events cut at_cut (some root_thread_id) = ok record {
    events =
        map (copy_event run_id (effect_ids at_cut.outstanding_effects)) (take cut events)
        ++ fork_marker new_id now source_run_id run_id cut ∷ [];
    source_seq = cut;
    root_thread_id = root_thread_id;
  }

  unfoldable pub plan_cut : String → String → List EventEnvelope → Option ℕ → ForkResult
  unfolding fold_run plan_at
  plan_cut source_run_id run_id events none = err out_of_range
  plan_cut source_run_id run_id events (some cut) =
      let at_cut = fold_run d registry (empty_run_state run_id) (take cut events) in
      plan_at source_run_id run_id events cut at_cut (truthy at_cut.root_thread_id)

  -- `planFork`
  unfoldable pub plan_fork : String → String → List EventEnvelope → ForkResult
  unfolding is_numbered scan_source fork_cut plan_cut
  plan_fork source_run_id run_id [] = err no_events
  plan_fork source_run_id run_id (event ∷ events) =
      if is_numbered 1 (event ∷ events)
      then plan_cut source_run_id run_id (event ∷ events)
          (fork_cut deterministic (event ∷ events) (scan_source d registry (event ∷ events)))
      else err partial_history
