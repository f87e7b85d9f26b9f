-- ===== src/Workflow/Threads/Recorded.antt =====
-- packages/workflow/src/threads.ts: an answer that is recorded keeps a thread's maps bounded, where one to a
-- map is for an item that the map has started.
use looms.Prelude.{
  ℕ, ◌+◌, ◌<◌, min, String, Option, none, some, Bool, true, false, List, [], ◌∷◌, ◌++◌, ◌≡◌, ◌==◌,
  refl, arith, subst, sym, length, find?, All-find, find?-passes, Bool-cases, inl, inr, ltb, eqb,
  ◌>>=◌, Option-cases, eq_of_==, ap, ◌∙◌,
}
use looms.Core.Json.{end, field, obj, Json, Fields, as_object, as_string, field_of}
use looms.Workflow.Threads.Data.{PendingMap, WorkflowState, WorkflowEvent, wait_satisfied}
use looms.Workflow.Threads.Effects.{in_flight, has_output}
use looms.Workflow.Threads.Pending.{
  finish_node, record_outputs, record_map_output, without_pending_work,
}
use looms.Workflow.Threads.Requests.{is_current_attempt}
use looms.Workflow.Threads.Answers.{
  succeed_by, wait_outcome, settled_child, loop_answer, next_iteration, end_wait, answer,
  wait_satisfied_step, succeed_wait, map_answer,
}
use looms.Workflow.Threads.Bounds.{IsWithin-record, IsWithin, update_map-AreBounded}
use looms.Workflow.Graph.Data.{NodeState}
use looms.Workflow.Threads.Dropped.{IsBounded, without-AreBounded, finish_node-IsBounded}

-- The map that a satisfied wait answers, with the index of its item.
unfoldable pub answered_map : WorkflowState → Option Json → Option (PendingMap × ℕ)
unfolding field_of map_answer
answered_map state tag = do
  fs ← as_object tag
  node_id ← as_string (field_of "nodeId" fs)
  map_answer state node_id fs

abbrev pub started_item : Option (PendingMap × ℕ) → Bool
started_item none = true
started_item (some (item, index)) = ltb index item.next_index

-- Whether an answer to a map is for an item that the map has started.
unfoldable pub answers_started : WorkflowState → WorkflowEvent → Bool
unfolding answered_map
answers_started state (wait_satisfied tag event) = started_item (answered_map state tag)
answers_started state event = true

module _ (thread_id run_id : String) where
  module _ (size_of : List (ℕ × Json) → ℕ) where
    record_outputs-IsBounded :
        (state : WorkflowState) (item : PendingMap) (index : ℕ) (output : Json)
        → IsBounded state
        → find? (λ other'. other'.node_id == item.node_id) state.pending_maps ≡ some item
        → index < item.next_index
        → has_output item.outputs index ≡ false
        → IsBounded (
            record_outputs thread_id run_id size_of state item index
              (item.outputs ++ (index, output) ∷ []))
    unfolding record_outputs in_flight finish_node without_pending_work
    record_outputs-IsBounded state item index output (distinct, all) found below new =
        let within =
          All-find IsWithin (λ other'. other'.node_id == item.node_id) state.pending_maps item all
            found in
        let outputs = item.outputs ++ (index, output) ∷ [] in
        let next = min (length item.items) (item.next_index + 1) in
        elim (Bool-cases (ltb item.limit_bytes (size_of outputs))) [
          | inl large ↦
              rw large (without-AreBounded state.pending_maps item.node_id (distinct, all))
          | inr fits ↦ elim (Bool-cases (eqb (length outputs) (length item.items))) [
            | inl whole ↦
                rw (fits, whole)
                  (without-AreBounded state.pending_maps item.node_id (distinct, all))
            | inr partial ↦
                rw (fits, partial)
                  (update_map-AreBounded item outputs next state.pending_maps (distinct, all) found
                    (IsWithin-record item index output within below new partial))
          ]
        ]

    record_map_output-IsBounded :
        (state : WorkflowState) (item : PendingMap) (index : ℕ) (output : Json)
        → IsBounded state
        → find? (λ other'. other'.node_id == item.node_id) state.pending_maps ≡ some item
        → index < item.next_index
        → IsBounded (record_map_output thread_id run_id size_of state item index output)
    unfolding record_map_output
    record_map_output-IsBounded state item index output h found below =
        elim (Bool-cases (has_output item.outputs index)) [
          | inl old ↦ rw old h
          | inr new ↦ rw new (record_outputs-IsBounded state item index output h found below new)
        ]

    map_answer-found :
        (state : WorkflowState) (node_id : String) (tag : Fields) (item : PendingMap) (index : ℕ)
        → map_answer state node_id tag ≡ some (item, index)
        → find? (λ other'. other'.node_id == item.node_id) state.pending_maps ≡ some item
    unfolding map_answer
    map_answer-found state node_id tag item index e =
        elim (Option-cases (find? (λ other'. other'.node_id == node_id) state.pending_maps)) [
          | inl nothing ↦ absurd (ground arith)
          | inr (x, p) ↦
              let same : x ≡ item = ground arith in
              let named : item.node_id ≡ node_id = eq_of_== item.node_id node_id (
                find?-passes (λ other'. other'.node_id == node_id) state.pending_maps item
                  (p ∙ ap some same)) in
              subst (λ id. find? (λ other'. other'.node_id == id) state.pending_maps ≡ some item)
                (sym named) (p ∙ ap some same)
        ]

    succeed_by-IsBounded :
        (state : WorkflowState) (node_id : String) (result : Json) (settled : Option String)
        (found : Option (PendingMap × ℕ)) (loop : Option (NodeState × ℕ))
        → IsBounded state
        → ((item : PendingMap) (index : ℕ)
            → found ≡ some (item, index)
            → find? (λ other'. other'.node_id == item.node_id) state.pending_maps ≡ some item)
        → started_item found ≡ true
        → IsBounded (succeed_by thread_id run_id size_of state node_id result settled found loop)
    unfolding succeed_by next_iteration
    succeed_by-IsBounded state node_id result settled (some (item, index)) loop h at started =
        record_map_output-IsBounded state item index result h (at item index refl) (ground arith)
    succeed_by-IsBounded state node_id result settled none (some (node, index)) h at started = h
    succeed_by-IsBounded state node_id result settled none none h at started =
        finish_node-IsBounded thread_id run_id state node_id result none settled h

    succeed_wait-IsBounded :
        (state : WorkflowState) (node_id : String) (tag : Fields) (result : Json)
        (settled : Option String)
        → IsBounded state
        → started_item (map_answer state node_id tag) ≡ true
        → IsBounded (succeed_wait thread_id run_id size_of state node_id tag result settled)
    unfolding succeed_wait
    succeed_wait-IsBounded state node_id tag result settled h started =
        succeed_by-IsBounded state node_id result settled (map_answer state node_id tag)
          (loop_answer state node_id tag) h (map_answer-found state node_id tag) started

    end_wait-IsBounded :
        (state : WorkflowState) (node_id : String) (tag : Fields) (event : Option Json)
        (outcome : Json × Option String)
        → IsBounded state
        → started_item (map_answer state node_id tag) ≡ true
        → IsBounded (end_wait thread_id run_id size_of state node_id tag event outcome)
    unfolding end_wait
    end_wait-IsBounded state node_id tag event (result, none) h started =
        succeed_wait-IsBounded state node_id tag result (settled_child event) h started
    end_wait-IsBounded state node_id tag event (result, some error) h started =
        finish_node-IsBounded thread_id run_id state node_id result (some error)
          (settled_child event) h

    answer-IsBounded :
        (state : WorkflowState) (node_id : String) (tag : Fields) (event : Option Json)
        → IsBounded state
        → started_item (map_answer state node_id tag) ≡ true
        → IsBounded (answer thread_id run_id size_of state node_id tag event)
    unfolding answer
    answer-IsBounded state node_id tag event h started =
        elim (Bool-cases (is_current_attempt state node_id (field_of "attempt" tag))) [
          | inl current ↦ rw current (
              end_wait-IsBounded state node_id tag event
                (wait_outcome event tag (obj (field "waited" (Json.bool true) end))) h started)
          | inr stale ↦ rw stale h
        ]

    pub wait_satisfied_step-IsBounded :
        (state : WorkflowState) (tag event : Option Json)
        → IsBounded state
        → started_item (answered_map state tag) ≡ true
        → IsBounded (wait_satisfied_step thread_id run_id size_of state tag event)
    unfolding wait_satisfied_step answered_map
    wait_satisfied_step-IsBounded state tag event h started = elim (Option-cases (as_object tag)) [
      | inl no_tag ↦ rw no_tag h
      | inr (fs, p) ↦ elim (Option-cases (as_string (field_of "nodeId" fs))) [
        | inl unnamed ↦ rw (p, unnamed) h
        | inr (node_id, named) ↦
            rw (p, named) (answer-IsBounded state node_id fs event h (ground arith))
      ]
    ]
