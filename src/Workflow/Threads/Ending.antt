-- ===== src/Workflow/Threads/Ending.antt =====
-- packages/workflow/src/threads.ts: what a node leaves behind when it ends, and when an effect of it fails.
use looms.Prelude.{
  Bool-cases, filter, if◌then◌else◌, ℕ, String, Option, none, some, false, List, ◌≡◌, ◌==◌, ◌<>◌,
  ◌++◌, [], ◌∷◌, ◌∙◌, ap, or_else, inl, inr, filter, subst, Bool-cases, ◌||◌, ◌>>=◌, refl, arith,
  find?, not, includes, truthy, All, eq_refl,
}
use looms.Prelude.Dict.{get, get-put}
use looms.Core.Json.{Json, null}
use looms.Core.Effects.{is_withdrawn_error}
use looms.Workflow.Graph.Data.{SkipCause, NodeStatus}
use looms.Workflow.Threads.Data.{
  WorkflowState, PendingEmit, WorkflowEvent, thread_started, node_started, node_finished,
  node_skipped, spawn_requested, map_requested, sleep_requested, effects_requested, effect_failed,
  wait_satisfied, other,
}
use looms.Workflow.Threads.Effects.{node_effects}
use looms.Workflow.Threads.Pending.{
  without_pending_work, stop_node, finish_node, finished_event, finished_id,
}
use looms.Workflow.Threads.Step.{
  step, node_finished_step, node_skipped_step, effect_failed_step, fail_node, node_id_for_effect,
}
use looms.Workflow.Threads.Children.{is_unsettled, includes-unsettled_targets}
use looms.Workflow.Threads.Stopped.{IsNotOf, remaining-IsNotOf, without_pending_work-cancels}

-- The node that an event ends.
abbrev pub ended_node : WorkflowEvent → Option String
ended_node (node_finished node_id result error branch) = truthy (some node_id)
ended_node (node_skipped node_id reason cause) = some node_id
ended_node event = none

abbrev pub find_emit : String → List PendingEmit → Option PendingEmit
find_emit id = find? (λ item. item.id == id)

-- The text of a failure: its error, and `effect failed` where it has none or an empty one.
abbrev pub failure_text : Option String → String
failure_text none = "effect failed"
failure_text (some error) = if error == "" then "effect failed" else error

or_else-truthy :
    (error : Option String) → or_else (truthy error) "effect failed" ≡ failure_text error
or_else-truthy none = refl
or_else-truthy (some error) = ground arith

module _ (thread_id run_id : String) (size_of : List (ℕ × Json) → ℕ) where
  -- Stopping a node cancels its children, and leaves nothing that asks for an effect of it.
  abbrev Ends : WorkflowState → WorkflowState → String → String → Type 0
  Ends state ended node_id target =
      All (IsNotOf node_id) (node_effects thread_id run_id ended)
      × (includes ended.pending_cancels target ≡ (
          includes state.pending_cancels target
          || is_unsettled thread_id run_id state node_id target))

  node_finished_step-Ends :
      (state : WorkflowState) (node_id target : String) (result : Json)
      (error branch : Option String)
      → Ends state
          (node_finished_step thread_id run_id state node_id result error branch)
          node_id
          target
  unfolding node_finished_step stop_node without_pending_work node_effects
  node_finished_step-Ends state node_id target result error branch = (
    remaining-IsNotOf thread_id run_id node_id _ state.running_nodes state.pending_spawns
        state.pending_maps state.pending_sleeps state.pending_effects,
    ground (
      arith,
      without_pending_work-cancels thread_id run_id state node_id none target,
      includes-unsettled_targets thread_id run_id state node_id target,
    ),
  )

  node_skipped_step-Ends :
      (state : WorkflowState) (node_id target reason : String) (cause : SkipCause)
      → Ends state (node_skipped_step thread_id run_id state node_id reason cause) node_id target
  unfolding node_skipped_step stop_node without_pending_work node_effects
  node_skipped_step-Ends state node_id target reason cause = (
    remaining-IsNotOf thread_id run_id node_id _ state.running_nodes state.pending_spawns
        state.pending_maps state.pending_sleeps state.pending_effects,
    ground (
      arith,
      without_pending_work-cancels thread_id run_id state node_id none target,
      includes-unsettled_targets thread_id run_id state node_id target,
    ),
  )

  -- After the event that a node has finished or was skipped, the thread asks for no effect of that
  -- node, and a child is to be cancelled exactly if it was before, or if it was spawned by the node and
  -- is still waited for, or if it runs an item of the node's map that was started and has no output yet.
  pub step-ended :
      (state : WorkflowState) (event : WorkflowEvent) (node_id target : String)
      → ended_node event ≡ some node_id
      → All
          (IsNotOf node_id)
          (node_effects thread_id run_id (step thread_id run_id size_of state event))
        × (includes (step thread_id run_id size_of state event).pending_cancels target ≡ (
            includes state.pending_cancels target
            || is_unsettled thread_id run_id state node_id target))
  unfolding step
  step-ended state (node_finished id result error branch) node_id target e =
      elim (Bool-cases (id == "")) [
        | inl blank ↦ absurd (ground arith)
        | inr named ↦
            let same : id ≡ node_id = ground arith in
            rw named (
              subst
                (λ n.
                  Ends state
                    (node_finished_step thread_id run_id state id result (truthy error) branch) n
                    target)
                same (node_finished_step-Ends state id target result (truthy error) branch))
      ]
  step-ended state (node_skipped id reason cause) node_id target e =
      let same : id ≡ node_id = ground arith in
      subst (λ n. Ends state (node_skipped_step thread_id run_id state id reason cause) n target)
        same (node_skipped_step-Ends state id target reason cause)
  step-ended state (thread_started name version input) node_id target e = cc
  step-ended state (node_started id) node_id target e = cc
  step-ended state (spawn_requested item) node_id target e = cc
  step-ended state (map_requested request) node_id target e = cc
  step-ended state (sleep_requested sleep) node_id target e = cc
  step-ended state (effects_requested id effects) node_id target e = cc
  step-ended state (effect_failed error effect_id) node_id target e = cc
  step-ended state (wait_satisfied tag event) node_id target e = cc
  step-ended state other node_id target e = cc

  step-fails :
      (state : WorkflowState) (error : Option String) (effect_id node_id : String)
      → is_withdrawn_error (failure_text error) ≡ false
      → (node_id == "") ≡ false
      → node_id_for_effect thread_id run_id state effect_id ≡ some node_id
      → step thread_id run_id size_of state (effect_failed error (some effect_id))
        ≡ fail_node thread_id run_id state node_id (failure_text error)
  unfolding step effect_failed_step
  step-fails state error effect_id node_id w n found =
      let owner : truthy (some node_id) ≡ some node_id = ground arith in
      let same = or_else-truthy error in
      let lasting : is_withdrawn_error (or_else (truthy error) "effect failed") ≡ false =
        ap is_withdrawn_error same ∙ w in
      rw (lasting, found, owner) (ap (λ text. fail_node thread_id run_id state node_id text) same)

  find_emit-snoc :
      (item : PendingEmit) (emits : List PendingEmit)
      → find_emit item.id (filter (λ other'. not (other'.id == item.id)) emits ++ item ∷ [])
        ≡ some item
  find_emit-snoc item [] = rw (eq_refl item.id) refl
  find_emit-snoc item (x ∷ emits) = ground (arith, find_emit-snoc item emits)

  fail_node-emit :
      (state : WorkflowState) (node_id error : String)
      → find_emit
          (finished_id node_id)
          (fail_node thread_id run_id state node_id error).pending_emits
        ≡ some (record {
          id = finished_id node_id;
          event =
              finished_event thread_id node_id null
                (some ("Node " <> node_id <> " failed: " <> error));
        })
  unfolding fail_node finish_node stop_node without_pending_work
  fail_node-emit state node_id error =
      find_emit-snoc
        (record {
          id = finished_id node_id;
          event =
              finished_event thread_id node_id null
                (some ("Node " <> node_id <> " failed: " <> error));
        })
        state.pending_emits

  fail_node-IsNotOf :
      (state : WorkflowState) (node_id error : String)
      → All
          (IsNotOf node_id)
          (node_effects thread_id run_id (fail_node thread_id run_id state node_id error))
  unfolding fail_node finish_node stop_node without_pending_work node_effects
  fail_node-IsNotOf state node_id error =
      let stopped = stop_node thread_id run_id state node_id in
      remaining-IsNotOf thread_id run_id node_id _ state.running_nodes stopped.pending_spawns
        stopped.pending_maps stopped.pending_sleeps stopped.pending_effects

  -- When an effect fails, its error text, which is `effect failed` where the error is missing or empty, is
  -- not that of a withdrawal, and the thread asks for the effect for some node, whose id is not empty: then
  -- this node is failed with the text in its message, the event that finishes it with that message is to
  -- be emitted, and the thread asks for no effect of it any more.
  pub step-effect_failed :
      (state : WorkflowState) (error : Option String) (effect_id node_id : String)
      → is_withdrawn_error (failure_text error) ≡ false
      → (node_id == "") ≡ false
      → node_id_for_effect thread_id run_id state effect_id ≡ some node_id
      → (get node_id
            (step thread_id run_id size_of state (effect_failed error (some effect_id))).nodes
          ≡ some (record {
            status = NodeStatus.failed;
            result = null;
            error = some ("Node " <> node_id <> " failed: " <> failure_text error);
            attempts = get node_id state.nodes >>= λ n. n.attempts;
            branch = none;
            skip_cause = none;
            iteration = none;
          }))
        × (find_emit
              (finished_id node_id)
              (step thread_id run_id size_of state
                (effect_failed error (some effect_id))).pending_emits
            ≡ some (record {
              id = finished_id node_id;
              event =
                  finished_event thread_id node_id null
                    (some ("Node " <> node_id <> " failed: " <> failure_text error));
            }))
        × All (IsNotOf node_id) (
            node_effects thread_id run_id
              (step thread_id run_id size_of state (effect_failed error (some effect_id))))
  unfolding fail_node
  step-effect_failed state error effect_id node_id w n found =
      rw (step-fails state error effect_id node_id w n found) (
        get-put node_id node_id _ state.nodes ∙ rw (eq_refl node_id) refl,
        fail_node-emit state node_id (failure_text error),
        fail_node-IsNotOf state node_id (failure_text error),
      )
