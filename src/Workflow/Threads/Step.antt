-- ===== src/Workflow/Threads/Step.antt =====
-- packages/workflow/src/threads.ts: the step of a workflow thread.
use looms.Prelude.{
  ℕ, String, Option, none, some, true, List, ◌<>◌, ◌==◌, filter, find?, not, or_else, or_try,
  truthy, is_the, if◌then◌else◌, ◌>>=◌,
}
use looms.Core.Json.{Json, null}
use looms.Core.Effects.{is_withdrawn_error}
use looms.Core.Fold.Reconcile.{stable_effect_id}
use looms.Workflow.Graph.Data.{NodeState, SkipCause, failed}
use looms.Workflow.Threads.Data.{
  WorkflowState, WorkflowEvent, thread_started, node_started, node_finished, node_skipped,
  spawn_requested, map_requested, sleep_requested, effects_requested, effect_failed, wait_satisfied,
  other,
}
use looms.Workflow.Threads.Effects.{node_effects}
use looms.Workflow.Threads.Pending.{stop_node, finish_node, finished_id}
use looms.Workflow.Threads.Nodes.{
  new_node, put_node, attempts_at, finished_node, skipped_node, thread_started_step,
  node_started_step,
}
use looms.Workflow.Threads.Requests.{
  spawn_requested_step, map_requested_step, sleep_requested_step, effects_requested_step,
}
use looms.Workflow.Threads.Answers.{wait_satisfied_step}

module _ (thread_id run_id : String) where
  -- `workflow.node.finished`
  unfoldable pub node_finished_step :
      WorkflowState → String → Json → Option String → Option String → WorkflowState
  unfolding stop_node put_node finished_node
  node_finished_step state node_id result error branch =
      record (stop_node thread_id run_id state node_id) {
        nodes = put_node node_id (finished_node state node_id result error branch) state.nodes;
        pending_emits = filter (λ item. not (item.id == finished_id node_id)) state.pending_emits;
        error = or_try error state.error;
        needs_schedule = true;
      }

  -- `workflow.node.skipped`
  unfoldable pub node_skipped_step : WorkflowState → String → String → SkipCause → WorkflowState
  unfolding stop_node put_node skipped_node
  node_skipped_step state node_id reason cause = record (stop_node thread_id run_id state node_id) {
    nodes = put_node node_id (skipped_node state node_id reason cause) state.nodes;
    needs_schedule = true;
  }

  -- `nodeIdForEffect`
  unfoldable pub node_id_for_effect : WorkflowState → String → Option String
  unfolding node_effects stable_effect_id
  node_id_for_effect state effect_id =
      find? (λ item. is_the (stable_effect_id thread_id item.1) effect_id)
        (node_effects thread_id run_id state)
      >>= λ item. some item.0

  abbrev failed_node : WorkflowState → String → String → NodeState
  unfolding attempts_at
  failed_node state node_id message = record new_node {
    status = failed;
    error = some message;
    attempts = attempts_at state node_id;
  }

  -- The failure of an effect that the node needs.
  unfoldable pub fail_node : WorkflowState → String → String → WorkflowState
  unfolding finish_node stop_node put_node failed_node
  fail_node state node_id error =
      let message = "Node " <> node_id <> " failed: " <> error in
      record (finish_node thread_id run_id (stop_node thread_id run_id state node_id) node_id null
        (some message) none) {
          nodes = put_node node_id (failed_node state node_id message) state.nodes;
        }

  -- `runtime.effect.failed`
  unfoldable pub effect_failed_step : WorkflowState → Option String → Option String → WorkflowState
  unfolding is_withdrawn_error node_id_for_effect fail_node
  effect_failed_step state error effect_id =
      let message = or_else (truthy error) "effect failed" in
      if is_withdrawn_error message
      then state
      else elim (truthy (effect_id >>= λ id. node_id_for_effect state id)) [
        | none ↦ state
        | some node_id ↦ fail_node state node_id message
      ]

  module _ (size_of : List (ℕ × Json) → ℕ) where
    -- `step`
    unfoldable pub step : WorkflowState → WorkflowEvent → WorkflowState
    unfolding thread_started_step node_started_step node_finished_step node_skipped_step
        spawn_requested_step map_requested_step sleep_requested_step effects_requested_step
        effect_failed_step wait_satisfied_step
    step state (thread_started name version input) = thread_started_step state name version input
    step state (node_started node_id) =
        if node_id == "" then state else node_started_step state node_id
    step state (node_finished node_id result error branch) =
        if node_id == ""
        then state
        else node_finished_step state node_id result (truthy error) branch
    step state (node_skipped node_id reason cause) = node_skipped_step state node_id reason cause
    step state (spawn_requested item) = spawn_requested_step state item
    step state (map_requested request) = map_requested_step state request
    step state (sleep_requested sleep) = sleep_requested_step state sleep
    step state (effects_requested node_id effects) = effects_requested_step state node_id effects
    step state (effect_failed error effect_id) = effect_failed_step state error effect_id
    step state (wait_satisfied tag event) =
        wait_satisfied_step thread_id run_id size_of state tag event
    step state other = state
