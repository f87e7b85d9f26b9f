-- ===== src/Workflow/Threads/Steps.antt =====
-- packages/workflow/src/threads.ts: a step of a workflow thread keeps its maps bounded.
use looms.Prelude.{ℕ, String, true, List, ◌≡◌, arith}
use looms.Core.Json.{Json}
use looms.Workflow.Threads.Data.{
  WorkflowState, WorkflowEvent, thread_started, node_started, node_finished, node_skipped,
  spawn_requested, map_requested, sleep_requested, effects_requested, effect_failed, wait_satisfied,
  other,
}
use looms.Workflow.Threads.Requests.{
  effects_requested_step, sleep_requested_step, map_requested_step, spawn_requested_step,
  pending_map,
}
use looms.Workflow.Threads.Step.{node_skipped_step, node_finished_step, step}
use looms.Workflow.Threads.Nodes.{node_started_step, thread_started_step}
use looms.Workflow.Threads.Bounds.{replace-AreBounded, pending_map-IsWithin}
use looms.Workflow.Threads.Dropped.{IsBounded, stop_node-IsBounded, effect_failed_step-IsBounded}
use looms.Workflow.Threads.Recorded.{answers_started, wait_satisfied_step-IsBounded}

module _ (thread_id run_id : String) (size_of : List (ℕ × Json) → ℕ) where
  pub step-IsBounded :
      (state : WorkflowState) (event : WorkflowEvent)
      → IsBounded state
      → answers_started state event ≡ true
      → IsBounded (step thread_id run_id size_of state event)
  unfolding step answers_started thread_started_step node_started_step node_finished_step
      node_skipped_step spawn_requested_step map_requested_step sleep_requested_step
      effects_requested_step
  step-IsBounded state (thread_started name version input) h started = h
  step-IsBounded state (node_started node_id) h started = ground arith
  step-IsBounded state (node_finished node_id result error branch) h started =
      let stopped = stop_node-IsBounded thread_id run_id state node_id h in ground arith
  step-IsBounded state (node_skipped node_id reason cause) h started =
      stop_node-IsBounded thread_id run_id state node_id h
  step-IsBounded state (spawn_requested item) h started = ground arith
  step-IsBounded state (map_requested request) h started =
      let replaced =
        replace-AreBounded state.pending_maps (pending_map request) h
          (pending_map-IsWithin request) in
      ground arith
  step-IsBounded state (sleep_requested sleep) h started = ground arith
  step-IsBounded state (effects_requested node_id effects) h started = ground arith
  step-IsBounded state (effect_failed error effect_id) h started =
      effect_failed_step-IsBounded thread_id run_id state error effect_id h
  step-IsBounded state (wait_satisfied tag event) h started =
      wait_satisfied_step-IsBounded thread_id run_id size_of state tag event h started
  step-IsBounded state other h started = h
