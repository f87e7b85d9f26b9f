-- ===== src/Workflow/Threads/Dropped.antt =====
-- packages/workflow/src/threads.ts: work that is dropped keeps a thread's maps bounded.
use looms.Prelude.{
  truthy, String, Option, none, some, List, ◌<>◌, ◌==◌, filter, not, Bool-cases, inl, inr, ◌>>=◌,
  Option-cases, truthy, or_else,
}
use looms.Core.Effects.{is_withdrawn_error}
use looms.Core.Json.{null, Json}
use looms.Workflow.Threads.Data.{PendingMap, WorkflowState}
use looms.Workflow.Threads.Pending.{stop_node, finish_node, without_pending_work}
use looms.Workflow.Threads.Step.{node_id_for_effect, fail_node, effect_failed_step}
use looms.Workflow.Threads.Bounds.{AreBounded, filter-AreBounded}

-- The maps of a state are bounded.
abbrev pub IsBounded : WorkflowState → Type 0
IsBounded state = AreBounded state.pending_maps

pub without-AreBounded :
    (maps : List PendingMap) (node_id : String)
    → AreBounded maps
    → AreBounded (filter (λ item. not (item.node_id == node_id)) maps)
without-AreBounded maps node_id = filter-AreBounded (λ id. not (id == node_id)) maps

module _ (thread_id run_id : String) where
  pub finish_node-IsBounded :
      (state : WorkflowState) (node_id : String) (result : Json) (error settled : Option String)
      → IsBounded state
      → IsBounded (finish_node thread_id run_id state node_id result error settled)
  unfolding finish_node without_pending_work
  finish_node-IsBounded state node_id result error settled =
      without-AreBounded state.pending_maps node_id

  pub stop_node-IsBounded :
      (state : WorkflowState) (node_id : String)
      → IsBounded state
      → IsBounded (stop_node thread_id run_id state node_id)
  unfolding stop_node without_pending_work
  stop_node-IsBounded state node_id = without-AreBounded state.pending_maps node_id

  fail_node-IsBounded :
      (state : WorkflowState) (node_id error : String)
      → IsBounded state
      → IsBounded (fail_node thread_id run_id state node_id error)
  unfolding fail_node
  fail_node-IsBounded state node_id error h =
      finish_node-IsBounded (stop_node thread_id run_id state node_id) node_id null
        (some ("Node " <> node_id <> " failed: " <> error)) none
        (stop_node-IsBounded state node_id h)

  pub effect_failed_step-IsBounded :
      (state : WorkflowState) (error effect_id : Option String)
      → IsBounded state
      → IsBounded (effect_failed_step thread_id run_id state error effect_id)
  unfolding effect_failed_step
  effect_failed_step-IsBounded state error effect_id h =
      let message = or_else (truthy error) "effect failed" in
      let node = truthy (effect_id >>= λ id. node_id_for_effect thread_id run_id state id) in
      elim (Bool-cases (is_withdrawn_error message)) [
        | inl withdrawn ↦ rw withdrawn h
        | inr lasting ↦ elim (Option-cases node) [
          | inl nobody ↦ rw (lasting, nobody) h
          | inr (node_id, found) ↦ rw (lasting, found) (fail_node-IsBounded state node_id message h)
        ]
      ]
