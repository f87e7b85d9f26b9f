-- ===== src/Workflow/Scheduler/Running.antt =====
-- packages/workflow/src/threads.ts: how many nodes run once the thread has stepped by the scheduler's events.
use looms.Prelude.{
  ℕ, zero, suc, ◌≤◌, ◌+◌, String, Bool, true, false, List, [], ◌∷◌, ◌++◌, ◌≡◌, refl, ap, map,
  length, take, is_some, Bool-cases, inl, inr, arith,
}
use looms.Prelude.Dict.{get, put, values}
use looms.Core.Json.{Json}
use looms.Workflow.Graph.Data.{NodeState, Node}
use looms.Workflow.Graph.Activity.{States}
use looms.Workflow.Threads.Data.{WorkflowState, WorkflowEvent, node_started, node_skipped, other}
use looms.Workflow.Threads.Nodes.{put_node, running_node, skipped_node, node_started_step}
use looms.Workflow.Threads.Step.{step, node_skipped_step}
use looms.Workflow.Scheduler.{
  ScheduleEvent, started, skipped, thread_failed, thread_completed, with_nodes, new_state,
  running_count, is_running,
}

-- What an event of the scheduler is to the workflow's thread.
abbrev pub workflow_event : ScheduleEvent → WorkflowEvent
workflow_event (started node_id) = node_started node_id
workflow_event (skipped node_id reason cause) = node_skipped node_id reason cause
workflow_event _ = other

abbrev pub one_if : Bool → ℕ
one_if true = 1
one_if false = 0

pub running_count-put :
    (id : String) (n : NodeState) (m : States)
    → running_count (put id n m) ≤ running_count m + one_if (is_running n.status)
unfolding put values
running_count-put id n [] = ground arith
running_count-put id n ((j, w) ∷ m) = ground (arith, running_count-put id n m)

-- A node that is new is not running.
running_count-put_new :
    (id : String) (m : States)
    → running_count m ≤ running_count (put id new_state m) + one_if (is_some (get id m))
unfolding put values get
running_count-put_new id [] = ground arith
running_count-put_new id ((j, w) ∷ m) = ground (arith, running_count-put_new id m)

pub running_count-with_nodes :
    (nodes : List Node) (m : States) → running_count m ≤ running_count (with_nodes m nodes)
unfolding with_nodes
running_count-with_nodes [] m = ground arith
running_count-with_nodes (node ∷ nodes) m = elim (Bool-cases (is_some (get node.id m))) [
  | inl known ↦ rw known (running_count-with_nodes nodes m)
  | inr new ↦
      let first = running_count-put_new node.id m in
      let rest = running_count-with_nodes nodes (put node.id new_state m) in
      rw new (let zero_more = ap one_if new in omega arith)
]

-- How many nodes a list of events starts.
abbrev pub starts : List ScheduleEvent → ℕ
starts [] = 0
starts (started id ∷ events) = suc (starts events)
starts (_ ∷ events) = starts events

pub starts-cons :
    (event : ScheduleEvent) (events : List ScheduleEvent)
    → starts (event ∷ events) ≡ starts (event ∷ []) + starts events
starts-cons (started id) events = omega arith
starts-cons (skipped id reason cause) events = omega arith
starts-cons (thread_failed error) events = omega arith
starts-cons (thread_completed output) events = omega arith

pub starts-append : (xs ys : List ScheduleEvent) → starts (xs ++ ys) ≡ starts xs + starts ys
starts-append [] ys = omega arith
starts-append (event ∷ xs) ys =
    let rest = starts-append xs ys in
    let first = starts-cons event (xs ++ ys) in let own = starts-cons event xs in omega arith

pub starts-skipped :
    (f : String → ScheduleEvent) (ids : List String)
    → ((id : String) → starts (f id ∷ []) ≡ 0)
    → starts (map f ids) ≡ 0
starts-skipped f [] h = refl
starts-skipped f (id ∷ ids) h =
    let rest = starts-skipped f ids h in
    let first = h id in let sum = starts-cons (f id) (map f ids) in omega arith

pub starts-started : (ids : List String) → starts (map started ids) ≡ length ids
starts-started [] = refl
starts-started (id ∷ ids) = ap suc (starts-started ids)

pub length-take_le : (n : ℕ) (xs : List String) → length (take n xs) ≤ n
length-take_le zero xs = ground arith
length-take_le (suc n) [] = ground arith
length-take_le (suc n) (x ∷ xs) = (let rest = length-take_le n xs in omega arith)

module _ (thread_id run_id : String) (outputs_size : List (ℕ × Json) → ℕ) where
  -- The thread after events of the scheduler.
  unfoldable pub scheduled : WorkflowState → List ScheduleEvent → WorkflowState
  unfolding step
  scheduled state [] = state
  scheduled state (event ∷ events) =
      scheduled (step thread_id run_id outputs_size state (workflow_event event)) events

  step-running :
      (event : ScheduleEvent) (state : WorkflowState)
      → running_count (step thread_id run_id outputs_size state (workflow_event event)).nodes
        ≤ running_count state.nodes + starts (event ∷ [])
  unfolding step node_started_step node_skipped_step put_node
  step-running (started id) state =
      ground (arith, running_count-put id (running_node state id) state.nodes)
  step-running (skipped id reason cause) state =
      ground (arith, running_count-put id (skipped_node state id reason cause) state.nodes)
  step-running (thread_failed error) state = omega arith
  step-running (thread_completed output) state = omega arith

  pub running_count-scheduled :
      (events : List ScheduleEvent) (state : WorkflowState)
      → running_count (scheduled state events).nodes ≤ running_count state.nodes + starts events
  unfolding scheduled
  running_count-scheduled [] state = omega arith
  running_count-scheduled (event ∷ events) state =
      let next = step thread_id run_id outputs_size state (workflow_event event) in
      let one = step-running event state in
      let rest = running_count-scheduled events next in
      let sum = starts-cons event events in omega arith
