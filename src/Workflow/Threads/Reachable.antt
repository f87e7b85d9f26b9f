-- ===== src/Workflow/Threads/Reachable.antt =====
-- packages/workflow/src/threads.ts: the states that a workflow thread can reach, and their maps.
use looms.Prelude.{◌⊎◌, ◌+◌, All-weaken, arith, ℕ, ◌≤◌, String, true, List, ◌≡◌, length, All}
use looms.Core.Json.{Json}
use looms.Workflow.Threads.Data.{PendingMap, WorkflowState, WorkflowEvent, initial_state}
use looms.Workflow.Threads.Effects.{in_flight}
use looms.Workflow.Threads.Step.{step}
use looms.Workflow.Threads.Steps.{step-IsBounded}
use looms.Workflow.Threads.Recorded.{answers_started}
use looms.Workflow.Threads.Dropped.{IsBounded}
use looms.Workflow.Threads.Bounds.{IsWithin}

-- The states of a thread after any events, its answers to maps being for items that were started.
pub data Reachable (thread_id run_id : String) (size_of : List (ℕ × Json) → ℕ)
    : WorkflowState → Type 0 where
  starts :
      (name version : String) (input : Json)
      → Reachable thread_id run_id size_of (initial_state name version input)
  steps :
      {state : WorkflowState}
      → Reachable thread_id run_id size_of state
      → (event : WorkflowEvent) → answers_started state event ≡ true
      → Reachable thread_id run_id size_of (step thread_id run_id size_of state event)

-- At most as many children in flight as a map may have, none past its last item, and some if it can.
abbrev pub IsMoving : PendingMap → Type 0
IsMoving item =
    (length (in_flight item) ≤ item.concurrency)
    × (item.next_index ≤ length item.items)
    × ((1 ≤ length (in_flight item)) ⊎ ((length item.items ≡ 0) ⊎ (item.concurrency ≡ 0)))

moving : (item : PendingMap) → IsWithin item → IsMoving item
moving item (few, past, counted, (left, on)) =
    let sum : length (in_flight item) + length item.outputs ≡ item.next_index = counted.0 in
    let flying : (1 ≤ length (in_flight item))
        ⊎ ((length item.items ≡ 0) ⊎ (item.concurrency ≡ 0)) =
      ground arith in
    (few, past, flying)

module _ {thread_id run_id : String} {size_of : List (ℕ × Json) → ℕ} where
  Reachable-IsBounded :
      {state : WorkflowState} → Reachable thread_id run_id size_of state → IsBounded state
  Reachable-IsBounded (starts name version input) = (tt, tt)
  Reachable-IsBounded (steps {state} before event started) =
      step-IsBounded thread_id run_id size_of state event (Reachable-IsBounded before) started

  -- In every state that a workflow thread reaches from its initial state by events whose answers to a
  -- map are for items that the map has started, each pending map has at most as many children in flight
  -- as its concurrency allows, has started no child past its last item, and has some child in flight
  -- unless it has no items or its concurrency is 0.
  pub in_flight-bounded :
      {state : WorkflowState}
      → Reachable thread_id run_id size_of state
      → All IsMoving state.pending_maps
  in_flight-bounded {state} reachable =
      All-weaken IsWithin IsMoving moving state.pending_maps (Reachable-IsBounded reachable).1
