-- ===== src/Workflow/Scheduler/Tests.antt =====
-- Runs of the scheduler on a node with a fallback and a successor, and its theorems there.
use looms.Prelude.{
  ℕ, ◌≤◌, ◌<◌, max, String, none, some, true, [], ◌∷◌, ◌≡◌, ◌==◌, refl, subst, or_else, includes,
  eq_of_==, Bool-cases, inl, inr, arith, if◌then◌else◌,
}
use looms.Prelude.Dict.{get, put}
use looms.Core.Json.{Json, null}
use looms.Workflow.Graph.Data.{
  NodeState, completed, failed, Node, fallback, WorkflowDefinition, ok, policy, inactive,
  workflow_edges,
}
use looms.Workflow.Graph.Sort.{
  topological_sort, distinct_nodes, input_order, add_edge, add_edges, sort_loop, release,
  insert_ready,
}
use looms.Workflow.Graph.Activity.{States, is_settled, is_edge_active}
use looms.Workflow.Threads.Data.{WorkflowState, initial_state}
use looms.Workflow.Scheduler.{
  Scheduled, started, skipped, new_state, with_nodes, running_count, default_graph_concurrency,
  schedule_events, failure_policy_events,
}
use looms.Workflow.Scheduler.Quiet.{Layered, Quiet}
use looms.Workflow.Scheduler.Progress.{Emits, schedule_events-Emits}
use looms.Workflow.Scheduler.Running.{scheduled}
use looms.Workflow.Scheduler.Slots.{schedule_events-slots}

abbrev plain_node : String → Node
plain_node id = record { id = id; deps = none; type = none; failure = none }

-- "a" before "b", and "f" in place of "a" if that fails.
abbrev guarded : WorkflowDefinition
guarded = record {
  nodes =
      record (plain_node "a") { failure = some (fallback "f") }
      ∷ plain_node "f"
      ∷ plain_node "b"
      ∷ [];
  edges = some (record { source = "a"; target = "b"; label = none } ∷ []);
}

abbrev flow : Scheduled
flow = record {
  graph = guarded;
  concurrency = some 2;
  input_limit_bytes = none;
  output_limit_bytes = none;
  output = none;
}

abbrev fresh : States
fresh = ("a", new_state) ∷ ("f", new_state) ∷ ("b", new_state) ∷ []

abbrev with_status : States → String → NodeState → States
with_status states id state = put id state states

abbrev small : Json → ℕ
small value = 1

guarded-order : topological_sort guarded.nodes (workflow_edges guarded) ≡ ok ("a" ∷ "f" ∷ "b" ∷ [])
unfolding topological_sort distinct_nodes input_order add_edge add_edges sort_loop release
    insert_ready get put workflow_edges
guarded-order = refl

first_started : schedule_events small flow fresh null ≡ ok (started "a" ∷ [])
unfolding schedule_events is_settled running_count
first_started = refl

fallback_unused :
    schedule_events small flow
      (("a", record new_state { status = completed }) ∷ ("f", new_state) ∷ ("b", new_state) ∷ [])
      null
    ≡ ok (skipped "f" "fallback not needed" inactive ∷ [])
unfolding schedule_events is_settled is_edge_active running_count
fallback_unused = refl

fallback_started :
    schedule_events small flow
      (("a", record new_state { status = failed; error = some "no" })
        ∷ ("f", new_state)
        ∷ ("b", new_state)
        ∷ [])
      null
    ≡ ok (skipped "a" "fallback:f" policy ∷ started "f" ∷ [])
unfolding schedule_events is_settled running_count
fallback_started = refl

abbrev rank : String → ℕ
rank id = if id == "a" then 0 else 1

above_f : (target : String) → includes ("f" ∷ []) target ≡ true → 0 < rank target
above_f target h = elim (Bool-cases ("f" == target)) [
  | inl same ↦ subst (λ x. 0 < rank x) (eq_of_== "f" target same) (omega arith)
  | inr other ↦ ground arith
]

guarded-Layered : Layered rank guarded
unfolding workflow_edges
guarded-Layered = record {
  bounded = λ id. ground arith;
  edges = ((refl, omega arith), tt);
  fallbacks = (λ target h. above_f target h, (λ target h. cc, (λ target h. cc, tt)));
}

fresh-Quiet : Quiet guarded fresh
unfolding get running_count
fresh-Quiet = record {
  known = (refl, (refl, (refl, tt)));
  distinct = (refl, (refl, (refl, tt)));
  none_failed = refl;
  none_running = refl;
  handed = (λ t h. cc, (λ t h. cc, (λ t h. cc, tt)));
}

schedule_events-Emits_example : Emits (schedule_events small flow fresh null)
schedule_events-Emits_example =
    schedule_events-Emits small flow fresh null rank ("a" ∷ "f" ∷ "b" ∷ []) guarded-Layered
      fresh-Quiet guarded-order (omega arith)

abbrev begun : WorkflowState
begun = initial_state "flow" "v1" null

schedule_events-slots_example :
    running_count (scheduled "t" "r" (λ outputs. 0) begun (started "a" ∷ [])).nodes
    ≤ max (running_count begun.nodes) (or_else (some 2) default_graph_concurrency)
unfolding schedule_events is_settled running_count with_nodes failure_policy_events
schedule_events-slots_example =
    schedule_events-slots "t" "r" (λ outputs. 0) small flow begun null (started "a" ∷ []) refl refl
