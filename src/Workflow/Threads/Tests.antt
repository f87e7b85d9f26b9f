-- ===== src/Workflow/Threads/Tests.antt =====
-- packages/workflow/src/threads.ts: a workflow whose one node maps over three items, two at a time.
use looms.Workflow.Threads.Pending.{finished_event, finish_node, record_map_output}
use looms.Workflow.Threads.Effects.{child_target, node_effects, map_child_thread_id, in_flight}
use looms.Workflow.Threads.Data.{
  effect_failed, PendingMap, node_skipped, map_requested, in_thread, initial_state, node_started,
  thread_started, wait_satisfied, MapRequest, WorkflowEvent, WorkflowState,
}
use mathlib.Core.List.{Permᴰ}
use looms.Prelude.{
  ℕ, ◌≤◌, ◌+◌, String, Option, none, some, Bool, true, false, List, [], ◌∷◌, ◌++◌, ◌≡◌, ◌==◌, ◌||◌,
  ◌&&◌, refl, arith, length, All, not, includes, is_the,
}
use looms.Prelude.Dict.{get}
use looms.Core.Json.{Json, null, num, str, arr, obj, nil, cons, end, field}
use looms.Core.Effects.{is_withdrawn_error, ChildClose}
use looms.Workflow.Graph.Data.{SkipCause, NodeStatus}
use looms.Workflow.Threads.Step.{node_id_for_effect, step}
use looms.Workflow.Threads.Requests.{pending_map}
use looms.Workflow.Threads.Reachable.{IsMoving, starts, steps, in_flight-bounded}
use looms.Workflow.Threads.Ordered.{items_of, record_map_output-in_order}
use looms.Workflow.Threads.Children.{is_unsettled}
use looms.Workflow.Threads.Stopped.{IsNotOf}
use looms.Workflow.Threads.Ending.{find_emit, step-ended, step-effect_failed}
use looms.Workflow.Threads.Recorded.{answers_started}
use looms.Core.Ids.{create_effect_id}

abbrev no_size : List (ℕ × Json) → ℕ
no_size outputs = 0

abbrev request : MapRequest
request = record {
  node_id = "each";
  attempt = 1;
  kind = "agent";
  definition_name = "double";
  definition_version = "v1";
  items = num 1 ∷ num 2 ∷ num 3 ∷ [];
  concurrency = 2;
  limit_bytes = 1000;
  execution = in_thread;
  close = ChildClose.terminate;
}

abbrev started : WorkflowEvent
started = thread_started none none (some (obj (field "nodeIds" (arr (cons (str "each") nil)) end)))

abbrev answer : ℕ → ℕ → WorkflowEvent
answer index output =
    wait_satisfied
      (some (
        obj
          (field "nodeId" (str "each") (field "attempt" (num 1) (field "index" (num index) end)))))
      (some (obj (field "payload" (obj (field "output" (num output) end)) end)))

abbrev run_events : WorkflowState → List WorkflowEvent → WorkflowState
unfolding step
run_events state [] = state
run_events state (event ∷ events) = run_events (step "t" "r" no_size state event) events

abbrev start : WorkflowState
start = initial_state "flow" "v1" null

abbrev in_flight_of : WorkflowState → List (List ℕ)
unfolding in_flight
in_flight_of state = looms.Prelude.map in_flight state.pending_maps

two_at_a_time :
    in_flight_of (run_events start (started ∷ node_started "each" ∷ map_requested request ∷ []))
    ≡ (0 ∷ 1 ∷ []) ∷ []
unfolding step in_flight get run_events
two_at_a_time = refl

third_follows :
    in_flight_of
      (run_events start (started ∷ node_started "each" ∷ map_requested request ∷ answer 1 20 ∷ []))
    ≡ (0 ∷ 2 ∷ []) ∷ []
unfolding step in_flight get run_events
third_follows = refl

abbrev mapping : WorkflowState
unfolding run_events
mapping = run_events start (started ∷ node_started "each" ∷ map_requested request ∷ [])

-- Two answers are recorded, and the first item's is missing.
abbrev last_missing : PendingMap
last_missing = record (pending_map request) {
  outputs = (1, num 20) ∷ (2, num 30) ∷ [];
  next_index = 3;
}

abbrev almost : WorkflowState
unfolding mapping
almost = record mapping { pending_maps = last_missing ∷ [] }

out_of_order :
    (run_events mapping (answer 1 20 ∷ answer 2 30 ∷ [])).pending_maps ≡ last_missing ∷ []
unfolding step in_flight get run_events mapping
out_of_order = refl

in_flight-bounded_example :
    All IsMoving
      (step "t" "r" no_size
        (step "t" "r" no_size
          (step "t" "r" no_size (step "t" "r" no_size start started) (node_started "each"))
          (map_requested request))
        (answer 1 20)).pending_maps
unfolding answers_started step get
in_flight-bounded_example = in_flight-bounded {thread_id = "t"} {run_id = "r"} {size_of = no_size} (
    steps
      (steps (steps (steps (starts "flow" "v1" null) started refl) (node_started "each") refl)
        (map_requested request) refl)
      (answer 1 20) refl)

record_map_output-in_order_example :
    record_map_output "t" "r" no_size almost last_missing 0 (num 10)
    ≡ finish_node "t" "r" almost "each"
        (arr (items_of (num 10 ∷ num 20 ∷ num 30 ∷ [])))
        none
        (some (child_target "r" (map_child_thread_id "t" last_missing 0) in_thread))
record_map_output-in_order_example =
    record_map_output-in_order "t" "r" no_size almost last_missing 0 (num 10)
      (num 10 ∷ num 20 ∷ num 30 ∷ []) refl refl
      (Permᴰ.trans (Permᴰ.cons refl (Permᴰ.swap refl refl)) (Permᴰ.swap refl refl)) (omega arith)

abbrev skip : WorkflowEvent
skip = node_skipped "each" "no longer needed" SkipCause.policy

step-ended_example :
    All (IsNotOf "each") (node_effects "t" "r" (step "t" "r" no_size mapping skip))
    × (includes
          (step "t" "r" no_size mapping skip).pending_cancels
          (map_child_thread_id "t" (pending_map request) 1)
        ≡ (includes mapping.pending_cancels (map_child_thread_id "t" (pending_map request) 1)
            || is_unsettled "t" "r" mapping "each"
                (map_child_thread_id "t" (pending_map request) 1)))
step-ended_example =
    step-ended "t" "r" no_size mapping skip "each" (map_child_thread_id "t" (pending_map request) 1)
      refl

abbrev running_one : WorkflowState
unfolding run_events
running_one = run_events start (started ∷ node_started "each" ∷ [])

abbrev lost : WorkflowEvent
lost = effect_failed (some "boom") (some "t:runNode_each_1")

step-effect_failed_example :
    (get "each" (step "t" "r" no_size running_one lost).nodes
      ≡ some (record {
        status = NodeStatus.failed;
        result = null;
        error = some "Node each failed: boom";
        attempts = some 1;
        branch = none;
        skip_cause = none;
        iteration = none;
      }))
    × (find_emit "finished_each" (step "t" "r" no_size running_one lost).pending_emits
        ≡ some (record {
          id = "finished_each";
          event = finished_event "t" "each" null (some "Node each failed: boom");
        }))
    × All (IsNotOf "each") (node_effects "t" "r" (step "t" "r" no_size running_one lost))
unfolding get step run_events node_id_for_effect is_withdrawn_error create_effect_id
step-effect_failed_example =
    step-effect_failed "t" "r" no_size running_one (some "boom") "t:runNode_each_1" "each" refl refl
      refl
