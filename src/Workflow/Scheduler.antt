-- ===== src/Workflow/Scheduler.antt =====
-- packages/workflow/src/effects.ts: `scheduleEvents`, which starts, skips and ends the nodes of a workflow.
-- The size of the JSON text of a value (`utf8JsonBytes`) is an argument.
mod Quiet
mod Candidates
mod Chosen
mod Progress
mod Running
mod Slots
mod Tests
use looms.Prelude.{
  ℕ, ◌-◌, ◌*◌, String, Option, none, some, Bool, true, false, List, [], ◌∷◌, ◌++◌, ◌<>◌, ◌==◌, ◌||◌,
  show, map, filter, find?, any, length, or_else, ltb, if◌then◌else◌, take, is_some,
}
use looms.Prelude.Dict.{Dict, get, put, values}
use looms.Core.Json.{Json, null, obj, Fields, end, field}
use looms.Workflow.Graph.Data.{
  NodeState, NodeStatus, pending, running, failed, SkipCause, inactive, policy, FailurePolicy, fail,
  skip, retry, fallback, Node, WorkflowDefinition, Result, ok, err, ◌>>=◌,
}
use looms.Workflow.Graph.Activity.{
  States, status_of, get_ready_node_ids, get_skippable_node_ids, get_unused_fallback_ids,
  node_results,
}

-- What the scheduler reads of a definition besides its graph.
pub record Scheduled : Type 0 where
  pub graph : WorkflowDefinition
  pub concurrency : Option ℕ
  pub input_limit_bytes : Option ℕ
  pub output_limit_bytes : Option ℕ
  pub output : Option (Json → Dict Json → Json)

-- The events that the scheduler returns, all of them for the workflow's thread.
pub data ScheduleEvent : Type 0 where
  started : (node_id : String) → ScheduleEvent
  skipped : (node_id reason : String) (cause : SkipCause) → ScheduleEvent
  thread_failed : (error : String) → ScheduleEvent
  thread_completed : (output : Json) → ScheduleEvent

abbrev pub default_graph_concurrency : ℕ
default_graph_concurrency = 8

abbrev default_value_size_limit_bytes : ℕ
default_value_size_limit_bytes = 2000000

-- `assertJsonWithinLimit`: the message of the error.
unfoldable pub limit_error : (Json → ℕ) → Json → String → Option ℕ → Option String
unfolding show
limit_error size_of value label limit =
    let bytes = or_else limit default_value_size_limit_bytes in
    if ltb bytes (size_of value)
    then some (
        label
        <> " is "
        <> show (size_of value)
        <> " UTF-8 bytes; limit is "
        <> show bytes
        <> " bytes")
    else none

abbrev pub new_state : NodeState
new_state = record {
  status = pending;
  result = null;
  error = none;
  attempts = some 0;
  branch = none;
  skip_cause = none;
  iteration = none;
}

-- The nodes that have no state yet are pending.
unfoldable pub with_nodes : States → List Node → States
unfolding get put
with_nodes states [] = states
with_nodes states (node ∷ nodes) =
    with_nodes (if is_some (get node.id states) then states else put node.id new_state states) nodes

abbrev pub has_failed : NodeStatus → Bool
has_failed failed = true
has_failed _ = false

abbrev pub failed_in : States → Node → Bool
failed_in states node = has_failed (status_of (get node.id states))

abbrev attempts_of : Option NodeState → ℕ
attempts_of none = 0
attempts_of (some state) = or_else state.attempts 0

abbrev error_of : String → Option NodeState → String
error_of id none = "Node " <> id <> " failed"
error_of id (some state) = or_else state.error ("Node " <> id <> " failed")

unfoldable pub policy_events : String → FailurePolicy → Option NodeState → List ScheduleEvent
policy_events id (retry max_attempts) state =
    if ltb (attempts_of state) max_attempts
    then started id ∷ []
    else thread_failed (error_of id state) ∷ []
policy_events id skip state = skipped id (error_of id state) policy ∷ []
policy_events id (fallback node_id) state =
    skipped id ("fallback:" <> node_id) policy ∷ started node_id ∷ []
policy_events id fail state = thread_failed (error_of id state) ∷ []

abbrev policy_of : Node → FailurePolicy
policy_of node = or_else node.failure fail

abbrev events_for : States → Option Node → Option (List ScheduleEvent)
unfolding get policy_events
events_for states none = none
events_for states (some node) = some (policy_events node.id (policy_of node) (get node.id states))

-- `failurePolicyEvents`
unfoldable pub failure_policy_events : WorkflowDefinition → States → Option (List ScheduleEvent)
unfolding get events_for
failure_policy_events definition states =
    events_for states (find? (failed_in states) definition.nodes)

abbrev pub is_running : NodeStatus → Bool
is_running running = true
is_running _ = false

abbrev is_open : NodeStatus → Bool
is_open pending = true
is_open running = true
is_open _ = false

abbrev pub running_count : States → ℕ
unfolding values
running_count states = length (filter (λ state. is_running state.status) (values states))

abbrev pub some_open : States → Bool
unfolding values
some_open states = any (λ state. is_open state.status) (values states)

-- `Math.max(0, concurrency - running)`
abbrev pub slots : Scheduled → States → ℕ
slots definition states =
    or_else definition.concurrency default_graph_concurrency - running_count states

abbrev results_fields : Dict Json → Fields
results_fields [] = end
results_fields ((id, result) ∷ results) = field id result (results_fields results)

abbrev pub output_of : Scheduled → Json → Dict Json → Json
output_of definition input results = elim definition.output [
  | none ↦ obj (results_fields results)
  | some output ↦ output input results
]

unfoldable pub skipped_events : List String → List String → List ScheduleEvent
skipped_events skippable unused =
    map (λ id. skipped id "inactive branch" inactive) skippable
    ++ map (λ id. skipped id "fallback not needed" inactive) unused

module _ (size_of : Json → ℕ) where
  abbrev pub ended_within : Json → Option String → List ScheduleEvent
  ended_within output none = thread_completed output ∷ []
  ended_within output (some error) = thread_failed error ∷ []

  -- The workflow's end, when nothing can be started or skipped.
  unfoldable pub end_events : Scheduled → States → Json → List ScheduleEvent
  unfolding node_results limit_error
  end_events definition states input =
      let output = output_of definition input (node_results definition.graph states) in
      if some_open states
      then []
      else ended_within output
          (limit_error size_of output "Workflow output" definition.output_limit_bytes)

  unfoldable pub started_events : Scheduled → States → Json → List String → List ScheduleEvent
  unfolding end_events
  started_events definition states input [] = end_events definition states input
  started_events definition states input (id ∷ ids) = map started (id ∷ ids)

  abbrev pub skipped_or_started :
      Scheduled → States → Json → List ScheduleEvent → Result (List ScheduleEvent)
  unfolding get_ready_node_ids started_events
  skipped_or_started definition states input [] = do
    ready ← get_ready_node_ids definition.graph states
    ok (started_events definition states input (take (slots definition states) ready))
  skipped_or_started definition states input (event ∷ events) = ok (event ∷ events)

  -- The events where no node has failed.
  unfoldable pub next_events : Scheduled → States → Json → Result (List ScheduleEvent)
  unfolding get_skippable_node_ids get_unused_fallback_ids skipped_events skipped_or_started
  next_events definition states input = do
    skippable ← get_skippable_node_ids definition.graph states
    skipped_or_started definition states input
        (skipped_events skippable (get_unused_fallback_ids definition.graph states))

  -- The events once the failure policy has been asked.
  abbrev pub after_policy :
      Scheduled → States → Json → Option (List ScheduleEvent) → Result (List ScheduleEvent)
  unfolding next_events
  after_policy definition states input (some events) = ok events
  after_policy definition states input none = next_events definition states input

  -- The events once the input has been measured.
  abbrev pub after_input : Scheduled → States → Json → Option String → Result (List ScheduleEvent)
  unfolding after_policy failure_policy_events
  after_input definition states input (some error) = ok (thread_failed error ∷ [])
  after_input definition states input none =
      after_policy definition states input (failure_policy_events definition.graph states)

  -- `scheduleEvents`
  unfoldable pub schedule_events : Scheduled → States → Json → Result (List ScheduleEvent)
  unfolding after_input limit_error
  schedule_events definition states input =
      after_input definition states input
        (limit_error size_of input "Workflow input" definition.input_limit_bytes)
