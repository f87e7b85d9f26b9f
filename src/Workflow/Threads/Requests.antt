-- ===== src/Workflow/Threads/Requests.antt =====
-- packages/workflow/src/threads.ts: what a running node asks for. A tag that `workflow.effects.requested`
-- would add to a spawn, a completion or a failure, whose types have none, is left out.
use looms.Prelude.{
  ℕ, suc, min, String, Option, none, some, Bool, true, false, List, [], ◌∷◌, ◌++◌, ◌<>◌, ◌==◌, show,
  filter, length, not, eqb, or_else, option_map, if◌then◌else◌, ◌>>=◌,
}
use looms.Prelude.Dict.{get}
use looms.Core.Json.{Json, num, str, obj, Fields, end, field}
use looms.Core.Effects.{RuntimeEffect, wait, emit, cancel, launch, cancel_run, invoke, effect_type}
use looms.Workflow.Graph.Data.{NodeState, running}
use looms.Workflow.Threads.Data.{PendingSpawn, PendingMap, PendingSleep, WorkflowState, MapRequest}
use looms.Workflow.Threads.Invocations.{node_run_key}
use looms.Workflow.Threads.Nodes.{attempts_at}

-- `attempt === undefined || attempt === node.attempts`
abbrev same_attempt : Option Json → Option ℕ → Bool
same_attempt none attempts = true
same_attempt (some (num n)) (some m) = eqb n m
same_attempt _ _ = false

abbrev runs_attempt : Option Json → Option NodeState → Bool
runs_attempt attempt none = false
runs_attempt attempt (some node) = elim node.status [
  | running ↦ same_attempt attempt node.attempts
  | _ ↦ false
]

-- `isCurrentAttempt`
unfoldable pub is_current_attempt : WorkflowState → String → Option Json → Bool
unfolding get
is_current_attempt state node_id attempt = runs_attempt attempt (get node_id state.nodes)

-- `workflow.spawn.requested`
unfoldable pub spawn_requested_step : WorkflowState → PendingSpawn → WorkflowState
unfolding is_current_attempt
spawn_requested_step state item =
    if not (is_current_attempt state item.node_id (some (num item.attempt)))
    then state
    else record state {
      pending_spawns =
          filter (λ other'. not (other'.node_id == item.node_id)) state.pending_spawns ++ item ∷ [];
    }

abbrev pub pending_map : MapRequest → PendingMap
pending_map request = record {
  node_id = request.node_id;
  attempt = request.attempt;
  kind = request.kind;
  definition_name = request.definition_name;
  definition_version = request.definition_version;
  items = request.items;
  concurrency = request.concurrency;
  limit_bytes = request.limit_bytes;
  next_index = min request.concurrency (length request.items);
  outputs = [];
  execution = request.execution;
  close = request.close;
}

-- `workflow.map.requested`
unfoldable pub map_requested_step : WorkflowState → MapRequest → WorkflowState
unfolding is_current_attempt
map_requested_step state request =
    if not (is_current_attempt state request.node_id (some (num request.attempt)))
    then state
    else record state {
      pending_maps =
          filter (λ other'. not (other'.node_id == request.node_id)) state.pending_maps
          ++ pending_map request ∷ [];
    }

-- `workflow.sleep.requested`
unfoldable pub sleep_requested_step : WorkflowState → PendingSleep → WorkflowState
sleep_requested_step state sleep =
    if sleep.wait_id == "" then state else if sleep.node_id == "" then state else record state {
      pending_sleeps =
          filter (λ other'. not (other'.node_id == sleep.node_id)) state.pending_sleeps
          ++ sleep ∷ [];
    }

-- `{ ...fs, [key]: v }`
unfoldable pub put_field : String → Json → Fields → Fields
put_field key v end = field key v end
put_field key v (field k w fs) = if k == key then field key v fs else field k w (put_field key v fs)

abbrev scoped_tag : String → ℕ → Option Json → Json
unfolding put_field
scoped_tag node_id attempt (some (obj fs)) =
    obj (put_field "attempt" (num attempt) (put_field "nodeId" (str node_id) fs))
scoped_tag node_id attempt _ =
    obj (field "nodeId" (str node_id) (field "attempt" (num attempt) end))

-- The tag that an effect with no text for one is given.
unfoldable pub tag_effect : String → ℕ → String → RuntimeEffect → RuntimeEffect
unfolding scoped_tag
tag_effect node_id attempt name (wait id on tag) =
    wait id on (some (scoped_tag node_id attempt tag))
tag_effect node_id attempt name (emit event none) = emit event (some name)
tag_effect node_id attempt name (cancel id none) = cancel id (some name)
tag_effect node_id attempt name (launch id kind definition version input close none) =
    launch id kind definition version input close (some name)
tag_effect node_id attempt name (cancel_run id none) = cancel_run id (some name)
tag_effect node_id attempt name (invoke type input none at) = invoke type input (some name) at
tag_effect node_id attempt name effect = effect

unfoldable pub tag_effects : String → ℕ → String → ℕ → List RuntimeEffect → List RuntimeEffect
unfolding tag_effect effect_type show
tag_effects node_id attempt key index [] = []
tag_effects node_id attempt key index (effect ∷ effects) =
    tag_effect node_id attempt (key <> "_" <> effect_type effect <> "_" <> show index) effect
    ∷ tag_effects node_id attempt key (suc index) effects

-- `workflow.effects.requested`
unfoldable pub effects_requested_step : WorkflowState → String → List RuntimeEffect → WorkflowState
unfolding tag_effects node_run_key get attempts_at
effects_requested_step state node_id effects =
    let attempts = or_else (attempts_at state node_id) 1 in
    let iteration = get node_id state.nodes >>= λ n. n.iteration in
    let key = node_run_key node_id attempts (option_map (λ it. it.0) iteration) in
    if node_id == "" then state else record state {
      pending_effects =
          filter (λ other'. not (other'.node_id == node_id)) state.pending_effects
          ++ (record { node_id = node_id; effects = tag_effects node_id attempts key 0 effects })
            ∷ [];
    }
