-- ===== src/Workflow/Threads/Children.antt =====
-- packages/workflow/src/threads.ts: which children of a node have not reported back.
use looms.Prelude.{
  ℕ, zero, suc, String, Bool, false, List, [], ◌∷◌, ◌≡◌, ◌==◌, ◌||◌, ◌&&◌, refl, arith, map, not,
  any, includes, includes-append,
}
use looms.Core.Json.{Json}
use looms.Workflow.Threads.Data.{PendingSpawn, PendingMap, WorkflowState}
use looms.Workflow.Threads.Effects.{
  child_target, map_child_thread_id, has_output, unsettled_from, in_flight,
}
use looms.Workflow.Threads.Pending.{spawn_targets, map_targets_of, map_targets, unsettled_targets}

-- Whether one of so many indices from one on passes a test.
abbrev pub any_index : (ℕ → Bool) → ℕ → ℕ → Bool
any_index p start zero = false
any_index p start (suc count) = p start || any_index p (suc start) count

module _ (thread_id run_id : String) where
  -- Whether a target is the child that the node has spawned and waits for.
  abbrev pub is_spawned : String → String → PendingSpawn → Bool
  is_spawned node_id target item =
      item.node_id == node_id && child_target run_id item.child_thread_id item.execution == target

  -- Whether a target is the child of an item of the node's map that has been started and has no output.
  abbrev pub is_mapped : String → String → PendingMap → Bool
  is_mapped node_id target item =
      item.node_id == node_id
      && any_index
          (λ index.
            not (has_output item.outputs index)
            && child_target run_id (map_child_thread_id thread_id item index) item.execution
              == target)
          0 item.next_index

  -- Whether a target is a child of the node that has not reported back.
  abbrev pub is_unsettled : WorkflowState → String → String → Bool
  is_unsettled state node_id target =
      any (is_spawned node_id target) state.pending_spawns
      || any (is_mapped node_id target) state.pending_maps

  includes-spawn_targets :
      (node_id target : String) (spawns : List PendingSpawn)
      → includes (spawn_targets thread_id run_id node_id spawns) target
        ≡ any (is_spawned node_id target) spawns
  unfolding spawn_targets
  includes-spawn_targets node_id target [] = refl
  includes-spawn_targets node_id target (item ∷ spawns) =
      ground (arith, includes-spawn_targets node_id target spawns)

  includes-unsettled_from :
      (f : ℕ → String) (target : String) (start count : ℕ) (outputs : List (ℕ × Json))
      → includes (map f (unsettled_from start count outputs)) target
        ≡ any_index (λ i. not (has_output outputs i) && f i == target) start count
  unfolding unsettled_from
  includes-unsettled_from f target start zero outputs = refl
  includes-unsettled_from f target start (suc count) outputs =
      ground (arith, includes-unsettled_from f target (suc start) count outputs)

  includes-map_targets :
      (node_id target : String) (maps : List PendingMap)
      → includes (map_targets thread_id run_id node_id maps) target
        ≡ any (is_mapped node_id target) maps
  unfolding map_targets map_targets_of in_flight
  includes-map_targets node_id target [] = refl
  includes-map_targets node_id target (item ∷ maps) =
      let own =
        includes-unsettled_from
          (λ index. child_target run_id (map_child_thread_id thread_id item index) item.execution)
          target 0 item.next_index item.outputs in
      let rest = includes-map_targets node_id target maps in
      ground (
        arith,
        own,
        rest,
        includes-append (map_targets_of thread_id run_id item)
            (map_targets thread_id run_id node_id maps) target,
      )

  -- The targets are exactly the children that have not reported back.
  pub includes-unsettled_targets :
      (state : WorkflowState) (node_id target : String)
      → includes (unsettled_targets thread_id run_id state node_id) target
        ≡ is_unsettled state node_id target
  unfolding unsettled_targets
  includes-unsettled_targets state node_id target = ground (
    arith,
    includes-append (spawn_targets thread_id run_id node_id state.pending_spawns)
        (map_targets thread_id run_id node_id state.pending_maps) target,
    includes-spawn_targets node_id target state.pending_spawns,
    includes-map_targets node_id target state.pending_maps,
  )
