-- ===== src/Workflow/Threads/Stopped.antt =====
-- packages/workflow/src/threads.ts: a node that ends leaves no effect behind, and its children are cancelled.
use looms.Prelude.{
  String, Option, Bool, false, List, [], ◌∷◌, ◌++◌, ◌≡◌, ◌==◌, ◌||◌, ◌&&◌, arith, map, filter, not,
  includes, includes-append, includes-filter, is_the, All, All-append, Bool-cases, inl, inr,
}
use looms.Core.Effects.{RuntimeEffect}
use looms.Workflow.Threads.Data.{
  PendingEffects, PendingSleep, PendingMap, PendingSpawn, WorkflowState,
}
use looms.Workflow.Threads.Effects.{
  sleep_effects, NodeEffect, spawn_effects, map_effects, map_item_effects, in_flight, flat_map,
}
use looms.Workflow.Threads.Pending.{without_pending_work, unsettled_targets}

-- An effect that some other node needs.
abbrev IsOf : String → NodeEffect → Type 0
IsOf node_id effect = effect.0 ≡ node_id

abbrev pub IsNotOf : String → NodeEffect → Type 0
IsNotOf node_id effect = (effect.0 == node_id) ≡ false

module _ {A B : Type 0} (P : B → Type 0) where
  All-map : (f : A → B) (xs : List A) → All (λ a. P (f a)) xs → All P (map f xs)
  All-map f [] h = tt
  All-map f (x ∷ xs) (p, h) = (p, All-map f xs h)

  All-flat_map : (f : A → List B) (xs : List A) → All (λ a. All P (f a)) xs → All P (flat_map f xs)
  All-flat_map f [] h = tt
  All-flat_map f (x ∷ xs) (p, h) = All-append P (f x) (flat_map f xs) p (All-flat_map f xs h)

All-every : {A : Type 0} (P : A → Type 0) → ((a : A) → P a) → (xs : List A) → All P xs
All-every P h [] = tt
All-every P h (x ∷ xs) = (h x, All-every P h xs)

-- The effects made for what a filter keeps of another node's.
module _ {A : Type 0} (node_id : String) (node_of : A → String) (f : A → List NodeEffect) where
  All-kept :
      ((a : A) → (node_of a == node_id) ≡ false → All (IsNotOf node_id) (f a))
      → (xs : List A)
      → All (IsNotOf node_id) (flat_map f (filter (λ a. not (node_of a == node_id)) xs))
  All-kept h [] = tt
  All-kept h (x ∷ xs) = elim (Bool-cases (node_of x == node_id)) [
    | inl own ↦ rw own (All-kept h xs)
    | inr apart ↦ rw apart (All-append (IsNotOf node_id) (f x) _ (h x apart) (All-kept h xs))
  ]

All-for_node :
    (node_id owner : String) (effects : List RuntimeEffect)
    → (owner == node_id) ≡ false
    → All (IsNotOf node_id) (map (λ effect. (owner, effect)) effects)
All-for_node node_id owner [] h = tt
All-for_node node_id owner (effect ∷ effects) h = (h, All-for_node node_id owner effects h)

module _ (thread_id run_id : String) where
  spawn_effects-IsNotOf :
      (node_id : String) (item : PendingSpawn)
      → (item.node_id == node_id) ≡ false
      → All (IsNotOf node_id) (spawn_effects thread_id run_id item)
  unfolding spawn_effects
  spawn_effects-IsNotOf node_id item = All-for_node node_id item.node_id _

  map_effects-IsNotOf :
      (node_id : String) (item : PendingMap)
      → (item.node_id == node_id) ≡ false
      → All (IsNotOf node_id) (map_effects thread_id run_id item)
  unfolding map_effects map_item_effects in_flight
  map_effects-IsNotOf node_id item h =
      All-flat_map (IsNotOf node_id) (map_item_effects thread_id run_id item) (in_flight item)
        (All-every _ (λ index. All-for_node node_id item.node_id _ h) (in_flight item))

  running-IsNotOf :
      (node_id : String) (f : String → RuntimeEffect) (ids : List String)
      → All (IsNotOf node_id) (map (λ id. (id, f id)) (filter (λ id. not (id == node_id)) ids))
  running-IsNotOf node_id f [] = tt
  running-IsNotOf node_id f (id ∷ ids) = ground (arith, running-IsNotOf node_id f ids)

  -- What is asked for when the pending work of a node and its run are filtered out of the lists.
  pub remaining-IsNotOf :
      (node_id : String) (f : String → RuntimeEffect) (running : List String)
      (spawns : List PendingSpawn) (maps : List PendingMap) (sleeps : List PendingSleep)
      (effects : List PendingEffects)
      → All (IsNotOf node_id) (
          map (λ id. (id, f id)) (filter (λ id. not (id == node_id)) running)
          ++ (flat_map
                (spawn_effects thread_id run_id)
                (filter (λ item. not (item.node_id == node_id)) spawns)
              ++ (flat_map
                    (map_effects thread_id run_id)
                    (filter (λ item. not (item.node_id == node_id)) maps)
                  ++ (flat_map sleep_effects (filter (λ item. not (item.node_id == node_id)) sleeps)
                      ++ flat_map
                          (λ p. map (λ effect. (p.node_id, effect)) p.effects)
                          (filter (λ item. not (item.node_id == node_id)) effects)))))
  remaining-IsNotOf node_id f running spawns maps sleeps effects =
      let apart = IsNotOf node_id in
      All-append apart _ _ (running-IsNotOf node_id f running) (
        All-append apart _ _
          (All-kept node_id (λ item. item.node_id) (spawn_effects thread_id run_id)
            (spawn_effects-IsNotOf node_id) spawns)
          (All-append apart _ _
            (All-kept node_id (λ item. item.node_id) (map_effects thread_id run_id)
              (map_effects-IsNotOf node_id) maps)
            (All-append apart _ _
              (All-kept node_id (λ item. item.node_id) sleep_effects (λ sleep h. (h, tt)) sleeps)
              (All-kept node_id (λ item. item.node_id)
                (λ p. map (λ effect. (p.node_id, effect)) p.effects)
                (λ p h. All-for_node node_id p.node_id p.effects h) effects))))

  -- A node whose pending work is dropped has exactly its unsettled children cancelled, besides those
  -- that were already, and the child whose result finishes the node is none of them.
  pub without_pending_work-cancels :
      (state : WorkflowState) (node_id : String) (settled : Option String) (target : String)
      → includes
          (without_pending_work thread_id run_id state node_id settled).pending_cancels
          target
        ≡ (includes state.pending_cancels target
            || (includes (unsettled_targets thread_id run_id state node_id) target
                && not (is_the settled target)))
  unfolding without_pending_work
  without_pending_work-cancels state node_id settled target =
      let cancels : String → Bool =
        λ t. not (is_the settled t) && not (includes state.pending_cancels t) in
      let targets = unsettled_targets thread_id run_id state node_id in
      ground (
        arith,
        includes-append state.pending_cancels (filter cancels targets) target,
        includes-filter cancels targets target,
      )
