-- ===== src/Workflow/Scheduler/Progress.antt =====
-- packages/workflow/src/effects.ts: a workflow in which nothing runs does not stall.
use looms.Prelude.{
  ℕ, zero, suc, ◌≤◌, String, Option, none, some, true, false, List, [], ◌∷◌, ◌≡◌, ◌≢◌, ◌==◌, ◌⊎◌,
  refl, ap, sym, ◌∙◌, subst, take, includes, or_else, Distinct, Bool-cases, inl, inr, eq_iff,
  eq_refl, arith,
}
use looms.Prelude.Dict.{get, keys, values, Entries, get-eq-none}
use looms.Core.Json.{Json}
use looms.Workflow.Graph.Data.{NodeState, Result, ok, workflow_edges}
use looms.Workflow.Graph.Sort.{node_ids, topological_sort}
use looms.Workflow.Graph.Sorted.{topological_sort-node_ids}
use looms.Workflow.Graph.Activity.{
  is_pending, States, pending_in, get_ready_node_ids, get_skippable_node_ids,
  get_unused_fallback_ids,
}
use looms.Workflow.Graph.Returns.{get_ready_node_ids_return}
use looms.Workflow.Graph.Split.{filter_ok-keeps, ready-order, skippable-order}
use looms.Workflow.Scheduler.{
  Scheduled, ScheduleEvent, default_graph_concurrency, limit_error, failure_policy_events,
  events_for, running_count, some_open, slots, skipped_events, end_events, started_events,
  skipped_or_started, next_events, schedule_events, ended_within, after_policy, after_input,
}
use looms.Workflow.Scheduler.Quiet.{Layered, Quiet}
use looms.Workflow.Scheduler.Candidates.{Chosen, down, falls}
use looms.Workflow.Scheduler.Chosen.{chosen}

-- A state that is open where none runs is that of a pending node.
open_node :
    (states : States) (P : String → Type 0)
    → running_count states ≡ 0
    → Distinct (keys states)
    → Entries (λ id state. P id) states
    → some_open states ≡ true
    → (id : String) × P id
      × (state : NodeState) × (get id states ≡ some state)
      × (pending_in states id ≡ true)
unfolding values get
open_node [] P h d k o = absurd (ground arith)
open_node ((j, s) ∷ states) P h (new, d) (own, k) o = elim (Bool-cases (is_pending s.status)) [
  | inl waits ↦ (j, own, s, ground (arith, eq_refl j), ground (arith, eq_refl j))
  | inr other ↦
      let (id, p, state, found, waits) = open_node states P (ground arith) d k (ground arith) in
      let apart : (j == id) ≡ false = ground (arith, eq_iff j id, get-eq-none j states new) in
      (id, p, state, rw apart found, rw apart waits)
]

-- Some event is returned.
abbrev pub Emits : Result (List ScheduleEvent) → Type 0
Emits r = (event : ScheduleEvent) × (events : List ScheduleEvent) × (r ≡ ok (event ∷ events))

filled : (xs : List String) (x : String) → includes xs x ≡ true → xs ≢ []
filled [] x h e = cc
filled (y ∷ ys) x h e = cc

take-filled : (n : ℕ) (xs : List String) → 1 ≤ n → xs ≢ [] → take n xs ≢ []
take-filled zero xs h f e = absurd (omega arith)
take-filled (suc n) [] h f e = f refl
take-filled (suc n) (x ∷ xs) h f e = cc

skipped_events-filled :
    (skippable unused : List String)
    → (skippable ≢ []) ⊎ (unused ≢ [])
    → skipped_events skippable unused ≢ []
unfolding skipped_events
skipped_events-filled [] [] (inl f) e = f refl
skipped_events-filled [] [] (inr f) e = f refl
skipped_events-filled [] (x ∷ xs) f e = cc
skipped_events-filled (x ∷ xs) unused f e = cc

module _ (size_of : Json → ℕ) (definition : Scheduled) (states : States) (input : Json) where
  ended_within-Emits :
      (output : Json) (error : Option String) → Emits (ok (ended_within size_of output error))
  ended_within-Emits output none = (_, _, refl)
  ended_within-Emits output (some error) = (_, _, refl)

  started_events-Emits :
      (ids : List String)
      → (some_open states ≡ true → ids ≢ [])
      → Emits (ok (started_events size_of definition states input ids))
  unfolding started_events end_events
  started_events-Emits [] h = elim (Bool-cases (some_open states)) [
    | inl open_left ↦ absurd (h open_left refl)
    | inr closed ↦ rw closed (ended_within-Emits _ _)
  ]
  started_events-Emits (id ∷ ids) h = (_, _, refl)

  skipped_or_started-Emits :
      (events : List ScheduleEvent) (ready : List String)
      → get_ready_node_ids definition.graph states ≡ ok ready
      → (some_open states ≡ true → events ≡ [] → take (slots definition states) ready ≢ [])
      → Emits (skipped_or_started size_of definition states input events)
  unfolding skipped_or_started
  skipped_or_started-Emits [] ready e h =
      rw e (started_events-Emits (take (slots definition states) ready) (λ o. h o refl))
  skipped_or_started-Emits (event ∷ events) ready e h = (event, events, refl)

  module _ (rank : String → ℕ) (order : List String) (layered : Layered rank definition.graph)
      (quiet : Quiet definition.graph states)
      (sorted : topological_sort definition.graph.nodes (workflow_edges definition.graph)
        ≡ ok order)
      (room : 1 ≤ or_else definition.concurrency default_graph_concurrency) where
    -- What is chosen is among the lists that the scheduler computes.
    chosen-listed :
        (ready skippable : List String)
        → get_ready_node_ids definition.graph states ≡ ok ready
        → get_skippable_node_ids definition.graph states ≡ ok skippable
        → Chosen rank definition.graph states layered quiet
        → skipped_events skippable (get_unused_fallback_ids definition.graph states) ≡ []
        → take (slots definition states) ready ≢ []
    chosen-listed ready skippable r k (id, named, choice) none_skipped =
        let idle = quiet.none_running in
        let free : 1 ≤ slots definition states = omega arith in
        let in_order =
          (topological_sort-node_ids definition.graph.nodes (workflow_edges definition.graph) order
            id sorted).1
          ∙ named in
        elim choice [
          | inl starts ↦ take-filled (slots definition states) ready free (
              filled ready id (
                filter_ok-keeps _ order ready id
                  (ready-order definition.graph states order ready sorted r) in_order starts))
          | inr (inl skips) ↦ absurd (
              skipped_events-filled skippable _
                (inl (
                  filled skippable id (
                    filter_ok-keeps _ order skippable id
                      (skippable-order definition.graph states order skippable sorted k) in_order
                      skips)))
                none_skipped)
          | inr (inr unused) ↦
              absurd (skipped_events-filled skippable _ (inr (filled _ id unused)) none_skipped)
        ]

    next_events-Emits : Emits (next_events size_of definition states input)
    unfolding next_events
    next_events-Emits =
        let ((ready, r), (skippable, k)) =
          get_ready_node_ids_return definition.graph states
            (down rank definition.graph states layered quiet)
            (falls rank definition.graph states layered quiet) (λ id. omega arith) order sorted in
        rw k (
          skipped_or_started-Emits
            (skipped_events skippable (get_unused_fallback_ids definition.graph states)) ready r
            (λ open_left none_skipped.
              let (id, named, state, found, waits) =
                open_node states (λ id. includes (node_ids definition.graph.nodes) id ≡ true)
                  quiet.none_running quiet.distinct quiet.known open_left in
              chosen-listed ready skippable r k
                (chosen rank definition.graph states layered quiet (suc (rank id)) id (omega arith)
                  named waits)
                none_skipped))

    after_input-Emits :
        (error : Option String) → Emits (after_input size_of definition states input error)
    unfolding after_input after_policy failure_policy_events
    after_input-Emits (some error) = (_, _, refl)
    after_input-Emits none =
        subst (λ o. Emits (after_policy size_of definition states input o))
          (sym (ap (events_for states) quiet.none_failed)) next_events-Emits

    -- Let the graph of a definition sort, with ranks, at most the number of nodes, that rise along its edges
    -- and from a node to its fallback. Let the states be those of its nodes, with none running, none failed
    -- and no fallback pending that a node has handed off to; and let the concurrency be positive. Then
    -- `scheduleEvents` returns some event: the workflow goes on, or ends.
    pub schedule_events-Emits : Emits (schedule_events size_of definition states input)
    unfolding schedule_events
    schedule_events-Emits =
        after_input-Emits (limit_error size_of input "Workflow input" definition.input_limit_bytes)
