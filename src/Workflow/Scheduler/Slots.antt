-- ===== src/Workflow/Scheduler/Slots.antt =====
-- packages/workflow/src/effects.ts and threads.ts: the scheduler keeps a workflow thread within its concurrency.
use looms.Prelude.{
  ℕ, ◌≤◌, max, String, Option, none, some, List, [], ◌∷◌, ◌≡◌, refl, sym, subst, map, length, take,
  or_else, Bool-cases, inl, inr, arith,
}
use looms.Core.Json.{Json}
use looms.Workflow.Graph.Data.{Result, Result-cases, ok, inactive}
use looms.Workflow.Graph.Activity.{
  States, get_ready_node_ids, get_skippable_node_ids, get_unused_fallback_ids,
}
use looms.Workflow.Threads.Data.{WorkflowState}
use looms.Workflow.Scheduler.{
  some_open, Scheduled, ScheduleEvent, skipped, thread_failed, default_graph_concurrency,
  limit_error, failure_policy_events, with_nodes, running_count, slots, skipped_events, end_events,
  started_events, skipped_or_started, next_events, after_policy, after_input, schedule_events,
  ended_within,
}
use looms.Workflow.Scheduler.Running.{
  starts, scheduled, starts-append, starts-skipped, starts-started, length-take_le,
  running_count-with_nodes, running_count-scheduled,
}

module _ (size_of : Json → ℕ) (definition : Scheduled) (states : States) (input : Json) where
  abbrev IsWithin : Result (List ScheduleEvent) → Type 0
  IsWithin r =
      (events : List ScheduleEvent) → r ≡ ok events → starts events ≤ slots definition states

  ok-IsWithin : (xs : List ScheduleEvent) → starts xs ≤ slots definition states → IsWithin (ok xs)
  ok-IsWithin xs h events e =
      let same : xs ≡ events = ground arith in
      subst (λ ys. starts ys ≤ slots definition states) same h

  starts-ended :
      (output : Json) (error : Option String) → starts (ended_within size_of output error) ≤ 0
  starts-ended output none = omega arith
  starts-ended output (some error) = omega arith

  starts-started_events :
      (ids : List String) → starts (started_events size_of definition states input ids) ≤ length ids
  unfolding started_events end_events
  starts-started_events [] = elim (Bool-cases (some_open states)) [
    | inl open_left ↦ rw open_left (omega arith)
    | inr closed ↦ rw closed (starts-ended _ _)
  ]
  starts-started_events (id ∷ ids) = (let all = starts-started (id ∷ ids) in omega arith)

  skipped_or_started-IsWithin :
      (events : List ScheduleEvent)
      → starts events ≡ 0
      → IsWithin (skipped_or_started size_of definition states input events)
  unfolding skipped_or_started
  skipped_or_started-IsWithin [] h =
      elim (Result-cases (get_ready_node_ids definition.graph states)) [
        | inl (ready, r) ↦
            let chosen = take (slots definition states) ready in
            let few = starts-started_events chosen in
            let taken = length-take_le (slots definition states) ready in
            rw r (ok-IsWithin (started_events size_of definition states input chosen) (omega arith))
        | inr (thrown, r) ↦ rw r (λ events e. ground arith)
      ]
  skipped_or_started-IsWithin (event ∷ events) h = ok-IsWithin (event ∷ events) (omega arith)

  skipped_events-starts :
      (skippable unused : List String) → starts (skipped_events skippable unused) ≡ 0
  unfolding skipped_events
  skipped_events-starts skippable unused =
      let branch = λ (id : String). skipped id "inactive branch" inactive in
      let fallback = λ (id : String). skipped id "fallback not needed" inactive in
      let first = starts-skipped branch skippable (λ id. refl) in
      let second = starts-skipped fallback unused (λ id. refl) in
      let sum = starts-append (map branch skippable) (map fallback unused) in omega arith

  next_events-IsWithin : IsWithin (next_events size_of definition states input)
  unfolding next_events
  next_events-IsWithin = elim (Result-cases (get_skippable_node_ids definition.graph states)) [
    | inl (skippable, k) ↦
        let events = skipped_events skippable (get_unused_fallback_ids definition.graph states) in
        rw k (
          skipped_or_started-IsWithin events
            (skipped_events-starts skippable (get_unused_fallback_ids definition.graph states)))
    | inr (thrown, k) ↦ rw k (λ events e. ground arith)
  ]

  after_input-IsWithin :
      (error : Option String)
      → failure_policy_events definition.graph states ≡ none
      → IsWithin (after_input size_of definition states input error)
  unfolding after_input after_policy
  after_input-IsWithin (some error) h = ok-IsWithin (thread_failed error ∷ []) (omega arith)
  after_input-IsWithin none h =
      subst (λ o. IsWithin (after_policy size_of definition states input o)) (sym h)
        next_events-IsWithin

-- Where no node has failed: when the thread has stepped by the events that `scheduleEvents` returns for its
-- nodes, those of the definition that have no state yet being pending, no more of its nodes are running
-- than before, or than the definition's concurrency if that is more.
pub schedule_events-slots :
    (thread_id run_id : String) (outputs_size : List (ℕ × Json) → ℕ) (size_of : Json → ℕ)
    (definition : Scheduled) (state : WorkflowState) (input : Json) (events : List ScheduleEvent)
    → failure_policy_events definition.graph (with_nodes state.nodes definition.graph.nodes) ≡ none
    → schedule_events size_of definition (with_nodes state.nodes definition.graph.nodes) input
      ≡ ok events
    → running_count (scheduled thread_id run_id outputs_size state events).nodes
      ≤ max (running_count state.nodes) (or_else definition.concurrency default_graph_concurrency)
unfolding schedule_events
schedule_events-slots thread_id run_id outputs_size size_of definition state input events
      none_failed e =
    let states = with_nodes state.nodes definition.graph.nodes in
    let few : starts events ≤ slots definition states =
      after_input-IsWithin size_of definition states input
        (limit_error size_of input "Workflow input" definition.input_limit_bytes) none_failed events
        e in
    let grown = running_count-scheduled thread_id run_id outputs_size events state in
    let counted = running_count-with_nodes definition.graph.nodes state.nodes in ground arith
