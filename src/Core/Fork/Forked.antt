-- ===== src/Core/Fork/Forked.antt =====
-- packages/core/src/fork.ts: the plan of `planFork`.
use looms.Prelude.{
  ℕ, suc, ◌≤◌, String, Option, none, some, Bool, true, false, List, [], ◌∷◌, ◌++◌, ◌≡◌, inl, inr,
  refl, sym, ap, ◌∙◌, arith, All, All-append, length, length-append, map, take, is_some, Bool-cases,
  subst,
}
use looms.Core.Envelope.{EventEnvelope, create_event}
use looms.Core.State.{empty_run_state}
use looms.Core.Fold.Protocol.{Decoders, Registry}
use looms.Core.Fold.Step.{fold_run}
use looms.Core.Fork.Scan.{
  SourceScan, scan_source, scan_start, root_terminal, failure_origin, index_by_id,
}
use looms.Core.Fork.Plan.{
  ForkPlan, ForkResult, ok, err, copy_event, fork_marker, effect_ids, is_numbered, fork_cut,
  plan_fork, plan_at, plan_cut,
}
use looms.Core.Fork.Within.{
  CancelsAfter, scan_source-within, scan_source-failed, scan_source-before,
}
use looms.Core.Fork.Origin.{origin_from-within, origin_from-in_range}
use looms.Core.Fork.Trace.{ForkedAt}
use looms.Core.Fork.Rewound.{fork_cut-ForkedAt}
use looms.Core.Fork.Numbering.{
  is_numbered-take, is_numbered-snoc, map-copy_event, length-take_within,
}

-- The plan of a result that has one.
abbrev plan_or : ForkPlan → ForkResult → ForkPlan
plan_or plan (ok p) = p
plan_or plan (err e) = plan

module _ (d : Decoders) (registry : Registry) (deterministic : String → Bool) (new_id : String)
    (now : ℕ) where
  pub fork_cut-in_range :
      (events : List EventEnvelope)
      → is_numbered 1 events ≡ true
      → All CancelsAfter events
      → is_some (fork_cut deterministic events (scan_source d registry events)) ≡ true
  unfolding fork_cut failure_origin
  fork_cut-in_range events h k =
      let scan = scan_source d registry events in
      let at = scan_source-failed d registry events h k in
      elim (Bool-cases scan.root_failed) [
        | inr going ↦ ground arith
        | inl failed ↦
            let there =
              origin_from-in_range deterministic events scan (index_by_id 0 [] events)
                (suc scan.cut) scan.cut (at failed) in
            ground arith
      ]

  -- The cut is the scan's, or an index before it.
  fork_cut-within :
      (events : List EventEnvelope) (scan : SourceScan) (cut : ℕ)
      → fork_cut deterministic events scan ≡ some cut
      → cut ≤ scan.cut
  unfolding fork_cut failure_origin
  fork_cut-within events scan cut h = elim (Bool-cases scan.root_failed) [
    | inr other ↦ let same : scan.cut ≡ cut = ground arith in omega arith
    | inl failed ↦
        origin_from-within deterministic events scan (index_by_id 0 [] events) (suc scan.cut)
          scan.cut cut (omega arith) (ground arith)
  ]

  -- What stands behind a plan.
  abbrev Planned : String → String → List EventEnvelope → ForkPlan → Type 0
  Planned source_run_id run_id events plan =
      (is_numbered 1 events ≡ true)
      × (fork_cut deterministic events (scan_source d registry events) ≡ some plan.source_seq)
      × (plan.events
          ≡ map
              (copy_event run_id (
                effect_ids
                  (fold_run d registry (empty_run_state run_id)
                    (take plan.source_seq events)).outstanding_effects))
              (take plan.source_seq events)
            ++ fork_marker new_id now source_run_id run_id plan.source_seq ∷ [])

  plan_at-Planned :
      (source_run_id run_id : String) (events : List EventEnvelope) (cut : ℕ) (o : Option String)
      (plan : ForkPlan)
      → is_numbered 1 events ≡ true
      → fork_cut deterministic events (scan_source d registry events) ≡ some cut
      → plan_at d registry deterministic new_id now source_run_id run_id events cut
          (fold_run d registry (empty_run_state run_id) (take cut events))
          o
        ≡ ok plan
      → Planned source_run_id run_id events plan
  unfolding plan_at
  plan_at-Planned source_run_id run_id events cut none plan h c e = ground arith
  plan_at-Planned source_run_id run_id events cut (some root) plan h c e =
      subst (Planned source_run_id run_id events) (ap (plan_or plan) e) (h, c, refl)

  plan_cut-Planned :
      (source_run_id run_id : String) (events : List EventEnvelope) (o : Option ℕ) (plan : ForkPlan)
      → is_numbered 1 events ≡ true
      → fork_cut deterministic events (scan_source d registry events) ≡ o
      → plan_cut d registry deterministic new_id now source_run_id run_id events o ≡ ok plan
      → Planned source_run_id run_id events plan
  unfolding plan_cut
  plan_cut-Planned source_run_id run_id events none plan h c e = ground arith
  plan_cut-Planned source_run_id run_id events (some cut) plan h c e =
      plan_at-Planned source_run_id run_id events cut _ plan h c e

  plan_fork-Planned :
      (source_run_id run_id : String) (events : List EventEnvelope) (plan : ForkPlan)
      → plan_fork d registry deterministic new_id now source_run_id run_id events ≡ ok plan
      → Planned source_run_id run_id events plan
  unfolding plan_fork
  plan_fork-Planned source_run_id run_id [] plan e = ground arith
  plan_fork-Planned source_run_id run_id (event ∷ events) plan e =
      elim (Bool-cases (is_numbered 1 (event ∷ events))) [
        | inr other ↦ ground arith
        | inl numbered ↦
            plan_cut-Planned source_run_id run_id (event ∷ events) _ plan numbered refl
              (ground arith)
      ]

  -- When no cancellation recorded a start behind itself, the events of the plan are numbered from 1 to one above `sourceSeq`,
  -- and they all carry the new run's id.
  pub plan_fork-is_numbered :
      (source_run_id run_id : String) (events : List EventEnvelope) (plan : ForkPlan)
      → All CancelsAfter events
      → plan_fork d registry deterministic new_id now source_run_id run_id events ≡ ok plan
      → (is_numbered 1 plan.events ≡ true)
        × (length plan.events ≡ suc plan.source_seq)
        × All (λ e. e.run_id ≡ run_id) plan.events
  unfolding fork_marker create_event
  plan_fork-is_numbered source_run_id run_id events plan after e =
      let (numbered, at, same) = plan_fork-Planned source_run_id run_id events plan e in
      let bound = scan_source-within d registry events numbered after in
      let less = fork_cut-within events (scan_source d registry events) plan.source_seq at in
      let size = length-take_within plan.source_seq events (omega arith) in
      let reissued =
        effect_ids
          (fold_run d registry (empty_run_state run_id)
            (take plan.source_seq events)).outstanding_effects in
      let (copied_numbered, moved, kept) =
        map-copy_event run_id reissued 1 (take plan.source_seq events)
          (is_numbered-take plan.source_seq 1 events numbered) in
      let marker = fork_marker new_id now source_run_id run_id plan.source_seq in
      subst
        (λ es.
          (is_numbered 1 es ≡ true)
          × (length es ≡ suc plan.source_seq)
          × All (λ e. e.run_id ≡ run_id) es)
        (sym same)
        (
          is_numbered-snoc 1 (map (copy_event run_id reissued) (take plan.source_seq events)) marker
              copied_numbered (omega arith),
          length-append (map (copy_event run_id reissued) (take plan.source_seq events))
                (marker ∷ [])
              ∙ omega arith,
          All-append (λ e. e.run_id ≡ run_id)
              (map (copy_event run_id reissued) (take plan.source_seq events)) (marker ∷ []) moved
              (refl, tt),
        )

  -- When no cancellation recorded a start behind itself, neither the run nor its root thread has ended in the fold of any part of the events that the fork copies.
  pub plan_fork-root_terminal :
      (source_run_id run_id : String) (events : List EventEnvelope) (plan : ForkPlan) (k : ℕ)
      → All CancelsAfter events
      → plan_fork d registry deterministic new_id now source_run_id run_id events ≡ ok plan
      → k ≤ plan.source_seq
      → root_terminal (fold_run d registry (scan_start d registry events) (take k events)) ≡ false
  plan_fork-root_terminal source_run_id run_id events plan k after e within =
      let (numbered, at, same) = plan_fork-Planned source_run_id run_id events plan e in
      let less = fork_cut-within events (scan_source d registry events) plan.source_seq at in
      scan_source-before d registry events k numbered after (omega arith)

  -- The plan of a fork has the copies of the first sourceSeq events and the fork's marker. If nothing ends
  -- the source's run or its root thread, these are all events. If it ends and neither the run nor its root is
  -- failed then, they are those before the event that ends it, or before the index which that event recorded
  -- as the start of a cancellation. If it is failed, the fork goes back from there, from an event that
  -- reports a failed thread to the event after which that thread was first failed, from any other event, or
  -- where that is not earlier, to the last event with the id of its cause, and always to an earlier one: they
  -- are the events before the first one on this way that is the outcome of a module's own effect, not
  -- deterministic and not withdrawn, as the effect stood last in a fold up to the end; and if there is none
  -- on the whole way, those before where it began.
  pub plan_fork-source_seq :
      (source_run_id run_id : String) (events : List EventEnvelope) (plan : ForkPlan)
      → plan_fork d registry deterministic new_id now source_run_id run_id events ≡ ok plan
      → (plan.events
          ≡ map
              (copy_event run_id (
                effect_ids
                  (fold_run d registry
                    (empty_run_state run_id)
                    (take plan.source_seq events)).outstanding_effects))
              (take plan.source_seq events)
            ++ fork_marker new_id now source_run_id run_id plan.source_seq ∷ [])
        × ForkedAt d registry deterministic (scan_start d registry events) events plan.source_seq
  plan_fork-source_seq source_run_id run_id events plan e =
      let (numbered, at, same) = plan_fork-Planned source_run_id run_id events plan e in
      (same, fork_cut-ForkedAt d registry deterministic events plan.source_seq at)
