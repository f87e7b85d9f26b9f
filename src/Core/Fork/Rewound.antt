-- ===== src/Core/Fork/Rewound.antt =====
-- packages/core/src/fork.ts: the cut of a fork, as `planFork` takes it from the scan and the walk back.
use looms.Prelude.{
  ap, or_else, ℕ, suc, String, Option, none, some, Bool, List, [], ◌≡◌, refl, sym, ◌∙◌, arith,
  length, take, or_try, inl, inr, subst, Bool-cases, Option-cases,
}
use looms.Prelude.Dict.{get}
use looms.Core.Envelope.{EventEnvelope}
use looms.Core.Fold.Protocol.{Decoders, Registry}
use looms.Core.Fold.Step.{fold_run}
use looms.Core.Fork.Scan.{
  cancellation_start, SourceScan, scan_source, scan_start, failure_origin, index_by_id,
}
use looms.Core.Fork.Plan.{fork_cut}
use looms.Core.Fork.Trace.{
  last_asked, first_failed, last_index, EndsAt, ForkedAt, whole, kept, rewound, CutsAt, here,
}
use looms.Core.Fork.Scanned.{Scanned, going, ends, scan_from-Scanned}
use looms.Core.Fork.Ends.{
  failed_end-HasFailed, HasFailed-failed_end, root_terminal-HasEnded, HasEnded-root_terminal,
  cut-CutsAt,
}
use looms.Core.Fork.Causes.{get-index_by_id}
use looms.Core.Fork.Walk.{origin_from-StartsAt}

get-indexes :
    (events : List EventEnvelope) (id : String)
    → get id (index_by_id 0 [] events) ≡ last_index id events
unfolding get
get-indexes events id =
    let entry = get-index_by_id 0 [] events id in
    elim (Option-cases (last_index id events)) [
      | inl absent ↦ ground (arith, entry)
      | inr (index, at) ↦ ground (arith, entry)
    ]

or_try-none : {A : Type 0} → (o : Option A) → or_try o none ≡ o
or_try-none none = refl
or_try-none (some a) = refl

module _ (d : Decoders) (registry : Registry) (deterministic : String → Bool) where
  Scanned-ForkedAt :
      (events : List EventEnvelope) (scan : SourceScan) (cut : ℕ)
      → Scanned d registry 0 (scan_start d registry events) [] [] events scan
      → fork_cut deterministic events scan ≡ some cut
      → ForkedAt d registry deterministic (scan_start d registry events) events cut
  unfolding fork_cut failure_origin get
  Scanned-ForkedAt events scan cut (going all end' root) h =
      let same : length events ≡ cut = ground arith in
      subst (ForkedAt d registry deterministic (scan_start d registry events) events) same (
        whole (λ k less over.
          let goes_on = all k less in
          let stops = HasEnded-root_terminal _ over in absurd (ground arith)))
  Scanned-ForkedAt events scan cut (ends k event (there, over, before) end' root asked failed) h =
      let state = scan_start d registry events in
      let last = fold_run d registry state (take (suc k) events) in
      let at : EndsAt d registry state events k event = (
        there,
        root_terminal-HasEnded last over,
        (λ j less over'.
            let goes_on = before j less in
            let stops = HasEnded-root_terminal _ over' in absurd (ground arith)),
      ) in
      let cut_at : scan.cut ≡ or_else (cancellation_start event) k =
        end' ∙ ap (or_else (cancellation_start event)) (omega arith) in
      let cuts : CutsAt event k scan.cut =
        subst (CutsAt event k) (sym cut_at) (cut-CutsAt event k) in
      elim (Bool-cases scan.root_failed) [
        | inr other ↦
            let same : scan.cut ≡ cut = ground arith in
            subst (ForkedAt d registry deterministic state events) same (
              kept k scan.cut event at
                (λ f. let bad = HasFailed-failed_end last f in absurd (ground arith)) cuts)
        | inl fails ↦
            rewound k scan.cut cut event at (failed_end-HasFailed last (sym root ∙ fails)) cuts (
              origin_from-StartsAt deterministic events scan (index_by_id 0 [] events)
                (last_asked d registry state (take (suc k) events))
                (first_failed d registry 0 state (take (suc k) events)) (λ id. last_index id events)
                (λ id. asked id ∙ or_try-none _) failed (get-indexes events) (suc scan.cut) scan.cut
                cut (omega arith) here (ground arith))
      ]

  pub fork_cut-ForkedAt :
      (events : List EventEnvelope) (cut : ℕ)
      → fork_cut deterministic events (scan_source d registry events) ≡ some cut
      → ForkedAt d registry deterministic (scan_start d registry events) events cut
  unfolding scan_source
  fork_cut-ForkedAt events cut =
      Scanned-ForkedAt events (scan_source d registry events) cut
        (scan_from-Scanned d registry 0 (scan_start d registry events) [] [] events)
