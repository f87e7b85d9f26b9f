-- ===== src/Core/Fork/Within.antt =====
-- packages/core/src/fork.ts: the scan of a source ends within it, and before its end as far as it goes.
use looms.Prelude.{
  ℕ, zero, suc, ◌+◌, ◌≤◌, ◌<◌, Option, none, some, true, false, List, [], ◌∷◌, ◌≡◌, inl, inr, refl,
  arith, All, length, take, or_else, eqb, Bool-cases,
}
use looms.Prelude.Dict.{Dict, values, get}
use looms.Core.Envelope.{EventEnvelope}
use looms.Core.Effects.{RuntimeEffect}
use looms.Core.State.{RunState}
use looms.Core.Fold.Protocol.{Decoders, Registry}
use looms.Core.Fold.Step.{fold_event, fold_run}
use looms.Core.Fork.Scan.{
  scan_from, scan_source, scan_start, root_terminal, cancellation_start, note_effects, note_failed,
}
use looms.Core.Fork.Plan.{is_numbered}

-- A cancellation that recorded where it began was recorded after that.
abbrev pub CancelsAfter : EventEnvelope → Type 0
CancelsAfter event = or_else (cancellation_start event) 0 < event.seq

cut-index :
    (o : Option ℕ) (index seq : ℕ)
    → or_else o 0 < seq
    → eqb seq (suc index) ≡ true
    → or_else o index ≤ index
cut-index none index seq h k = omega arith
cut-index (some start) index seq h k = ground arith

module _ (d : Decoders) (registry : Registry) where
  scan_from-within :
      (index : ℕ) (state : RunState) (effects : Dict RuntimeEffect) (failed_at : Dict ℕ)
      (events : List EventEnvelope)
      → is_numbered (suc index) events ≡ true
      → All CancelsAfter events
      → (scan_from d registry index state effects failed_at events).cut ≤ index + length events
  unfolding scan_from is_numbered
  scan_from-within index state effects failed_at [] h k = omega arith
  scan_from-within index state effects failed_at (event ∷ events) h (after, k) =
      let next = fold_event d registry state event in
      let rest =
        scan_from-within (suc index) next (note_effects effects next.outstanding_effects)
          (note_failed index failed_at (values next.threads)) events in
      let early = cut-index (cancellation_start event) index event.seq after in ground arith

  -- A root that failed did so at an event, so the cut is at one.
  scan_from-failed :
      (index : ℕ) (state : RunState) (effects : Dict RuntimeEffect) (failed_at : Dict ℕ)
      (events : List EventEnvelope)
      → is_numbered (suc index) events ≡ true
      → All CancelsAfter events
      → (scan_from d registry index state effects failed_at events).root_failed ≡ true
      → (scan_from d registry index state effects failed_at events).cut < index + length events
  unfolding scan_from is_numbered
  scan_from-failed index state effects failed_at [] h k f = ground arith
  scan_from-failed index state effects failed_at (event ∷ events) h (after, k) f =
      let next = fold_event d registry state event in
      let rest =
        scan_from-failed (suc index) next (note_effects effects next.outstanding_effects)
          (note_failed index failed_at (values next.threads)) events in
      let early = cut-index (cancellation_start event) index event.seq after in ground arith

  scan_from-before :
      (index : ℕ) (state : RunState) (effects : Dict RuntimeEffect) (failed_at : Dict ℕ)
      (events : List EventEnvelope) (k : ℕ)
      → is_numbered (suc index) events ≡ true
      → All CancelsAfter events
      → root_terminal state ≡ false
      → index + k ≤ (scan_from d registry index state effects failed_at events).cut
      → root_terminal (fold_run d registry state (take k events)) ≡ false
  unfolding scan_from is_numbered fold_run
  scan_from-before index state effects failed_at events zero h k going within = going
  scan_from-before index state effects failed_at [] (suc n) h k going within = going
  scan_from-before index state effects failed_at (event ∷ events) (suc n) h (after, k) going
        within =
      let next = fold_event d registry state event in
      let rest =
        scan_from-before (suc index) next (note_effects effects next.outstanding_effects)
          (note_failed index failed_at (values next.threads)) events n in
      let early = cut-index (cancellation_start event) index event.seq after in
      elim (Bool-cases (root_terminal next)) [
        | inl over ↦ ground arith
        | inr goes_on ↦ rest (ground arith) k goes_on (ground arith)
      ]

  -- The scan of a whole source.
  pub scan_source-within :
      (events : List EventEnvelope)
      → is_numbered 1 events ≡ true
      → All CancelsAfter events
      → (scan_source d registry events).cut ≤ length events
  unfolding scan_source
  scan_source-within events h k =
      let bound = scan_from-within 0 (scan_start d registry events) [] [] events h k in omega arith

  pub scan_source-failed :
      (events : List EventEnvelope)
      → is_numbered 1 events ≡ true
      → All CancelsAfter events
      → (scan_source d registry events).root_failed ≡ true
      → (scan_source d registry events).cut < length events
  unfolding scan_source
  scan_source-failed events h k f =
      let bound = scan_from-failed 0 (scan_start d registry events) [] [] events h k f in
      omega arith

  start-root_terminal :
      (events : List EventEnvelope) → root_terminal (scan_start d registry events) ≡ false
  unfolding root_terminal get
  start-root_terminal [] = refl
  start-root_terminal (event ∷ events) = refl

  pub scan_source-before :
      (events : List EventEnvelope) (k : ℕ)
      → is_numbered 1 events ≡ true
      → All CancelsAfter events
      → k ≤ (scan_source d registry events).cut
      → root_terminal (fold_run d registry (scan_start d registry events) (take k events)) ≡ false
  unfolding scan_source
  scan_source-before events k h after within =
      scan_from-before 0 (scan_start d registry events) [] [] events k h after
        (start-root_terminal events) (omega arith)
