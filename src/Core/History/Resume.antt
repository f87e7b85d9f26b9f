-- ===== src/Core/History/Resume.antt =====
-- packages/core/src/snapshots.ts: folding from a faithful snapshot gives the fold of the whole log.
use looms.Prelude.{
  ℕ, suc, ◌≤◌, String, Option, some, List, [], ◌∷◌, ◌++◌, ◌≡◌, refl, arith, sym, ap, ◌∙◌, leb,
  filter, Bool-cases, inl, inr,
}
use looms.Core.Json.{Json}
use looms.Core.Envelope.{EventEnvelope}
use looms.Core.State.{RunState, empty_run_state}
use looms.Core.Fold.Protocol.{Decoders, Registry}
use looms.Core.Fold.Step.{fold_run}
use looms.Core.Fold.Replay.{fold_run-append}
use looms.Core.Store.Ordered.{Rising, Rising-weaken}
use looms.Core.History.Snapshots.{
  SnapshotTaken, last_snapshot, trailing, run_id_of, fold_from_snapshots,
}

-- The events up to a number.
abbrev pub leading : ℕ → List EventEnvelope → List EventEnvelope
leading seq = filter (λ event. leb event.seq seq)

trailing-Rising :
    (seq high : ℕ) (events : List EventEnvelope)
    → Rising (suc seq) high events
    → (trailing seq events ≡ events) × (leading seq events ≡ [])
trailing-Rising seq high [] r = (refl, refl)
trailing-Rising seq high (x ∷ xs) (a, b, r) =
    let (more, less) =
      trailing-Rising seq high xs (Rising-weaken (suc seq) (suc x.seq) high xs (omega arith) r) in
    (ground arith, ground arith)

leading-append-trailing :
    (low high seq : ℕ) (events : List EventEnvelope)
    → Rising low high events
    → leading seq events ++ trailing seq events ≡ events
leading-append-trailing low high seq [] r = refl
leading-append-trailing low high seq (x ∷ xs) (a, b, r) =
    let rest = leading-append-trailing (suc x.seq) high seq xs r in
    elim (Bool-cases (leb x.seq seq)) [
      | inl early ↦ ground arith
      | inr late ↦
          let above : suc seq ≤ suc x.seq = ground arith in
          let (more, less) =
            trailing-Rising seq high xs (Rising-weaken (suc seq) (suc x.seq) high xs above r) in
          ground arith
    ]

module _ (d : Decoders) (registry : Registry) (decode : Json → Option SnapshotTaken)
    (decode_state : Json → Option RunState) where
  -- If the last snapshot of a log in the order of its numbers decodes, and the state in it decodes to
  -- the fold of the events up to the number that it names, then folding from snapshots gives the fold
  -- of the whole log.
  pub fold_from_snapshots-fold_run :
      (low high : ℕ) (events : List EventEnvelope) (run_id : Option String) (snap : EventEnvelope)
      (taken : SnapshotTaken) (state : Json)
      → Rising low high events
      → last_snapshot events ≡ some snap
      → decode snap.payload ≡ some taken
      → taken.state ≡ some state
      → decode_state state
        ≡ some (
            fold_run d registry
              (empty_run_state (run_id_of run_id events))
              (leading taken.seq events))
      → fold_from_snapshots d registry decode decode_state events run_id
        ≡ some (fold_run d registry (empty_run_state (run_id_of run_id events)) events)
  unfolding fold_from_snapshots
  fold_from_snapshots-fold_run low high events run_id snap taken state r last payload held
        faithful =
      let base = empty_run_state (run_id_of run_id events) in
      let whole =
        sym (fold_run-append d registry base (leading taken.seq events) (trailing taken.seq events))
        ∙ ap (fold_run d registry base) (leading-append-trailing low high taken.seq events r) in
      rw (last, payload, held, faithful) (ap some whole)
