-- ===== src/Core/History/Stepping.antt =====
-- packages/core/src/replay.ts: one step looked up is the same step of the whole replay.
use looms.Prelude.{
  ℕ, suc, ◌≤◌, String, some, false, List, [], ◌∷◌, ◌++◌, ◌≡◌, refl, arith, sym, ap, ◌∙◌, ltb,
  filter, find?, Bool-cases, inl, inr,
}
use looms.Core.Envelope.{EventEnvelope}
use looms.Core.State.{RunState, empty_run_state}
use looms.Core.Fold.Protocol.{Decoders, Registry}
use looms.Core.Fold.Step.{fold_event, fold_run, fold_event_ephemeral}
use looms.Core.Fold.Replay.{fold_run-append}
use looms.Core.Store.Ordered.{Rising, Rising-weaken}
use looms.Core.History.Snapshots.{first_run_id}
use looms.Core.History.Replay.{
  ReplayStep, is_target, replay_step, replay_to, replay_from, replay_all,
}

below-Rising :
    (seq high : ℕ) (events : List EventEnvelope)
    → Rising seq high events
    → filter (λ event. ltb event.seq seq) events ≡ []
below-Rising seq high [] r = refl
below-Rising seq high (x ∷ xs) (a, b, r) =
    ground (arith, below-Rising seq high xs (Rising-weaken seq (suc x.seq) high xs (omega arith) r))

target-Rising :
    (low high : ℕ) (before after : List EventEnvelope) (target : EventEnvelope)
    → Rising low high (before ++ target ∷ after)
    → (filter (λ event. ltb event.seq target.seq) (before ++ target ∷ after) ≡ before)
      × (low ≤ target.seq)
target-Rising low high [] after target (a, b, r) =
    let rest =
      below-Rising target.seq high after
        (Rising-weaken target.seq (suc target.seq) high after (omega arith) r) in
    (ground arith, a)
target-Rising low high (x ∷ before) after target (a, b, r) =
    let (rest, later) = target-Rising (suc x.seq) high before after target r in
    (ground arith, omega arith)

find-target :
    (low high : ℕ) (before after : List EventEnvelope) (target : EventEnvelope)
    → Rising low high (before ++ target ∷ after)
    → target.ephemeral ≡ false
    → find? (is_target target.seq) (before ++ target ∷ after) ≡ some target
find-target low high [] after target (a, b, r) h = ground arith
find-target low high (x ∷ before) after target (a, b, r) h =
    let (rest, later) = target-Rising (suc x.seq) high before after target r in
    ground (arith, find-target (suc x.seq) high before after target r h)

fold_run_one :
    (d : Decoders) (registry : Registry) (state : RunState) (event : EventEnvelope)
    → fold_run d registry state (event ∷ []) ≡ fold_event d registry state event
unfolding fold_run
fold_run_one d registry state event = refl

module _ (d : Decoders) (registry : Registry) where
  replay_from-at :
      (state : RunState) (before after : List EventEnvelope) (target : EventEnvelope)
      → target.ephemeral ≡ false
      → replay_from d registry state (before ++ target ∷ after)
        ≡ replay_from d registry state before
          ++ replay_step d registry (fold_run d registry state before) target
            ∷ replay_from d registry
                (fold_event d registry (fold_run d registry state before) target)
                after
  unfolding replay_from fold_run
  replay_from-at state [] after target h = ground arith
  replay_from-at state (x ∷ before) after target h = elim (Bool-cases x.ephemeral) [
    | inl skip ↦
        simp (skip, fold_event_ephemeral d registry state x skip)
          (replay_from-at state before after target h)
    | inr step ↦ simp step (
        ap (λ steps. replay_step d registry state x ∷ steps)
          (replay_from-at (fold_event d registry state x) before after target h))
  ]

  -- In a log in the order of its numbers, a durable event of the run of the first event is found by
  -- its number; its step ends in the fold of the log up to it, and is in the replay of the whole log
  -- at the place that the events before it give it.
  pub replay_to-replay_all :
      (low high : ℕ) (before after : List EventEnvelope) (target : EventEnvelope) (run_id : String)
      → Rising low high (before ++ target ∷ after)
      → target.ephemeral ≡ false
      → target.run_id ≡ run_id
      → first_run_id (before ++ target ∷ after) ≡ some run_id
      → (step : ReplayStep) × (replay_to d registry (before ++ target ∷ after) target.seq
          ≡ some step)
        × (step.after ≡ fold_run d registry (empty_run_state run_id) (before ++ target ∷ []))
        × ((later : List ReplayStep) × (replay_all d registry (before ++ target ∷ after)
              ≡ replay_from d registry (empty_run_state run_id) before ++ step ∷ later))
  unfolding replay_to replay_all
  replay_to-replay_all low high before after target run_id r durable same first =
      let base = empty_run_state run_id in
      let (prior, later) = target-Rising low high before after target r in
      (
        replay_step d registry (fold_run d registry base before) target,
        rw (find-target low high before after target r durable, prior, same) refl,
        sym (
            fold_run-append d registry base before (target ∷ [])
            ∙ fold_run_one d registry (fold_run d registry base before) target),
        (
          replay_from d registry (fold_event d registry (fold_run d registry base before) target)
              after,
          rw first (replay_from-at base before after target durable),
        ),
      )
