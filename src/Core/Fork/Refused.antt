-- ===== src/Core/Fork/Refused.antt =====
-- packages/core/src/fork.ts: when `planFork` fails.
use looms.Prelude.{
  ℕ, String, Option, none, some, Bool, true, false, List, [], ◌∷◌, ◌≡◌, ◌⊎◌, inl, inr, refl, arith,
  All, take, truthy, is_some, Bool-cases, Option-cases,
}
use looms.Core.Envelope.{EventEnvelope}
use looms.Core.State.{empty_run_state}
use looms.Core.Fold.Protocol.{Decoders, Registry}
use looms.Core.Fold.Step.{fold_run}
use looms.Core.Fork.Scan.{scan_source}
use looms.Core.Fork.Plan.{ForkError, err, is_numbered, fork_cut, plan_fork, plan_at, plan_cut}
use looms.Core.Fork.Within.{CancelsAfter}
use looms.Core.Fork.Forked.{fork_cut-in_range}

module _ (d : Decoders) (registry : Registry) (deterministic : String → Bool) (new_id : String)
    (now : ℕ) where
  -- The root thread has not started where the fork leaves its source.
  abbrev pub NoRoot : String → List EventEnvelope → Type 0
  NoRoot run_id events =
      (cut : ℕ) × (fork_cut deterministic events (scan_source d registry events) ≡ some cut)
      × (truthy (fold_run d registry (empty_run_state run_id) (take cut events)).root_thread_id
          ≡ none)

  plan_cut-refused :
      (source_run_id run_id : String) (events : List EventEnvelope) (o : Option ℕ) (e : ForkError)
      → fork_cut deterministic events (scan_source d registry events) ≡ o
      → is_some o ≡ true
      → plan_cut d registry deterministic new_id now source_run_id run_id events o ≡ err e
      → NoRoot run_id events
  unfolding plan_cut plan_at
  plan_cut-refused source_run_id run_id events none e c h f = ground arith
  plan_cut-refused source_run_id run_id events (some cut) e c h f =
      let at_cut = fold_run d registry (empty_run_state run_id) (take cut events) in
      elim (Option-cases (truthy at_cut.root_thread_id)) [
        | inl none_there ↦ (cut, c, none_there)
        | inr (root, there) ↦ ground arith
      ]

  -- When no cancellation recorded a start behind itself, a fork fails only where the source has no events, where they are not numbered from 1 on, or where the root thread has not started in the events to copy.
  pub plan_fork-refused :
      (source_run_id run_id : String) (events : List EventEnvelope) (e : ForkError)
      → All CancelsAfter events
      → plan_fork d registry deterministic new_id now source_run_id run_id events ≡ err e
      → (events ≡ []) ⊎ ((is_numbered 1 events ≡ false) ⊎ NoRoot run_id events)
  unfolding plan_fork
  plan_fork-refused source_run_id run_id [] e after h = inl refl
  plan_fork-refused source_run_id run_id (event ∷ events) e after h =
      elim (Bool-cases (is_numbered 1 (event ∷ events))) [
        | inr other ↦ inr (inl other)
        | inl numbered ↦
            let there =
              fork_cut-in_range d registry deterministic new_id now (event ∷ events) numbered
                after in
            inr (
              inr (
                plan_cut-refused source_run_id run_id (event ∷ events) _ e refl there
                  (ground arith)))
      ]
