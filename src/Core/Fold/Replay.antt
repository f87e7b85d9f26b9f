-- ===== src/Core/Fold/Replay.antt =====
-- Replay: a run's state is determined by its durable events, and a snapshot resumes it.
use looms.Prelude.{◌≡◌, refl, sym, ap, List, [], ◌∷◌, ◌++◌, not, filter, ◌∙◌, Bool-cases, inl, inr}
use looms.Core.Envelope.{EventEnvelope}
use looms.Core.State.{RunState}
use looms.Core.Fold.Protocol.{Decoders, Registry}
use looms.Core.Fold.Step.{fold_event, fold_run, fold_event_ephemeral}

abbrev pub durable : List EventEnvelope → List EventEnvelope
durable = filter (λ event. not event.ephemeral)

module _ (d : Decoders) (registry : Registry) where
  pub fold_run-append :
      (s : RunState) (xs ys : List EventEnvelope)
      → fold_run d registry s (xs ++ ys) ≡ fold_run d registry (fold_run d registry s xs) ys
  unfolding fold_run
  fold_run-append s [] ys = refl
  fold_run-append s (x ∷ xs) ys = fold_run-append (fold_event d registry s x) xs ys

  pub fold_run-durable :
      (s : RunState) (events : List EventEnvelope)
      → fold_run d registry s (durable events) ≡ fold_run d registry s events
  unfolding fold_run
  fold_run-durable s [] = refl
  fold_run-durable s (event ∷ events) = elim (Bool-cases event.ephemeral) [
    | inl skip ↦
        simp (skip, fold_event_ephemeral d registry s event skip) (fold_run-durable s events)
    | inr step ↦ simp step (fold_run-durable (fold_event d registry s event) events)
  ]

-- Folding a snapshot's state over the events that follow it, with the ephemeral ones left out, gives
-- the state of folding the whole history, wherever the history is cut.
pub fold_run_resume :
    (d : Decoders) (registry : Registry) (base : RunState) (before after : List EventEnvelope)
    → fold_run d registry (fold_run d registry base (durable before)) (durable after)
      ≡ fold_run d registry base (before ++ after)
fold_run_resume d registry base before after =
    fold_run-durable d registry _ after
    ∙ ap (λ s. fold_run d registry s after) (fold_run-durable d registry base before)
    ∙ sym (fold_run-append d registry base before after)
