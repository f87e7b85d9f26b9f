-- ===== src/Core/Fold/Launched.antt =====
-- The child runs that a run has launched and not seen settle.
use looms.Prelude.{
  ap, sym, ◌∙◌, String, ◌≡◌, refl, List, [], ◌∷◌, ◌++◌, false, ◌==◌, not, or_else, any, filter,
  includes, Distinct, Distinct-snoc, Distinct-filter, arith, Option,
}
use looms.Core.Json.{Fields, payload_object}
use looms.Core.Envelope.{EventEnvelope, EventType, run_started}
use looms.Core.State.{RunState, LaunchedRun, OutstandingEffect}
use looms.Core.Fold.Changes.{complete_effect}
use looms.Core.Fold.Protocol.{Decoders, Registry, protocol_case, apply_protocol, all_cases}
use looms.Core.Fold.Reconcile.{reconcile_effects}
use looms.Core.Fold.Deliver.{deliver, forget_completed_effects, fail_unhandled_effect}
use looms.Core.Fold.Step.{record_event}
use looms.Core.Fold.Frame.{drop_race-work}

abbrev pub run_ids : List LaunchedRun → List String
run_ids [] = []
run_ids (run ∷ runs) = run.run_id ∷ run_ids runs

-- No child run is listed twice.
unfoldable pub LaunchedOnce : List LaunchedRun → Type 0
LaunchedOnce runs = Distinct (run_ids runs)

any-run_id :
    (id : String) (runs : List LaunchedRun)
    → any (λ run. run.run_id == id) runs ≡ includes (run_ids runs) id
any-run_id id [] = refl
any-run_id id (run ∷ runs) = ground (arith, any-run_id id runs)

run_ids-append : (xs ys : List LaunchedRun) → run_ids (xs ++ ys) ≡ run_ids xs ++ run_ids ys
run_ids-append [] ys = refl
run_ids-append (x ∷ xs) ys = ap (λ ids. x.run_id ∷ ids) (run_ids-append xs ys)

run_ids-filter :
    (id : String) (runs : List LaunchedRun)
    → run_ids (filter (λ run. not (run.run_id == id)) runs)
      ≡ filter (λ r. not (r == id)) (run_ids runs)
run_ids-filter id [] = refl
run_ids-filter id (run ∷ runs) = ground (arith, run_ids-filter id runs)

LaunchedOnce-snoc :
    (runs : List LaunchedRun) (run : LaunchedRun)
    → any (λ r. r.run_id == run.run_id) runs ≡ false
    → LaunchedOnce runs
    → LaunchedOnce (runs ++ run ∷ [])
unfolding LaunchedOnce
LaunchedOnce-snoc runs run new h =
    rw (run_ids-append runs (run ∷ []))
      (Distinct-snoc (run_ids runs) run.run_id (sym (any-run_id run.run_id runs) ∙ new) h)

LaunchedOnce-filter :
    (runs : List LaunchedRun) (id : String)
    → LaunchedOnce runs
    → LaunchedOnce (filter (λ run. not (run.run_id == id)) runs)
unfolding LaunchedOnce
LaunchedOnce-filter runs id h =
    rw (run_ids-filter id runs) (Distinct-filter (λ r. not (r == id)) (run_ids runs) h)

module _ (d : Decoders) (registry : Registry) (s : RunState) (event : EventEnvelope) where
  protocol_case-LaunchedOnce :
      (fs : Fields) (type : EventType)
      → LaunchedOnce s.launched_runs
      → LaunchedOnce (or_else (protocol_case d registry s event fs type) s).launched_runs
  unfolding all_cases complete_effect
  protocol_case-LaunchedOnce fs run_started h = h
  protocol_case-LaunchedOnce fs _ h =
      grind (arith, drop_race-work, LaunchedOnce-snoc, LaunchedOnce-filter)

  pub LaunchedOnce-apply_protocol :
      LaunchedOnce s.launched_runs → LaunchedOnce (apply_protocol d registry s event).launched_runs
  unfolding apply_protocol
  LaunchedOnce-apply_protocol = protocol_case-LaunchedOnce (payload_object event.payload) event.type

module _ (s : RunState) (event : EventEnvelope) where
  pub record_event-launched : (record_event s event).launched_runs ≡ s.launched_runs
  unfolding record_event complete_effect
  record_event-launched = ground arith

  pub deliver-launched :
      (registry : Registry) (settled : Option OutstandingEffect)
      → (deliver registry s event settled).launched_runs ≡ s.launched_runs
  unfolding deliver reconcile_effects forget_completed_effects
  deliver-launched registry settled = ground arith

  pub fail_unhandled_effect-launched :
      (before : List OutstandingEffect)
      → (fail_unhandled_effect s event before).launched_runs ≡ s.launched_runs
  unfolding fail_unhandled_effect
  fail_unhandled_effect-launched before = ground arith
