-- ===== src/Runtime/Synthesis/Tests.antt =====
-- A wake after a cancellation, and the theorem there.
use looms.Prelude.{◌⊎◌, ℕ, String, some, [], ◌∷◌, ◌≡◌, refl, map, show, ◌<>◌, ◌+◌}
use looms.Prelude.Dict.{get}
use looms.Core.Json.{end, field, str}
use looms.Core.Envelope.{thread_failed}
use looms.Core.Thread.{ThreadStatus}
use looms.Core.State.{RunState}
use looms.Core.Fold.Keyed.{IsKeyed, WaitsKeyed, ExecutionsKeyed}
use looms.Core.Fold.Tests.Data.{event_of, base, timers, fetchers}
use looms.Runtime.Cascade.Live.{cancelled_id}
use looms.Runtime.Cascade.Tests.{child_of, tree, cancelled, depth, tree-Ranked, tree-ThreadsKeyed}
use looms.Runtime.Synthesis.{synthesized, state_after_synth}
use looms.Runtime.Synthesis.Folded.{IsIdle}
use looms.Runtime.Synthesis.Events.{cancelled_thread}
use looms.Runtime.Synthesis.Closed.{BelowCancelled, state_after_synth-closes}

abbrev fresh : ℕ → String
fresh n = "evt_" <> show n

abbrev at : ℕ → ℕ
at n = 1000 + n

abbrev lost : RunState
lost = record tree { threads = ("f", child_of "t" "f" ThreadStatus.failed) ∷ tree.threads }

-- A thread that has failed without an event is reported before the cancellations, and only once.
reported_first : map cancelled_id (synthesized tree lost cancelled) ≡ "f" ∷ "b" ∷ "a" ∷ []
unfolding synthesized cancelled_id
reported_first = refl

known_before : map cancelled_id (synthesized lost lost cancelled) ≡ "b" ∷ "a" ∷ []
unfolding synthesized cancelled_id
known_before = refl

reported_already :
    map cancelled_id (
      synthesized tree lost (event_of 8 thread_failed (field "threadId" (str "f") end) ∷ cancelled))
    ≡ "b" ∷ "a" ∷ []
unfolding synthesized cancelled_id
reported_already = refl

tree-IsKeyed : IsKeyed tree
unfolding WaitsKeyed ExecutionsKeyed
tree-IsKeyed = record {
  threads = tree-ThreadsKeyed;
  distinct = (refl, (refl, (refl, (refl, tt))));
  waits = (tt, tt);
  executions = tt;
}

abbrev woken : RunState
woken = state_after_synth timers fetchers fresh at "r" base tree cancelled

state_after_synth-closes_example :
    (BelowCancelled tree cancelled (some "a")
      × (get "b" woken.threads ≡ some (cancelled_thread (child_of "a" "b" ThreadStatus.running)))
      × IsIdle "b" woken)
    ⊎ ((¬ (BelowCancelled tree cancelled (some "a")))
        × (get "b" woken.threads ≡ some (child_of "a" "b" ThreadStatus.running)))
unfolding get
state_after_synth-closes_example =
    state_after_synth-closes timers fetchers fresh at "r" base tree cancelled depth "b"
      (child_of "a" "b" ThreadStatus.running) tree-IsKeyed tree-Ranked refl refl refl
