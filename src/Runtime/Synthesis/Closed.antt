-- ===== src/Runtime/Synthesis/Closed.antt =====
-- packages/runtime/src/wake-engine.ts: a wake cancels the live threads below a cancelled one, and no other.
use looms.Prelude.{
  ◌⊎◌, ℕ, suc, String, Option, some, List, [], ◌∷◌, ◌++◌, true, false, ◌≡◌, ◌==◌, not, any, ◌&&◌,
  refl, ap, sym, ◌∙◌, subst, map, reverse, includes, Distinct, Bool-cases, inl, inr, eq_of_==,
  arith,
}
use looms.Prelude.Dict.{Dict, get, keys, Entries}
use looms.Core.Envelope.{EventEnvelope, EventInput}
use looms.Core.Thread.{is_terminal_status}
use looms.Core.State.{RunState, ThreadRecord}
use looms.Core.Fold.Protocol.{Decoders, Registry}
use looms.Core.Fold.Keyed.{IsKeyed}
use looms.Core.Fold.Step.{fold_event, fold_run}
use looms.Runtime.Cascade.{
  cancellation_of, cancelled_of, flat_map, live_below, cascaded_cancellations,
}
use looms.Runtime.Cascade.Below.{Below, Ranked}
use looms.Runtime.Cascade.Live.{map-cancelled_id, cascaded_cancellations-Below}
use looms.Runtime.Synthesis.{
  synthesized_thread_failed, has_failed, had_failed, reports_failure, failure_of, failures_of,
  create_events, synthesized, state_after_synth,
}
use looms.Runtime.Synthesis.Folded.{IsIdle}
use looms.Runtime.Synthesis.Events.{cancelled_thread, cancellation, failure}
use looms.Runtime.Synthesis.Threads.{
  Kept, Closed, failure-Kept, cancellation-Kept, cancellation-closes, cancellation-Closed,
}

-- No entry of the thread itself has failed.
abbrev LivesIn : String → Dict ThreadRecord → Type 0
LivesIn k m = Entries (λ id r. (id == k) ≡ true → has_failed r.status ≡ false) m

LivesIn-absent : (k : String) (m : Dict ThreadRecord) → includes (keys m) k ≡ false → LivesIn k m
LivesIn-absent k [] h = tt
LivesIn-absent k ((id, r) ∷ m) h = (λ same. ground arith, LivesIn-absent k m (ground arith))

LivesIn-get :
    (k : String) (t : ThreadRecord) (m : Dict ThreadRecord)
    → is_terminal_status t.status ≡ false
    → Distinct (keys m)
    → get k m ≡ some t
    → LivesIn k m
unfolding get
LivesIn-get k t [] live distinct found = tt
LivesIn-get k t ((id, r) ∷ m) live (new, distinct) found = elim (Bool-cases (id == k)) [
  | inl same ↦ (
    λ h. ground arith,
    LivesIn-absent k m (subst (λ x. includes (keys m) x ≡ false) (eq_of_== id k same) new),
  )
  | inr other ↦ (λ h. ground arith, LivesIn-get k t m live distinct (ground arith))
]

step_failed :
    (before : Dict ThreadRecord) (written : List EventEnvelope) (id : String) (r : ThreadRecord)
    (entries : Dict ThreadRecord)
    → has_failed r.status
        && not (had_failed (get id before))
        && not (any (reports_failure id) written)
      ≡ true
    → failures_of before written ((id, r) ∷ entries)
      ≡ failure_of id r ∷ failures_of before written entries
unfolding failures_of
step_failed before written id r entries h = rw h refl

module _ (d : Decoders) (registry : Registry) (k : String) (t : ThreadRecord)
    (live : is_terminal_status t.status ≡ false) (named : (k == "") ≡ false) (new_id : ℕ → String)
    (clock : ℕ → ℕ) (run_id : String) where
  abbrev KeptIn : RunState → Type 0
  KeptIn = Kept d registry k t live named

  abbrev ClosedIn : RunState → Type 0
  ClosedIn = Closed d registry k t live named

  abbrev folded : ℕ → RunState → List EventInput → RunState
  folded n s inputs = fold_run d registry s (create_events new_id clock run_id n inputs)

  folded-Closed :
      (xs : List String) (n : ℕ) (s : RunState)
      → ClosedIn s
      → ClosedIn (folded n s (map cancellation_of xs))
  unfolding fold_run create_events
  folded-Closed [] n s h = h
  folded-Closed (x ∷ xs) n s h =
      folded-Closed xs (suc n)
        (fold_event d registry s (cancellation (new_id n) (clock n) run_id x))
        (cancellation-Closed d registry k t live named (new_id n) (clock n) run_id x s h)

  folded-closes :
      (xs : List String) (n : ℕ) (s : RunState)
      → includes xs k ≡ true
      → KeptIn s
      → ClosedIn (folded n s (map cancellation_of xs))
  unfolding fold_run create_events
  folded-closes [] n s found h = ground arith
  folded-closes (x ∷ xs) n s found h =
      let next = fold_event d registry s (cancellation (new_id n) (clock n) run_id x) in
      elim (Bool-cases (x == k)) [
        | inl same ↦ folded-Closed xs (suc n) next (
            cancellation-closes d registry k t live named (new_id n) (clock n) run_id x s
              (eq_of_== x k same) h)
        | inr other ↦
            folded-closes xs (suc n) next (ground arith)
              (cancellation-Kept d registry k t live named (new_id n) (clock n) run_id x s other h)
      ]

  folded-Kept :
      (xs : List String) (n : ℕ) (s : RunState)
      → includes xs k ≡ false
      → KeptIn s
      → KeptIn (folded n s (map cancellation_of xs))
  unfolding fold_run create_events
  folded-Kept [] n s absent h = h
  folded-Kept (x ∷ xs) n s absent h =
      folded-Kept xs (suc n) (fold_event d registry s (cancellation (new_id n) (clock n) run_id x))
        (ground arith)
        (cancellation-Kept d registry k t live named (new_id n) (clock n) run_id x s (ground arith)
          h)

  -- What holds after the rest of the events, whatever state with the thread they start from, holds after the failures and the rest.
  failures_of-Kept :
      (Goal : RunState → Type 0) (rest : List EventInput) (before : Dict ThreadRecord)
      (written : List EventEnvelope) (entries : Dict ThreadRecord) (n : ℕ) (s : RunState)
      → ((m : ℕ) (s' : RunState) → KeptIn s' → Goal (folded m s' rest))
      → LivesIn k entries
      → KeptIn s
      → Goal (folded n s (failures_of before written entries ++ rest))
  unfolding fold_run create_events failures_of
  failures_of-Kept Goal rest before written [] n s go lives h = go n s h
  failures_of-Kept Goal rest before written ((id, r) ∷ entries) n s go (own, lives) h =
      let later = failures_of before written entries in
      let next = fold_event d registry s (failure (new_id n) (clock n) run_id id r) in
      let test =
        has_failed r.status
        && not (had_failed (get id before))
        && not (any (reports_failure id) written) in
      elim (Bool-cases test) [
        | inl failed ↦
            subst (λ inputs. Goal (folded n s (inputs ++ rest)))
              (sym (step_failed before written id r entries failed))
              (failures_of-Kept Goal rest before written entries (suc n) next go lives (
                failure-Kept d registry k t live named (new_id n) (clock n) run_id id s r
                  (elim (Bool-cases (id == k)) [
                    | inl same ↦ (let lively = own same in ground arith)
                    | inr other ↦ other
                  ])
                  h))
        | inr lasting ↦
            rw lasting (failures_of-Kept Goal rest before written entries n s go lives h)
      ]

-- Some thread that the events cancel stands above this parent, or is it.
abbrev pub BelowCancelled : RunState → List EventEnvelope → Option String → Type 0
BelowCancelled s written parent =
    (c : String) × (includes (flat_map cancelled_of written) c ≡ true) × Below s.threads c parent

module _ (d : Decoders) (registry : Registry) (new_id : ℕ → String) (clock : ℕ → ℕ)
    (run_id : String) (before after : RunState) (written : List EventEnvelope) where
  -- Let the state that a batch of events has led to be keyed, with no thread below itself. Once the
  -- events that the wake adds to the batch are folded, a thread with an id that lived in that state
  -- either stands below a thread that the batch cancels, at whatever depth, and then it is cancelled, with
  -- the rest of its record as it was and with neither waits nor outstanding effects; or it does not, and
  -- then its record is as it was.
  pub state_after_synth-closes :
      (rank : String → ℕ) (k : String) (t : ThreadRecord)
      → IsKeyed after
      → Ranked rank after.threads
      → get k after.threads ≡ some t
      → is_terminal_status t.status ≡ false
      → (k == "") ≡ false
      → let later = state_after_synth d registry new_id clock run_id before after written in
        (BelowCancelled after written t.parent_thread_id
          × (get k later.threads ≡ some (cancelled_thread t))
          × IsIdle k later)
        ⊎ ((¬ (BelowCancelled after written t.parent_thread_id)) × (get k later.threads ≡ some t))
  unfolding state_after_synth synthesized synthesized_thread_failed cascaded_cancellations
  state_after_synth-closes rank k t keyed ranked found live named =
      let xs = reverse (live_below after written) in
      let later = state_after_synth d registry new_id clock run_id before after written in
      let lives = LivesIn-get k t after.threads live keyed.distinct found in
      let (down, up) =
        cascaded_cancellations-Below after k t rank written keyed.threads keyed.distinct ranked
          found in
      let listed = ap (λ ys. includes ys k) (map-cancelled_id xs) in
      elim (Bool-cases (includes xs k)) [
        | inl in_list ↦
            let closed : Closed d registry k t live named later =
              failures_of-Kept d registry k t live named new_id clock run_id
                (Closed d registry k t live named) (map cancellation_of xs) before.threads written
                after.threads 0 after
                (λ m s' h.
                  folded-closes d registry k t live named new_id clock run_id xs m s' in_list h)
                lives (keyed, found) in
            inl ((down (listed ∙ in_list)).1, closed.1, closed.2)
        | inr not_in ↦
            let kept : Kept d registry k t live named later =
              failures_of-Kept d registry k t live named new_id clock run_id
                (Kept d registry k t live named) (map cancellation_of xs) before.threads written
                after.threads 0 after
                (λ m s' h.
                  folded-Kept d registry k t live named new_id clock run_id xs m s' not_in h)
                lives (keyed, found) in
            inr (λ below. (let found_there = sym listed ∙ up (live, below) in ground arith), kept.1)
      ]
