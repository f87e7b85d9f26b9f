-- ===== src/Core/Coalesce/Coherent.antt =====
-- packages/core/src/coalesce.ts: without `clear`, a key has at most one fiber at work, and its events are
-- flushed in the order in which they were pushed.
use looms.Prelude.{
  ℕ, suc, Option, none, some, true, false, List, [], ◌∷◌, ◌++◌, ◌≡◌, inl, inr, refl, arith, sym, ap,
  ◌∙◌, is_some, subst, append-nil, Bool-cases, Option-cases, ◌||◌,
}
use looms.Core.Coalesce.Key.{
  drained, Key, KeyState, Flight, idle_key, non_empty_buffer, push, still_current, flush_succeeded,
  flush_failed, finish, poison_entry, evict_if_idle,
}
use looms.Core.Coalesce.Steps.{Step, pushes, takes, succeeds, fails, finishes, Steps, stay, next}
use looms.Core.Coalesce.Sound.{
  concat, batches, SoundState, SoundEntry, IsCoherent, nil_of_length, cons-ne-nil,
  push_entry-IsCoherent,
}
use looms.Core.Coalesce.Taking.{
  take_batch-IsCoherent, sole_flight, succeed-SoundState, poison-SoundState,
}

module _ {A E : Type 0} where
  abbrev pub id_of : ℕ → Option (KeyState A E) → ℕ
  id_of other none = other
  id_of other (some t) = t.id

  pub still_current-is :
      (entry : Option (KeyState A E)) (s : KeyState A E) (id : ℕ)
      → entry ≡ some s
      → id ≡ s.id
      → still_current entry id ≡ true
  still_current-is none s id e same = cc
  still_current-is (some t) s id e same =
      let named : t.id ≡ s.id = ap (id_of s.id) e in ground arith

  flush_succeeded-IsCoherent :
      (k : Key A E) (before : List (Flight A E)) (flight : Flight A E) (after : List (Flight A E))
      → k.flights ≡ before ++ flight ∷ after
      → IsCoherent k
      → IsCoherent (flush_succeeded before flight after k)
  unfolding flush_succeeded
  flush_succeeded-IsCoherent k before flight after e h = elim (Option-cases k.entry) [
    | inl gone ↦
        let (idle, quiet, order) = subst (λ entry. SoundEntry entry k) gone h in
        absurd (cons-ne-nil before flight after (sym e ∙ quiet))
    | inr (s, held) ↦
        let (clean, rest, only, none_else, resting, on, mine) =
          sole_flight s s.poison k before flight after e
            (subst (λ entry. SoundEntry entry k) held h) in
        rw (still_current-is k.entry s flight.state_id held mine, rest)
          (subst
            (λ entry. SoundEntry entry (record k {
              starting = suc k.starting;
              flights = [];
              flushed = k.flushed ++ flight.batch ∷ [];
            }))
            (sym held)
            (succeed-SoundState s s.poison k flight clean only none_else on
              (subst (λ entry. SoundEntry entry k) held h)))
  ]

  flush_failed-IsCoherent :
      (k : Key A E) (before : List (Flight A E)) (flight : Flight A E) (after : List (Flight A E))
      (cause : E)
      → k.flights ≡ before ++ flight ∷ after
      → IsCoherent k
      → IsCoherent (flush_failed before flight after cause k)
  unfolding flush_failed
  flush_failed-IsCoherent k before flight after cause e h = elim (Option-cases k.entry) [
    | inl gone ↦
        let (idle, quiet, order) = subst (λ entry. SoundEntry entry k) gone h in
        absurd (cons-ne-nil before flight after (sym e ∙ quiet))
    | inr (s, held) ↦
        let whole : SoundState s s.poison k = subst (λ entry. SoundEntry entry k) held h in
        let (clean, rest, only, none_else, resting, on, mine) =
          sole_flight s s.poison k before flight after e whole in
        rw (still_current-is k.entry s flight.state_id held mine, rest)
          (subst
            (λ entry.
              SoundEntry (poison_entry entry cause)
                (record k { flights = []; entry = poison_entry entry cause }))
            (sym held)
            (poison-SoundState s k flight cause only none_else
              (subst (λ p. SoundState s p k) clean whole)))
  ]

  SoundState-entry :
      (s : KeyState A E) (p : Option E) (k : Key A E) (ending : List ℕ)
      (entry : Option (KeyState A E))
      → SoundState s p k
      → SoundState s p (record k { ending = ending; entry = entry })
  SoundState-entry s none k ending entry h = h
  SoundState-entry s (some cause) k ending entry h = h

  evict-SoundState :
      (s : KeyState A E) (p : Option E) (k : Key A E)
      → (non_empty_buffer s.buffer || s.flushing || s.scheduled || is_some p) ≡ false
      → SoundState s p k
      → SoundEntry none k
  evict-SoundState s (some cause) k e h = absurd (ground arith)
  evict-SoundState s none k e (one, alone, mine, empty, order) =
      let idle : (s.flushing || s.scheduled) ≡ false = ground arith in
      let quiet : k.flights ≡ [] = nil_of_length k.flights (ground arith) in
      (
        ground arith,
        quiet,
        order
            ∙ ap (λ fs. concat k.flushed ++ batches fs ++ s.buffer) quiet
            ∙ ap (λ xs. concat k.flushed ++ [] ++ xs) (empty idle)
            ∙ simp append-nil refl,
      )

  evict-SoundEntry :
      (entry : Option (KeyState A E)) (k : Key A E) (ending : List ℕ)
      → SoundEntry entry k
      → SoundEntry (evict_if_idle entry) (record k { ending = ending; entry = evict_if_idle entry })
  evict-SoundEntry none k ending h = h
  evict-SoundEntry (some s) k ending h =
      elim (Bool-cases
        (non_empty_buffer s.buffer || s.flushing || s.scheduled || is_some s.poison)) [
          | inl used ↦ rw used (SoundState-entry s s.poison k ending (some s) h)
          | inr idle ↦ rw idle (evict-SoundState s s.poison k idle h)
        ]

  push-IsCoherent :
      (max_pending : ℕ) (k : Key A E) (event : A)
      → IsCoherent k
      → IsCoherent (push max_pending k event).1
  unfolding push
  push-IsCoherent max_pending k event h = push_entry-IsCoherent max_pending k.entry event k refl h

  pub Step-IsCoherent :
      {max_pending : ℕ} {k l : Key A E} → Step max_pending k l → IsCoherent k → IsCoherent l
  Step-IsCoherent {max_pending} (pushes k event) h = push-IsCoherent max_pending k event h
  Step-IsCoherent (takes k busy) h = take_batch-IsCoherent k busy h
  Step-IsCoherent (succeeds k before flight after e) h =
      flush_succeeded-IsCoherent k before flight after e h
  Step-IsCoherent (fails k before flight after cause e) h =
      flush_failed-IsCoherent k before flight after cause e h
  Step-IsCoherent (finishes k before id after e) h =
      unfold finish in evict-SoundEntry k.entry k (before ++ after) h

  -- Pushes and steps of flushing fibers keep a key coherent: on a state that is marked as flushing or
  -- scheduled exactly one fiber is at work, and on any other none; a poisoned state is empty; and what
  -- was pushed is what was flushed, what is being flushed and the buffer, in this order, and what a
  -- failure has lost.
  pub Steps-IsCoherent :
      {max_pending : ℕ} {k l : Key A E} → Steps max_pending k l → IsCoherent k → IsCoherent l
  Steps-IsCoherent (stay k) h = h
  Steps-IsCoherent (next before last) h = Step-IsCoherent last (Steps-IsCoherent before h)

-- The cause of the poison, if there is one.
abbrev pub poison_of : {A E : Type 0} → Option (KeyState A E) → Option E
poison_of none = none
poison_of (some s) = s.poison

module _ {A E : Type 0} where
  drained-SoundEntry :
      (entry : Option (KeyState A E)) (k : Key A E)
      → drained entry ≡ true
      → poison_of entry ≡ none
      → SoundEntry entry k
      → k.pushed ≡ concat k.flushed
  unfolding drained
  drained-SoundEntry none k done clean (idle, quiet, order) = order
  drained-SoundEntry (some s) k done clean h =
      (evict-SoundState s none k (ground arith) (subst (λ p. SoundState s p k) clean h)).2

  -- When a drain returns, after any pushes and steps of flushing fibers on a fresh key, and no failure
  -- has poisoned the key, the events that were pushed have all been flushed, in their order.
  pub Steps-drained :
      {max_pending : ℕ} {k : Key A E}
      → Steps max_pending idle_key k
      → drained k.entry ≡ true
      → poison_of k.entry ≡ none
      → k.pushed ≡ concat k.flushed
  Steps-drained {k = k} steps done clean =
      drained-SoundEntry k.entry k done clean (Steps-IsCoherent steps (refl, refl, refl))
