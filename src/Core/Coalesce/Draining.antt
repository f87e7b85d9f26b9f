-- ===== src/Core/Coalesce/Draining.antt =====
-- packages/core/src/coalesce.ts: a key can always be drained, as long as flushes succeed.
use looms.Prelude.{
  ℕ, Option, none, some, true, false, List, [], ◌∷◌, ◌++◌, ◌≡◌, inl, inr, refl, arith, sym, ap, ◌∙◌,
  subst, Bool-cases, ◌||◌,
}
use looms.Core.Coalesce.Key.{
  drained, Key, KeyState, Flight, idle_key, drained, take_batch, flush_succeeded,
}
use looms.Core.Coalesce.Steps.{Steps-trans, Step, takes, succeeds, Steps, stay, next, Steps-trans}
use looms.Core.Coalesce.Coherent.{poison_of, still_current-is, Steps-IsCoherent, Steps-drained}
use looms.Core.Coalesce.Sound.{List-cases, concat, SoundState, SoundEntry}
use looms.Core.Coalesce.Taking.{sole_flight}

-- Some steps lead to a key that is drained, not poisoned, and has accepted no further events.
abbrev pub CanDrain : {A E : Type 0} → ℕ → Key A E → Type 0
CanDrain {A} {E} max_pending k =
    (l : Key A E) × Steps max_pending k l
    × (drained l.entry ≡ true)
    × (poison_of l.entry ≡ none)
    × (l.pushed ≡ k.pushed)

module _ {A E : Type 0} (max_pending : ℕ) where
  CanDrain-Step :
      (k l : Key A E)
      → Step max_pending k l
      → l.pushed ≡ k.pushed
      → CanDrain max_pending l
      → CanDrain max_pending k
  CanDrain-Step k l step same (m, more, done, clean, pushed) =
      (m, Steps-trans (next (stay k) step) more, done, clean, pushed ∙ same)

  -- A fiber about to take a batch from an entry with this buffer, and no other.
  abbrev at_work : KeyState A E → List A → Key A E → Key A E
  at_work s buffer k = record k {
    entry = some (record s { buffer = buffer });
    starting = 1;
    flights = [];
  }

  CanDrain-empty :
      (s : KeyState A E) (k : Key A E) → s.poison ≡ none → CanDrain max_pending (at_work s [] k)
  unfolding take_batch drained
  CanDrain-empty s k clean = (
    take_batch (at_work s [] k),
    next (stay (at_work s [] k)) (takes (at_work s [] k) (omega arith)),
    rw clean refl,
    clean,
    refl,
  )

  -- A flush that succeeds leaves its fiber about to take the next batch.
  CanDrain-flight :
      (s : KeyState A E) (k : Key A E) (flight : Flight A E)
      → flight.state_id ≡ s.id
      → CanDrain max_pending (record k {
        entry = some s;
        starting = 1;
        flights = [];
        flushed = k.flushed ++ flight.batch ∷ [];
      })
      → CanDrain max_pending (record k { entry = some s; starting = 0; flights = flight ∷ [] })
  CanDrain-flight s k flight mine rest =
      let flying : Key A E = record k { entry = some s; starting = 0; flights = flight ∷ [] } in
      CanDrain-Step flying (flush_succeeded [] flight [] flying) (succeeds flying [] flight [] refl)
        (unfold flush_succeeded in rw (still_current-is (some s) s flight.state_id refl mine) refl)
        (unfold flush_succeeded in rw (still_current-is (some s) s flight.state_id refl mine) rest)

  CanDrain-at_work :
      (s : KeyState A E) (buffer : List A) (k : Key A E)
      → s.poison ≡ none
      → CanDrain max_pending (at_work s buffer k)
  CanDrain-at_work s [] k clean = CanDrain-empty s k clean
  CanDrain-at_work s (x ∷ xs) k clean =
      let busy = at_work s (x ∷ xs) k in
      CanDrain-Step busy (take_batch busy) (takes busy (omega arith)) (unfold take_batch in refl) (
        unfold take_batch in
        CanDrain-flight (record s { buffer = []; flushing = true; scheduled = false }) k
          (record { state_id = s.id; batch = x ∷ xs }) refl
          (CanDrain-empty (record s { flushing = true; scheduled = false })
            (record k { flushed = k.flushed ++ (x ∷ xs) ∷ [] }) clean))

  drained_of :
      (s : KeyState A E)
      → s.poison ≡ none
      → s.buffer ≡ []
      → (s.flushing || s.scheduled) ≡ false
      → drained (some s) ≡ true
  unfolding drained
  drained_of s clean empty off = ground arith

  CanDrain-SoundState :
      (s : KeyState A E) (p : Option E) (k : Key A E)
      → s.poison ≡ p
      → p ≡ none
      → k.entry ≡ some s
      → SoundState s p k
      → CanDrain max_pending k
  CanDrain-SoundState s (some cause) k e clean held h = cc
  CanDrain-SoundState s none k e clean held (one, alone, mine, empty, order) =
      elim (List-cases k.flights) [
        | inr (flight, flights, flown) ↦
            let (clean', rest, only, none_else, resting, working, own) =
              sole_flight s none k [] flight flights flown (one, alone, mine, empty, order) in
            let same : k ≡ record k { entry = some s; starting = 0; flights = flight ∷ [] } =
              λ i. record k { entry = held i; starting = none_else i; flights = only i } in
            subst (CanDrain max_pending) (sym same) (
              CanDrain-flight s k flight own (
                CanDrain-at_work s s.buffer (record k { flushed = k.flushed ++ flight.batch ∷ [] })
                  e))
        | inl quiet ↦ elim (Bool-cases (s.flushing || s.scheduled)) [
          | inl on ↦
              let about : k.starting ≡ 1 = ground arith in
              let same : k ≡ at_work s s.buffer k =
                λ i. record k { entry = held i; starting = about i; flights = quiet i } in
              subst (CanDrain max_pending) (sym same) (CanDrain-at_work s s.buffer k e)
          | inr off ↦ (
            k,
            stay k,
            ap drained held ∙ drained_of s e (empty off) off,
            ap poison_of held ∙ e,
            refl,
          )
        ]
      ]

  CanDrain-SoundEntry :
      (entry : Option (KeyState A E)) (k : Key A E)
      → k.entry ≡ entry
      → poison_of entry ≡ none
      → SoundEntry entry k
      → CanDrain max_pending k
  CanDrain-SoundEntry none k held clean h =
      (k, stay k, unfold drained in ap drained held, ap poison_of held, refl)
  CanDrain-SoundEntry (some s) k held clean h = CanDrain-SoundState s s.poison k refl clean held h

  -- From every key that pushes and steps of flushing fibers make of a fresh one, and that no failure
  -- has poisoned, further steps lead to a drained key with the same pushed events, all of them flushed
  -- in their order.
  pub Steps-CanDrain :
      {k : Key A E}
      → Steps max_pending idle_key k
      → poison_of k.entry ≡ none
      → (l : Key A E) × Steps max_pending k l
        × (drained l.entry ≡ true)
        × (l.pushed ≡ k.pushed)
        × (k.pushed ≡ concat l.flushed)
  Steps-CanDrain {k} steps clean =
      let h = Steps-IsCoherent steps (refl, refl, refl) in
      let (l, more, done, unpoisoned, same) = CanDrain-SoundEntry k.entry k refl clean h in
      (l, more, done, same, sym same ∙ Steps-drained (Steps-trans steps more) done unpoisoned)
