-- ===== src/Core/Coalesce/Taking.antt =====
-- packages/core/src/coalesce.ts: taking a batch keeps what holds of a key's state.
use mathlib.Core.Bool.{false≢true}
use looms.Prelude.{
  suc, ◌≤◌, Option, none, some, true, false, List, [], ◌∷◌, ◌++◌, ◌≡◌, inl, inr, refl, arith, sym,
  ap, ◌∙◌, length, subst, ◌-◌, append_assoc, append-nil, Bool-cases, All,
}
use looms.Core.Coalesce.Key.{
  Key, KeyState, Flight, take_batch, take_entry, take_buffer, poison_entry,
}
use looms.Core.Coalesce.Sound.{
  concat, batches, SoundState, SoundEntry, IsCoherent, concat-snoc, nil_of_length, cons-ne-nil,
  single_of,
}

module _ {A E : Type 0} where
  take_nil-SoundState :
      (s : KeyState A E) (k : Key A E) (p : Option E)
      → s.buffer ≡ []
      → 1 ≤ k.starting
      → SoundState s p k
      → SoundState
          (record s { flushing = false; scheduled = false })
          p
          (record k {
            starting = k.starting - 1;
            ending = k.ending ++ s.id ∷ [];
            entry = some (record s { flushing = false; scheduled = false });
          })
  take_nil-SoundState s k (some cause) e busy (a, b, c, d, h, l) = absurd (omega arith)
  take_nil-SoundState s k none e busy (one, alone, mine, empty, order) =
      let still : k.starting ≡ 1 = ground arith in
      let quiet : k.flights ≡ [] = nil_of_length k.flights (ground arith) in
      (simp quiet (omega arith), λ now. quiet, mine, λ now. e, order)

  take_cons-SoundState :
      (s : KeyState A E) (k : Key A E) (p : Option E) (x : A) (xs : List A)
      → s.buffer ≡ x ∷ xs
      → 1 ≤ k.starting
      → SoundState s p k
      → SoundState
          (record s { buffer = []; flushing = true; scheduled = false })
          p
          (record k {
            starting = k.starting - 1;
            flights = k.flights ++ record { state_id = s.id; batch = x ∷ xs } ∷ [];
            entry = some (record s { buffer = []; flushing = true; scheduled = false });
          })
  take_cons-SoundState s k (some cause) x xs e busy (a, b, c, d, h, l) = absurd (omega arith)
  take_cons-SoundState s k none x xs e busy (one, alone, mine, empty, order) =
      let quiet : k.flights ≡ [] = nil_of_length k.flights (ground arith) in
      (
        simp quiet (ground arith),
        λ now. absurd (false≢true now),
        simp quiet (refl, tt),
        λ now. refl,
        order ∙ simp (quiet, e, append-nil) (refl),
      )

  take_buffer-IsCoherent :
      (s : KeyState A E) (buffer : List A) (k : Key A E)
      → s.buffer ≡ buffer
      → 1 ≤ k.starting
      → SoundState s s.poison k
      → IsCoherent (take_buffer s buffer (record k { starting = k.starting - 1 }))
  take_buffer-IsCoherent s [] k e busy h = take_nil-SoundState s k s.poison e busy h
  take_buffer-IsCoherent s (x ∷ xs) k e busy h = take_cons-SoundState s k s.poison x xs e busy h

  take_entry-IsCoherent :
      (entry : Option (KeyState A E)) (k : Key A E)
      → 1 ≤ k.starting
      → SoundEntry entry k
      → IsCoherent (take_entry entry (record k { starting = k.starting - 1 }))
  take_entry-IsCoherent none k busy (idle, quiet, order) = absurd (omega arith)
  take_entry-IsCoherent (some s) k busy h = take_buffer-IsCoherent s s.buffer k refl busy h

  pub take_batch-IsCoherent :
      (k : Key A E) → 1 ≤ k.starting → IsCoherent k → IsCoherent (take_batch k)
  unfolding take_batch
  take_batch-IsCoherent k busy h = take_entry-IsCoherent k.entry k busy h

  -- A flight of a coherent key is its only one, and the entry is the state that it was taken from.
  pub sole_flight :
      (s : KeyState A E) (p : Option E) (k : Key A E) (before : List (Flight A E))
      (flight : Flight A E) (after : List (Flight A E))
      → k.flights ≡ before ++ flight ∷ after
      → SoundState s p k
      → (p ≡ none)
        × (before ++ after ≡ [])
        × (k.flights ≡ flight ∷ [])
        × (k.starting ≡ 0)
        × (s.scheduled ≡ false)
        × (s.flushing ≡ true)
        × (flight.state_id ≡ s.id)
  sole_flight s (some cause) k before flight after e (a, b, c, d, quiet, l) =
      absurd (cons-ne-nil before flight after (sym e ∙ quiet))
  sole_flight s none k before flight after e (one, alone, mine, empty, order) =
      let few : length (before ++ flight ∷ after) ≤ 1 = rw (← e) (ground arith) in
      let (none_else, whole) = single_of before flight after few in
      let alone_here : k.flights ≡ flight ∷ [] = e ∙ whole in
      let resting : s.scheduled ≡ false = elim (Bool-cases s.scheduled) [
        | inl due ↦ absurd (cons-ne-nil [] flight [] (sym alone_here ∙ alone due))
        | inr resting ↦ resting
      ] in
      let busy : length k.flights ≡ 1 = ap length alone_here in
      (
        refl,
        none_else,
        alone_here,
        ground arith,
        resting,
        ground arith,
        (subst (λ fs. All (λ f. f.state_id ≡ s.id) fs) alone_here mine).0,
      )

  pub succeed-SoundState :
      (s : KeyState A E) (p : Option E) (k : Key A E) (flight : Flight A E)
      → p ≡ none
      → k.flights ≡ flight ∷ []
      → k.starting ≡ 0
      → s.flushing ≡ true
      → SoundState s p k
      → SoundState s p (record k {
        starting = suc k.starting;
        flights = [];
        flushed = k.flushed ++ flight.batch ∷ [];
      })
  succeed-SoundState s (some cause) k flight clean e none_else on h = cc
  succeed-SoundState s none k flight clean e none_else on (one, alone, mine, empty, order) = (
    ground arith,
    λ now. refl,
    tt,
    empty,
    order
        ∙ ap (λ fs. concat k.flushed ++ batches fs ++ s.buffer) e
        ∙ simp (concat-snoc k.flushed flight.batch, append-nil) refl,
  )

  pub poison-SoundState :
      (s : KeyState A E) (k : Key A E) (flight : Flight A E) (cause : E)
      → k.flights ≡ flight ∷ []
      → k.starting ≡ 0
      → SoundState s none k
      → SoundState
          (record s { poison = some cause; buffer = []; flushing = false; scheduled = false })
          (some cause)
          (record k { flights = []; entry = poison_entry (some s) cause })
  poison-SoundState s k flight cause e none_else (one, alone, mine, empty, order) = (
    refl,
    refl,
    refl,
    none_else,
    refl,
    (
      flight.batch ++ s.buffer,
      order
          ∙ ap (λ fs. concat k.flushed ++ batches fs ++ s.buffer) e
          ∙ simp (append-nil, append_assoc) refl,
    ),
  )
