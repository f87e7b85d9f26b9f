-- ===== src/Core/Coalesce/Sound.antt =====
-- packages/core/src/coalesce.ts: what holds of a key's state, and that pushing an event keeps it.
use mathlib.Core.Bool.{false≢true}
use looms.Prelude.{
  ℕ, ◌+◌, ◌≤◌, Option, none, some, true, false, List, [], ◌∷◌, ◌++◌, ◌≡◌, ◌≢◌, ◌⊎◌, inl, inr, refl,
  arith, sym, ap, ◌∙◌, length, length-append, subst, append_assoc, append-nil, if◌then◌else◌, ◌||◌,
  All,
}
use looms.Core.Coalesce.Key.{Key, KeyState, Flight, with_event, push_on, push_entry, enqueue}

abbrev pub concat {ℓ} : {A : Type ℓ} → List (List A) → List A
concat [] = []
concat (xs ∷ xss) = xs ++ concat xss

abbrev pub batches : {A E : Type 0} → List (Flight A E) → List A
batches [] = []
batches (flight ∷ flights) = flight.batch ++ batches flights

-- A poisoned state has no events and no fiber at work; what was flushed is a prefix of what was pushed. On
-- any other state that is marked as flushing or scheduled exactly one fiber is at work, and what was pushed
-- is what was flushed, what is being flushed, and the buffer, in this order.
abbrev pub SoundState : {A E : Type 0} → KeyState A E → Option E → Key A E → Type 0
SoundState {A} s (some cause) k =
    (s.buffer ≡ [])
    × (s.flushing ≡ false)
    × (s.scheduled ≡ false)
    × (k.starting ≡ 0)
    × (k.flights ≡ [])
    × ((lost : List A) × (k.pushed ≡ concat k.flushed ++ lost))
SoundState s none k =
    (k.starting + length k.flights ≡ (if s.flushing || s.scheduled then 1 else 0))
    × (s.scheduled ≡ true → k.flights ≡ [])
    × All (λ flight. flight.state_id ≡ s.id) k.flights
    × ((s.flushing || s.scheduled) ≡ false → s.buffer ≡ [])
    × (k.pushed ≡ concat k.flushed ++ batches k.flights ++ s.buffer)

abbrev pub SoundEntry : {A E : Type 0} → Option (KeyState A E) → Key A E → Type 0
SoundEntry none k = (k.starting ≡ 0) × (k.flights ≡ []) × (k.pushed ≡ concat k.flushed)
SoundEntry (some s) k = SoundState s s.poison k

abbrev pub IsCoherent : {A E : Type 0} → Key A E → Type 0
IsCoherent k = SoundEntry k.entry k

pub concat-snoc :
    {A : Type 0} (xss : List (List A)) (xs : List A) → concat (xss ++ xs ∷ []) ≡ concat xss ++ xs
concat-snoc [] xs = append-nil xs
concat-snoc (ys ∷ xss) xs =
    ap (λ zs. ys ++ zs) (concat-snoc xss xs) ∙ sym (append_assoc ys (concat xss) xs)

pub nil_of_length : {A : Type 0} (xs : List A) → length xs ≡ 0 → xs ≡ []
nil_of_length [] h = refl
nil_of_length (x ∷ xs) h = absurd (omega arith)

pub cons-ne-nil : {A : Type 0} (xs : List A) (y : A) (ys : List A) → xs ++ y ∷ ys ≢ []
cons-ne-nil [] y ys e = cc
cons-ne-nil (x ∷ xs) y ys e = cc

pub single_of :
    {A : Type 0} (xs : List A) (y : A) (ys : List A)
    → length (xs ++ y ∷ ys) ≤ 1
    → (xs ++ ys ≡ []) × (xs ++ y ∷ ys ≡ y ∷ [])
single_of [] y [] h = (refl, refl)
single_of [] y (z ∷ zs) h = absurd (omega arith)
single_of (x ∷ xs) y ys h = absurd (omega (arith, length-append xs (y ∷ ys)))

pub List-cases : {A : Type 0} (xs : List A) → (xs ≡ []) ⊎ ((x : A) × (ys : List A) × (xs ≡ x ∷ ys))
List-cases [] = inl refl
List-cases (x ∷ xs) = inr (x, xs, refl)

module _ {A E : Type 0} where
  enqueue-SoundState :
      (max_pending : ℕ) (s : KeyState A E) (event : A) (k : Key A E) (p : Option E)
      → p ≡ none
      → SoundState s none k
      → SoundState (with_event s event) p (enqueue max_pending s event k).1
  enqueue-SoundState max_pending s event k (some cause) clean h = cc
  enqueue-SoundState max_pending s event k none clean (one, alone, mine, empty, order) = (
    ground arith,
    λ now. ground (arith, alone, nil_of_length k.flights),
    mine,
    λ now. ground arith,
    ap (λ xs. xs ++ event ∷ []) order
        ∙ append_assoc (concat k.flushed ++ batches k.flights) s.buffer (event ∷ []),
  )

  push_on-IsCoherent :
      (max_pending : ℕ) (s : KeyState A E) (p : Option E) (event : A) (k : Key A E)
      → s.poison ≡ p
      → k.entry ≡ some s
      → SoundState s p k
      → IsCoherent (push_on max_pending s p event k).1
  push_on-IsCoherent max_pending s (some cause) event k e same h =
      subst (λ entry. SoundEntry entry k) (sym same) (subst (λ p. SoundState s p k) (sym e) h)
  push_on-IsCoherent max_pending s none event k e same h =
      enqueue-SoundState max_pending s event k s.poison e h

  pub push_entry-IsCoherent :
      (max_pending : ℕ) (entry : Option (KeyState A E)) (event : A) (k : Key A E)
      → k.entry ≡ entry
      → SoundEntry entry k
      → IsCoherent (push_entry max_pending entry event k).1
  push_entry-IsCoherent max_pending none event k same (idle, quiet, order) = (
    simp quiet (omega arith),
    λ now. quiet,
    subst (λ fs. All (λ flight. flight.state_id ≡ k.next_id) fs) (sym quiet) tt,
    λ now. absurd (false≢true (sym now)),
    ap (λ xs. xs ++ event ∷ [])
        (order
          ∙ sym (ap (λ fs. concat k.flushed ++ batches fs) quiet ∙ append-nil (concat k.flushed))),
  )
  push_entry-IsCoherent max_pending (some s) event k same h =
      push_on-IsCoherent max_pending s s.poison event k refl same h
