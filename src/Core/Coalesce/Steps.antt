-- ===== src/Core/Coalesce/Steps.antt =====
-- packages/core/src/coalesce.ts: pushes, and the fibers of a key, as a step relation. `clear` is not
-- among the steps.
use looms.Prelude.{ℕ, ◌≤◌, List, ◌∷◌, ◌++◌, ◌≡◌}
use looms.Core.Coalesce.Key.{Key, Flight, push, take_batch, flush_succeeded, flush_failed, finish}

pub data Step {A E : Type 0} (max_pending : ℕ) : Key A E → Key A E → Type 0 where
  pushes : (k : Key A E) (event : A) → Step max_pending k (push max_pending k event).1
  takes : (k : Key A E) → 1 ≤ k.starting → Step max_pending k (take_batch k)
  succeeds :
      (k : Key A E) (before : List (Flight A E)) (flight : Flight A E) (after : List (Flight A E))
      → k.flights ≡ before ++ flight ∷ after
      → Step max_pending k (flush_succeeded before flight after k)
  fails :
      (k : Key A E) (before : List (Flight A E)) (flight : Flight A E) (after : List (Flight A E))
      (cause : E)
      → k.flights ≡ before ++ flight ∷ after
      → Step max_pending k (flush_failed before flight after cause k)
  finishes :
      (k : Key A E) (before : List ℕ) (id : ℕ) (after : List ℕ)
      → k.ending ≡ before ++ id ∷ after
      → Step max_pending k (finish before id after k)

pub data Steps {A E : Type 0} (max_pending : ℕ) : Key A E → Key A E → Type 0 where
  stay : (k : Key A E) → Steps max_pending k k
  next : {a b c : Key A E} → Steps max_pending a b → Step max_pending b c → Steps max_pending a c

pub Steps-trans :
    {A E : Type 0} {max_pending : ℕ} {a b c : Key A E}
    → Steps max_pending a b
    → Steps max_pending b c
    → Steps max_pending a c
Steps-trans s (stay _) = s
Steps-trans s (next t last) = next (Steps-trans s t) last
